-- ===== src/Flood.antt =====
-- `FloodControl` of src/server/util.rs: too many connections of one address block it for a minute.
-- Instants are nanoseconds of a monotone clock, and an address is the list of its octets.
pub mod Refines
pub mod Limits
mod Tests
use hath_rust.Prelude.{
  ℕ, ◌+◌, ◌-◌, ◌*◌, ◌/◌, ◌%◌, ◌^◌, Bool, true, false, Option, none, some, [], Bytes, ltb, leb,
  if◌then◌else◌, unwrap_or, min,
}
use hath_rust.Dict.{Dict, get, insert, retain}

abbrev pub second : ℕ
second = 10 ^ 9

pub record FloodControl : Type 0 where
  pub last_clean : ℕ
  pub hit_map : Dict (ℕ × ℕ)
  pub block_list : Dict ℕ

-- What one call of `hit` reads of the clock: `Instant::now()` first, then the instants at which
-- `elapsed` looks at `last_clean` and at the entry of each address.
pub record Clock : Type 0 where
  pub now : ℕ
  pub at_clean : ℕ
  pub at_retain : Bytes → ℕ

unfoldable pub new : ℕ → FloodControl
new now = record { last_clean = now; hit_map = []; block_list = [] }

-- The removal of old entries, once in ten seconds.
unfoldable pub clean : Clock → FloodControl → FloodControl
clean clock fc =
    if ltb (10 * second) (clock.at_clean - fc.last_clean)
    then record {
      last_clean = clock.now;
      hit_map = retain (λ ip (hit, time). ltb (clock.at_retain ip - time) (10 * second)) fc.hit_map;
      block_list = retain (λ _ time. ltb clock.now time) fc.block_list;
    }
    else fc

abbrev pub is_after : ℕ → Option ℕ → Bool
is_after now none = false
is_after now (some time) = ltb now time

-- The new count of an address: it falls by one for each second since the last hit, and is a u8.
unfoldable pub count_hit : ℕ → ℕ × ℕ → ℕ
count_hit now (hit, time) = (hit - min 10 ((now - time) / second) + 1) % 2 ^ 8

-- The count is updated, and at ten the address is blocked.
unfoldable pub update_hit : Bytes → ℕ → FloodControl → FloodControl × Bool
unfolding count_hit
update_hit ip now fc =
    let hit = count_hit now (unwrap_or (0, now) (get ip fc.hit_map)) in
    let hit_map = insert ip (hit, now) fc.hit_map in
    if leb 10 hit
    then (
      record fc { hit_map = hit_map; block_list = insert ip (now + 60 * second) fc.block_list },
      true,
    )
    else (record fc { hit_map = hit_map }, false)

-- `FloodControl::hit`: whether the connection is refused.
unfoldable pub hit : Bytes → Clock → FloodControl → FloodControl × Bool
unfolding clean update_hit
hit ip clock fc0 =
    let fc = clean clock fc0 in
    if is_after clock.now (get ip fc.block_list) then (fc, true) else update_hit ip clock.now fc
