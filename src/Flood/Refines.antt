-- ===== src/Flood/Refines.antt =====
-- What one address sees of the flood control is a counter of its own: the clean-up of old entries
-- and the traffic of other addresses do not show.
use hath_rust.Prelude.{
  ℕ, ◌+◌, ◌-◌, ◌*◌, ◌/◌, ◌≤◌, ◌<◌, ◌≡◌, ◌≢◌, ◌⊎◌, inl, inr, refl, Bool, true, false, List, [], ◌∷◌,
  none, some, Bytes, bytes_eq, bytes_eq_iff, bytes_eq_refl, bytes_eq→eq, ltb, leb, if◌then◌else◌,
  unwrap_or, min, arith, ap, Bool-cases,
}
use hath_rust.Dict.{get, insert, get-insert, get-retain}
use hath_rust.Flood.{second, FloodControl, Clock, new, clean, is_after, count_hit, update_hit, hit}

-- The counter of one address.
pub record Counter : Type 0 where
  pub level : ℕ
  pub last : ℕ
  pub until : ℕ

abbrev pub fresh : Counter
fresh = record { level = 0; last = 0; until = 0 }

-- The level leaks one a second and rises by one a hit; at ten, the address is refused for a minute.
unfoldable pub count : ℕ → Counter → Counter × Bool
count now c =
    let level = c.level - min 10 ((now - c.last) / second) + 1 in
    if ltb now c.until
    then (c, true)
    else if leb 10 level
    then (record { level = level; last = now; until = now + 60 * second }, true)
    else (record c { level = level; last = now }, false)

-- `fc` shows the counter `c` to the address `ip` from the instant `since` on.
pub record Shows (ip : Bytes) (fc : FloodControl) (c : Counter) (since : ℕ) : Type 0 where
  pub blocks :
      (get ip fc.block_list ≡ some c.until) ⊎ ((get ip fc.block_list ≡ none) × (c.until ≤ since))
  pub counts :
      (get ip fc.hit_map ≡ some (c.level, c.last))
      ⊎ ((get ip fc.hit_map ≡ none) × ((c.level ≡ 0) ⊎ (c.last + 9 * second ≤ since)))
  pub level : (c.level ≤ 9) ⊎ ((c.level ≡ 10) × (c.last + 60 * second ≤ c.until))

-- The clock does not run backwards within a call, and a call reaches the clean-up of an entry
-- within a second.
pub record IsPrompt (ip : Bytes) (clock : Clock) : Type 0 where
  pub forward : clock.now ≤ clock.at_retain ip
  pub soon : clock.at_retain ip < clock.now + second

module _ (ip : Bytes) (fc : FloodControl) (c : Counter) (since : ℕ) (clock : Clock)
    (shows : Shows ip fc c since) (prompt : IsPrompt ip clock) (later : since ≤ clock.now) where
  clean-Shows : Shows ip (clean clock fc) c clock.now
  unfolding clean
  clean-Shows = record {
    blocks =
        ground (arith, shows.blocks, get-retain (λ _ time. ltb clock.now time) ip fc.block_list);
    counts = ground (
      arith,
      shows.counts,
      prompt.forward,
      prompt.soon,
      get-retain (λ a (p : ℕ × ℕ). ltb (clock.at_retain a - p.1) (10 * second)) ip fc.hit_map,
    );
    level = shows.level;
  }

module _ (ip : Bytes) (fc : FloodControl) (c : Counter) (now : ℕ) (shows : Shows ip fc c now) where
  blocked-eq : is_after now (get ip fc.block_list) ≡ ltb now c.until
  blocked-eq = ground (arith, shows.blocks)

  abbrev next_level : ℕ
  next_level = c.level - min 10 ((now - c.last) / second) + 1

  count_hit-next_level :
      ltb now c.until ≡ false → count_hit now (unwrap_or (0, now) (get ip fc.hit_map)) ≡ next_level
  unfolding count_hit
  count_hit-next_level free = ground (arith, shows.counts, shows.level)

  next_level_bound : ltb now c.until ≡ false → next_level ≤ 10
  next_level_bound free = ground (arith, shows.level)

  written_block : get ip (insert ip (now + 60 * second) fc.block_list) ≡ some (now + 60 * second)
  written_block = simp (get-insert, bytes_eq_refl)

  written_hit : get ip (insert ip (next_level, now) fc.hit_map) ≡ some (next_level, now)
  written_hit = simp (get-insert, bytes_eq_refl)

  update_hit-Shows :
      ltb now c.until ≡ false
      → Shows ip (update_hit ip now fc).0 (count now c).0 now
        × ((update_hit ip now fc).1 ≡ (count now c).1)
  unfolding update_hit count
  update_hit-Shows free = rw (count_hit-next_level free) (
    record {
      blocks = ground (arith, shows.blocks, written_block);
      counts = ground (arith, written_hit);
      level = ground (arith, next_level_bound free);
    },
    ground arith,
  )

-- Addresses other than the one that hits see the same.
module _ (ip ip' : Bytes) (fc : FloodControl) (c : Counter) (now : ℕ) (differ : ip' ≢ ip)
    (shows : Shows ip fc c now) where
  other_hit : (v : ℕ × ℕ) → get ip (insert ip' v fc.hit_map) ≡ get ip fc.hit_map
  other_hit v = ground (arith, get-insert ip' ip v fc.hit_map, bytes_eq_iff ip' ip)

  other_block : (v : ℕ) → get ip (insert ip' v fc.block_list) ≡ get ip fc.block_list
  other_block v = ground (arith, get-insert ip' ip v fc.block_list, bytes_eq_iff ip' ip)

  update_hit-Shows_other : Shows ip (update_hit ip' now fc).0 c now
  unfolding update_hit
  update_hit-Shows_other =
      let level = count_hit now (unwrap_or (0, now) (get ip' fc.hit_map)) in
      record {
        blocks = ground (arith, shows.blocks, other_block (now + 60 * second));
        counts = ground (arith, shows.counts, other_hit (level, now));
        level = shows.level;
      }

-- Once a hit of `ip` has been handled, the flood control shows the counter of `ip` with one more
-- hit, and has answered what the counter answers.
hit-count :
    (ip : Bytes) (fc : FloodControl) (c : Counter) (since : ℕ) (clock : Clock)
    → Shows ip fc c since
    → IsPrompt ip clock
    → since ≤ clock.now
    → Shows ip (hit ip clock fc).0 (count clock.now c).0 clock.now
      × ((hit ip clock fc).1 ≡ (count clock.now c).1)
unfolding hit
hit-count ip fc c since clock shows prompt later =
    let cleaned = clean-Shows ip fc c since clock shows prompt later in
    elim (Bool-cases (ltb clock.now c.until)) [
      | inl e ↦
          rw (blocked-eq ip (clean clock fc) c clock.now cleaned, e)
            (unfold count in rw e (cleaned, refl))
      | inr e ↦
          rw (blocked-eq ip (clean clock fc) c clock.now cleaned, e)
            (update_hit-Shows ip (clean clock fc) c clock.now cleaned e)
    ]

hit-count_other :
    (ip ip' : Bytes) (fc : FloodControl) (c : Counter) (since : ℕ) (clock : Clock)
    → ip' ≢ ip
    → Shows ip fc c since
    → IsPrompt ip clock
    → since ≤ clock.now
    → Shows ip (hit ip' clock fc).0 c clock.now
unfolding hit
hit-count_other ip ip' fc c since clock differ shows prompt later =
    let cleaned = clean-Shows ip fc c since clock shows prompt later in
    elim (Bool-cases (is_after clock.now (get ip' (clean clock fc).block_list))) [
      | inl e ↦ rw e cleaned
      | inr e ↦ rw e (update_hit-Shows_other ip ip' (clean clock fc) c clock.now differ cleaned)
    ]

-- A history of hits, and the answers to those of one address.
unfoldable pub answers : Bytes → FloodControl → List (Bytes × Clock) → List Bool
answers ip fc [] = []
answers ip fc ((a, clock) ∷ rest) =
    let (fc', refused) = hit a clock fc in
    let later = answers ip fc' rest in if bytes_eq a ip then refused ∷ later else later

-- What the counter of one address answers to its own hits.
unfoldable pub count_all : Bytes → Counter → List (Bytes × Clock) → List Bool
count_all ip c [] = []
count_all ip c ((a, clock) ∷ rest) =
    let (c', refused) = count clock.now c in
    let mine = count_all ip c' rest in
    let theirs = count_all ip c rest in if bytes_eq a ip then refused ∷ mine else theirs

-- The clock goes forward along a history, and each call is prompt.
abbrev pub IsHistory : Bytes → ℕ → List (Bytes × Clock) → Type 0
IsHistory ip since [] = Unit
IsHistory ip since ((a, clock) ∷ rest) =
    (since ≤ clock.now) × (IsPrompt ip clock × IsHistory ip clock.now rest)

answers-count_all_from :
    (ip : Bytes) (fc : FloodControl) (c : Counter) (since : ℕ) (events : List (Bytes × Clock))
    → Shows ip fc c since
    → IsHistory ip since events
    → answers ip fc events ≡ count_all ip c events
unfolding answers count_all
answers-count_all_from ip fc c since [] shows h = refl
answers-count_all_from ip fc c since ((a, clock) ∷ rest) shows h =
    elim (Bool-cases (bytes_eq a ip)) [
      | inl e ↦
          let same : a ≡ ip = bytes_eq→eq a ip e in
          let (next, agree) = hit-count ip fc c since clock shows h.1.0 h.0 in
          rw (e, same, agree)
            (ap (λ t. (count clock.now c).1 ∷ t)
              (answers-count_all_from ip (hit ip clock fc).0 (count clock.now c).0 clock.now rest
                next h.1.1))
      | inr e ↦
          let differ : a ≢ ip = ground (arith, bytes_eq_iff a ip) in
          rw e (
            answers-count_all_from ip (hit a clock fc).0 c clock.now rest
              (hit-count_other ip a fc c since clock differ shows h.1.0 h.0) h.1.1)
    ]

new-Shows : (ip : Bytes) (now : ℕ) → Shows ip (new now) fresh now
unfolding new get
new-Shows ip now = record {
  blocks = inr (refl, omega arith);
  counts = inr (refl, inl refl);
  level = inl (omega arith);
}

-- Along any history of hits of any addresses, on a clock that goes forward and with calls that
-- reach their clean-up within a second, what an address is
-- answered is what its own counter answers to its own hits: the clean-up of old entries and the
-- other addresses' hits have no effect.
pub answers-count_all :
    (ip : Bytes) (start : ℕ) (events : List (Bytes × Clock))
    → IsHistory ip start events
    → answers ip (new start) events ≡ count_all ip fresh events
answers-count_all ip start events h =
    answers-count_all_from ip (new start) fresh start events (new-Shows ip start) h
