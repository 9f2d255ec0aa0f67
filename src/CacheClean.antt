-- ===== src/CacheClean.antt =====
-- `check_cache_usage` of src/cache_manager.rs: old files go until the cache fits its limit again. What
-- each round meets (the listing of a directory, the time, whether the limit is still the same)
-- is an argument, one `Round` for each turn of the loop.
pub mod Needs
pub mod Evicts
pub mod Background
mod Tests
use hath_rust.Prelude.Int.{ℤ, pos, ltb_ℤ, leb_ℤ, ◌+ℤ◌}
use hath_rust.Prelude.{
  ℕ, ◌+◌, ◌-◌, ◌*◌, ◌%◌, ◌^◌, Bool, true, false, not, ◌&&◌, ◌||◌, List, [], ◌∷◌, Option, none, some,
  Bytes, ltb, leb, ◌==◌, if◌then◌else◌,
}
use hath_rust.Dict.{Dict, modify}
use hath_rust.FileId.Hex.{HexCodec}
use hath_rust.FileId.{CacheFileInfo}
use hath_rust.CacheStore.{CacheState, CacheManager, RemoveCalls, remove_cache}

abbrev pub size_100mb : ℕ
size_100mb = 100 * 1024 * 1024

-- The bytes in use.
unfoldable pub total_size : Dict CacheState → ℕ
total_size [] = 0
total_size ((r, s) ∷ m) = s.size + total_size m

-- What is missing of the 100 MiB that shall be free on the disk, where the system tells.
unfoldable pub disk_need : Option ℕ → ℕ
disk_need none = 0
disk_need (some free) = if ltb free size_100mb then size_100mb - free else 0

-- How much is to be freed: 100 MiB at least, or nothing.
unfoldable pub need_free : ℕ → ℕ → Option ℕ → ℕ
unfolding disk_need
need_free total limit disk_free =
    let need = (total - limit + disk_need disk_free) % 2 ^ 64 in
    if need == 0 then 0 else if ltb need size_100mb then size_100mb else need

abbrev pub day : ℕ
day = 86400

-- The files up to this much newer than the oldest one may go in a round, by the age of the oldest
-- one in nanoseconds; `none` is an age that `chrono` cannot tell, or a time to come.
unfoldable pub offset : Option ℕ → ℕ
offset none = day
offset (some age) =
    if ltb (180 * day * 10 ^ 9) age
    then day * 30
    else if ltb (90 * day * 10 ^ 9) age
    then day * 7
    else if ltb (30 * day * 10 ^ 9) age
    then day * 3
    else day

-- The range with the oldest files; of two equally old ones, the first.
unfoldable pub oldest_from : Bytes × CacheState → Dict CacheState → Bytes × CacheState
oldest_from best [] = best
oldest_from best ((r, s) ∷ m) =
    let with_new = oldest_from (r, s) m in
    let with_old = oldest_from best m in if ltb_ℤ s.oldest best.1.oldest then with_new else with_old

-- A file of a listing: the parsed name, the time in seconds and the nanoseconds behind them, the
-- size it takes if it can be read, and how the calls of its removal end.
pub record Entry : Type 0 where
  pub info : Option CacheFileInfo
  pub mtime : ℤ
  pub nanos : ℕ
  pub size : Option ℕ
  pub calls : RemoveCalls

-- `mtime > cut_off`, whose nanoseconds are 0.
abbrev pub is_newer : Entry → ℤ → Bool
is_newer e cut_off = ltb_ℤ cut_off e.mtime || leb_ℤ cut_off e.mtime && ltb 0 e.nanos

-- The entries in the order of their times: an insertion sort, where the source sorts in place.
unfoldable pub insert_sorted : Entry → List Entry → List Entry
insert_sorted e [] = e ∷ []
insert_sorted e (f ∷ fs) =
    let rest = insert_sorted e fs in
    if ltb_ℤ e.mtime f.mtime || leb_ℤ e.mtime f.mtime && leb e.nanos f.nanos
    then e ∷ f ∷ fs
    else f ∷ rest

unfoldable pub sort : List Entry → List Entry
unfolding insert_sorted
sort [] = []
sort (e ∷ es) = insert_sorted e (sort es)

-- The time of the last entry, or the present if there is none.
unfoldable pub last_mtime : ℤ → List Entry → ℤ
last_mtime now [] = now
last_mtime now (e ∷ es) = last_mtime e.mtime es

-- The bytes left to free, the time of the oldest file left, and the manager.
pub record Sweep : Type 0 where
  pub need : ℕ
  pub new_oldest : ℤ
  pub manager : CacheManager

-- What one turn of the loop meets; `listing` is none where the directory does not open.
pub record Round : Type 0 where
  pub same_limit : Bool
  pub age : Option ℕ
  pub listing : Option (List Entry)
  pub now : ℤ

module _ (hex : HexCodec) where
  -- One file that goes, if its name parses and its size can be read.
  unfoldable pub drop_file : Entry → Sweep → Sweep
  drop_file e s = elim e.info [
    | none ↦ s
    | some info ↦ elim e.size [
      | none ↦ s
      | some size ↦ record s {
        need = s.need - size;
        manager = (remove_cache hex info e.calls s.manager).1;
      }
    ]
  ]

  -- The loop over the files of a directory.
  unfoldable pub evict : ℤ → List Entry → Sweep → Sweep
  unfolding drop_file
  evict cut_off [] s = s
  evict cut_off (e ∷ es) s =
      let rest = evict cut_off es (drop_file e s) in
      if is_newer e cut_off || s.need == 0 then record s { new_oldest = e.mtime } else rest

  -- One directory: its old files go, and its range gets its new oldest time.
  unfoldable pub sweep : Bytes × CacheState → Round → List Entry → ℕ → CacheManager → Sweep
  unfolding evict sort last_mtime offset
  sweep (range, state) r listing need m =
      let entries = sort listing in
      let s =
        evict (state.oldest +ℤ pos (offset r.age)) entries
          (record { need = need; new_oldest = last_mtime r.now entries; manager = m }) in
      record s {
        manager = record s.manager {
          cache_state =
              modify range (λ (c : CacheState). record c { oldest = s.new_oldest })
                s.manager.cache_state;
        };
      }

  -- The loop: it ends when enough is free, the limit has changed, there is no range, or a directory
  -- does not open. `false` is a loop that goes on when the rounds run out, with what it has by then.
  unfoldable pub clean : List Round → ℕ → CacheManager → Bool × (ℕ × CacheManager)
  unfolding sweep oldest_from
  clean [] need m = (need == 0, (need, m))
  clean (r ∷ rs) need m =
      if need == 0 || not r.same_limit then (true, (need, m)) else elim m.cache_state [
        | [] ↦ (true, (need, m))
        | first ∷ others ↦ elim r.listing [
          | none ↦ (true, (need, m))
          | some listing ↦
              let s = sweep (oldest_from first others) r listing need m in clean rs s.need s.manager
        ]
      ]

  -- `CacheManager::check_cache_usage`.
  unfoldable pub check_cache_usage :
      List Round → Option ℕ → CacheManager → Bool × (ℕ × CacheManager)
  unfolding clean need_free total_size
  check_cache_usage rounds disk_free m =
      clean rounds (need_free (total_size m.cache_state % 2 ^ 64) m.size_limit disk_free) m
