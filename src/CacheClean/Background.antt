-- ===== src/CacheClean/Background.antt =====
-- The background task of the cache, `start_background_task` of src/cache_manager.rs: every ten
-- minutes the states are saved and the usage of the cache is checked, as long as the manager lives.
use hath_rust.Prelude.Int.{ℤ, pos, ◌+ℤ◌}
use hath_rust.Prelude.{
  ℕ, not, ◌||◌, List, [], ◌∷◌, Option, none, some, Bytes, bytes_eq, Bool, if◌then◌else◌, ◌==◌,
  if_cases, option_cases,
}
use hath_rust.Dict.{Dict, get, get-modify, map_option}
use hath_rust.FileId.Hex.{HexCodec}
use hath_rust.CacheStore.{CacheState, CacheManager, files}
use hath_rust.CacheStore.Accounts.{Agrees, IsAccounted}
use hath_rust.CacheStore.Saved.{Codec, SaveCalls, save_state}
use hath_rust.CacheClean.{
  Round, Entry, sweep, sort, last_mtime, evict, offset, oldest_from, clean, check_cache_usage,
}
use hath_rust.CacheClean.Evicts.{evict-IsAccounted}

-- What a tick meets: the calls of the save, the rounds of the cleaner and the space on the disk.
pub record Tick : Type 0 where
  pub saving : SaveCalls
  pub rounds : List Round
  pub disk_free : Option ℕ

module _ (hex : HexCodec) (codec : Codec) where
  -- The task, up to the tick that finds the manager gone, or up to the last round of a cleaner that
  -- goes on: the manager, and the file of the states.
  unfoldable pub background_task :
      List (Option Tick) → CacheManager → Option Bytes → CacheManager × Option Bytes
  background_task [] m file = (m, file)
  background_task (none ∷ ticks) m file = (m, file)
  background_task (some t ∷ ticks) m file =
      let (ended, (need, m')) = check_cache_usage hex t.rounds t.disk_free m in
      let rest = background_task ticks m' (save_state codec t.saving m.cache_state file) in
      if ended then rest else (m', file)

-- The time of the oldest file has no part in the accounts.
touch-Agrees :
    (o : Option CacheState) (oldest : ℤ) (d : Dict ℕ)
    → Agrees o d
    → Agrees (map_option (λ (c : CacheState). record c { oldest = oldest }) o) d
touch-Agrees none oldest d a = a
touch-Agrees (some s) oldest d a = a

list_cases :
    {A B : Type 0} (P : B → Type 0) (xs : List A) (x : B) (y : A → List A → B)
    → P x
    → ((a : A) (rest : List A) → P (y a rest))
    → P (elim xs [ [] ↦ x | a ∷ rest ↦ y a rest ])
list_cases P [] x y h k = h
list_cases P (a ∷ rest) x y h k = k a rest

module _ (hex : HexCodec) where
  sweep-IsAccounted :
      (oldest : Bytes × CacheState) (r : Round) (listing : List Entry) (need : ℕ) (m : CacheManager)
      → IsAccounted m
      → IsAccounted (sweep hex oldest r listing need m).manager
  unfolding sweep
  sweep-IsAccounted (range, state) r listing need m a =
      let s =
        evict hex (state.oldest +ℤ pos (offset r.age)) (sort listing)
          (record { need = need; new_oldest = last_mtime r.now (sort listing); manager = m }) in
      let b =
        evict-IsAccounted hex (state.oldest +ℤ pos (offset r.age)) (sort listing)
          (record { need = need; new_oldest = last_mtime r.now (sort listing); manager = m }) a in
      let touch = λ (c : CacheState). record c { oldest = s.new_oldest } in
      record {
        distinct = b.distinct;
        agrees = λ dir. rw (get-modify range dir touch s.manager.cache_state) (
            if_cases (λ o. Agrees o (files dir s.manager)) (bytes_eq range dir) _ _
              (λ q.
                touch-Agrees (get dir s.manager.cache_state) s.new_oldest (files dir s.manager)
                  (b.agrees dir))
              (λ q. b.agrees dir));
      }

  -- The cleaner's manager, whether it has come to its end or not.
  abbrev Kept : Bool × (ℕ × CacheManager) → Type 0
  Kept (ended, (need, m)) = IsAccounted m

  clean-Kept :
      (rounds : List Round) (need : ℕ) (m : CacheManager)
      → IsAccounted m
      → Kept (clean hex rounds need m)
  unfolding clean
  clean-Kept [] need m a = a
  clean-Kept (r ∷ rs) need m a =
      if_cases Kept (need == 0 || not r.same_limit) _ _ (λ q. a)
        λ q. list_cases Kept m.cache_state _ _ a λ first others.
          option_cases Kept r.listing _ _ (λ e. a)
            λ listing e.
              let s = sweep hex (oldest_from first others) r listing need m in
              clean-Kept rs s.need s.manager
                (sweep-IsAccounted (oldest_from first others) r listing need m a)

  check_cache_usage-Kept :
      (rounds : List Round) (disk_free : Option ℕ) (m : CacheManager)
      → IsAccounted m
      → Kept (check_cache_usage hex rounds disk_free m)
  unfolding check_cache_usage
  check_cache_usage-Kept rounds disk_free m a = clean-Kept rounds _ m a

  -- Behind any number of ticks, and behind any number of rounds of a cleaner that has not come to its
  -- end, however the calls of the file system end, the counts and sizes of the ranges agree with the
  -- disk, if they did before.
  pub background_task-IsAccounted :
      (codec : Codec) (ticks : List (Option Tick)) (m : CacheManager) (file : Option Bytes)
      → IsAccounted m
      → IsAccounted (background_task hex codec ticks m file).0
  unfolding background_task
  background_task-IsAccounted codec [] m file a = a
  background_task-IsAccounted codec (none ∷ ticks) m file a = a
  background_task-IsAccounted codec (some t ∷ ticks) m file a =
      let r = check_cache_usage hex t.rounds t.disk_free m in
      let kept = check_cache_usage-Kept t.rounds t.disk_free m a in
      if_cases (λ (r : CacheManager × Option Bytes). IsAccounted r.0) r.0 _ _
        (λ q.
          background_task-IsAccounted codec ticks r.1.1
            (save_state codec t.saving m.cache_state file) kept)
        (λ q. kept)
