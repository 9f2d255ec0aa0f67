-- ===== src/Scan.antt =====
-- The scan of the cache of src/cache_manager.rs at the start: the files of a static range, and the
-- loop over the directories of the ranges. Walk finds these, and Cache holds `scan_cache` and
-- `CacheManager::new`. What the file system answers is an argument; metrics and messages to the
-- log are left out.
pub mod Walk
pub mod Overlap
pub mod Restart
pub mod Cache
pub mod Judges
pub mod Holds
pub mod Deletes
pub mod Recounts
pub mod Settles
pub mod Accounted
pub mod Refuses
mod Tests
use mathlib.Core.Path.{subst}
use hath_rust.Prelude.Int.{ℤ, ltb_ℤ}
use hath_rust.Prelude.{
  ◌≡◌, ◌≢◌, refl, sym, Option-cases, Bool-cases, inl, inr, ==_iff, arith, ℕ, ◌+◌, ◌*◌, Bool, true,
  false, not, ◌&&◌, ◌||◌, List, map, [], ◌∷◌, ◌++◌, Option, none, some, Bytes, bytes_eq, length,
  ltb, leb, ◌==◌, if◌then◌else◌, unwrap_or, is_some, ◌>>=◌,
}
use hath_rust.Dict.{Dict, get, insert, remove, retain}
use hath_rust.Crypto.{Crypto}
use hath_rust.FileId.{CacheFileInfo, from_file_id, static_range}
use hath_rust.CacheStore.{CacheState, add_file, default_state}

pub record Metadata : Type 0 where
  pub is_dir : Bool
  pub len : ℕ
  pub mtime : ℤ

-- An entry of a directory: its name where it is UTF-8, its metadata, the bytes that are read of it, up
-- to the end or the first read error, if it opens, the size that it takes on the disk, and the clock.
pub record Entry : Type 0 where
  pub name : Option Bytes
  pub metadata : Option Metadata
  pub reads : Option Bytes
  pub filesize_fast : Option ℕ
  pub now : ℤ

-- What becomes of an entry.
pub data Verdict : Type 0 where
  ignored deleted : Verdict
  counted : Bytes → ℕ → ℤ → Verdict

-- The states of the ranges, and the entries that were deleted.
abbrev pub Scanned : Type 0
Scanned = Dict CacheState × List Entry

-- `entry(range).or_default()`, with a file of this size and time more.
unfoldable pub count_file : Bytes → ℕ → ℤ → ℤ → Dict CacheState → Dict CacheState
count_file range size mtime now states =
    let s = add_file size (unwrap_or (default_state now) (get range states)) in
    insert range (if ltb_ℤ mtime s.oldest then record s { oldest = mtime } else s) states

-- The directory of a static range: how many entries it lists, and which, if it can be read then.
pub record RangeDir : Type 0 where
  pub range : Bytes
  pub listed : Option ℕ
  pub files : Option (List Entry)

module _ (c : Crypto) (verify_cache : Bool) where
  -- The file is counted, if its size on the disk is found.
  abbrev pub count : Entry → Metadata → CacheFileInfo → Verdict
  count e m info = elim e.filesize_fast [
    | none ↦ ignored
    | some size ↦ counted (static_range c.hex info) size m.mtime
  ]

  -- The rest of an entry whose name is an identifier.
  unfoldable pub check_info : Entry → Metadata → CacheFileInfo → Verdict
  check_info e m info =
      if not (m.len == info.size)
      then deleted
      else if not verify_cache
      then count e m info
      else elim e.reads [
        | none ↦ ignored
        | some bytes ↦ if bytes_eq (c.sha1 bytes) info.hash then count e m info else deleted
      ]

  unfoldable pub check : Entry → Verdict
  unfolding check_info
  check e = elim e.metadata [
    | none ↦ ignored
    | some m ↦ if m.is_dir then ignored else elim (e.name >>= λ n. from_file_id c.hex n) [
      | none ↦ ignored
      | some info ↦ check_info e m info
    ]
  ]

  abbrev pub settle : Entry → Verdict → Scanned → Scanned
  settle e ignored s = s
  settle e deleted (states, gone) = (states, gone ++ (e ∷ []))
  settle e (counted range size mtime) (states, gone) =
      (count_file range size mtime e.now states, gone)

  -- The entries of a directory, in the order in which they come to an end.
  unfoldable pub scan_files : List Entry → Scanned → Scanned
  unfolding count_file
  scan_files [] s = s
  scan_files (e ∷ es) s = scan_files es (settle e (check e) s)

  -- The number of files that the state of a range knows.
  abbrev pub known : Bytes → Dict CacheState → ℕ
  known range states = elim (get range states) [ none ↦ 0 | some s ↦ s.file_count ]

  -- One directory: the number of those that are done, and the states and deleted files.
  unfoldable pub scan_dir : RangeDir → ℕ → Scanned → ℕ × Scanned
  scan_dir d counter (states, gone) =
      let cleared : Scanned = (remove d.range states, gone) in
      elim d.listed [
        | none ↦ (counter, (states, gone))
        | some n ↦
            if n == known d.range states then (counter + 1, (states, gone)) else elim d.files [
              | none ↦ (counter, cleared)
              | some es ↦ (counter + 1, scan_files es cleared)
            ]
      ]

  -- The loop over the directories.
  unfoldable pub scan_dirs : List RangeDir → ℕ → Scanned → ℕ × Scanned
  scan_dirs [] counter s = (counter, s)
  scan_dirs (d ∷ ds) counter s =
      let (counter', s') = scan_dir d counter s in scan_dirs ds counter' s'

  -- What holds of each way in which a directory is dealt with holds of what becomes of it.
  pub scan_dir-cases {ℓ} :
      (P : ℕ × Scanned → Type ℓ) (d : RangeDir) (counter : ℕ) (states : Dict CacheState)
      (gone : List Entry)
      → (d.listed ≡ none → P (counter, (states, gone)))
      → ((n : ℕ) → d.listed ≡ some n → n ≡ known d.range states → P (counter + 1, (states, gone)))
      → ((n : ℕ)
          → d.listed ≡ some n
          → n ≢ known d.range states
          → d.files ≡ none
          → P (counter, (remove d.range states, gone)))
      → ((n : ℕ) (es : List Entry)
          → d.listed ≡ some n
          → n ≢ known d.range states
          → d.files ≡ some es
          → P (counter + 1, scan_files es (remove d.range states, gone)))
      → P (scan_dir d counter (states, gone))
  unfolding scan_dir
  scan_dir-cases P d counter states gone unlisted matched unread read =
      elim (Option-cases d.listed) [
        | inl q ↦ subst P (sym (rw q refl)) (unlisted q)
        | inr q ↦
            let n = q.0 in
            elim (Bool-cases (n == known d.range states)) [
              | inl same ↦ subst P (sym (rw (q.1, same) refl)) (matched n q.1 ((==_iff n _).0 same))
              | inr other ↦
                  let differ : n ≢ known d.range states =
                    λ e. cc ((==_iff n (known d.range states)).1 e, other) in
                  elim (Option-cases d.files) [
                    | inl f ↦ subst P (sym (rw (q.1, other, f) refl)) (unread n q.1 differ f)
                    | inr f ↦ subst P (sym (rw (q.1, other, f.1) refl)) (read n f.0 q.1 differ f.1)
                  ]
            ]
      ]
