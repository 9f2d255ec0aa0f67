-- ===== src/Scan/Overlap.antt =====
-- The scan of a range's directory in the background, beside imports to it and removals from it:
-- `scan_cache` drops the state of the range, lists the directory, looks at each file of the listing
-- (its size, and on verification its hash) and counts it later, while `import_cache` of
-- src/cache_manager.rs places files and counts them, and `remove_cache` takes files away and, where
-- the range has a state, counts them down. Files are numbered, and may be imported again when they
-- are gone; steps come in any order. Each file that the scan finds is a good one, and is counted.
pub mod Counts
mod Tests
use hath_rust.Prelude.{ℕ, zero, suc, ◌+◌, ◌-◌, ◌%◌, ◌^◌, ◌<◌, ◌≡◌, Bool, true, false, if◌then◌else◌}
use hath_rust.Prelude.Family.{update}

-- How far a file's import is: `kept` is one that was counted before the state was dropped.
pub data Import : Type 0 where
  absent placed counted kept : Import

abbrev pub is_there : Import → Bool
is_there absent = false
is_there placed = true
is_there counted = true
is_there kept = true

-- Whether the scan has the file in its listing, has looked at it, and has counted it.
pub data Mark : Type 0 where
  unlisted pending checked settled : Mark

-- A file, and for the statements how often it is in the count, and how often it was counted down
-- while it was not in it.
pub data File : Type 0 where
  file : Import → Mark → ℕ → ℕ → File

-- How far the scan of the directory is.
pub data Stage : Type 0 where
  idle cleared listed : Stage

-- `count` is the number of files in the state of the range, and `known` whether it has a state.
pub record Range : Type 0 where
  pub stage : Stage
  pub files : ℕ → File
  pub count : ℕ
  pub known : Bool

-- What a step does to the count: nothing, `add_file` or `remove_file`.
pub data Change : Type 0 where
  same more less : Change

unfoldable pub apply : Change → ℕ → ℕ
apply same count = count
apply more count = (count + 1) % 2 ^ 64
apply less count = (count + 2 ^ 64 - 1) % 2 ^ 64

-- Whether there is a state behind it.
abbrev pub makes_state : Change → Bool → Bool
makes_state same known = known
makes_state more known = true
makes_state less known = known

abbrev pub down : Bool → Change
down known = if known then less else same

-- A file that is taken away, by whether it is counted down.
unfoldable pub take_away : Bool → Mark → ℕ → ℕ → File
take_away false m credit owed = file absent m credit owed
take_away true m zero owed = file absent m zero (suc owed)
take_away true m (suc credit) owed = file absent m credit owed

-- What happens to one file, and to the count.
pub data Move (known : Bool) : File → File → Change → Type 0 where
  -- The file is renamed to its place.
  place : {m : Mark} {k o : ℕ} → Move known (file absent m k o) (file placed m k o) same
  -- `add_file` of the import.
  count_import :
      {m : Mark} {k o : ℕ} → Move known (file placed m k o) (file counted m (suc k) o) more
  -- The scan looks at a file of its listing that is there.
  check :
      {i : Import} {k o : ℕ}
      → is_there i ≡ true
      → Move known (file i pending k o) (file i checked k o) same
  -- The scan finds no file.
  skip : {k o : ℕ} → Move known (file absent pending k o) (file absent unlisted k o) same
  -- `add_file` of the scan, whether the file is still there or not.
  count_scan :
      {i : Import} {k o : ℕ} → Move known (file i checked k o) (file i settled (suc k) o) more
  -- The size of a file that is gone meanwhile is not found.
  skip_checked : {k o : ℕ} → Move known (file absent checked k o) (file absent unlisted k o) same
  -- `remove_cache`.
  remove :
      {i : Import} {m : Mark} {k o : ℕ}
      → is_there i ≡ true
      → Move known (file i m k o) (take_away known m k o) (down known)

-- The drop of the state, for a file.
unfoldable pub forget : File → File
forget (file absent m credit owed) = file absent m 0 0
forget (file placed m credit owed) = file placed m 0 0
forget (file counted m credit owed) = file kept m 0 0
forget (file kept m credit owed) = file kept m 0 0

-- The listing, for a file.
unfoldable pub list_file : File → File
list_file (file absent m credit owed) = file absent m credit owed
list_file (file placed m credit owed) = file placed pending credit owed
list_file (file counted m credit owed) = file counted pending credit owed
list_file (file kept m credit owed) = file kept pending credit owed

pub data Step (n : ℕ) (s : Range) : Range → Type 0 where
  act :
      (i : ℕ) {f : File} {c : Change}
      → i < n
      → Move s.known (s.files i) f c
      → Step n s (record s {
        files = update s.files i f;
        count = apply c s.count;
        known = makes_state c s.known;
      })
  clear :
      s.stage ≡ idle
      → Step n s
          (record { stage = cleared; files = λ i. forget (s.files i); count = 0; known = false })
  list :
      s.stage ≡ cleared → Step n s (record s { stage = listed; files = λ i. list_file (s.files i) })

-- Some files are there at first, and the state of the range has any count.
abbrev pub init : (ℕ → Bool) → ℕ → Range
init there count = record {
  stage = idle;
  files = λ i. file (if there i then counted else absent) unlisted 0 0;
  count = count;
  known = true;
}

pub data Reach (n : ℕ) (there : ℕ → Bool) (count : ℕ) : Range → Type 0 where
  start : Reach n there count (init there count)
  later : {s t : Range} → Reach n there count s → Step n s t → Reach n there count t
