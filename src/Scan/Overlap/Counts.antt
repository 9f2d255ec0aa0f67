-- ===== src/Scan/Overlap/Counts.antt =====
-- What the scan, the imports and the removals together make of the count.
use hath_rust.Prelude.{ℕ, ◌+◌, ◌-◌, ◌%◌, ◌^◌, ◌≤◌, ◌≡◌, if◌then◌else◌}
use hath_rust.Prelude.Family.{sum_over}
use hath_rust.Scan.Overlap.{
  Import, absent, placed, counted, kept, is_there, Mark, unlisted, pending, checked, settled, File,
  file, Stage, idle, cleared, listed, Range,
}

abbrev pub credit : File → ℕ
credit (file i m k o) = k

abbrev pub owed : File → ℕ
owed (file i m k o) = o

abbrev pub on_disk : File → ℕ
on_disk (file i m k o) = if is_there i then 1 else 0

-- How often a file is in the count too often: more than once, or though it is not there.
abbrev pub over : File → ℕ
over f = credit f - on_disk f

abbrev FitsListed : Import → Mark → ℕ → Type 0
FitsListed absent m k = Unit
FitsListed placed m k = Unit
FitsListed counted m k = 1 ≤ k
FitsListed kept unlisted k = ⊥
FitsListed kept pending k = Unit
FitsListed kept checked k = Unit
FitsListed kept settled k = 1 ≤ k

abbrev FitsCleared : Import → ℕ → Type 0
FitsCleared absent k = Unit
FitsCleared placed k = Unit
FitsCleared counted k = 1 ≤ k
FitsCleared kept k = Unit

-- What each stage leaves of a file.
abbrev Fits : Stage → File → Type 0
Fits idle (file i m k o) = (m ≡ unlisted) × (i ≡ kept → ⊥)
Fits cleared (file i m k o) = (m ≡ unlisted) × FitsCleared i k
Fits listed (file i m k o) = FitsListed i m k

module _ (n : ℕ) where
  -- From the drop of the state on, the count is what was counted up less what was counted down.
  IsTally : ℕ → (ℕ → File) → Type 0
  IsTally count files = (count + sum_over owed n files) % 2 ^ 64 ≡ sum_over credit n files % 2 ^ 64

  abbrev Tallies : Stage → ℕ → (ℕ → File) → Type 0
  Tallies idle count files = Unit
  Tallies cleared count files = IsTally count files
  Tallies listed count files = IsTally count files

  record IsTallied (s : Range) : Type 0 where
    fits : (i : ℕ) → Fits s.stage (s.files i)
    tallies : Tallies s.stage s.count s.files

-- A file with which neither the scan nor an import has anything left to do.
abbrev pub IsQuiet : File → Type 0
IsQuiet (file i m k o) = (i ≡ placed → ⊥) × (m ≡ pending → ⊥) × (m ≡ checked → ⊥)
