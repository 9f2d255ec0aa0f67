-- ===== src/Gallery/Titles.antt =====
-- The title of a gallery names a directory, and holds no slash.
use hath_rust.Prelude.{
  ℕ, inl, inr, Bool, true, false, ◌&&◌, [], ◌∷◌, Bytes, Lacks, if◌then◌else◌, arith, Bool-cases,
}
use hath_rust.Text.{is_empty}
use hath_rust.Gallery.Names.{
  is_removed, strip, is_space, collapse, trim_start, trim_end, clean_title,
}

abbrev pub slash : ℕ
slash = b'/'

strip-Lacks : (s : Bytes) → Lacks slash (strip s)
unfolding strip is_removed
strip-Lacks [] = tt
strip-Lacks (c ∷ s) = ground (arith, strip-Lacks s)

spaced :
    (b : Bool) (rest : Bytes) → Lacks slash rest → Lacks slash (if b then rest else b' ' ∷ rest)
spaced true rest l = l
spaced false rest l = (omega arith, l)

collapse-Lacks : (b : Bool) (s : Bytes) → Lacks slash s → Lacks slash (collapse b s)
unfolding collapse
collapse-Lacks b [] l = tt
collapse-Lacks b (c ∷ s) l = elim (Bool-cases (is_space c)) [
  | inl q ↦ rw q (spaced b (collapse true s) (collapse-Lacks true s l.1))
  | inr q ↦ rw q (l.0, collapse-Lacks false s l.1)
]

trim_start-Lacks : (s : Bytes) → Lacks slash s → Lacks slash (trim_start s)
unfolding trim_start
trim_start-Lacks [] l = tt
trim_start-Lacks (c ∷ s) l = elim (Bool-cases (is_space c)) [
  | inl q ↦ rw q (trim_start-Lacks s l.1)
  | inr q ↦ rw q l
]

trim_end-Lacks : (s : Bytes) → Lacks slash s → Lacks slash (trim_end s)
unfolding trim_end
trim_end-Lacks [] l = tt
trim_end-Lacks (c ∷ s) l = elim (Bool-cases (is_space c && is_empty (trim_end s))) [
  | inl q ↦ rw q tt
  | inr q ↦ rw q (l.0, trim_end-Lacks s l.1)
]

-- A cleaned title holds no slash, whatever it is made from.
pub clean_title-Lacks : (s : Bytes) → Lacks slash (clean_title s)
unfolding clean_title
clean_title-Lacks s =
    let stripped = collapse-Lacks false (strip s) (strip-Lacks s) in
    trim_end-Lacks (trim_start (collapse false (strip s)))
      (trim_start-Lacks (collapse false (strip s)) stripped)
