-- ===== src/Text/Split.antt =====
-- The laws of `split`: a part ends at the first separator.
use hath_rust.Prelude.{
  ℕ, ◌≡◌, ◌≢◌, refl, List, [], ◌∷◌, ◌++◌, Bytes, All, Lacks, ◌==◌, Bool-cases, inl, inr, arith,
  ==_refl,
}
use hath_rust.Text.{split, push_front}

-- A text with no separator is one part.
pub split_lacking : (sep : ℕ) (p : Bytes) → Lacks sep p → split sep p ≡ p ∷ []
unfolding split
split_lacking sep [] h = refl
split_lacking sep (c ∷ p) h = let ih = split_lacking sep p h.1 in rw ih (ground arith)

-- Up to the first separator stands the first part.
pub split-append :
    (sep : ℕ) (p rest : Bytes) → Lacks sep p → split sep (p ++ sep ∷ rest) ≡ p ∷ split sep rest
unfolding split
split-append sep [] rest h = rw (==_refl sep)
split-append sep (c ∷ p) rest h = let ih = split-append sep p rest h.1 in rw ih (ground arith)

push_front-Lacks :
    (sep c : ℕ) (ps : List Bytes) → c ≢ sep → All (Lacks sep) ps → All (Lacks sep) (push_front c ps)
unfolding push_front
push_front-Lacks sep c [] h a = ((h, tt), tt)
push_front-Lacks sep c (p ∷ ps) h a = ((h, a.0), a.1)

-- No part holds the separator.
pub split-Lacks : (sep : ℕ) (s : Bytes) → All (Lacks sep) (split sep s)
unfolding split
split-Lacks sep [] = (tt, tt)
split-Lacks sep (c ∷ s) = elim (Bool-cases (c == sep)) [
  | inl e ↦ rw e (tt, split-Lacks sep s)
  | inr e ↦ rw e (push_front-Lacks sep c (split sep s) (ground arith) (split-Lacks sep s))
]
