-- ===== src/Text.antt =====
-- What the program uses of `str`: split, splitn, lines, join, starts_with, and numbers as text.
pub mod Decimal
pub mod Split
use hath_rust.Prelude.{
  ℕ, zero, suc, Bool, true, false, ◌&&◌, ◌||◌, List, [], ◌∷◌, ◌++◌, Option, none, some, Bytes, ◌==◌,
  leb, ◌-◌, ◌+◌, if◌then◌else◌,
}

abbrev pub newline : ℕ
newline = 10

-- The first part of a list of parts gets one more byte in front.
pub push_front : ℕ → List Bytes → List Bytes
push_front c [] = (c ∷ []) ∷ []
push_front c (p ∷ ps) = (c ∷ p) ∷ ps

-- `s.split(sep)`: at least one part.
unfoldable pub split : ℕ → Bytes → List Bytes
unfolding push_front
split sep [] = [] ∷ []
split sep (c ∷ s) = let rest = split sep s in if c == sep then [] ∷ rest else push_front c rest

-- `s.splitn(n, sep)`: at most `n` parts, the last of which is the rest of the text.
unfoldable pub splitn : ℕ → ℕ → Bytes → List Bytes
unfolding push_front
splitn zero sep s = []
splitn (suc zero) sep s = s ∷ []
splitn (suc (suc n)) sep [] = [] ∷ []
splitn (suc (suc n)) sep (c ∷ s) = elim (c == sep) [
  | true ↦ [] ∷ splitn (suc n) sep s
  | false ↦ push_front c (splitn (suc (suc n)) sep s)
]

-- `line.strip_suffix('\r')`, or the line.
pub strip_cr : Bytes → Bytes
strip_cr [] = []
strip_cr (c ∷ []) = if c == 13 then [] else c ∷ []
strip_cr (c ∷ d ∷ s) = c ∷ strip_cr (d ∷ s)

-- `s.lines()`, with the line that is being read: a line break ends a line, and a last line that is
-- empty is none.
unfoldable pub lines_from : Bytes → Bytes → List Bytes
lines_from [] [] = []
lines_from (c ∷ cur) [] = (c ∷ cur) ∷ []
lines_from cur (c ∷ s) = elim (c == newline) [
  | true ↦ strip_cr cur ∷ lines_from [] s
  | false ↦ lines_from (cur ++ c ∷ []) s
]

unfoldable pub lines : Bytes → List Bytes
unfolding lines_from strip_cr
lines s = lines_from [] s

-- `parts.join(sep)`.
unfoldable pub join : Bytes → List Bytes → Bytes
join sep [] = []
join sep (p ∷ []) = p
join sep (p ∷ q ∷ ps) = p ++ (sep ++ join sep (q ∷ ps))

-- `s.starts_with(p)`.
unfoldable pub starts_with : Bytes → Bytes → Bool
starts_with s [] = true
starts_with [] (d ∷ p) = false
starts_with (c ∷ s) (d ∷ p) = c == d && starts_with s p

abbrev pub is_empty {ℓ} : {A : Type ℓ} → List A → Bool
is_empty [] = true
is_empty (c ∷ s) = false
