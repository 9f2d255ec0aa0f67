-- ===== src/Body/Hints.antt =====
-- The size hint of a truncated body.
use hath_rust.Prelude.{
  ℕ, ◌≤◌, ◌≡◌, Option, none, some, min, leb, arith, Bool-cases, Option-cases, inl, inr,
}
use hath_rust.Body.{SizeHint, size_hint}

abbrev BelowUpper : ℕ → Option ℕ → Type 0
BelowUpper n none = Unit
BelowUpper n (some most) = n ≤ most

-- A hint that holds for a body of `n` bytes.
pub record Allows (hint : SizeHint) (n : ℕ) : Type 0 where
  pub above : hint.lower ≤ n
  pub below : BelowUpper n hint.upper

-- Where the inner hint holds for a body of `n` bytes, the truncated body's hint does not panic, and
-- it holds for the `min limit n` bytes that are sent.
pub size_hint-Allows :
    (limit n : ℕ) (hint : SizeHint)
    → Allows hint n
    → (h : SizeHint) × (size_hint limit hint ≡ some h) × Allows h (min limit n)
unfolding size_hint
size_hint-Allows limit n hint a = elim (Bool-cases (leb limit hint.lower)) [
  | inl e ↦ (record { lower = limit; upper = some limit }, rw e, ground (arith, a.above))
  | inr e ↦ elim (Option-cases hint.upper) [
    | inl q ↦
        (record { lower = hint.lower; upper = some limit }, ground arith, ground (arith, a.above))
    | inr (most, q) ↦ (
      record { lower = hint.lower; upper = some (min limit most) },
      ground (arith, a.above, a.below),
      ground (arith, a.above, a.below),
    )
  ]
]
