-- ===== src/Prelude/Family.antt =====
-- Families over thread numbers: one member changes, and a weight is summed over the first `n`.
use Prim.Native.Nat.{ℕ, zero, suc, ◌+◌, ◌<◌, ◌≤◌}
use mathlib.Core.Path.{◌≡◌, refl}
use mathlib.Core.Logic.{inl, inr}
use native.Mathlib.Omega.{arith}
use hath_rust.Prelude.Tests.{◌==◌, if◌then◌else◌, Bool-cases}

module _ {ℓ} {A : Type ℓ} where
  abbrev pub update : (ℕ → A) → ℕ → A → ℕ → A
  update f i a j = if j == i then a else f j

  abbrev pub sum_over : (A → ℕ) → ℕ → (ℕ → A) → ℕ
  sum_over w zero f = 0
  sum_over w (suc n) f = w (f n) + sum_over w n f

  sum_over-update_above :
      (w : A → ℕ) (n i : ℕ) (f : ℕ → A) (a : A)
      → n ≤ i
      → sum_over w n (update f i a) ≡ sum_over w n f
  sum_over-update_above w zero i f a h = refl
  sum_over-update_above w (suc n) i f a h = ground (arith, sum_over-update_above w n i f a)

  pub sum_over-update :
      (w : A → ℕ) (n i : ℕ) (f : ℕ → A) (a : A)
      → i < n
      → sum_over w n (update f i a) + w (f i) ≡ sum_over w n f + w a
  sum_over-update w zero i f a h = absurd (omega arith)
  sum_over-update w (suc n) i f a h = elim (Bool-cases (n == i)) [
    | inl q ↦ ground (arith, sum_over-update_above w n i f a)
    | inr q ↦ ground (arith, sum_over-update w n i f a)
  ]

  pub sum_over-zero : (w : A → ℕ) (n : ℕ) (f : ℕ → A) → ((i : ℕ) → w (f i) ≡ 0) → sum_over w n f ≡ 0
  sum_over-zero w zero f h = refl
  sum_over-zero w (suc n) f h = omega (arith, h n, sum_over-zero w n f h)

  pub sum_over-le : (w : A → ℕ) (n : ℕ) (f : ℕ → A) → ((a : A) → w a ≤ 1) → sum_over w n f ≤ n
  sum_over-le w zero f h = omega arith
  sum_over-le w (suc n) f h = omega (arith, h (f n), sum_over-le w n f h)

  pub sum_over-eq :
      (w v : A → ℕ) (n : ℕ) (f g : ℕ → A)
      → ((i : ℕ) → i < n → w (f i) ≡ v (g i))
      → sum_over w n f ≡ sum_over v n g
  sum_over-eq w v zero f g h = refl
  sum_over-eq w v (suc n) f g h =
      omega (arith, h n (omega arith), sum_over-eq w v n f g (λ i l. h i (omega arith)))

  pub sum_over-add :
      (w v : A → ℕ) (n : ℕ) (f : ℕ → A)
      → sum_over (λ a. w a + v a) n f ≡ sum_over w n f + sum_over v n f
  sum_over-add w v zero f = refl
  sum_over-add w v (suc n) f = omega (arith, sum_over-add w v n f)
