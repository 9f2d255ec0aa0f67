-- ===== src/ServerCommand/Probes.antt =====
-- What the result of a proxy test counts.
use hath_rust.Prelude.{
  ℕ, zero, suc, ◌+◌, ◌≤◌, ◌≡◌, refl, List, [], ◌∷◌, Option, none, some, ◌⊎◌, length, ◌==◌, ==_iff,
  map, arith, Bool-cases, inl, inr,
}
use hath_rust.ServerCommand.{Try, no_response, read, probe, total, Probe, run, probes_from}

-- One of the tries has read exactly the bytes that were asked for, in this time.
abbrev pub HasRead : ℕ → ℕ → List Try → Type 0
HasRead size time [] = ⊥
HasRead size time (t ∷ later) = (t ≡ read (some size) time) ⊎ HasRead size time later

-- A probe that counts as a success has read exactly the bytes that it asked for in one of its
-- tries, and its time is the time of that try.
pub probe-HasRead :
    (size time : ℕ) (tries : List Try) → probe size tries ≡ some time → HasRead size time tries
unfolding probe
probe-HasRead size time [] e = cc
probe-HasRead size time (no_response ∷ later) e = inr (probe-HasRead size time later e)
probe-HasRead size time (read none t ∷ later) e = inr (probe-HasRead size time later e)
probe-HasRead size time (read (some n) t ∷ later) e = elim (Bool-cases (n == size)) [
  | inl q ↦ let same : n ≡ size = (==_iff n size).0 q in inl (cc (same, (rw q at e)))
  | inr q ↦ inr (probe-HasRead size time later (rw q at e))
]

total_bound : (ps : List (Option ℕ)) → (total ps).0 ≤ length ps
unfolding total
total_bound [] = omega arith
total_bound (none ∷ ps) = omega (arith, total_bound ps)
total_bound (some t ∷ ps) = omega (arith, total_bound ps)

length-probes_from :
    (size : ℕ) (world : ℕ → Probe) (n count : ℕ)
    → length (map (run size) (probes_from world n count)) ≡ count
unfolding probes_from
length-probes_from size world n zero = refl
length-probes_from size world n (suc count) =
    omega (arith, length-probes_from size world (n + 1) count)

-- At most as many probes go through as the command asked for.
pub total-probes_from :
    (size : ℕ) (world : ℕ → Probe) (count : ℕ)
    → (total (map (run size) (probes_from world 0 count))).0 ≤ count
total-probes_from size world count = omega (
  arith,
  total_bound (map (run size) (probes_from world 0 count)),
  length-probes_from size world 0 count,
)
