-- ===== src/Server/Shutdown/Halts.antt =====
-- No loop stops by itself, none takes more than one connection behind the flag, and none runs on.
use hath_rust.Prelude.{
  ℕ, ◌+◌, ◌≤◌, ◌≡◌, refl, Bool, true, false, ◌==◌, if◌then◌else◌, arith, Bool-cases, inl, inr,
}
use hath_rust.Prelude.Family.{update}
use hath_rust.Server.Shutdown.{
  Place, checking, deciding, waiting, closed, Stopper, running, stored, finished, is_set, Halt,
  Move, load_clear, load_set, arm, connect, wake, notify_waiter, Step, act, store, notify, Reach,
  start, later,
}

-- What holds of each loop: before the flag is set it has not stopped, is not woken, and has taken
-- no late connection; behind it, it has taken one at most, and none while it waits.
abbrev pub IsOrderly : Stopper → Place → ℕ → Type 0
IsOrderly running checking late = late ≡ 0
IsOrderly running deciding late = late ≡ 0
IsOrderly running (waiting false) late = late ≡ 0
IsOrderly running (waiting true) late = ⊥
IsOrderly running closed late = ⊥
IsOrderly stored (waiting true) late = ⊥
IsOrderly stored (waiting false) late = late ≡ 0
IsOrderly stored deciding late = late ≡ 0
IsOrderly stored checking late = late ≤ 1
IsOrderly stored closed late = late ≤ 1
IsOrderly finished (waiting woken) late = late ≡ 0
IsOrderly finished deciding late = late ≡ 0
IsOrderly finished checking late = late ≤ 1
IsOrderly finished closed late = late ≤ 1

Move-IsOrderly :
    (st : Stopper) {p q : Place} {k l : ℕ}
    → Move (is_set st) p k q l
    → IsOrderly st p k
    → IsOrderly st q l
Move-IsOrderly running (load_clear e) h = h
Move-IsOrderly running (load_set e) h = absurd (ground arith)
Move-IsOrderly running arm h = h
Move-IsOrderly running (connect false) h = h
Move-IsOrderly running (connect true) h = absurd h
Move-IsOrderly running wake h = absurd h
Move-IsOrderly stored (load_clear e) h = absurd (ground arith)
Move-IsOrderly stored (load_set e) h = h
Move-IsOrderly stored arm h = h
Move-IsOrderly stored (connect false) h = omega arith
Move-IsOrderly stored (connect true) h = absurd h
Move-IsOrderly stored wake h = absurd h
Move-IsOrderly finished (load_clear e) h = absurd (ground arith)
Move-IsOrderly finished (load_set e) h = h
Move-IsOrderly finished arm h = h
Move-IsOrderly finished (connect woken) h = omega arith
Move-IsOrderly finished wake h = omega arith

stored_at : (p : Place) (k : ℕ) → IsOrderly running p k → IsOrderly stored p k
stored_at checking k h = omega arith
stored_at deciding k h = h
stored_at (waiting false) k h = h
stored_at (waiting true) k h = h
stored_at closed k h = absurd h

notified_at : (p : Place) (k : ℕ) → IsOrderly stored p k → IsOrderly finished (notify_waiter p) k
unfolding notify_waiter
notified_at checking k h = h
notified_at deciding k h = h
notified_at (waiting false) k h = h
notified_at (waiting true) k h = absurd h
notified_at closed k h = h

Step-IsOrderly :
    {s t : Halt}
    → Step s t
    → ((i : ℕ) → IsOrderly s.stopper (s.place i) (s.late i))
    → (i : ℕ) → IsOrderly t.stopper (t.place i) (t.late i)
Step-IsOrderly {s} (act j {p} {k} mv) h i = act_at
  where
    act_at : IsOrderly s.stopper (update s.place j p i) (update s.late j k i)
    act_at = elim (Bool-cases (i == j)) [
      | inl q ↦ rw q (Move-IsOrderly s.stopper mv (h j))
      | inr q ↦ rw q (h i)
    ]
Step-IsOrderly {s} (store e) h i = stored_at (s.place i) (s.late i) (rw e at (h i))
Step-IsOrderly {s} (notify e) h i = notified_at (s.place i) (s.late i) (rw e at (h i))

-- Whatever the order of the steps of the loops and of the task that stops them: before the flag is
-- set no loop has stopped; behind it, each loop takes one more connection at most.
pub Reach-IsOrderly : {s : Halt} → Reach s → (i : ℕ) → IsOrderly s.stopper (s.place i) (s.late i)
Reach-IsOrderly start i = refl
Reach-IsOrderly (later r st) i = Step-IsOrderly st (Reach-IsOrderly r) i

-- The steps that a loop has left behind the flag, connections included.
abbrev pub steps_left : Place → ℕ
steps_left deciding = 3
steps_left (waiting woken) = 2
steps_left checking = 1
steps_left closed = 0

-- A run of the whole from a state on.
pub data Run (s : Halt) : Halt → Type 0 where
  here : Run s s
  more : {t u : Halt} → Run s t → Step t u → Run s u

-- The steps of one loop in it.
abbrev pub own : {s t : Halt} → ℕ → Step s t → ℕ
own i (act j mv) = if i == j then 1 else 0
own i (store e) = 0
own i (notify e) = 0

abbrev pub steps_of : {s t : Halt} → ℕ → Run s t → ℕ
steps_of i here = 0
steps_of i (more r st) = steps_of i r + own i st

Move-steps_left :
    {flag : Bool} {p q : Place} {k l : ℕ}
    → flag ≡ true
    → Move flag p k q l
    → 1 + steps_left q ≤ steps_left p
Move-steps_left f (load_clear e) = absurd (ground arith)
Move-steps_left f (load_set e) = omega arith
Move-steps_left f arm = omega arith
Move-steps_left f (connect woken) = omega arith
Move-steps_left f wake = omega arith

notify_waiter-steps_left : (p : Place) → steps_left (notify_waiter p) ≡ steps_left p
unfolding notify_waiter
notify_waiter-steps_left checking = refl
notify_waiter-steps_left deciding = refl
notify_waiter-steps_left (waiting woken) = refl
notify_waiter-steps_left closed = refl

Step-steps_left :
    {s t : Halt} (i : ℕ) (st : Step s t)
    → is_set s.stopper ≡ true
    → own i st + steps_left (t.place i) ≤ steps_left (s.place i)
Step-steps_left {s} i (act j {p} mv) f = act_at
  where
    act_at : (if i == j then 1 else 0) + steps_left (update s.place j p i) ≤ steps_left (s.place i)
    act_at = elim (Bool-cases (i == j)) [
      | inl q ↦ let e : i ≡ j = ground arith in rw (q, e) (Move-steps_left f mv)
      | inr q ↦ rw q (omega arith)
    ]
Step-steps_left i (store e) f = omega arith
Step-steps_left {s} i (notify e) f = omega (arith, notify_waiter-steps_left (s.place i))

Step-is_set : {s t : Halt} → Step s t → is_set s.stopper ≡ true → is_set t.stopper ≡ true
Step-is_set (act j mv) f = f
Step-is_set (store e) f = refl
Step-is_set (notify e) f = refl

Run-is_set : {s t : Halt} → Run s t → is_set s.stopper ≡ true → is_set t.stopper ≡ true
Run-is_set here f = f
Run-is_set (more r st) f = Step-is_set st (Run-is_set r f)

-- In whatever run from a state whose flag is set, the steps of each loop and those it has left are
-- at most the ones it had left, which are three at most. That a loop takes its steps is not stated.
pub Run-ends :
    {s t : Halt} (i : ℕ) (r : Run s t)
    → is_set s.stopper ≡ true
    → (steps_of i r + steps_left (t.place i) ≤ steps_left (s.place i))
      × (steps_left (s.place i) ≤ 3)
Run-ends {s} i here f = (omega arith, steps_left-le (s.place i))
  where
    steps_left-le : (p : Place) → steps_left p ≤ 3
    steps_left-le p = ground arith
Run-ends i (more r st) f =
    let before = Run-ends i r f in
    (omega (arith, before.0, Step-steps_left i st (Run-is_set r f)), before.1)
