-- ===== src/Flood/Tests.antt =====
-- Hits of two addresses.
use hath_rust.Prelude.{
  ℕ, zero, suc, ◌*◌, ◌≡◌, refl, false, List, [], ◌∷◌, Bytes, bytes_eq, All, arith,
}
use hath_rust.Dict.{get, insert}
use hath_rust.Flood.{second, FloodControl, Clock, new, clean, is_after, count_hit, update_hit, hit}
use hath_rust.Flood.Refines.{fresh, count_all, answers, IsHistory, IsPrompt, answers-count_all}
use hath_rust.Flood.Limits.{
  IsServed, IsRefused, IsBurst, served_then_refused, blocked_for_a_minute, spaced_never_refused,
  burst_refused,
}

abbrev here : Bytes
here = 10 ∷ []

abbrev there : Bytes
there = 11 ∷ []

abbrev at : ℕ → Clock
at now = record { now = now; at_clean = now; at_retain = λ ip. now }

at-IsPrompt : (now : ℕ) → IsPrompt here (at now)
at-IsPrompt now = record { forward = omega arith; soon = omega arith }

abbrev mixed : List (Bytes × Clock)
mixed = (here, at (1 * second)) ∷ (there, at (2 * second)) ∷ (here, at (3 * second)) ∷ []

mixed-IsHistory : IsHistory here 0 mixed
mixed-IsHistory = (
  omega arith,
  (
    at-IsPrompt (1 * second),
    (omega arith, (at-IsPrompt (2 * second), (omega arith, (at-IsPrompt (3 * second), tt)))),
  ),
)

answers-count_all_example : answers here (new 0) mixed ≡ count_all here fresh mixed
answers-count_all_example = answers-count_all here 0 mixed mixed-IsHistory

spaced_never_refused_example : All IsServed (answers here (new 0) mixed)
spaced_never_refused_example = spaced_never_refused here 0 mixed mixed-IsHistory (
  (λ e. (
    omega arith,
    (
      (λ d. (omega arith, ((λ f. (omega arith, tt)), (λ f. tt)))),
      (λ d. ((λ f. (omega arith, tt)), (λ f. tt))),
    ),
  )),
  (λ e. (
    (λ d. (omega arith, ((λ f. (omega arith, tt)), (λ f. tt)))),
    (λ d. ((λ f. (omega arith, tt)), (λ f. tt))),
  )),
)

-- So many hits at the same instant.
abbrev same : ℕ → List (Bytes × Clock)
same zero = []
same (suc n) = (here, at second) ∷ same n

same-IsHistory : (n : ℕ) → IsHistory here second (same n)
same-IsHistory zero = tt
same-IsHistory (suc n) = (omega arith, (at-IsPrompt second, same-IsHistory n))

same-IsBurst : (n : ℕ) → IsBurst here second (same n)
same-IsBurst zero = tt
same-IsBurst (suc n) = (refl, (omega arith, (omega arith, same-IsBurst n)))

burst_refused_example : answers here (new second) (same 10) ≡ served_then_refused 9
burst_refused_example =
    burst_refused here second second (same 10) (same-IsHistory 10) (same-IsBurst 10) refl

-- Nine hits of the present second are on record.
abbrev busy : FloodControl
busy = record { last_clean = second; hit_map = (here, (9, second)) ∷ []; block_list = [] }

busy_free : is_after second (get here busy.block_list) ≡ false
unfolding get
busy_free = refl

busy-IsRefused : IsRefused (hit here (at second) busy).1
unfolding hit clean update_hit count_hit get insert bytes_eq
busy-IsRefused = refl

blocked_for_a_minute_example :
    All IsRefused (answers here (hit here (at second) busy).0 ((here, at (60 * second)) ∷ []))
blocked_for_a_minute_example =
    blocked_for_a_minute here (at second) busy ((here, at (60 * second)) ∷ []) busy_free
      busy-IsRefused (omega arith, tt)
