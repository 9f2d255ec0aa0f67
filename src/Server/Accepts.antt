-- ===== src/Server/Accepts.antt =====
-- Each address is dealt with by its own counter, and nothing is accepted behind the shutdown.
use hath_rust.Prelude.{
  ◌≡◌, refl, ap, ◌∙◌, Bool, true, false, List, map, [], ◌∷◌, Option, none, some, Bytes, bytes_eq,
  Bool-cases, inl, inr, if◌then◌else◌, ℕ,
}
use hath_rust.Flood.{FloodControl, Clock, new, hit}
use hath_rust.Flood.Refines.{fresh, count_all, answers, IsHistory, answers-count_all}
use hath_rust.Server.{connected, notified, Turn, flood_hit, Handling, reset, processed, accept_loop}

module _ (to_canonical : Bytes → Bytes) where
  -- The connections that come before the loop is told to stop.
  abbrev pub arrivals : List Turn → List (Bytes × Clock)
  arrivals [] = []
  arrivals ((true, a) ∷ turns) = []
  arrivals ((false, notified) ∷ turns) = []
  arrivals ((false, connected ip clock) ∷ turns) = (to_canonical ip, clock) ∷ arrivals turns

abbrev pub handling : Bool → Handling
handling refused = if refused then reset else processed

-- What is done with the connections of one address.
abbrev pub of_address : Bytes → List (Bytes × Handling) → List Handling
of_address ip [] = []
of_address ip ((a, h) ∷ rest) =
    let later = of_address ip rest in if bytes_eq a ip then h ∷ later else later

accept_loop-answers :
    (to_canonical : Bytes → Bytes) (ip : Bytes) (fc : FloodControl) (turns : List Turn)
    → of_address ip (accept_loop to_canonical (some fc) turns)
      ≡ map handling (answers ip fc (arrivals to_canonical turns))
unfolding accept_loop answers flood_hit
accept_loop-answers to_canonical ip fc [] = refl
accept_loop-answers to_canonical ip fc ((true, a) ∷ turns) = refl
accept_loop-answers to_canonical ip fc ((false, notified) ∷ turns) = refl
accept_loop-answers to_canonical ip fc ((false, connected from clock) ∷ turns) =
    elim (Bool-cases (bytes_eq (to_canonical from) ip)) [
      | inl q ↦ rw q (
          ap (λ t. handling (hit (to_canonical from) clock fc).1 ∷ t)
            (accept_loop-answers to_canonical ip (hit (to_canonical from) clock fc).0 turns))
      | inr q ↦
          rw q (accept_loop-answers to_canonical ip (hit (to_canonical from) clock fc).0 turns)
    ]

-- The connections that the loop deals with.
abbrev pub addresses : List (Bytes × Handling) → List Bytes
addresses [] = []
addresses ((a, h) ∷ rest) = a ∷ addresses rest

-- Their addresses.
abbrev pub origins : List (Bytes × Clock) → List Bytes
origins [] = []
origins ((a, clock) ∷ rest) = a ∷ origins rest

accept_loop-addresses :
    (to_canonical : Bytes → Bytes) (fc : Option FloodControl) (turns : List Turn)
    → addresses (accept_loop to_canonical fc turns) ≡ origins (arrivals to_canonical turns)
unfolding accept_loop flood_hit
accept_loop-addresses to_canonical fc [] = refl
accept_loop-addresses to_canonical fc ((true, a) ∷ turns) = refl
accept_loop-addresses to_canonical fc ((false, notified) ∷ turns) = refl
accept_loop-addresses to_canonical fc ((false, connected from clock) ∷ turns) =
    ap (λ t. to_canonical from ∷ t)
      (accept_loop-addresses to_canonical (flood_hit (to_canonical from) clock fc).0 turns)

-- With the flood control, on a clock that goes forward and with prompt calls, the loop deals with
-- exactly the connections that come before it is told to stop, in their order, and of those that
-- come from one address, in whatever of its forms, it resets and processes the ones that the
-- address's own counter refuses and serves, whatever the others do.
pub accept_loop-count_all :
    (to_canonical : Bytes → Bytes) (ip : Bytes) (start : ℕ) (turns : List Turn)
    → IsHistory ip start (arrivals to_canonical turns)
    → (addresses (accept_loop to_canonical (some (new start)) turns)
        ≡ origins (arrivals to_canonical turns))
      × (of_address ip (accept_loop to_canonical (some (new start)) turns)
          ≡ map handling (count_all ip fresh (arrivals to_canonical turns)))
accept_loop-count_all to_canonical ip start turns h = (
  accept_loop-addresses to_canonical (some (new start)) turns,
  accept_loop-answers to_canonical ip (new start) turns
      ∙ ap (map handling) (answers-count_all ip start (arrivals to_canonical turns) h),
)

-- Without the flood control every connection that comes in time is processed.
pub accept_loop-open :
    (to_canonical : Bytes → Bytes) (turns : List Turn)
    → accept_loop to_canonical none turns
      ≡ map (λ a. (a, processed)) (origins (arrivals to_canonical turns))
unfolding accept_loop flood_hit
accept_loop-open to_canonical [] = refl
accept_loop-open to_canonical ((true, a) ∷ turns) = refl
accept_loop-open to_canonical ((false, notified) ∷ turns) = refl
accept_loop-open to_canonical ((false, connected from clock) ∷ turns) =
    ap (λ t. (to_canonical from, processed) ∷ t) (accept_loop-open to_canonical turns)
