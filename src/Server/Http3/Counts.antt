-- ===== src/Server/Http3/Counts.antt =====
-- The requests of one address, on all its connections, are counted by its own counter.
use hath_rust.Prelude.{
  ◌≡◌, refl, ap, ◌∙◌, Bool, true, false, List, [], ◌∷◌, some, Bytes, bytes_eq, Bool-cases, inl, inr,
  if◌then◌else◌, ℕ,
}
use hath_rust.Prelude.Family.{update}
use hath_rust.Flood.{FloodControl, Clock, new, hit}
use hath_rust.Flood.Refines.{fresh, count_all, answers, IsHistory, answers-count_all}
use hath_rust.Server.{flood_hit}
use hath_rust.Server.Http3.{
  Event, requested, ended, stopping, Action, goaway, task, spawn, request_loops,
}

module _ (to_canonical : Bytes → Bytes) (remote_address : ℕ → Bytes) where
  abbrev pub address : ℕ → Bytes
  address c = to_canonical (remote_address c)

  -- The requests of the connections that are open.
  abbrev pub hits : (ℕ → Bool) → List (ℕ × Event) → List (Bytes × Clock)
  hits live [] = []
  hits live ((c, requested clock) ∷ events) =
      let rest = hits live events in if live c then (address c, clock) ∷ rest else rest
  hits live ((c, ended) ∷ events) = hits (update live c false) events
  hits live ((c, stopping) ∷ events) = hits (update live c false) events

  -- Whether the tasks of the requests of one address are blocked.
  abbrev pub tasks_of : Bytes → List (ℕ × Action) → List Bool
  tasks_of ip [] = []
  tasks_of ip ((c, goaway n) ∷ actions) = tasks_of ip actions
  tasks_of ip ((c, task blocked) ∷ actions) =
      let later = tasks_of ip actions in if bytes_eq (address c) ip then blocked ∷ later else later

  tasks_of-spawn :
      (ip : Bytes) (c : ℕ) (blocked : Bool) (rest : List (ℕ × Action))
      → tasks_of ip (spawn c blocked rest) ≡ tasks_of ip ((c, task blocked) ∷ rest)
  tasks_of-spawn ip c true rest = refl
  tasks_of-spawn ip c false rest = refl

  more_at :
      (mine blocked : Bool) {xs ys : List Bool}
      → xs ≡ ys
      → (if mine then blocked ∷ xs else xs) ≡ (if mine then blocked ∷ ys else ys)
  more_at mine blocked e = ap (λ t. if mine then blocked ∷ t else t) e

  request_loops-answers :
      (ip : Bytes) (fc : FloodControl) (live : ℕ → Bool) (events : List (ℕ × Event))
      → tasks_of ip (request_loops to_canonical remote_address (some fc) live events)
        ≡ answers ip fc (hits live events)
  unfolding request_loops answers flood_hit
  request_loops-answers ip fc live [] = refl
  request_loops-answers ip fc live ((c, requested clock) ∷ events) = elim (Bool-cases (live c)) [
    | inl o ↦
        let (fc', blocked) = hit (address c) clock fc in
        rw o (
          tasks_of-spawn ip c blocked
            (request_loops to_canonical remote_address (some fc') live events)
          ∙ more_at (bytes_eq (address c) ip) blocked (request_loops-answers ip fc' live events))
    | inr o ↦ rw o (request_loops-answers ip fc live events)
  ]
  request_loops-answers ip fc live ((c, ended) ∷ events) =
      request_loops-answers ip fc (update live c false) events
  request_loops-answers ip fc live ((c, stopping) ∷ events) = elim (Bool-cases (live c)) [
    | inl o ↦ rw o (request_loops-answers ip fc (update live c false) events)
    | inr o ↦ rw o (request_loops-answers ip fc (update live c false) events)
  ]

-- Whatever connections are open, on a clock that goes forward and with prompt calls: of the
-- requests that come from one address, in whatever of its forms and on all its connections, the
-- blocked ones are those that the address's own counter refuses, whatever the others do.
pub request_loops-count_all :
    (to_canonical : Bytes → Bytes) (remote_address : ℕ → Bytes) (ip : Bytes) (start : ℕ)
    (live : ℕ → Bool) (events : List (ℕ × Event))
    → IsHistory ip start (hits to_canonical remote_address live events)
    → tasks_of to_canonical remote_address ip
        (request_loops to_canonical remote_address (some (new start)) live events)
      ≡ count_all ip fresh (hits to_canonical remote_address live events)
request_loops-count_all to_canonical remote_address ip start live events h =
    request_loops-answers to_canonical remote_address ip (new start) live events
    ∙ answers-count_all ip start (hits to_canonical remote_address live events) h
