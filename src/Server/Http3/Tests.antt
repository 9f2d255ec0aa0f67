-- ===== src/Server/Http3/Tests.antt =====
-- Two connections of one address, in two forms, of which one has ended.
use hath_rust.Prelude.{
  ℕ, ◌-◌, ◌*◌, ◌≡◌, Bool, true, List, [], ◌∷◌, some, Bytes, drop, length, arith, ◌==◌,
  if◌then◌else◌,
}
use hath_rust.Flood.{second, Clock, new}
use hath_rust.Flood.Refines.{fresh, count_all, IsHistory, IsPrompt}
use hath_rust.Server.Http3.{Event, requested, ended, request_loops}
use hath_rust.Server.Http3.Counts.{hits, tasks_of, request_loops-count_all}

-- A form of an address that drops all but its last octet.
abbrev canonical : Bytes → Bytes
canonical ip = drop (length ip - 1) ip

abbrev remote_address : ℕ → Bytes
remote_address c = if c == 0 then 10 ∷ [] else 0 ∷ 10 ∷ []

abbrev live : ℕ → Bool
live c = true

abbrev at : ℕ → Clock
at now = record { now = now; at_clean = now; at_retain = λ ip. now }

abbrev events : List (ℕ × Event)
events =
    (0, requested (at (1 * second)))
    ∷ (0, ended)
    ∷ (1, requested (at (2 * second)))
    ∷ (0, requested (at (3 * second)))
    ∷ []

prompt : (now : ℕ) → IsPrompt (10 ∷ []) (at now)
prompt now = record { forward = omega arith; soon = omega arith }

history : IsHistory (10 ∷ []) 0 (hits canonical remote_address live events)
history = (omega arith, (prompt (1 * second), (omega arith, (prompt (2 * second), tt))))

request_loops-count_all_example :
    tasks_of canonical remote_address
      (10 ∷ [])
      (request_loops canonical remote_address (some (new 0)) live events)
    ≡ count_all (10 ∷ []) fresh (hits canonical remote_address live events)
request_loops-count_all_example =
    request_loops-count_all canonical remote_address (10 ∷ []) 0 live events history
