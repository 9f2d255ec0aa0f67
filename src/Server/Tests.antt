-- ===== src/Server/Tests.antt =====
-- Connections of one address in two forms, before and behind the shutdown.
use hath_rust.Prelude.{
  ℕ, ◌-◌, ◌*◌, ◌≡◌, true, false, List, map, [], ◌∷◌, some, Bytes, drop, length, arith,
}
use hath_rust.Flood.{second, Clock, new}
use hath_rust.Flood.Refines.{fresh, count_all, IsHistory, IsPrompt}
use hath_rust.Server.{connected, Turn, accept_loop}
use hath_rust.Server.Accepts.{
  arrivals, handling, of_address, addresses, origins, accept_loop-count_all,
}

-- A form of an address that drops all but its last octet.
abbrev canonical : Bytes → Bytes
canonical ip = drop (length ip - 1) ip

abbrev at : ℕ → Clock
at now = record { now = now; at_clean = now; at_retain = λ ip. now }

abbrev turns : List Turn
turns =
    (false, connected (10 ∷ []) (at (1 * second)))
    ∷ (false, connected (0 ∷ 10 ∷ []) (at (2 * second)))
    ∷ (true, connected (10 ∷ []) (at (3 * second)))
    ∷ []

prompt : (now : ℕ) → IsPrompt (10 ∷ []) (at now)
prompt now = record { forward = omega arith; soon = omega arith }

history : IsHistory (10 ∷ []) 0 (arrivals canonical turns)
history = (omega arith, (prompt (1 * second), (omega arith, (prompt (2 * second), tt))))

accept_loop-count_all_example :
    (addresses (accept_loop canonical (some (new 0)) turns) ≡ origins (arrivals canonical turns))
    × (of_address (10 ∷ []) (accept_loop canonical (some (new 0)) turns)
        ≡ map handling (count_all (10 ∷ []) fresh (arrivals canonical turns)))
accept_loop-count_all_example = accept_loop-count_all canonical (10 ∷ []) 0 turns history
