-- ===== src/Server/Connection/Drains.antt =====
-- No connection lasts for ever, and a shutdown cuts none off that is beyond its handshake.
use hath_rust.Prelude.{
  ℕ, ◌+◌, ◌-◌, max, ◌≤◌, ◌≡◌, Bool, true, List, map, [], ◌∷◌, Option, none, some, arith,
}
use hath_rust.Server.Connection.{seconds, timeout, process, task, last_end, close_wait}

timeout-le : (limit : ℕ) (t : Option ℕ) → (timeout limit t).0 ≤ limit
unfolding timeout
timeout-le limit none = omega arith
timeout-le limit (some t) = ground arith

process-le :
    (begun : ℕ) (service shutdown : Option ℕ)
    → (process begun service shutdown).0 ≤ begun + seconds 181
unfolding process
process-le begun service none = omega (arith, timeout-le (seconds 181) service)
process-le begun service (some told) = ground (arith, timeout-le (seconds 181) service)

process-told :
    (begun told : ℕ) (service : Option ℕ)
    → (process begun service (some told)).0 ≤ max told begun + seconds 10
unfolding process
process-told begun told service = ground arith

-- A connection's task ends within 191 seconds, whatever the client does.
pub task-le :
    (handshake : Option (ℕ × Bool)) (service shutdown : Option ℕ)
    → (task handshake service shutdown).0 ≤ seconds 191
unfolding task
task-le none service shutdown = omega arith
task-le (some (t, ok)) service shutdown = ground (arith, process-le t service shutdown)

task-told :
    (t told : ℕ) (ok : Bool) (service : Option ℕ)
    → t ≤ told
    → (task (some (t, ok)) service (some told)).0 ≤ told + seconds 10
unfolding task
task-told t told ok service h = ground (arith, process-told t told service)

-- A connection that is open when the server shuts down, at `told`: the time of its accept, and how
-- long its handshake, which is over by then, and its service take.
pub record Client (told : ℕ) : Type 0 where
  pub accepted : ℕ
  pub handshake : ℕ
  pub ok : Bool
  pub service : Option ℕ
  pub in_time : accepted + handshake ≤ told

-- When its task ends.
abbrev pub end_of : {told : ℕ} → Client told → ℕ
end_of {told} c =
    c.accepted + (task (some (c.handshake, c.ok)) c.service (some (told - c.accepted))).0

end_of-le : {told : ℕ} (c : Client told) → end_of c ≤ told + seconds 10
end_of-le {told} c =
    let h = c.in_time in
    omega (arith, task-told c.handshake (told - c.accepted) c.ok c.service (omega arith))

last_end-le : (told : ℕ) (cs : List (Client told)) → last_end told (map end_of cs) ≤ seconds 10
unfolding last_end
last_end-le told [] = omega arith
last_end-le told (c ∷ cs) = omega (arith, end_of-le c, last_end-le told cs)

-- All connections whose handshake is over when the server shuts down end within ten seconds, so the
-- wait at the end of the loop, which is fifteen seconds at most, cuts none of them off.
pub close_wait-Drains :
    (told : ℕ) (cs : List (Client told))
    → ((close_wait told (map end_of cs)).1 ≡ true)
      × ((close_wait told (map end_of cs)).0 ≤ seconds 10)
unfolding close_wait timeout
close_wait-Drains told cs = ground (arith, last_end-le told cs)
