-- ===== src/Server/Connection.antt =====
-- The task of a TCP connection in `accept_loop` of src/server/mod.rs, and the wait for the tasks at
-- the end of the loop. Times are milliseconds from the accept; how long the handshake and the
-- service take is an argument, and a future that never ends is `none`.
pub mod Drains
mod Tests
use hath_rust.Prelude.{
  ℕ, ◌+◌, ◌-◌, ◌*◌, max, Bool, true, false, List, [], ◌∷◌, Option, none, some, leb, if◌then◌else◌,
}

abbrev pub seconds : ℕ → ℕ
seconds n = n * 1000

-- `timeout` of tokio: when it ends, and whether the future was in time.
unfoldable pub timeout : ℕ → Option ℕ → ℕ × Bool
timeout limit none = (limit, false)
timeout limit (some t) = if leb t limit then (t, true) else (limit, false)

pub data TaskEnd : Type 0 where
  no_handshake served stopped : TaskEnd

-- Behind the handshake: `serve_connection` in its time, and in ten seconds more once the server
-- shuts down, if it does.
unfoldable pub process : ℕ → Option ℕ → Option ℕ → ℕ × TaskEnd
unfolding timeout
process begun service none = (begun + (timeout (seconds 181) service).0, served)
process begun service (some told) =
    let lasts = (timeout (seconds 181) service).0 in
    let left = told - begun in
    if leb lasts left
    then (begun + lasts, served)
    else (begun + left + (timeout (seconds 10) (some (lasts - left))).0, stopped)

-- The task: the time of the handshake, and whether it succeeds.
unfoldable pub task : Option (ℕ × Bool) → Option ℕ → Option ℕ → ℕ × TaskEnd
unfolding process
task none service shutdown = (seconds 10, no_handshake)
task (some (t, ok)) service shutdown =
    if leb t (seconds 10)
    then (if ok then process t service shutdown else (t, no_handshake))
    else (seconds 10, no_handshake)

-- The last of the tasks, behind the shutdown.
unfoldable pub last_end : ℕ → List ℕ → ℕ
last_end told [] = 0
last_end told (e ∷ ends) = max (e - told) (last_end told ends)

-- The end of the loop: how long it waits for its tasks, and whether all have ended.
unfoldable pub close_wait : ℕ → List ℕ → ℕ × Bool
unfolding timeout last_end
close_wait told ends = timeout (seconds 15) (some (last_end told ends))
