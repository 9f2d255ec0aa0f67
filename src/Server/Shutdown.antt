-- ===== src/Server/Shutdown.antt =====
-- The end of the accept loops: `Server::shutdown`, `ServerHandle` and the heads of both loops of
-- src/server/mod.rs. The loops run beside the task that stops them, so what happens is a relation
-- of steps in any order. `notify_waiters` wakes the futures of `notified` that are there, and none
-- that are made later. The flag is seen by a load as soon as it is stored.
pub mod Halts
mod Tests
use hath_rust.Prelude.{ℕ, ◌+◌, ◌≡◌, Bool, true, false, if◌then◌else◌}
use hath_rust.Prelude.Family.{update}

-- Where an accept loop stands: before it loads the flag, between that and the call of `notified`,
-- in the `select!` with a future that is woken or not, and behind the loop.
pub data Place : Type 0 where
  checking deciding : Place
  waiting : Bool → Place
  closed : Place

-- How far `ServerHandle::shutdown` is.
pub data Stopper : Type 0 where
  running stored finished : Stopper

-- The flag `shutdown` of the handle.
abbrev pub is_set : Stopper → Bool
is_set running = false
is_set stored = true
is_set finished = true

-- The loops of the server, by number, with the connections that each has taken since the flag was
-- set.
pub record Halt : Type 0 where
  pub stopper : Stopper
  pub place : ℕ → Place
  pub late : ℕ → ℕ

-- What one loop does next, by the flag.
pub data Move (flag : Bool) : Place → ℕ → Place → ℕ → Type 0 where
  load_clear : {late : ℕ} → flag ≡ false → Move flag checking late deciding late
  load_set : {late : ℕ} → flag ≡ true → Move flag checking late closed late
  arm : {late : ℕ} → Move flag deciding late (waiting false) late
  -- A connection is ready, which comes first in the `select!`.
  connect :
      {late : ℕ} (woken : Bool)
      → Move flag (waiting woken) late checking (if flag then late + 1 else late)
  wake : {late : ℕ} → Move flag (waiting true) late closed late

-- `notify_waiters` for one loop.
unfoldable pub notify_waiter : Place → Place
notify_waiter checking = checking
notify_waiter deciding = deciding
notify_waiter (waiting woken) = waiting true
notify_waiter closed = closed

-- A step of a loop, or one of the two of `ServerHandle::shutdown`.
pub data Step (s : Halt) : Halt → Type 0 where
  act :
      (i : ℕ) {p : Place} {k : ℕ}
      → Move (is_set s.stopper) (s.place i) (s.late i) p k
      → Step s (record s { place = update s.place i p; late = update s.late i k })
  store : s.stopper ≡ running → Step s (record s { stopper = stored })
  notify :
      s.stopper ≡ stored
      → Step s (record s { stopper = finished; place = λ i. notify_waiter (s.place i) })

abbrev pub init : Halt
init = record { stopper = running; place = λ i. checking; late = λ i. 0 }

pub data Reach : Halt → Type 0 where
  start : Reach init
  later : {s t : Halt} → Reach s → Step s t → Reach t
