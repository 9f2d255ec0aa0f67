-- ===== src/Server/Http3.antt =====
-- The connections of `accept_loop_h3` of src/server/mod.rs: how they are accepted, and the loops of
-- all of them over their requests, which share one flood control. Its lock makes each hit one step,
-- so the events of the connections stand in the order of their hits. A connection is a number. What
-- a request's task sends is Stream's.
pub mod Counts
mod Tests
use hath_rust.Prelude.{
  ℕ, Bool, true, false, List, [], ◌∷◌, Option, none, some, Bytes, ◌&&◌, ◌||◌, ◌==◌, if◌then◌else◌,
}
use hath_rust.Prelude.Family.{update}
use hath_rust.Flood.{FloodControl, Clock}
use hath_rust.Server.{flood_hit}

-- What a turn of the accept loop waits for, and how a connection's handshakes end: the connection
-- is not accepted, its TLS data or the HTTP/3 settings do not come, or it is ready.
pub data Handshake : Type 0 where
  refused no_data not_h3 ready : Handshake

pub data Arrival : Type 0 where
  incoming : ℕ → Handshake → Arrival
  notified : Arrival

abbrev pub is_ready : Handshake → Bool
is_ready refused = false
is_ready no_data = false
is_ready not_h3 = false
is_ready ready = true

-- The accept loop, by the flag at the head of each turn: the connections whose task reaches its
-- request loop.
unfoldable pub accept_loop_h3 : List (Bool × Arrival) → List ℕ
accept_loop_h3 [] = []
accept_loop_h3 ((true, a) ∷ turns) = []
accept_loop_h3 ((false, notified) ∷ turns) = []
accept_loop_h3 ((false, incoming c handshake) ∷ turns) =
    let rest = accept_loop_h3 turns in if is_ready handshake then c ∷ rest else rest

-- What the `select!` of a connection's loop gives: a request, with the clock of its hit, no more
-- requests or an error, or the shutdown.
pub data Event : Type 0 where
  requested : Clock → Event
  ended : Event
  stopping : Event

-- What a loop does: it tells the client to send no requests beyond some, or it spawns the task of a
-- request, blocked or not.
pub data Action : Type 0 where
  goaway : ℕ → Action
  task : Bool → Action

-- The task of a request that is accepted, in front of it the message to a blocked client.
abbrev pub spawn : ℕ → Bool → List (ℕ × Action) → List (ℕ × Action)
spawn c blocked rest =
    if blocked then (c, goaway 0) ∷ (c, task blocked) ∷ rest else (c, task blocked) ∷ rest

module _ (to_canonical : Bytes → Bytes) (remote_address : ℕ → Bytes) where
  -- The loops of the connections that are open.
  unfoldable pub request_loops :
      Option FloodControl → (ℕ → Bool) → List (ℕ × Event) → List (ℕ × Action)
  unfolding flood_hit
  request_loops fc live [] = []
  request_loops fc live ((c, requested clock) ∷ events) =
      let (fc', blocked) = flood_hit (to_canonical (remote_address c)) clock fc in
      let rest = request_loops fc' live events in
      let skipped = request_loops fc live events in if live c then spawn c blocked rest else skipped
  request_loops fc live ((c, ended) ∷ events) = request_loops fc (update live c false) events
  request_loops fc live ((c, stopping) ∷ events) =
      let rest = request_loops fc (update live c false) events in
      if live c then (c, goaway 1) ∷ rest else rest
