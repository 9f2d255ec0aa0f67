-- ===== src/Server.antt =====
-- The loop of src/server/mod.rs that accepts connections, with the flood control in front of them.
-- Sockets, TLS and HTTP stand behind it: a turn of the loop is the shutdown flag that it reads and
-- what it waits for. An accept that fails is tried again, and shows in no turn. The form of an
-- address that `to_canonical` of the standard library gives is an argument.
pub mod Accepts
pub mod Connection
pub mod Options
pub mod Layers
pub mod Stream
pub mod Http3
pub mod Shutdown
pub mod Cert
mod Tests
use hath_rust.Prelude.{Bool, true, false, List, [], ◌∷◌, Option, none, some, Bytes, if◌then◌else◌}
use hath_rust.Flood.{FloodControl, Clock, hit}

-- What a turn waits for: a connection of an address, at the clock that the flood control reads, or
-- the notification of the shutdown.
pub data Arrival : Type 0 where
  connected : Bytes → Clock → Arrival
  notified : Arrival

-- The shutdown flag at the head of the loop, and what comes then.
abbrev pub Turn : Type 0
Turn = Bool × Arrival

-- `is_some_and(|fc| fc.hit(addr))`.
unfoldable pub flood_hit : Bytes → Clock → Option FloodControl → Option FloodControl × Bool
flood_hit addr clock none = (none, false)
flood_hit addr clock (some fc) = let (fc', refused) = hit addr clock fc in (some fc', refused)

-- The connections that come, and whether each is reset or handed to its task.
pub data Handling : Type 0 where
  reset processed : Handling

module _ (to_canonical : Bytes → Bytes) where
  unfoldable pub accept_loop : Option FloodControl → List Turn → List (Bytes × Handling)
  unfolding flood_hit
  accept_loop fc [] = []
  accept_loop fc ((true, a) ∷ turns) = []
  accept_loop fc ((false, notified) ∷ turns) = []
  accept_loop fc ((false, connected ip clock) ∷ turns) =
      let addr = to_canonical ip in
      let (fc', refused) = flood_hit addr clock fc in
      (addr, if refused then reset else processed) ∷ accept_loop fc' turns
