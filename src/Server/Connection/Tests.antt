-- ===== src/Server/Connection/Tests.antt =====
-- A connection whose service never ends, and one whose handshake fails.
use hath_rust.Prelude.{◌≤◌, ◌≡◌, true, false, List, map, [], ◌∷◌, none, some, arith}
use hath_rust.Server.Connection.{seconds, close_wait}
use hath_rust.Server.Connection.Drains.{Client, end_of, close_wait-Drains}

abbrev clients : List (Client 5000)
clients =
    record { accepted = 1000; handshake = 30; ok = true; service = none; in_time = omega arith }
    ∷ record {
      accepted = 4000;
      handshake = 50;
      ok = false;
      service = some 7;
      in_time = omega arith;
    }
    ∷ []

close_wait-Drains_example :
    ((close_wait 5000 (map end_of clients)).1 ≡ true)
    × ((close_wait 5000 (map end_of clients)).0 ≤ seconds 10)
close_wait-Drains_example = close_wait-Drains 5000 clients
