-- ===== src/Server/Layers/Tests.antt =====
-- A page that is not there, and a handler that takes too long.
use hath_rust.Prelude.{◌≡◌, refl, true, false, [], some, codes, bytes_eq}
use hath_rust.Dict.{get, insert}
use hath_rust.Server.Connection.{timeout}
use hath_rust.Server.Layers.{
  default_page, robots, in_time, timely, default_headers, server_text, layered,
}

missing : (layered false (codes "1.19.0") (some 5) default_page).status ≡ 404
unfolding layered in_time timely timeout default_page
missing = refl

slow :
    layered false (codes "1.19.0") (some 181001) robots
    ≡ record { status = 503; headers = []; body = [] }
unfolding layered in_time timely timeout
slow = refl

named :
    get (codes "server") (layered true (codes "1.19.0") (some 5) robots).headers
    ≡ some (codes "Genetic Lifeform and Distributed Open Server 1.6.6 (Rust 1.19.0)")
unfolding layered in_time timely timeout default_headers server_text robots get insert bytes_eq
named = refl
