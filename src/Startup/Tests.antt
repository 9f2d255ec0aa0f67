-- ===== src/Startup/Tests.antt =====
-- A start that the servers accept.
use hath_rust.Prelude.{
  ◌≡◌, refl, Bool, true, false, [], some, none, Bytes, codes, ◌==◌, if◌then◌else◌, bytes_eq,
}
use hath_rust.Prelude.Int.{pos}
use hath_rust.FileId.Hex.{sample}
use hath_rust.Samples.{crypto, pad, answer}
use hath_rust.Rpc.Client.{World, body}
use hath_rust.Rpc.Login.{init_settings, login, connect_check}
use hath_rust.Rpc.Client.{send_action}
use hath_rust.Rpc.Response.{is_ok, is_key_expired, is_hash_fail, parse_response}
use hath_rust.Rpc.Servers.{new_client, update_settings}
use hath_rust.Text.{split, lines, join, starts_with}
use hath_rust.Text.Decimal.{parse_int, show, show_int}
use hath_rust.Crypto.{string_to_hash, to_map}
use hath_rust.Dict.{get, insert}
use hath_rust.Scan.Cache.{scan_cache, new_manager}
use hath_rust.Scan.Walk.{walk_tops, walk}
use hath_rust.Scan.{scan_dirs}
use hath_rust.Startup.{Machine, Outcome, exited, up, startup}
use hath_rust.Startup.Orders.{IsOrdered, startup-IsOrdered}

-- The login is the second request; its answer holds the settings `host=a` and `port=1`.
abbrev login_answer : Bytes
login_answer = codes "OK-5-352d6b0a686f73743d610a706f72743d31000000\nhost=a\nport=1"

abbrev world : World
world = record {
  crypto = crypto;
  net = λ n. record {
    signed_at = pos 5;
    reply = body (if n == 1 then login_answer else answer);
    took = 0;
    ended_at = pos 0;
    pick = 0;
  };
  shift = λ t o. t;
  is_time = λ t. true;
}

abbrev machine : Machine
machine = record {
  disable_ip_check = false;
  max_connection = 0;
  rpc_server_ip = none;
  force_background_scan = false;
  saved = none;
  root = record { opens = true; tops = []; ends = true };
  free = none;
  parse_p12 = λ data_ key. some data_;
  binds = true;
}

startup-IsOrdered_example :
    IsOrdered world some 0 machine (startup world some 0 machine (pos 7) (codes "k"))
startup-IsOrdered_example = startup-IsOrdered world some 0 machine (pos 7) (codes "k")

abbrev is_up : Outcome → Bool
is_up (exited e client) = false
is_up (up o list client) = true

starts : is_up (startup world some 0 machine (pos 7) (codes "k")) ≡ true
unfolding startup init_settings login connect_check send_action is_ok is_key_expired is_hash_fail
    parse_response new_client update_settings split lines join starts_with parse_int show show_int
    string_to_hash to_map get insert scan_cache new_manager walk_tops walk scan_dirs pad sample
    bytes_eq
starts = refl
