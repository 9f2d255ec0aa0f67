-- ===== src/Rpc/Tests.antt =====
-- A client of two servers whose requests are all answered with a successful answer.
use hath_rust.Prelude.{
  ℕ, ◌≡◌, ◌≢◌, ◌≤◌, refl, true, List, [], ◌∷◌, none, some, Bytes, codes, bytes_eq, arith, inl, inr,
}
use hath_rust.Text.{lines, split, starts_with}
use hath_rust.Text.Decimal.{show_int, parse_int, parse_uint, show}
use hath_rust.Crypto.{string_to_hash}
use hath_rust.FileId.Hex.{sample}
use hath_rust.Samples.{crypto, client, world, answer, pad}
use hath_rust.Rpc.Response.{
  ApiResponse, is_ok, is_key_expired, is_hash_fail, hash_body, parse_ok, parse_lines,
  parse_response,
}
use hath_rust.Rpc.Authentic.{IsAuthentic, parse_response-IsAuthentic}
use hath_rust.Rpc.Settings.{max_connection, max_connection_bounds}
use hath_rust.Rpc.Servers.{change_server}
use hath_rust.Rpc.Choice.{Among, IsDistinct, change_server_moves}
use hath_rust.Rpc.Client.{body, handle_reply, attempts, send_action, send_request}
use hath_rust.Rpc.Session.{Keeps, send_action-Keeps}
use hath_rust.Rpc.Answers.{send_action-IsAuthentic}

abbrev key : Bytes
key = codes "k"

answer_ok : is_ok (parse_response crypto key (codes "a") answer) ≡ true
unfolding is_ok parse_response parse_lines parse_ok hash_body lines split starts_with parse_int
    parse_uint show_int show string_to_hash sample pad bytes_eq
answer_ok = refl

parse_response-IsAuthentic_example :
    (status : Bytes) × (rest : List Bytes) × (lines answer ≡ status ∷ rest)
    × IsAuthentic crypto key rest status
    × ((parse_response crypto key (codes "a") answer).data_ ≡ rest)
parse_response-IsAuthentic_example =
    parse_response-IsAuthentic crypto key (codes "a") answer answer_ok

abbrev received : ApiResponse
received = record { status = codes "OK"; data_ = [] }

sent : (send_action world (codes "overload") none client).0 ≡ some received
unfolding send_action attempts handle_reply send_request is_key_expired is_hash_fail parse_response
    parse_lines parse_ok hash_body lines split starts_with parse_int parse_uint show_int show
    string_to_hash sample pad bytes_eq
sent = refl

received_ok : is_ok received ≡ true
unfolding is_ok bytes_eq
received_ok = refl

send_action-IsAuthentic_example :
    (index : ℕ) × (text : Bytes) × (status : Bytes) × ((world.net index).reply ≡ body text)
    × (lines text ≡ status ∷ received.data_)
    × IsAuthentic crypto key received.data_ status
send_action-IsAuthentic_example =
    send_action-IsAuthentic world (codes "overload") none client received sent received_ok

send_action-Keeps_example :
    Keeps world client (send_action world (codes "overload") none client).1 1 6
send_action-Keeps_example = send_action-Keeps world (codes "overload") none client

differ : ¬ Among (codes "a") (codes "b" ∷ [])
differ (inl e) = ground arith
differ (inr o) = o

servers_differ : IsDistinct client.rpc_servers
servers_differ = (differ, ((λ o. o), tt))

change_server_moves_example :
    Among (change_server 3 client).host client.rpc_servers
    × ((change_server 3 client).host ≢ client.host)
change_server_moves_example = change_server_moves 3 client servers_differ (omega arith)

max_connection_bounds_example :
    (20 ≤ max_connection client.settings) × (max_connection client.settings ≤ 500)
max_connection_bounds_example = max_connection_bounds client.settings refl
