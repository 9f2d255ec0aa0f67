-- ===== src/Rpc/Client.antt =====
-- The requests of `RPCClient` (src/rpc.rs): signing, sending, and retrying. The network and the
-- clock are parameters: the n-th request that a client sends gets the n-th exchange. `chrono`'s
-- checked addition of a number of seconds to the time is the parameter `shift`.
use hath_rust.Prelude.{
  ℕ, zero, suc, ◌-◌, ◌*◌, ◌/◌, ◌^◌, Bool, [], ◌∷◌, Option, none, some, Bytes, codes, length,
  if◌then◌else◌, ◌>>=◌, unwrap_or,
}
use hath_rust.Prelude.Int.{ℤ, pos, negsuc, ◌+ℤ◌, ◌-ℤ◌}
use hath_rust.Text.{newline, join}
use hath_rust.Text.Decimal.{parse_int, show_int}
use hath_rust.Dict.{Dict, get}
use hath_rust.Crypto.{Crypto, string_to_hash, to_map}
use hath_rust.Rpc.Response.{
  ApiResponse, is_ok, is_key_expired, is_hash_fail, i32_max, parse_response,
}
use hath_rust.Rpc.Servers.{RpcClient, Url, change_server}

-- How a request ends: with a body, or with an error. The flag of an error says that it is one of
-- connection, of time, or of the server (5xx).
pub data Reply : Type 0 where
  body : Bytes → Reply
  request_error : Bool → Reply

-- One request as the world sees it: the time in seconds when it is signed, the reply, how long it
-- took and the time behind it in nanoseconds, and the random number of a change of server.
pub record Exchange : Type 0 where
  pub signed_at : ℤ
  pub reply : Reply
  pub took : ℕ
  pub ended_at : ℤ
  pub pick : ℕ

pub record World : Type 0 where
  pub crypto : Crypto
  pub net : ℕ → Exchange
  -- The time shifted by a number of seconds, or the time where `chrono` cannot shift it.
  pub shift : ℤ → ℤ → ℤ
  -- `Utc.timestamp_opt(time, 0).single()`: whether a number of seconds is a time.
  pub is_time : ℤ → Bool

pub data RpcError : Type 0 where
  version_too_old : RpcError
  api_response_fail : Bytes → Bytes → RpcError
  init_settings_missing : Bytes → RpcError

pub data Result {ℓ} (A : Type ℓ) : Type ℓ where
  ok : A → Result A
  err : RpcError → Result A

-- `Error::connection_error`.
unfoldable pub connection_error : Bytes → RpcError
connection_error message = api_response_fail (codes "CONNECTION_FAILED") message

-- The seconds of a number of nanoseconds: `TimeDelta::num_seconds` rounds towards zero.
unfoldable pub num_seconds : ℤ → ℤ
num_seconds (pos n) = pos (n / 10 ^ 9)
num_seconds (negsuc n) = pos 0 -ℤ pos (suc n / 10 ^ 9)

times_billion : ℤ → ℤ
times_billion (pos n) = pos (n * 10 ^ 9)
times_billion (negsuc n) = pos 0 -ℤ pos (suc n * 10 ^ 9)

module _ (w : World) where
  -- The exchange that the next request of a client gets.
  abbrev pub upcoming : RpcClient → Exchange
  upcoming client = w.net (length client.requests)

  -- `RPCClient::get_timestemp`.
  unfoldable pub get_timestemp : RpcClient → ℤ
  get_timestemp client = w.shift (upcoming client).signed_at client.clock_offset

  -- `RPCClient::build_url`.
  unfoldable pub build_url : RpcClient → Bytes → Bytes → Option Bytes → Url
  unfolding get_timestemp
  build_url client action additional endpoint =
      let timestamp = get_timestemp client in
      record {
        host = client.host;
        endpoint = endpoint;
        act = action;
        add = additional;
        cid = client.id;
        acttime = timestamp;
        actkey = string_to_hash w.crypto (
            join (b'-' ∷ []) (
              codes "hentai@home"
              ∷ action
              ∷ additional
              ∷ show_int client.id
              ∷ show_int timestamp
              ∷ client.key
              ∷ []));
      }

  -- `RPCClient::send_request`: the reply, and the client with the request in its history.
  unfoldable pub send_request : Url → RpcClient → Reply × RpcClient
  send_request url client =
      ((upcoming client).reply, record client { requests = url ∷ client.requests })

  -- `change_server` draws a number of the last exchange.
  change_after : Exchange → RpcClient → RpcClient
  change_after e client = change_server e.pick client

  parse_time : Bytes → Option ℤ
  parse_time s = do t ← parse_int (2 ^ 63 - 1) s; if w.is_time t then some t else none

  parsed_pair : Option ℤ → Option ℤ → Option (ℤ × ℤ)
  parsed_pair min new = do a ← min; b ← new; some (a, b)

  -- The new clock offset from the server's time, if it has sent one.
  unfoldable pub sync_clock : Exchange → Dict Bytes → RpcClient → RpcClient
  unfolding parse_time times_billion num_seconds
  sync_clock e data_ client = elim (get (codes "server_time") data_ >>= parse_time) [
    | none ↦ client
    | some time ↦ record client {
      clock_offset = num_seconds (times_billion time +ℤ pos (e.took / 4) -ℤ e.ended_at);
    }
  ]

  unfoldable pub check_response :
      Exchange → ApiResponse → RpcClient → Result (Option (ℤ × ℤ)) × RpcClient
  unfolding sync_clock parsed_pair
  check_response e res client =
      let data_ = to_map res.data_ in
      if is_ok res
      then (
        ok (
            parsed_pair (get (codes "min_client_build") data_ >>= parse_int i32_max)
              (get (codes "cur_client_build") data_ >>= parse_int i32_max)),
        sync_clock e data_ client,
      )
      else (err (api_response_fail res.status (join (newline ∷ []) res.data_)), client)

  unfoldable pub check_reply : Exchange → Reply → RpcClient → Result (Option (ℤ × ℤ)) × RpcClient
  unfolding check_response
  check_reply e (request_error _) client =
      (err (connection_error (codes "Failed to get initial stat from server.")), client)
  check_reply e (body text) client =
      check_response e (parse_response w.crypto client.key client.host text) client

  -- `RPCClient::check_stat`.
  unfoldable pub check_stat : RpcClient → Result (Option (ℤ × ℤ)) × RpcClient
  unfolding check_reply build_url send_request
  check_stat client =
      let url = build_url client (codes "server_stat") [] none in
      let (reply, client') = send_request url client in check_reply (upcoming client) reply client'

  -- What one round of `send_action` makes of a reply: the answer to return, or the client to go on
  -- with.
  unfoldable pub handle_reply : Exchange → Reply → RpcClient → Option ApiResponse × RpcClient
  unfolding check_stat change_after
  handle_reply e (request_error server_fault) client =
      (none, if server_fault then change_after e client else client)
  handle_reply e (body text) client =
      let response = parse_response w.crypto client.key client.host text in
      if is_key_expired response
      then (none, (check_stat client).1)
      else if is_hash_fail response
      then (none, change_after e client)
      else (some response, client)

  -- The rounds of `send_action` that are left.
  unfoldable pub attempts : ℕ → Bytes → Bytes → RpcClient → Option ApiResponse × RpcClient
  unfolding handle_reply
  attempts zero action additional client = (none, client)
  attempts (suc n) action additional client =
      let (reply, sent) = send_request (build_url client action additional none) client in
      let (answer, client') = handle_reply (upcoming client) reply sent in
      let again = attempts n action additional client' in
      elim answer [ some response ↦ (some response, client') | none ↦ again ]

  -- `RPCClient::send_action`: `none` is an error, of whatever kind.
  unfoldable pub send_action : Bytes → Option Bytes → RpcClient → Option ApiResponse × RpcClient
  unfolding attempts
  send_action action additional client = attempts 3 action (unwrap_or [] additional) client
