-- ===== src/Rpc/Login.antt =====
-- `RPCClient::login`, `connect_check` and `shutdown` of src/rpc.rs. Messages to the log are left out.
use hath_rust.Prelude.{
  ℕ, ◌-◌, ◌^◌, Bool, true, false, List, [], ◌∷◌, Option, none, some, Bytes, codes, if◌then◌else◌,
  ◌>>=◌, unwrap_or,
}
use hath_rust.Prelude.Int.{ℤ, pos, ltb_ℤ}
use hath_rust.Text.{newline, split, join}
use hath_rust.Text.Decimal.{parse_uint}
use hath_rust.Dict.{Dict, get}
use hath_rust.Crypto.{to_map}
use hath_rust.Rpc.Response.{ApiResponse, is_ok}
use hath_rust.Rpc.Settings.{InitSettings, parse_bool}
use hath_rust.Rpc.Servers.{RpcClient, update_settings}
use hath_rust.Rpc.Client.{
  World, RpcError, version_too_old, api_response_fail, init_settings_missing, Result, ok, err,
  connection_error, check_stat, send_action,
}

abbrev pub api_version : ℤ
api_version = pos 181

abbrev required {ℓ} : {A : Type ℓ} → Bytes → Option A → Result A
required name none = err (init_settings_missing name)
required name (some a) = ok a

abbrev split_ranges : Option Bytes → List Bytes
split_ranges none = []
split_ranges (some s) = split b';' s

init_from : Dict Bytes → Result ℕ → Result Bytes → Result InitSettings
init_from settings (err e) host = err e
init_from settings (ok port) (err e) = err e
init_from settings (ok port) (ok host) = ok (record {
  client_port = port;
  client_host = host;
  verify_cache = unwrap_or false (get (codes "verify_cache") settings >>= parse_bool);
  static_range = split_ranges (get (codes "static_ranges") settings);
})

-- The settings that a login starts with; the port and the host must be there.
unfoldable pub init_settings : Dict Bytes → Result InitSettings
unfolding init_from
init_settings settings =
    init_from settings
      (required (codes "port") (get (codes "port") settings >>= parse_uint (2 ^ 16 - 1)))
      (required (codes "host") (get (codes "host") settings))

module _ (w : World) (normalize : Bytes → Option Bytes) (pick : ℕ) where
  -- `update_settings` comes behind the last `?`.
  unfoldable pub logged_in :
      Dict Bytes → Result InitSettings → RpcClient → Result InitSettings × RpcClient
  logged_in settings (err e) client = (err e, client)
  logged_in settings (ok init) client = (ok init, update_settings normalize pick settings client)

  unfoldable pub login_response : Option ApiResponse → RpcClient → Result InitSettings × RpcClient
  unfolding logged_in
  login_response none client =
      (err (connection_error (codes "Failed to get a login response from server.")), client)
  login_response (some res) client =
      let settings = to_map res.data_ in
      if is_ok res
      then logged_in settings (init_settings settings) client
      else (err (api_response_fail res.status (join (newline ∷ []) res.data_)), client)

  -- Whether a login goes on after `check_stat`.
  unfoldable pub version_check : Result (Option (ℤ × ℤ)) → Option RpcError
  version_check (err e) = some e
  version_check (ok none) = none
  version_check (ok (some (min, new))) =
      if ltb_ℤ api_version min then some version_too_old else none

  -- `RPCClient::login`.
  unfoldable pub login : RpcClient → Result InitSettings × RpcClient
  unfolding version_check login_response
  login client =
      let (stat, client1) = check_stat w client in
      let (res, client2) = send_action w (codes "client_login") none client1 in
      elim (version_check stat) [ some e ↦ (err e, client1) | none ↦ login_response res client2 ]

unfoldable pub started : Option ApiResponse → RpcClient → Bool × RpcClient
started none client = (false, client)
started (some res) client =
    if is_ok res then (true, record client { running = true }) else (false, client)

-- `RPCClient::connect_check`: whether the client was started.
unfoldable pub connect_check : World → RpcClient → Bool × RpcClient
unfolding started
connect_check w client =
    let (res, client') = send_action w (codes "client_start") none client in started res client'

-- `RPCClient::shutdown`.
unfoldable pub shutdown : World → RpcClient → RpcClient
shutdown w client =
    if client.running
    then (send_action w (codes "client_stop") none (record client { running = false })).1
    else client
