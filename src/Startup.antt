-- ===== src/Startup.antt =====
-- The start of the program in `main` of src/main.rs, from the login to the purge list: what the
-- client asks of the central servers, and the ends that it may come to. What the machine does is an
-- argument. Pauses, messages to the log and the proxy are left out.
pub mod Sends
pub mod Orders
mod Tests
use hath_rust.Prelude.{
  ℕ, Bool, true, false, List, [], Option, none, some, Bytes, codes, if◌then◌else◌,
}
use hath_rust.Prelude.Int.{ℤ}
use hath_rust.Dict.{Dict}
use hath_rust.Rpc.Settings.{InitSettings}
use hath_rust.Rpc.Servers.{RpcClient, new_client}
use hath_rust.Rpc.Client.{
  World, Reply, body, request_error, RpcError, ok, err, build_url, send_request,
}
use hath_rust.Rpc.Calls.{refresh_settings, get_purgelist}
use hath_rust.Rpc.Login.{login, connect_check}
use hath_rust.CacheStore.{CacheState}
use hath_rust.Scan.Walk.{Root}
use hath_rust.Scan.Cache.{Opened, new_manager}

-- The options, and what the machine does: the saved cache states, the cache directory, the space on
-- the disk, the parser of the certificate (the crate `p12`), and whether the port can be bound.
pub record Machine : Type 0 where
  pub disable_ip_check : Bool
  pub max_connection : ℕ
  pub rpc_server_ip : Option Bytes
  pub force_background_scan : Bool
  pub saved : Option (Dict CacheState)
  pub root : Root
  pub free : Option ℕ
  pub parse_p12 : Bytes → Bytes → Option Bytes
  pub binds : Bool

-- Why the program ends; without a certificate it panics.
pub data Exit : Type 0 where
  login_failed : RpcError → Exit
  cache_failed no_certificate server_failed start_refused : Exit

-- Where the start ends: with the client as it is then, or in operation, with the cache and the list
-- of files to purge.
pub data Outcome : Type 0 where
  exited : Exit → RpcClient → Outcome
  up : Opened → Option (List Bytes) → RpcClient → Outcome

module _ (w : World) (normalize : Bytes → Option Bytes) (pick : ℕ) (m : Machine) where
  parsed_cert : Bytes → Reply → Option Bytes
  parsed_cert key (request_error f) = none
  parsed_cert key (body data_) = m.parse_p12 data_ key

  -- `RPCClient::get_cert`.
  unfoldable pub get_cert : RpcClient → Option Bytes × RpcClient
  unfolding parsed_cert
  get_cert client =
      let (reply, client') =
        send_request w (build_url w client (codes "get_cert") [] none) client in
      (parsed_cert client.key reply, client')

  -- The settings and the purge list, when the servers know that the client is up.
  unfoldable pub begin_operation : Opened → RpcClient → Outcome
  begin_operation o client =
      let (list, client') = get_purgelist w 259200 (refresh_settings w normalize pick client) in
      up o list client'

  -- The server listens, and the servers are told.
  unfoldable pub notify_start : Opened → RpcClient → Outcome
  unfolding begin_operation
  notify_start o client =
      let (started, client') = connect_check w client in
      if started then begin_operation o client' else exited start_refused client'

  -- The certificate and the server.
  unfoldable pub start_server : Opened → RpcClient → Outcome
  unfolding notify_start get_cert
  start_server o client =
      let (cert, client') = get_cert client in
      elim cert [
        | none ↦ exited no_certificate client'
        | some cert ↦ if m.binds then notify_start o client' else exited server_failed client'
      ]

  -- The cache.
  unfoldable pub open_cache : InitSettings → RpcClient → Outcome
  unfolding start_server
  open_cache init client =
      let o =
        new_manager w.crypto init.static_range init.verify_cache m.force_background_scan m.free
          m.saved m.root in
      if o.returned then start_server o client else exited cache_failed client

  -- The start with a credential.
  unfoldable pub startup : ℤ → Bytes → Outcome
  unfolding open_cache
  startup id key =
      let client = new_client id key m.disable_ip_check m.max_connection m.rpc_server_ip in
      let (init, client') = login w normalize pick client in
      elim init [
        | err e ↦ exited (login_failed e) client'
        | ok settings ↦ open_cache settings client'
      ]
