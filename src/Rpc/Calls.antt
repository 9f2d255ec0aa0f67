-- ===== src/Rpc/Calls.antt =====
-- The other operations of `RPCClient` (src/rpc.rs). Messages to the log are left out.
use hath_rust.Prelude.{
  ℕ, Bool, true, ◌||◌, not, List, [], ◌∷◌, ◌++◌, Option, none, some, Bytes, codes, bytes_eq, length,
  leb, if◌then◌else◌,
}
use hath_rust.Prelude.Int.{ℤ}
use hath_rust.Text.{lines, join, starts_with, is_empty}
use hath_rust.Text.Decimal.{show, show_int}
use hath_rust.Crypto.{to_map}
use hath_rust.Rpc.Response.{ApiResponse, is_ok}
use hath_rust.Rpc.Servers.{RpcClient, update_settings}
use hath_rust.Rpc.Client.{World, Reply, body, request_error, build_url, send_request, send_action}

-- The data of a successful answer.
abbrev pub data_of : Option ApiResponse → Option (List Bytes)
data_of none = none
data_of (some res) = if is_ok res then some res.data_ else none

module _ (w : World) where
  -- `RPCClient::get_purgelist`.
  unfoldable pub get_purgelist : ℕ → RpcClient → Option (List Bytes) × RpcClient
  get_purgelist delta_time client =
      let (res, client') = send_action w (codes "get_blacklist") (some (show delta_time)) client in
      (data_of res, client')

  -- `RPCClient::sr_fetch`.
  unfoldable pub sr_fetch : Bytes → Bytes → Bytes → RpcClient → Option (List Bytes) × RpcClient
  sr_fetch file_index xres file_id client =
      let add = join (b';' ∷ []) (file_index ∷ xres ∷ file_id ∷ []) in
      let (res, client') = send_action w (codes "srfetch") (some add) client in
      (data_of res, client')

  -- `RPCClient::dl_fetch`.
  unfoldable pub dl_fetch : ℤ → ℕ → ℕ → Bytes → ℕ → RpcClient → Option (List Bytes) × RpcClient
  dl_fetch gid page fileindex xres retry client =
      let add =
        join (b';' ∷ []) (show_int gid ∷ show page ∷ show fileindex ∷ xres ∷ show retry ∷ []) in
      let (res, client') = send_action w (codes "dlfetch") (some add) client in
      (data_of res, client')

  -- `RPCClient::dl_fails`; `chosen` is what `fastrand::choose_multiple` makes of the failures.
  unfoldable pub dl_fails : (List Bytes → List Bytes) → List Bytes → RpcClient → RpcClient
  dl_fails chosen failures client =
      let list = if leb (length failures) 50 then failures else chosen failures in
      let (res, client') = send_action w (codes "dlfails") (some (join (b';' ∷ []) list)) client in
      if is_empty failures then client else client'

  queue_lines : List Bytes → Option (List Bytes)
  queue_lines [] = some []
  queue_lines (first ∷ rest) =
      if bytes_eq first (codes "INVALID_REQUEST") || bytes_eq first (codes "NO_PENDING_DOWNLOADS")
      then none
      else some (first ∷ rest)

  queue_reply : Reply → Option (List Bytes)
  unfolding queue_lines
  queue_reply (request_error _) = none
  queue_reply (body text) = queue_lines (lines text)

  -- `RPCClient::fetch_queue`; a gallery is its number and its least resolution.
  unfoldable pub fetch_queue : Option (ℤ × Bytes) → RpcClient → Option (List Bytes) × RpcClient
  unfolding queue_reply
  fetch_queue gallery client =
      let additional : Bytes = elim gallery [
        | none ↦ []
        | some (gid, minxres) ↦ show_int gid ++ (b';' ∷ minxres)
      ] in
      let url = build_url w client (codes "fetchqueue") additional (some (codes "dl")) in
      let (reply, client') = send_request w url client in (queue_reply reply, client')

  -- `RPCClient::notify_overload`.
  unfoldable pub notify_overload : RpcClient → RpcClient
  notify_overload client = (send_action w (codes "overload") none client).1

  alive : Option ApiResponse → Bool
  alive none = true
  alive (some res) =
      is_ok res
      || not (
          starts_with res.status (codes "TERM_BAD_NETWORK")
          || starts_with res.status (codes "FAIL_NOT_LOGGED_IN"))

  -- `RPCClient::still_alive`: false asks the program to shut down.
  unfoldable pub still_alive : Bool → RpcClient → Bool × RpcClient
  unfolding alive
  still_alive resume client =
      let add = if resume then codes "resume" else [] in
      let (res, client') = send_action w (codes "still_alive") (some add) client in
      (alive res, client')

  unfoldable pub refreshed : (Bytes → Option Bytes) → ℕ → Option ApiResponse → RpcClient → RpcClient
  refreshed normalize pick none client = client
  refreshed normalize pick (some res) client =
      if is_ok res then update_settings normalize pick (to_map res.data_) client else client

  -- `RPCClient::refresh_settings`.
  unfoldable pub refresh_settings : (Bytes → Option Bytes) → ℕ → RpcClient → RpcClient
  unfolding refreshed
  refresh_settings normalize pick client =
      let (res, client') = send_action w (codes "client_settings") none client in
      refreshed normalize pick res client'
