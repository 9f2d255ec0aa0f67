-- ===== src/Startup/Orders.antt =====
-- The servers are told of the start only when there is a cache and a server to tell of.
use hath_rust.Text.Decimal.{show}
use hath_rust.Crypto.{to_map}
use hath_rust.Prelude.{
  bytes_eq, bytes_eq_iff, ℕ, ◌≡◌, ◌≢◌, refl, ◌∙◌, true, false, [], Option, none, some, Bytes, codes,
  All, unwrap_or, arith, Bool-cases, Option-cases, if_cases, option_cases, inl, inr,
}
use hath_rust.Prelude.Int.{ℤ}
use hath_rust.Dict.{Dict}
use hath_rust.Rpc.Response.{ApiResponse, is_ok}
use hath_rust.Rpc.Settings.{InitSettings}
use hath_rust.Rpc.Servers.{RpcClient, Url, new_client, update_settings, change_server}
use hath_rust.Rpc.Client.{World, Result, ok, err, build_url, send_request, check_stat, send_action}
use hath_rust.Rpc.Calls.{refresh_settings, refreshed, get_purgelist}
use hath_rust.Rpc.Login.{
  login, logged_in, login_response, version_check, started, connect_check, init_settings,
}
use hath_rust.Scan.Cache.{Opened, new_manager}
use hath_rust.Startup.{
  Machine, login_failed, cache_failed, no_certificate, server_failed, start_refused, Outcome,
  exited, up, get_cert, begin_operation, notify_start, start_server, open_cache, startup,
}
use hath_rust.Startup.Sends.{Sends, Sends-trans, Sends-same, check_stat-Sends, send_action-Sends}

-- A request that does not tell the servers that the client has started.
abbrev pub IsQuiet : Url → Type 0
IsQuiet u = u.act ≢ codes "client_start"

-- The servers were not told, and the client does not run.
abbrev pub IsUntold : RpcClient → Type 0
IsUntold c = (c.running ≡ false) × All IsQuiet c.requests

update_settings-Sends :
    (P : Url → Type 0) (normalize : Bytes → Option Bytes) (pick : ℕ) (settings : Dict Bytes)
    (a : RpcClient)
    → Sends P a (update_settings normalize pick settings a)
unfolding update_settings change_server
update_settings-Sends P normalize pick settings a =
    Sends-same P a (update_settings normalize pick settings a) (ground arith) (ground arith)

module _ (w : World) where
  act-IsQuiet :
      (action additional : Bytes) (endpoint : Option Bytes) (c : RpcClient)
      → bytes_eq action (codes "client_start") ≡ false
      → IsQuiet (build_url w c action additional endpoint)
  unfolding build_url
  act-IsQuiet action additional endpoint c h =
      λ e. cc ((bytes_eq_iff action (codes "client_start")).1 e, h)

  send-Quiet :
      (action : Bytes) (additional : Option Bytes) (a : RpcClient)
      → bytes_eq action (codes "client_start") ≡ false
      → Sends IsQuiet a (send_action w action additional a).1
  unfolding bytes_eq
  send-Quiet action additional a h =
      send_action-Sends IsQuiet w (λ c. act-IsQuiet (codes "server_stat") [] none c refl) action
        additional (λ c. act-IsQuiet action (unwrap_or [] additional) none c h) a

  stat-Quiet : (a : RpcClient) → Sends IsQuiet a (check_stat w a).1
  unfolding bytes_eq
  stat-Quiet a =
      check_stat-Sends IsQuiet w (λ c. act-IsQuiet (codes "server_stat") [] none c refl) a

  module _ (normalize : Bytes → Option Bytes) (pick : ℕ) where
    logged_in-Quiet :
        (settings : Dict Bytes) (r : Result InitSettings) (a : RpcClient)
        → Sends IsQuiet a (logged_in w normalize pick settings r a).1
    unfolding logged_in
    logged_in-Quiet settings (err e) a = Sends-same IsQuiet a a refl refl
    logged_in-Quiet settings (ok i) a = update_settings-Sends IsQuiet normalize pick settings a

    login_response-Quiet :
        (r : Option ApiResponse) (a : RpcClient)
        → Sends IsQuiet a (login_response w normalize pick r a).1
    unfolding login_response
    login_response-Quiet none a = Sends-same IsQuiet a a refl refl
    login_response-Quiet (some res) a = elim (Bool-cases (is_ok res)) [
      | inl q ↦ rw q (logged_in-Quiet (to_map res.data_) (init_settings (to_map res.data_)) a)
      | inr q ↦ rw q (Sends-same IsQuiet a a refl refl)
    ]

    login-Quiet : (a : RpcClient) → Sends IsQuiet a (login w normalize pick a).1
    unfolding login bytes_eq
    login-Quiet a =
        let stat = check_stat w a in
        let res = send_action w (codes "client_login") none stat.1 in
        elim (Option-cases (version_check w normalize pick stat.0)) [
          | inr q ↦ rw (login, q.1) (stat-Quiet a)
          | inl q ↦
              rw (login, q)
                (Sends-trans IsQuiet a stat.1 _ (stat-Quiet a) (
                  Sends-trans IsQuiet stat.1 res.1 _
                    (send-Quiet (codes "client_login") none stat.1 refl)
                    (login_response-Quiet res.0 res.1)))
        ]

-- Any request.
abbrev Any : Url → Type 0
Any u = Unit

send-Any :
    (w : World) (action : Bytes) (additional : Option Bytes) (a : RpcClient)
    → Sends Any a (send_action w action additional a).1
send-Any w action additional a = send_action-Sends Any w (λ c. tt) action additional (λ c. tt) a

refreshed-Any :
    (w : World) (normalize : Bytes → Option Bytes) (pick : ℕ) (r : Option ApiResponse)
    (a : RpcClient)
    → Sends Any a (refreshed w normalize pick r a)
unfolding refreshed
refreshed-Any w normalize pick none a = Sends-same Any a a refl refl
refreshed-Any w normalize pick (some res) a = elim (Bool-cases (is_ok res)) [
  | inl q ↦ rw q (update_settings-Sends Any normalize pick (to_map res.data_) a)
  | inr q ↦ rw q (Sends-same Any a a refl refl)
]

refresh_settings-running :
    (w : World) (normalize : Bytes → Option Bytes) (pick : ℕ) (a : RpcClient)
    → (refresh_settings w normalize pick a).running ≡ a.running
unfolding refresh_settings
refresh_settings-running w normalize pick a =
    let r = send_action w (codes "client_settings") none a in
    (refreshed-Any w normalize pick r.0 r.1).running
    ∙ (send-Any w (codes "client_settings") none a).running

started-running :
    (o : Option ApiResponse) (c : RpcClient)
    → c.running ≡ false
    → (started o c).1.running ≡ (started o c).0
unfolding started
started-running none c f = f
started-running (some res) c f = elim (Bool-cases (is_ok res)) [
  | inl q ↦ rw q refl
  | inr q ↦ rw q f
]

connect_check-running :
    (w : World) (a : RpcClient)
    → a.running ≡ false
    → (connect_check w a).1.running ≡ (connect_check w a).0
unfolding connect_check
connect_check-running w a e =
    let r = send_action w (codes "client_start") none a in
    started-running r.0 r.1 ((send-Any w (codes "client_start") none a).running ∙ e)

module _ (w : World) (normalize : Bytes → Option Bytes) (pick : ℕ) (m : Machine) where
  -- Before the server listens, the servers are told of no start. A client that was refused does not
  -- run; one in operation runs, and its cache was returned and its port bound.
  abbrev pub IsOrdered : Outcome → Type 0
  IsOrdered (exited (login_failed e) c) = IsUntold c
  IsOrdered (exited cache_failed c) = IsUntold c
  IsOrdered (exited no_certificate c) = IsUntold c
  IsOrdered (exited server_failed c) = IsUntold c
  IsOrdered (exited start_refused c) = c.running ≡ false
  IsOrdered (up o list c) = (c.running ≡ true) × ((o.returned ≡ true) × (m.binds ≡ true))

  begin_operation-running :
      (o : Opened) (a : RpcClient)
      → o.returned ≡ true
      → m.binds ≡ true
      → a.running ≡ true
      → IsOrdered (begin_operation w normalize pick m o a)
  unfolding begin_operation get_purgelist
  begin_operation-running o a r b e =
      let refreshed_client = refresh_settings w normalize pick a in
      let kept = send-Any w (codes "get_blacklist") (some (show 259200)) refreshed_client in
      (kept.running ∙ refresh_settings-running w normalize pick a ∙ e, (r, b))

  notify_start-IsOrdered :
      (o : Opened) (a : RpcClient)
      → o.returned ≡ true
      → m.binds ≡ true
      → a.running ≡ false
      → IsOrdered (notify_start w normalize pick m o a)
  unfolding notify_start
  notify_start-IsOrdered o a r b e =
      let c = connect_check w a in
      let runs = connect_check-running w a e in
      if_cases IsOrdered c.0 _ _ (λ q. begin_operation-running o c.1 r b (runs ∙ q)) (λ q. runs ∙ q)

  get_cert-Quiet : (a : RpcClient) → Sends IsQuiet a (get_cert w normalize pick m a).1
  unfolding get_cert send_request bytes_eq
  get_cert-Quiet a = record {
    running = refl;
    allowed = λ h. (act-IsQuiet w (codes "get_cert") [] none a refl, h);
  }

  untold : {a b : RpcClient} → Sends IsQuiet a b → IsUntold a → IsUntold b
  untold s h = (s.running ∙ h.0, s.allowed h.1)

  start_server-IsOrdered :
      (o : Opened) (a : RpcClient)
      → o.returned ≡ true
      → IsUntold a
      → IsOrdered (start_server w normalize pick m o a)
  unfolding start_server
  start_server-IsOrdered o a r h =
      let c = get_cert w normalize pick m a in
      let h' = untold (get_cert-Quiet a) h in
      option_cases IsOrdered c.0 _ _ (λ q. h')
        (λ cert q.
          if_cases IsOrdered m.binds _ _ (λ b. notify_start-IsOrdered o c.1 r b h'.0) (λ b. h'))

  open_cache-IsOrdered :
      (i : InitSettings) (a : RpcClient)
      → IsUntold a
      → IsOrdered (open_cache w normalize pick m i a)
  unfolding open_cache
  open_cache-IsOrdered i a h =
      let o =
        new_manager w.crypto i.static_range i.verify_cache m.force_background_scan m.free m.saved
          m.root in
      if_cases IsOrdered o.returned _ _ (λ q. start_server-IsOrdered o a q h) (λ q. h)

  -- However the servers and the machine behave, a start that ends before the server listens, at the
  -- login, at the cache, at the certificate or at the port, has not told the servers that the client
  -- started, and the client does not run; it does not run either if they refuse it; and in operation
  -- the client runs, its cache was returned, and its port was bound.
  pub startup-IsOrdered : (id : ℤ) (key : Bytes) → IsOrdered (startup w normalize pick m id key)
  unfolding startup
  startup-IsOrdered id key =
      let a = new_client id key m.disable_ip_check m.max_connection m.rpc_server_ip in
      let c = login w normalize pick a in
      let fresh : IsUntold a = unfold new_client in (refl, tt) in
      let h = untold (login-Quiet w normalize pick a) fresh in ends c.0 c.1 h
    where
      ends :
          (r : Result InitSettings) (b : RpcClient)
          → IsUntold b
          → IsOrdered (elim r [
            | err e ↦ exited (login_failed e) b
            | ok i ↦ open_cache w normalize pick m i b
          ])
      ends (err e) b h = h
      ends (ok i) b h = open_cache-IsOrdered i b h
