-- ===== src/Startup/Sends.antt =====
-- What the operations of the client send, and that they leave it running or not.
use hath_rust.Prelude.{
  ℕ, zero, suc, ◌≡◌, refl, ◌∙◌, true, false, [], Option, none, Bytes, codes, All, unwrap_or, arith,
  Bool-cases, Option-cases, inl, inr,
}
use hath_rust.Dict.{Dict}
use hath_rust.Crypto.{to_map}
use hath_rust.Rpc.Response.{ApiResponse, is_ok, is_key_expired, is_hash_fail, parse_response}
use hath_rust.Rpc.Servers.{RpcClient, Url, change_server}
use hath_rust.Rpc.Client.{
  World, Reply, body, request_error, Exchange, upcoming, build_url, send_request, sync_clock,
  check_response, check_reply, check_stat, handle_reply, attempts, send_action,
}
use hath_rust.Rpc.Session.{first_round, attempts-suc}

-- From `a` to `b` the client sends only what `P` allows, and goes on running or not.
pub record Sends (P : Url → Type 0) (a b : RpcClient) : Type 0 where
  pub running : b.running ≡ a.running
  pub allowed : All P a.requests → All P b.requests

module _ (P : Url → Type 0) where
  pub Sends-trans : (a b c : RpcClient) → Sends P a b → Sends P b c → Sends P a c
  Sends-trans a b c p q = record {
    running = q.running ∙ p.running;
    allowed = λ h. q.allowed (p.allowed h);
  }

  pub Sends-same : (a b : RpcClient) → b.running ≡ a.running → b.requests ≡ a.requests → Sends P a b
  Sends-same a b e r = record { running = e; allowed = λ h. rw r h }

  pub change_server-Sends : (pick : ℕ) (a : RpcClient) → Sends P a (change_server pick a)
  unfolding change_server
  change_server-Sends pick a = Sends-same a (change_server pick a) (ground arith) (ground arith)

  sync_clock-Sends :
      (w : World) (e : Exchange) (d : Dict Bytes) (a : RpcClient) → Sends P a (sync_clock w e d a)
  unfolding sync_clock
  sync_clock-Sends w e d a = Sends-same a (sync_clock w e d a) (ground arith) (ground arith)

  check_response-Sends :
      (w : World) (e : Exchange) (res : ApiResponse) (a : RpcClient)
      → Sends P a (check_response w e res a).1
  unfolding check_response
  check_response-Sends w e res a = elim (Bool-cases (is_ok res)) [
    | inl q ↦ rw q (sync_clock-Sends w e (to_map res.data_) a)
    | inr q ↦ rw q (Sends-same a a refl refl)
  ]

  check_reply-Sends :
      (w : World) (e : Exchange) (r : Reply) (a : RpcClient) → Sends P a (check_reply w e r a).1
  unfolding check_reply
  check_reply-Sends w e (request_error f) a = Sends-same a a refl refl
  check_reply-Sends w e (body text) a =
      check_response-Sends w e (parse_response w.crypto a.key a.host text) a

  module _ (w : World)
      (stat : (c : RpcClient) → P (build_url w c (codes "server_stat") [] none)) where
    pub check_stat-Sends : (a : RpcClient) → Sends P a (check_stat w a).1
    unfolding check_stat
    check_stat-Sends a =
        let url = build_url w a (codes "server_stat") [] none in
        let r = send_request w url a in
        Sends-trans a r.1 (check_stat w a).1
          (unfold send_request in record { running = refl; allowed = λ h. (stat a, h) })
          (check_reply-Sends w (upcoming w a) r.0 r.1)

    handle_reply-Sends :
        (e : Exchange) (r : Reply) (a : RpcClient) → Sends P a (handle_reply w e r a).1
    unfolding handle_reply
    handle_reply-Sends e (request_error true) a = change_server-Sends e.pick a
    handle_reply-Sends e (request_error false) a = Sends-same a a refl refl
    handle_reply-Sends e (body text) a =
        let res = parse_response w.crypto a.key a.host text in
        elim (Bool-cases (is_key_expired res)) [
          | inl q ↦ rw q (check_stat-Sends a)
          | inr q ↦ elim (Bool-cases (is_hash_fail res)) [
            | inl f ↦ rw (q, f) (change_server-Sends e.pick a)
            | inr f ↦ rw (q, f) (Sends-same a a refl refl)
          ]
        ]

    module _ (action additional : Bytes)
        (act : (c : RpcClient) → P (build_url w c action additional none)) where
      first_round-Sends : (a : RpcClient) → Sends P a (first_round w action additional a).1
      unfolding first_round
      first_round-Sends a =
          let r = send_request w (build_url w a action additional none) a in
          Sends-trans a r.1 (first_round w action additional a).1
            (unfold send_request in record { running = refl; allowed = λ h. (act a, h) })
            (handle_reply-Sends (upcoming w a) r.0 r.1)

      attempts-Sends : (n : ℕ) (a : RpcClient) → Sends P a (attempts w n action additional a).1
      attempts-Sends zero a = unfold attempts in Sends-same a a refl refl
      attempts-Sends (suc n) a =
          let b = (first_round w action additional a).1 in
          let one = first_round-Sends a in
          elim (Option-cases (first_round w action additional a).0) [
            | inl q ↦
                rw (attempts-suc w n action additional a, q)
                  (Sends-trans a b _ one (attempts-Sends n b))
            | inr (r, q) ↦ rw (attempts-suc w n action additional a, q) one
          ]

    pub send_action-Sends :
        (action : Bytes) (additional : Option Bytes)
        → ((c : RpcClient) → P (build_url w c action (unwrap_or [] additional) none))
        → (a : RpcClient) → Sends P a (send_action w action additional a).1
    unfolding send_action
    send_action-Sends action additional act a =
        attempts-Sends action (unwrap_or [] additional) act 3 a
