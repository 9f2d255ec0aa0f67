-- ===== src/Rpc/Answers.antt =====
-- An answer that an action returns was received, and its hash was checked.
use mathlib.Core.Path.{subst}
use hath_rust.Prelude.{
  ℕ, zero, suc, ◌≡◌, refl, sym, ap, ◌∙◌, true, false, [], ◌∷◌, Option, none, some, Bytes, length,
  unwrap_or, arith, Option-cases, inl, inr,
}
use hath_rust.Text.{lines}
use hath_rust.Rpc.Response.{ApiResponse, is_ok, is_key_expired, is_hash_fail, parse_response}
use hath_rust.Rpc.Authentic.{IsAuthentic, parse_response-IsAuthentic}
use hath_rust.Rpc.Servers.{RpcClient}
use hath_rust.Rpc.Client.{
  World, Reply, body, request_error, build_url, send_request, handle_reply, attempts, send_action,
}
use hath_rust.Rpc.Session.{first_round, first_round-Keeps, attempts-suc}

-- An answer that a server has sent to one of the client's requests: a body of the network, parsed
-- under the client's key, which neither reports an expired key nor fails the hash check.
pub record IsReceived (w : World) (key : Bytes) (res : ApiResponse) : Type 0 where
  pub index : ℕ
  pub text : Bytes
  pub host : Bytes
  pub replied : (w.net index).reply ≡ body text
  pub parsed : parse_response w.crypto key host text ≡ res
  pub current : is_key_expired res ≡ false
  pub intact : is_hash_fail res ≡ false

handle_reply-IsReceived :
    (w : World) (i : ℕ) (a : RpcClient) (r : Reply) (res : ApiResponse)
    → (w.net i).reply ≡ r
    → (handle_reply w (w.net i) r a).0 ≡ some res
    → IsReceived w a.key res
unfolding handle_reply
handle_reply-IsReceived w i a (request_error f) res p e = cc
handle_reply-IsReceived w i a (body text) res p e =
    let got = parse_response w.crypto a.key a.host text in
    let facts : (got ≡ res) × (is_key_expired got ≡ false) × (is_hash_fail got ≡ false) =
      ground arith in
    record {
      index = i;
      text = text;
      host = a.host;
      replied = p;
      parsed = facts.0;
      current = subst (λ t. is_key_expired t ≡ false) facts.0 facts.1;
      intact = subst (λ t. is_hash_fail t ≡ false) facts.0 facts.2;
    }

attempts-zero :
    (w : World) (action additional : Bytes) (a : RpcClient)
    → (attempts w zero action additional a).0 ≡ none
unfolding attempts
attempts-zero w action additional a = refl

attempts-IsReceived :
    (w : World) (n : ℕ) (action additional : Bytes) (a : RpcClient) (res : ApiResponse)
    → (attempts w n action additional a).0 ≡ some res
    → IsReceived w a.key res
unfolding send_request
attempts-IsReceived w zero action additional a res e =
    absurd (cc (attempts-zero w action additional a))
attempts-IsReceived w (suc n) action additional a res e =
    let step = attempts-suc w n action additional a in
    let url = build_url w a action additional none in
    let b = first_round w action additional a in
    let one = first_round-Keeps w action additional a in
    elim (Option-cases b.0) [
      | inl q ↦
          let e' : (attempts w n action additional b.1).0 ≡ some res = rw (step, q) at e in
          subst (λ k. IsReceived w k res) one.key
            (attempts-IsReceived w n action additional b.1 res e')
      | inr (r, q) ↦
          let e' : some r ≡ some res = rw (step, q) at e in
          handle_reply-IsReceived w (length a.requests) (send_request w url a).1
            (send_request w url a).0 res refl (unfold first_round in (q ∙ e'))
    ]

-- A successful answer to an action came from the network and states the hash of its own content
-- under the client's key: its data are the lines that the hash was taken over.
pub send_action-IsAuthentic :
    (w : World) (action : Bytes) (additional : Option Bytes) (client : RpcClient)
    (res : ApiResponse)
    → (send_action w action additional client).0 ≡ some res
    → is_ok res ≡ true
    → (index : ℕ) × (text : Bytes) × (status : Bytes) × ((w.net index).reply ≡ body text)
      × (lines text ≡ status ∷ res.data_)
      × IsAuthentic w.crypto client.key res.data_ status
unfolding send_action
send_action-IsAuthentic w action additional client res e ok =
    let r = attempts-IsReceived w 3 action (unwrap_or [] additional) client res e in
    let (status, rest, ls, auth, same) =
      parse_response-IsAuthentic w.crypto client.key r.host r.text (rw r.parsed ok) in
    let d : rest ≡ res.data_ = sym same ∙ ap (λ (x : ApiResponse). x.data_) r.parsed in
    (
      r.index,
      r.text,
      status,
      r.replied,
      ls ∙ ap (λ t. status ∷ t) d,
      subst (λ t. IsAuthentic w.crypto client.key t status) d auth,
    )
