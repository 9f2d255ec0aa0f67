-- ===== src/Rpc/Session.antt =====
-- What holds along a session: requests are signed, retries are bounded, and answers are authentic.
use mathlib.Core.Path.{subst}
use hath_rust.Prelude.{
  ℕ, zero, suc, ◌+◌, ◌*◌, ◌≤◌, ◌≡◌, refl, sym, ap, ◌∙◌, true, false, [], ◌∷◌, Option, none, some,
  Bytes, codes, length, All, unwrap_or, arith, Bool-cases, Option-cases, inl, inr, min,
}
use hath_rust.Text.{join}
use hath_rust.Text.Decimal.{show_int}
use hath_rust.Prelude.Int.{ℤ}
use hath_rust.Dict.{Dict}
use hath_rust.Crypto.{string_to_hash, to_map}
use hath_rust.Rpc.Response.{ApiResponse, is_ok, is_key_expired, is_hash_fail, parse_response}
use hath_rust.Rpc.Servers.{RpcClient, Url, change_server}
use hath_rust.Rpc.Client.{
  World, Reply, body, request_error, Exchange, upcoming, build_url, send_request, sync_clock,
  check_response, check_reply, check_stat, handle_reply, attempts, send_action,
}

-- The request carries the client's number, and the hash of what it asks under the client's key.
pub record IsSigned (w : World) (id : ℤ) (key : Bytes) (url : Url) : Type 0 where
  pub cid : url.cid ≡ id
  pub actkey :
      url.actkey
      ≡ string_to_hash w.crypto (
          join (b'-' ∷ []) (
            codes "hentai@home"
            ∷ url.act
            ∷ url.add
            ∷ show_int id
            ∷ show_int url.acttime
            ∷ key
            ∷ []))

-- What the step from a client `a` to `b` keeps: `b` runs as `a` does, has sent `low` to `high` more
-- requests, and each of them is signed.
pub record Keeps (w : World) (a b : RpcClient) (low high : ℕ) : Type 0 where
  pub id : b.id ≡ a.id
  pub key : b.key ≡ a.key
  pub running : b.running ≡ a.running
  pub signed : All (IsSigned w a.id a.key) a.requests → All (IsSigned w a.id a.key) b.requests
  pub at_least : length a.requests + low ≤ length b.requests
  pub at_most : length b.requests ≤ length a.requests + high

Keeps-refl : (w : World) (a : RpcClient) → Keeps w a a 0 0
Keeps-refl w a = record {
  id = refl;
  key = refl;
  running = refl;
  signed = λ h. h;
  at_least = omega arith;
  at_most = omega arith;
}

Keeps-trans :
    (w : World) (a b c : RpcClient) (l h l' h' : ℕ)
    → Keeps w a b l h
    → Keeps w b c l' h'
    → Keeps w a c (l + l') (h + h')
Keeps-trans w a b c l h l' h' p q = record {
  id = q.id ∙ p.id;
  key = q.key ∙ p.key;
  running = q.running ∙ p.running;
  signed = λ s.
      subst (λ i. All (IsSigned w i a.key) c.requests) p.id
        (subst (λ k. All (IsSigned w b.id k) c.requests) p.key
          (q.signed (
            subst (λ k. All (IsSigned w b.id k) b.requests) (sym p.key)
              (subst (λ i. All (IsSigned w i a.key) b.requests) (sym p.id) (p.signed s)))));
  at_least = omega (arith, p.at_least, q.at_least);
  at_most = omega (arith, p.at_most, q.at_most);
}

-- A change of the client that leaves these fields alone.
Keeps-same :
    (w : World) (a b : RpcClient)
    → b.id ≡ a.id
    → b.key ≡ a.key
    → b.running ≡ a.running
    → b.requests ≡ a.requests
    → Keeps w a b 0 0
Keeps-same w a b i k runs r = record {
  id = i;
  key = k;
  running = runs;
  signed = λ h. rw r h;
  at_least = omega (arith, ap length r);
  at_most = omega (arith, ap length r);
}

change_server-Keeps : (w : World) (pick : ℕ) (a : RpcClient) → Keeps w a (change_server pick a) 0 0
unfolding change_server
change_server-Keeps w pick a =
    Keeps-same w a (change_server pick a) (ground arith) (ground arith) (ground arith)
      (ground arith)

send_request-Keeps :
    (w : World) (a : RpcClient) (action additional : Bytes) (endpoint : Option Bytes)
    → Keeps w a (send_request w (build_url w a action additional endpoint) a).1 1 1
unfolding send_request build_url
send_request-Keeps w a action additional endpoint = record {
  id = refl;
  key = refl;
  running = refl;
  signed = λ h. (record { cid = refl; actkey = refl }, h);
  at_least = omega arith;
  at_most = omega arith;
}

sync_clock-Keeps :
    (w : World) (e : Exchange) (d : Dict Bytes) (a : RpcClient) → Keeps w a (sync_clock w e d a) 0 0
unfolding sync_clock
sync_clock-Keeps w e d a =
    Keeps-same w a (sync_clock w e d a) (ground arith) (ground arith) (ground arith) (ground arith)

check_response-Keeps :
    (w : World) (e : Exchange) (res : ApiResponse) (a : RpcClient)
    → Keeps w a (check_response w e res a).1 0 0
unfolding check_response
check_response-Keeps w e res a = elim (Bool-cases (is_ok res)) [
  | inl q ↦ rw q (sync_clock-Keeps w e (to_map res.data_) a)
  | inr q ↦ rw q (Keeps-refl w a)
]

check_reply-Keeps :
    (w : World) (e : Exchange) (r : Reply) (a : RpcClient) → Keeps w a (check_reply w e r a).1 0 0
unfolding check_reply
check_reply-Keeps w e (request_error f) a = Keeps-refl w a
check_reply-Keeps w e (body text) a =
    check_response-Keeps w e (parse_response w.crypto a.key a.host text) a

check_stat-Keeps : (w : World) (a : RpcClient) → Keeps w a (check_stat w a).1 1 1
unfolding check_stat
check_stat-Keeps w a =
    let url = build_url w a (codes "server_stat") [] none in
    let b = (send_request w url a).1 in
    Keeps-trans w a b (check_stat w a).1 1 1 0 0
      (send_request-Keeps w a (codes "server_stat") [] none)
      (check_reply-Keeps w (upcoming w a) (send_request w url a).0 b)

Keeps-weaken :
    (w : World) (a b : RpcClient) (l h l' h' : ℕ)
    → Keeps w a b l h
    → l' ≤ l
    → h ≤ h'
    → Keeps w a b l' h'
Keeps-weaken w a b l h l' h' k p q = record {
  id = k.id;
  key = k.key;
  running = k.running;
  signed = k.signed;
  at_least = omega (arith, k.at_least);
  at_most = omega (arith, k.at_most);
}

handle_reply-Keeps :
    (w : World) (e : Exchange) (r : Reply) (a : RpcClient) → Keeps w a (handle_reply w e r a).1 0 1
unfolding handle_reply
handle_reply-Keeps w e (request_error true) a =
    Keeps-weaken w a (change_server e.pick a) 0 0 0 1 (change_server-Keeps w e.pick a) (omega arith)
      (omega arith)
handle_reply-Keeps w e (request_error false) a =
    Keeps-weaken w a a 0 0 0 1 (Keeps-refl w a) (omega arith) (omega arith)
handle_reply-Keeps w e (body text) a =
    let res = parse_response w.crypto a.key a.host text in
    elim (Bool-cases (is_key_expired res)) [
      | inl q ↦ rw q (
          Keeps-weaken w a (check_stat w a).1 1 1 0 1 (check_stat-Keeps w a) (omega arith)
            (omega arith))
      | inr q ↦ elim (Bool-cases (is_hash_fail res)) [
        | inl f ↦
            rw (q, f)
              (Keeps-weaken w a (change_server e.pick a) 0 0 0 1 (change_server-Keeps w e.pick a)
                (omega arith) (omega arith))
        | inr f ↦
            rw (q, f) (Keeps-weaken w a a 0 0 0 1 (Keeps-refl w a) (omega arith) (omega arith))
      ]
    ]

-- The client behind the first round: one request, and the reply handled.
unfoldable pub first_round : World → Bytes → Bytes → RpcClient → Option ApiResponse × RpcClient
first_round w action additional a =
    let (reply, sent) = send_request w (build_url w a action additional none) a in
    handle_reply w (upcoming w a) reply sent

pub first_round-Keeps :
    (w : World) (action additional : Bytes) (a : RpcClient)
    → Keeps w a (first_round w action additional a).1 1 2
unfolding first_round
first_round-Keeps w action additional a =
    let r = send_request w (build_url w a action additional none) a in
    Keeps-trans w a r.1 (handle_reply w (upcoming w a) r.0 r.1).1 1 1 0 1
      (send_request-Keeps w a action additional none) (handle_reply-Keeps w (upcoming w a) r.0 r.1)

-- What a round returns, or the rounds that are left.
abbrev pub unless {ℓ} : {A : Type ℓ} → Option ApiResponse → A → (Option ApiResponse → A) → A
unless none again stop = again
unless (some r) again stop = stop (some r)

pub attempts-suc :
    (w : World) (n : ℕ) (action additional : Bytes) (a : RpcClient)
    → attempts w (suc n) action additional a
      ≡ unless
          (first_round w action additional a).0
          (attempts w n action additional (first_round w action additional a).1)
          (λ r. (r, (first_round w action additional a).1))
unfolding attempts first_round
attempts-suc w n action additional a = ground arith

pub attempts-Keeps :
    (w : World) (n : ℕ) (action additional : Bytes) (a : RpcClient)
    → Keeps w a (attempts w n action additional a).1 (min n 1) (2 * n)
attempts-Keeps w zero action additional a = unfold attempts in Keeps-refl w a
attempts-Keeps w (suc n) action additional a =
    let b = (first_round w action additional a).1 in
    let one = first_round-Keeps w action additional a in
    elim (Option-cases (first_round w action additional a).0) [
      | inl q ↦
          rw (attempts-suc w n action additional a, q)
            (Keeps-weaken w a _ (1 + min n 1) (2 + 2 * n) (min (suc n) 1) (2 * suc n)
              (Keeps-trans w a b _ 1 2 (min n 1) (2 * n) one
                (attempts-Keeps w n action additional b))
              (omega arith) (omega arith))
      | inr (r, q) ↦
          rw (attempts-suc w n action additional a, q)
            (Keeps-weaken w a b 1 2 (min (suc n) 1) (2 * suc n) one (omega arith) (omega arith))
    ]

-- An action sends between one and six requests, each of them signed with the client's number and
-- key, which it keeps; and it leaves the client running as it was.
pub send_action-Keeps :
    (w : World) (action : Bytes) (additional : Option Bytes) (client : RpcClient)
    → Keeps w client (send_action w action additional client).1 1 6
unfolding send_action
send_action-Keeps w action additional client =
    attempts-Keeps w 3 action (unwrap_or [] additional) client
