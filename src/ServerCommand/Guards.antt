-- ===== src/ServerCommand/Guards.antt =====
-- Who may command the client.
use hath_rust.Prelude.{
  ℕ, ◌+◌, ◌^◌, ◌≤◌, ◌<◌, ◌≡◌, refl, Bool, true, [], Bytes, bytes_eq, bytes_eq→eq, arith, Bool-cases,
  ◌⊎◌, inl, inr,
}
use hath_rust.Prelude.Int.{ℤ, pos, negsuc, pos_part, neg_part, between, sub_i64, IsI64}
use hath_rust.Crypto.{Crypto, string_to_hash}
use hath_rust.Rpc.Servers.{RpcClient, is_valid_rpc_server}
use hath_rust.ServerCommand.{
  drift_min, drift_max, forbidden, Probe, command_text, servercmd, to_lowercase, dispatch,
}

-- The request comes from a server, in time, and carries the hash under the client's key.
pub record IsCommanded (c : Crypto) (client : RpcClient) (now : ℕ) (ip command additional : Bytes)
    (time : ℤ) (hash : Bytes) : Type 0 where
  pub server : is_valid_rpc_server client ip ≡ true
  pub not_late : now + neg_part time ≤ pos_part time + 300
  pub not_early : pos_part time ≤ now + neg_part time + 300
  pub signed : string_to_hash c (command_text client command additional time) ≡ hash

drift_bounds :
    (now : ℕ) (t : ℤ)
    → now < 2 ^ 62
    → IsI64 t
    → between drift_min drift_max (sub_i64 (pos now) t) ≡ true
    → (now + neg_part t ≤ pos_part t + 300) × (pos_part t ≤ now + neg_part t + 300)
unfolding sub_i64
drift_bounds now (pos t) n i e = ground arith
drift_bounds now (negsuc t) n i e = ground arith

-- On a clock below 2 ^ 62, a command is refused, and then nothing is sent to the command channel, or
-- its address is that of a server (any address, where the settings disable the check), it is at
-- most five minutes off the clock, and it carries the hash under the client's key; then it is carried
-- out.
pub servercmd-IsCommanded :
    (c : Crypto) (client : RpcClient) (parses : Bytes → Bool) (world : ℕ → Probe) (buffer : Bytes)
    (now : ℕ) (ip command additional : Bytes) (time : ℤ) (hash : Bytes)
    → now < 2 ^ 62
    → IsI64 time
    → (servercmd c client parses world buffer (pos now) ip command additional time hash
        ≡ (forbidden, []))
      ⊎ (IsCommanded c client now ip command additional time hash
          × (servercmd c client parses world buffer (pos now) ip command additional time hash
              ≡ dispatch parses world buffer (to_lowercase command) additional time))
unfolding servercmd
servercmd-IsCommanded c client parses world buffer now ip command additional time hash n i =
    let in_time = between drift_min drift_max (sub_i64 (pos now) time) in
    let own = string_to_hash c (command_text client command additional time) in
    elim (Bool-cases (is_valid_rpc_server client ip)) [
      | inr q ↦ inl (rw q refl)
      | inl q ↦ elim (Bool-cases in_time) [
        | inr r ↦ inl (rw (q, r) refl)
        | inl r ↦ elim (Bool-cases (bytes_eq own hash)) [
          | inr s ↦ inl (rw (q, r, s) refl)
          | inl s ↦
              let (late, early) = drift_bounds now time n i r in
              inr (
                record {
                  server = q;
                  not_late = late;
                  not_early = early;
                  signed = bytes_eq→eq own hash s;
                },
                rw (q, r, s) refl,
              )
        ]
      ]
    ]
