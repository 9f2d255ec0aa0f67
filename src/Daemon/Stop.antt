-- ===== src/Daemon/Stop.antt =====
-- The end of `main` of src/main.rs, and what it leaves: the stop of the client, which is told to the
-- central servers (`RPCClient::shutdown` and its `Drop`, src/rpc.rs), the abort of the downloader,
-- and the save of the cache states. The pauses between them, the HTTP server, whose stop is
-- Server.Shutdown's, and the logger, whose stop is Logger.Channel's, are left out.
use hath_rust.Prelude.{
  ℕ, ◌+◌, ◌≤◌, ◌≡◌, refl, Bool, false, Option, none, Bytes, codes, length, arith, if◌then◌else◌,
  if_cases, Bool-cases, inl, inr,
}
use hath_rust.Dict.{Dict}
use hath_rust.Rpc.Servers.{RpcClient}
use hath_rust.Rpc.Client.{World, send_action}
use hath_rust.Rpc.Login.{shutdown}
use hath_rust.Rpc.Session.{send_action-Keeps}
use hath_rust.CacheStore.{CacheState}
use hath_rust.CacheStore.Saved.{Codec, SaveCalls, save_state}
use hath_rust.Daemon.{tick}

-- What is there when the program is told to stop.
pub record Program : Type 0 where
  pub client : RpcClient
  pub downloading : Bool
  pub states : Dict CacheState
  pub state_file : Option Bytes

-- `Drop` of the client.
unfoldable pub drop_client : World → RpcClient → RpcClient
drop_client w client =
    if client.running then (send_action w (codes "client_stop") none client).1 else client

-- From `Shutting down...` on.
unfoldable pub stop : World → Codec → SaveCalls → Program → Program
stop w codec calls p = record p {
  client = shutdown w p.client;
  downloading = false;
  state_file = save_state codec calls p.states p.state_file;
}

shutdown-halts :
    (w : World) (c : RpcClient)
    → let after = shutdown w c in
      (after.running ≡ false)
      × (length c.requests + (if c.running then 1 else 0) ≤ length after.requests)
      × (length after.requests ≤ length c.requests + (if c.running then 6 else 0))
unfolding shutdown
shutdown-halts w c = elim (Bool-cases c.running) [
  | inl q ↦
      let k = send_action-Keeps w (codes "client_stop") none (record c { running = false }) in
      rw (shutdown, q) (k.running, k.at_least, k.at_most)
  | inr q ↦ rw (shutdown, q) (refl, omega arith, omega arith)
]

-- A client that does not run.
halted :
    (w : World) (c : RpcClient) (counter : ℕ)
    → c.running ≡ false
    → (tick w counter c ≡ none) × (shutdown w c ≡ c) × (drop_client w c ≡ c)
unfolding tick shutdown drop_client
halted w c counter off = (
  rw (tick, off) refl,
  if_cases (λ b. b ≡ c) c.running _ _ (λ on. absurd (ground arith)) (λ q. refl),
  if_cases (λ b. b ≡ c) c.running _ _ (λ on. absurd (ground arith)) (λ q. refl),
)

-- A client that runs is stopped with one to six requests, one that does not with none; behind it
-- the client does not run, the keep-alive task does nothing more, and neither a second stop nor the
-- drop of the client sends anything.
pub stop_once :
    (w : World) (codec : Codec) (calls : SaveCalls) (p : Program) (counter : ℕ)
    → let after = (stop w codec calls p).client in
      (tick w counter after ≡ none)
      × (shutdown w after ≡ after)
      × (drop_client w after ≡ after)
      × (length p.client.requests + (if p.client.running then 1 else 0) ≤ length after.requests)
      × (length after.requests ≤ length p.client.requests + (if p.client.running then 6 else 0))
unfolding stop
stop_once w codec calls p counter =
    let (off, least, most) = shutdown-halts w p.client in
    let (ticks, stops, drops) = halted w (shutdown w p.client) counter off in
    (ticks, stops, drops, least, most)
