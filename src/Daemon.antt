-- ===== src/Daemon.antt =====
-- The program's own loop (src/main.rs): the stored credential, the commands that are handled one
-- behind the other, and the ticks of the keep-alive task. What the network does is the `World` of
-- the client; a command comes with the instant, in nanoseconds, at which it is handled.
pub mod Credential
pub mod Overload
pub mod Purge
pub mod Stop
mod Tests
use hath_rust.Prelude.{
  ℕ, ◌+◌, ◌-◌, ◌*◌, ◌%◌, ◌^◌, Bool, true, false, not, ◌&&◌, ◌||◌, List, [], ◌∷◌, ◌++◌, Option, none,
  some, Bytes, codes, length, ltb, leb, ◌==◌, if◌then◌else◌, ◌>>=◌,
}
use hath_rust.Prelude.Int.{ℤ}
use hath_rust.Text.{lines, split}
use hath_rust.Text.Decimal.{parse_int, show_int}
use hath_rust.Rpc.Response.{i32_max}
use hath_rust.Rpc.Servers.{RpcClient}
use hath_rust.Rpc.Client.{World}
use hath_rust.Rpc.Calls.{refresh_settings, notify_overload, still_alive, get_purgelist}
use hath_rust.FileId.Hex.{HexCodec}
use hath_rust.FileId.{CacheFileInfo, from_file_id}
use hath_rust.CacheStore.{CacheManager, RemoveCalls, remove_cache, update_settings}

-- The parts of the credential's line: the number and the key.
unfoldable pub credential_parts : List Bytes → Option (ℤ × Bytes)
credential_parts [] = none
credential_parts (id ∷ []) = none
credential_parts (id ∷ key ∷ rest) = do n ← parse_int i32_max id; some (n, key)

unfoldable pub first_line : List Bytes → Option (ℤ × Bytes)
unfolding credential_parts
first_line [] = none
first_line (l ∷ ls) = credential_parts (split b'-' l)

-- `read_credential` on the content of the file, if there is one that can be read.
unfoldable pub read_credential : Option Bytes → Option (ℤ × Bytes)
unfolding first_line
read_credential none = none
read_credential (some content) = first_line (lines content)

-- `[a-zA-Z0-9]`.
unfoldable pub is_alphanumeric : ℕ → Bool
is_alphanumeric c =
    (leb b'a' c && leb c b'z') || (leb b'A' c && leb c b'Z') || (leb b'0' c && leb c b'9')

unfoldable pub all_alphanumeric : Bytes → Bool
unfolding is_alphanumeric
all_alphanumeric [] = true
all_alphanumeric (c ∷ s) = is_alphanumeric c && all_alphanumeric s

-- The validator of the key: `^[a-zA-Z0-9]{20}$`.
unfoldable pub is_valid_key : Bytes → Bool
unfolding all_alphanumeric
is_valid_key key = all_alphanumeric key && length key == 20

-- What `setup` writes into the file.
unfoldable pub setup_text : ℤ → Bytes → Bytes
setup_text id key = show_int id ++ (b'-' ∷ key)

pub data Command : Type 0 where
  -- The certificate that is fetched, if any, and whether the server takes it.
  reload_cert : Option Bytes → Bool → Command
  -- The random number of a change of server.
  refresh_command : ℕ → Command
  start_downloader : Command
  overload : Command

-- The variables that the commands change; `retries` counts the reloads that wait ten seconds.
pub record Daemon : Type 0 where
  pub client : RpcClient
  pub cache : CacheManager
  pub write_info : Bool
  pub cert : Option Bytes
  pub retries : ℕ
  pub downloading : Bool
  pub last_overload : ℕ

abbrev pub overload_pause : ℕ
overload_pause = 30 * 10 ^ 9

module _ (w : World) (normalize : Bytes → Option Bytes) (disable_logging : Bool) where
  -- The handler of one command: the new state, and whether the server was told of an overload.
  unfoldable pub handle : Command → ℕ → Daemon → Daemon × Bool
  handle (reload_cert none updates) now d = (record d { retries = d.retries + 1 }, false)
  handle (reload_cert (some cert) updates) now d = (
    if updates then record d { cert = some cert } else record d { retries = d.retries + 1 },
    false,
  )
  handle (refresh_command pick) now d =
      let client = refresh_settings w normalize pick d.client in
      (
        record d {
          client = client;
          cache = update_settings client.settings.size_limit d.cache;
          write_info =
              if disable_logging then d.write_info else not client.settings.disable_logging;
        },
        false,
      )
  handle start_downloader now d = (record d { downloading = true }, false)
  handle overload now d =
      if ltb overload_pause (now - d.last_overload)
      then (record d { last_overload = now; client = notify_overload w d.client }, true)
      else (d, false)

  -- The instants at which the server is told, along a sequence of commands.
  unfoldable pub notices : List (Command × ℕ) → Daemon → List ℕ
  unfolding handle
  notices [] d = []
  notices ((command, now) ∷ rest) d =
      let (d', told) = handle command now d in
      let later = notices rest d' in if told then now ∷ later else later

-- The purge list at the start and in the keep-alive task: the files that it names go.
unfoldable pub purge :
    HexCodec → (CacheFileInfo → RemoveCalls) → List Bytes → CacheManager → CacheManager
purge hex calls [] m = m
purge hex calls (id ∷ list) m =
    let skipped = purge hex calls list m in
    elim (from_file_id hex id) [
      | none ↦ skipped
      | some info ↦ purge hex calls list (remove_cache hex info (calls info) m).1
    ]

-- What one tick of the keep-alive task does (the list is purged behind it): nothing more, once the client has stopped.
pub record Tick : Type 0 where
  pub client : RpcClient
  pub shutdown : Bool
  pub purge : Option (List Bytes)
  pub counter : ℕ

-- One tick, ten seconds behind the last one.
unfoldable pub tick : World → ℕ → RpcClient → Option Tick
tick w counter client =
    if not client.running
    then none
    else (let checks = counter % 11 == 0 in
        let (alive, client1) = if checks then still_alive w false client else (true, client) in
        let purges = counter % 2160 == 2159 in
        let (list, client2) = if purges then get_purgelist w 43200 client1 else (none, client1) in
        some (record {
          client = client2;
          shutdown = not alive;
          purge = list;
          counter = (counter + 1) % 2 ^ 32;
        }))
