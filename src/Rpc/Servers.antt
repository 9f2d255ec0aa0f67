-- ===== src/Rpc/Servers.antt =====
-- `RPCClient` itself, and its choice of a server (src/rpc.rs). The text of an address is parsed and
-- printed by `IpAddr`, the parameter `normalize`; `fastrand::choice` is the parameter `pick`, an
-- index. `Url::set_host` is taken to accept the texts that `normalize` prints.
use hath_rust.Prelude.{
  ℕ, zero, suc, ◌%◌, Bool, false, ◌||◌, List, [], ◌∷◌, Option, none, some, Bytes, codes, bytes_eq,
  length, leb, if◌then◌else◌, unwrap_or,
}
use hath_rust.Prelude.Int.{ℤ}
use hath_rust.Text.{split}
use hath_rust.Dict.{Dict, get}
use hath_rust.Rpc.Settings
use hath_rust.Rpc.Settings.{Settings}

-- The query of a request, as `build_url` signs it.
pub record Url : Type 0 where
  pub host : Bytes
  pub endpoint : Option Bytes
  pub act : Bytes
  pub add : Bytes
  pub cid : ℤ
  pub acttime : ℤ
  pub actkey : Bytes

-- `api_base` is its host; `requests` is the history of the requests sent, the last one first.
pub record RpcClient : Type 0 where
  pub host : Bytes
  pub clock_offset : ℤ
  pub id : ℤ
  pub key : Bytes
  pub rpc_servers : List Bytes
  pub running : Bool
  pub settings : Settings
  pub requests : List Url

abbrev pub default_server : Bytes
default_server = codes "rpc.hentaiathome.net"

-- `RPCClient::new`.
unfoldable pub new_client : ℤ → Bytes → Bool → ℕ → Option Bytes → RpcClient
new_client id key disable_ip_check max_connection bootstrap_server = record {
  host = unwrap_or default_server bootstrap_server;
  clock_offset = ℤ.pos 0;
  id = id;
  key = key;
  rpc_servers = [];
  running = false;
  settings = record {
    size_limit = Settings.u64_max;
    throttle_bytes = 0;
    disable_logging = false;
    max_connection_override = max_connection;
    disable_ip_check = disable_ip_check;
  };
  requests = [];
}

module _ {ℓ} {A : Type ℓ} where
  abbrev pub get_elem? : List A → ℕ → Option A
  get_elem? [] i = none
  get_elem? (x ∷ xs) zero = some x
  get_elem? (x ∷ xs) (suc i) = get_elem? xs i

-- The list without its last element, and the last element.
unfoldable pub last_or : Bytes → List Bytes → Bytes
last_or d [] = d
last_or d (x ∷ xs) = last_or x xs

unfoldable pub init : List Bytes → List Bytes
init [] = []
init (x ∷ []) = []
init (x ∷ y ∷ xs) = x ∷ init (y ∷ xs)

-- `swap_remove(pos)` at the first position of `server`, if it is there: the last element takes
-- the place.
unfoldable pub swap_remove : Bytes → List Bytes → List Bytes
unfolding init last_or
swap_remove server [] = []
swap_remove server (x ∷ []) = if bytes_eq x server then [] else x ∷ []
swap_remove server (x ∷ y ∷ xs) =
    let rest = swap_remove server (y ∷ xs) in
    if bytes_eq x server then last_or y xs ∷ init (y ∷ xs) else x ∷ rest

-- `fastrand::choice`.
unfoldable pub choice : ℕ → List Bytes → Option Bytes
choice pick servers = get_elem? servers (pick % length servers)

-- `RPCClient::change_server`.
unfoldable pub change_server : ℕ → RpcClient → RpcClient
unfolding choice
change_server pick client = if leb (length client.rpc_servers) 1 then client else record client {
  host = unwrap_or default_server (choice pick (swap_remove client.host client.rpc_servers));
}

normalize_all : (Bytes → Option Bytes) → List Bytes → List Bytes
normalize_all normalize [] = []
normalize_all normalize (s ∷ ss) = elim (normalize s) [
  | none ↦ normalize_all normalize ss
  | some ip ↦ ip ∷ normalize_all normalize ss
]

-- `RPCClient::update_settings`.
unfoldable pub update_settings : (Bytes → Option Bytes) → ℕ → Dict Bytes → RpcClient → RpcClient
unfolding normalize_all change_server
update_settings normalize pick settings client =
    let moved : RpcClient = elim (get (codes "rpc_server_ip") settings) [
      | none ↦ client
      | some ips ↦
          change_server pick
            (record client { rpc_servers = normalize_all normalize (split b';' ips) })
    ] in
    record moved { settings = Settings.update moved.settings settings }

any_eq : Bytes → List Bytes → Bool
any_eq ip [] = false
any_eq ip (s ∷ ss) = bytes_eq s ip || any_eq ip ss

-- `RPCClient::is_vaild_rpc_server`.
unfoldable pub is_valid_rpc_server : RpcClient → Bytes → Bool
unfolding any_eq
is_valid_rpc_server client ip = client.settings.disable_ip_check || any_eq ip client.rpc_servers
