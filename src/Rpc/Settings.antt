-- ===== src/Rpc/Settings.antt =====
-- `Settings` and `InitSettings` of src/rpc.rs. An atomic is a field.
use hath_rust.Prelude.{
  ℕ, ◌+◌, ◌-◌, ◌/◌, ◌^◌, ◌≤◌, ◌≡◌, Bool, true, false, List, Option, none, some, Bytes, codes,
  bytes_eq, ◌==◌, if◌then◌else◌, ◌>>=◌, unwrap_or, min, arith,
}
use hath_rust.Text.Decimal.{parse_uint}
use hath_rust.Dict.{Dict, get}

abbrev pub u64_max : ℕ
u64_max = 2 ^ 64 - 1

pub record Settings : Type 0 where
  pub size_limit : ℕ
  pub throttle_bytes : ℕ
  pub disable_logging : Bool
  pub max_connection_override : ℕ
  pub disable_ip_check : Bool

pub record InitSettings : Type 0 where
  pub client_port : ℕ
  pub client_host : Bytes
  pub verify_cache : Bool
  pub static_range : List Bytes

-- `"true".parse::<bool>()`.
unfoldable pub parse_bool : Bytes → Option Bool
parse_bool s =
    if bytes_eq s (codes "true")
    then some true
    else if bytes_eq s (codes "false")
    then some false
    else none

-- `Settings::max_connection`; the field of that name is `max_connection_override` here.
unfoldable pub max_connection : Settings → ℕ
max_connection s =
    if s.max_connection_override == 0
    then 20 + min 480 (s.throttle_bytes / 10000)
    else s.max_connection_override

-- `Settings::update`.
unfoldable pub update : Settings → Dict Bytes → Settings
unfolding parse_bool
update s settings = record s {
  size_limit =
      unwrap_or s.size_limit (get (codes "disklimit_bytes") settings >>= parse_uint u64_max);
  throttle_bytes =
      unwrap_or s.throttle_bytes (get (codes "throttle_bytes") settings >>= parse_uint u64_max);
  disable_logging = unwrap_or false (get (codes "disable_logging") settings >>= parse_bool);
}

-- The soft limit that follows from the bandwidth lies between 20 and 500 connections.
pub max_connection_bounds :
    (s : Settings)
    → s.max_connection_override ≡ 0
    → (20 ≤ max_connection s) × (max_connection s ≤ 500)
unfolding max_connection
max_connection_bounds s e = ground arith
