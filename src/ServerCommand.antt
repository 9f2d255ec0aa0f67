-- ===== src/ServerCommand.antt =====
-- `servercmd` of src/route/server_command.rs: the commands that the server sends to the client. The
-- probes of a proxy test are an argument: what each of the three tries of a probe meets.
pub mod Guards
pub mod Probes
mod Tests
use hath_rust.Prelude.{
  ℕ, zero, suc, ◌+◌, ◌-◌, ◌*◌, ◌/◌, ◌^◌, Bool, true, false, not, ◌&&◌, ◌||◌, List, [], ◌∷◌, ◌++◌,
  Option, none, some, Bytes, codes, bytes_eq, leb, ◌==◌, map, if◌then◌else◌, ◌>>=◌, unwrap_or,
}
use hath_rust.Prelude.Int.{ℤ, pos, negsuc, between, sub_i64}
use hath_rust.Text.{join, is_empty}
use hath_rust.Text.Decimal.{parse_uint, show, show_int}
use hath_rust.Dict.{Dict, get}
use hath_rust.Crypto.{Crypto, string_to_hash, parse_additional}
use hath_rust.Rpc.Settings.{u64_max}
use hath_rust.Rpc.Servers.{RpcClient, is_valid_rpc_server}
use hath_rust.SpeedTest.{Response, random_response}

-- `MAX_KEY_TIME_DRIFT`: five minutes, in seconds.
abbrev pub drift_min : ℤ
drift_min = negsuc 299

abbrev pub drift_max : ℤ
drift_max = pos 300

pub data Command : Type 0 where
  refresh_settings start_downloader reload_cert : Command

-- The reply, with the probes' addresses where there are some; `panicked` is a probe's address that
-- does not parse.
pub data Reply : Type 0 where
  forbidden : Reply
  text : Bytes → Reply
  bad_request : Reply
  speed : Response → Reply
  tested : List Bytes → Bytes → Reply
  default_response : Reply
  panicked : Reply

-- One try of a probe: an error of the request, or a body of some length, unless it broke off, and
-- the nanoseconds that reading it took.
pub data Try : Type 0 where
  no_response : Try
  read : Option ℕ → ℕ → Try

has_size : ℕ → Option ℕ → Bool
has_size size none = false
has_size size (some n) = n == size

-- One probe: the time of the first try that has read as many bytes as it asked for.
unfoldable pub probe : ℕ → List Try → Option ℕ
unfolding has_size
probe size [] = none
probe size (no_response ∷ later) = probe size later
probe size (read got time ∷ later) =
    let again = probe size later in if has_size size got then some time else again

-- The sum over the probes: how many went through, and their time in nanoseconds.
unfoldable pub total : List (Option ℕ) → ℕ × ℕ
total [] = (0, 0)
total (none ∷ ps) = total ps
total (some time ∷ ps) = let (success, time') = total ps in (success + 1, time + time')

-- A random number and the three tries of each probe.
pub record Probe : Type 0 where
  pub random : ℕ
  pub first : Try
  pub second : Try
  pub third : Try

unfoldable pub run : ℕ → Probe → Option ℕ
unfolding probe
run size p = probe size (p.first ∷ p.second ∷ p.third ∷ [])

-- The n-th probe on; `1..=count` of them are made.
unfoldable pub probes_from : (ℕ → Probe) → ℕ → ℕ → List Probe
probes_from world n zero = []
probes_from world n (suc count) = world n ∷ probes_from world (n + 1) count

-- The address that a probe reads.
unfoldable pub probe_url : Bytes → Bytes → ℕ → ℕ → ℤ → Bytes → Probe → Bytes
probe_url protocol host port size time token p =
    protocol
    ++ codes "://"
    ++ host
    ++ codes ":"
    ++ show port
    ++ codes "/t/"
    ++ join (codes "/") (show size ∷ show_int time ∷ token ∷ show p.random ∷ [])

all_parse : (Bytes → Bool) → List Bytes → Bool
all_parse parses [] = true
all_parse parses (u ∷ us) = parses u && all_parse parses us

abbrev pub number : ℕ → Bytes → Dict Bytes → ℕ
number most name additional = unwrap_or 0 (get name additional >>= parse_uint most)

-- The command `threaded_proxy_test`; `parses` is whether `Url::parse` accepts an address.
unfoldable pub threaded_proxy_test : (Bytes → Bool) → (ℕ → Probe) → ℤ → Dict Bytes → Reply
unfolding probe_url probes_from run total all_parse
threaded_proxy_test parses world time additional =
    let host = unwrap_or [] (get (codes "hostname") additional) in
    let protocol = unwrap_or (codes "http") (get (codes "protocol") additional) in
    let port = number (2 ^ 16 - 1) (codes "port") additional in
    let size = number (2 ^ 32 - 1) (codes "testsize") additional in
    let count = number (2 ^ 8 - 1) (codes "testcount") additional in
    let timestamp = number u64_max (codes "testtime") additional in
    let token = unwrap_or [] (get (codes "testkey") additional) in
    let probes = probes_from world 0 count in
    let urls = map (probe_url protocol host port size time token) probes in
    let (success, nanos) = total (map (run size) probes) in
    if is_empty host || port == 0 || size == 0 || count == 0 || timestamp == 0 || is_empty token
    then bad_request
    else if not (all_parse parses urls)
    then panicked
    else tested urls (codes "OK:" ++ show success ++ (b'-' ∷ show (nanos / 10 ^ 6)))

-- The lower case of the letters `A` to `Z`. No other character's lower case is a letter that the
-- names of the commands hold.
lower : ℕ → ℕ
lower c = if leb b'A' c && leb c b'Z' then c + 32 else c

unfoldable pub to_lowercase : Bytes → Bytes
unfolding lower
to_lowercase s = map lower s

-- The command's reply, and what it sends to the command channel.
unfoldable pub dispatch :
    (Bytes → Bool) → (ℕ → Probe) → Bytes → Bytes → Bytes → ℤ → Reply × List Command
unfolding threaded_proxy_test
dispatch parses world buffer command additional time =
    if bytes_eq command (codes "still_alive")
    then (text (codes "I feel FANTASTIC and I'm still alive"), [])
    else if bytes_eq command (codes "threaded_proxy_test")
    then (threaded_proxy_test parses world time (parse_additional additional), [])
    else if bytes_eq command (codes "speed_test")
    then (
      speed (
          random_response buffer (
            unwrap_or 1000000
              (get (codes "testsize") (parse_additional additional) >>= parse_uint u64_max))),
      [],
    )
    else if bytes_eq command (codes "refresh_settings")
    then (default_response, refresh_settings ∷ [])
    else if bytes_eq command (codes "start_downloader")
    then (default_response, start_downloader ∷ [])
    else if bytes_eq command (codes "refresh_certs")
    then (default_response, reload_cert ∷ [])
    else (text (codes "INVALID_COMMAND"), [])

-- What the hash of a command is taken over.
unfoldable pub command_text : RpcClient → Bytes → Bytes → ℤ → Bytes
command_text client command additional time = join (b'-' ∷ []) (
    codes "hentai@home"
    ∷ codes "servercmd"
    ∷ command
    ∷ additional
    ∷ show_int client.id
    ∷ show_int time
    ∷ client.key
    ∷ [])

-- `servercmd`; `now` is `get_timestemp`.
unfoldable pub servercmd :
    Crypto
    → RpcClient
    → (Bytes → Bool)
    → (ℕ → Probe)
    → Bytes
    → ℤ
    → Bytes
    → Bytes
    → Bytes
    → ℤ
    → Bytes
    → Reply × List Command
unfolding dispatch to_lowercase command_text
servercmd c client parses world buffer now ip command additional time hash =
    if not (is_valid_rpc_server client ip)
    then (forbidden, [])
    else if not (between drift_min drift_max (sub_i64 now time))
        || not (bytes_eq (string_to_hash c (command_text client command additional time)) hash)
    then (forbidden, [])
    else dispatch parses world buffer (to_lowercase command) additional time
