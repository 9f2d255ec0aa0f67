-- ===== src/Server/Options.antt =====
-- What the server is built of: `ServerOptions`, `Server::new` and `bind` of src/server/mod.rs, the
-- routes of src/route/mod.rs, and the options that `main` of src/main.rs gives. A router, a listener
-- and an endpoint are what they are asked to do.
pub mod Advertised
use hath_rust.Prelude.{
  ℕ, Bool, true, false, not, ◌&&◌, ◌||◌, List, [], ◌∷◌, ◌++◌, Option, none, some, Bytes, codes, ◌⊎◌,
  unwrap_or, if◌then◌else◌,
}
use hath_rust.Text.Decimal.{show}
use hath_rust.Server.Cert.{ParsedCert, CertStore, new}

-- `ServerOptions`, less the data of the handlers.
pub record ServerOptions : Type 0 where
  pub port : ℕ
  pub host : Bytes
  pub cert : ParsedCert
  pub flood_control : Bool
  pub enable_metrics : Bool
  pub sni_strict : Bool
  pub server_header : Bool
  pub h3 : Bool

-- `ServerOptions::new`.
unfoldable pub default_options : ℕ → Bytes → ParsedCert → ServerOptions
default_options port host cert = record {
  port = port;
  host = host;
  cert = cert;
  flood_control = true;
  enable_metrics = false;
  sni_strict = false;
  server_header = true;
  h3 = false;
}

-- The arguments of the program that the server depends on.
pub record Args : Type 0 where
  pub port : Option ℕ
  pub host : Option Bytes
  pub disable_ip_origin_check : Bool
  pub disable_flood_control : Bool
  pub enable_metrics : Bool
  pub sni_strict : Bool
  pub disable_server_header : Bool
  pub enable_h3 : Bool

-- The options that `main` gives; `unspecified` is the address `0.0.0.0`.
unfoldable pub options_of : Bytes → Args → ℕ → ParsedCert → ServerOptions
unfolding default_options
options_of unspecified args client_port cert =
    let options =
      default_options (unwrap_or client_port args.port) (unwrap_or unspecified args.host) cert in
    record options {
      flood_control = not (args.disable_flood_control || args.disable_ip_origin_check);
      enable_metrics = args.enable_metrics;
      sni_strict = args.sni_strict;
      server_header = not args.disable_server_header;
      h3 = args.enable_h3;
    }

-- The handlers, by the paths of `register_route` and of `Server::new`; `{}` stands for a parameter.
pub data Handler : Type 0 where
  favicon robots servercmd speedtest hath metrics : Handler

abbrev pub register_route : List (Bytes × Handler)
register_route =
    (codes "/favicon.ico", favicon)
    ∷ (codes "/robots.txt", robots)
    ∷ (codes "/servercmd/{command}/{additional}/{time}/{key}", servercmd)
    ∷ (codes "/t/{size}/{time}/{hash}/{random}", speedtest)
    ∷ (codes "/h/{fileid}/{additional}/{*filename}", hath)
    ∷ []

-- The calls that make the listener; errors of the socket's options are passed over.
pub record BindCalls : Type 0 where
  pub creates : Bool
  pub binds : Bool
  pub listens : Bool

unfoldable pub bind : BindCalls → Bool
bind c = c.creates && (c.binds && c.listens)

-- `Alt-Svc`, for browsers to find the HTTP/3 port.
unfoldable pub alt_svc : ℕ → Bytes
alt_svc port = codes "h3=\":" ++ (show port ++ codes "\"; persist=1")

-- The server: its certificate, its routes, the headers that it adds, and its accept loops.
pub record Server (CertifiedKey : Type 0) : Type 0 where
  pub store : CertStore CertifiedKey
  pub routes : List (Bytes × Handler)
  pub server_header : Bool
  pub advertises : Option Bytes
  pub flood_control : Bool
  pub accepts_h3 : Bool

pub data Built (CertifiedKey : Type 0) : Type 0 where
  panicked bind_error : Built CertifiedKey
  built : Server CertifiedKey → Built CertifiedKey

-- `Server::new`; `udp_binds` is whether the endpoint of HTTP/3 can be made.
module _ {CertifiedKey Failure : Type 0}
    (from_der : List Bytes → Bytes → Failure ⊎ CertifiedKey) where
  unfoldable pub new_server : BindCalls → Bool → ServerOptions → Built CertifiedKey
  unfolding alt_svc bind
  new_server calls udp_binds o = elim (new from_der o.cert o.sni_strict) [
    | none ↦ panicked
    | some store ↦
        if not (bind calls)
        then bind_error
        else (let endpoint = o.h3 && udp_binds in
            built (record {
              store = store;
              routes =
                  if o.enable_metrics
                  then register_route ++ ((codes "/metrics", metrics) ∷ [])
                  else register_route;
              server_header = o.server_header;
              advertises = if endpoint then some (alt_svc o.port) else none;
              flood_control = o.flood_control;
              accepts_h3 = endpoint;
            }))
  ]
