-- ===== src/Server/Layers/Headers.antt =====
-- The layers change an answer in nothing but its time and one header.
use hath_rust.Prelude.{
  ℕ, ◌≡◌, refl, Bool, true, false, [], Option, none, some, Bytes, codes, bytes_eq, if◌then◌else◌,
  leb, Bool-cases, inl, inr,
}
use hath_rust.Dict.{get, get-insert}
use hath_rust.Server.Connection.{seconds, timeout}
use hath_rust.Server.Layers.{Response, timely, in_time, server_text, default_headers, layered}

-- The handler's headers, where it is in time.
abbrev pub own_header : Bool → Response → Bytes → Option Bytes
own_header true response name = get name response.headers
own_header false response name = none

-- An answer of a handler behind the layers.
pub record IsLayered (server_header is_timely : Bool) (version : Bytes) (response r : Response)
    : Type 0 where
  pub status : r.status ≡ (if is_timely then response.status else 503)
  pub body : r.body ≡ (if is_timely then response.body else [])
  pub header :
      (name : Bytes)
      → get name r.headers ≡ (
          if server_header
          then if bytes_eq (codes "server") name
            then some (server_text version)
            else own_header is_timely response name
          else own_header is_timely response name)

timely-IsLayered :
    (server_header is_timely : Bool) (version : Bytes) (response : Response)
    → IsLayered server_header is_timely version response (
        if server_header
        then default_headers version (timely is_timely response)
        else timely is_timely response)
unfolding timely default_headers get
timely-IsLayered true true version response = record {
  status = refl;
  body = refl;
  header = λ name. get-insert (codes "server") name (server_text version) response.headers;
}
timely-IsLayered true false version response = record {
  status = refl;
  body = refl;
  header = λ name. get-insert (codes "server") name (server_text version) [];
}
timely-IsLayered false true version response = record {
  status = refl;
  body = refl;
  header = λ name. refl;
}
timely-IsLayered false false version response = record {
  status = refl;
  body = refl;
  header = λ name. refl;
}

timeout-leb : (limit t : ℕ) → (timeout limit (some t)).1 ≡ leb t limit
unfolding timeout
timeout-leb limit t = elim (Bool-cases (leb t limit)) [ inl q ↦ rw q refl | inr q ↦ rw q refl ]

-- An answer within 181 seconds keeps its status, its body and its headers but `server`, and a later
-- one is an empty 503; with the option the `server` header is the client's, and without it nothing
-- is added.
pub layered-IsLayered :
    (server_header : Bool) (version : Bytes) (t : ℕ) (response : Response)
    → IsLayered server_header
        (leb t (seconds 181))
        version
        response
        (layered server_header version (some t) response)
unfolding layered in_time
layered-IsLayered server_header version t response =
    rw (timeout-leb (seconds 181) t)
      (timely-IsLayered server_header (leb t (seconds 181)) version response)
