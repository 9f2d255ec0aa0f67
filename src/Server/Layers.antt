-- ===== src/Server/Layers.antt =====
-- The answers that src/route/mod.rs gives by itself, and the layers of src/middleware/mod.rs around
-- all routes: the limit of time and the `Server` header. The layers of the counter and of the log
-- are Connections and RequestLog. What a handler answers, and in how many milliseconds, is an
-- argument; one that never ends takes `none`.
pub mod Headers
mod Tests
use hath_rust.Prelude.{
  ℕ, Bool, true, false, List, [], ◌∷◌, ◌++◌, Option, none, some, Bytes, codes, if◌then◌else◌,
}
use hath_rust.Dict.{Dict, insert}
use hath_rust.Server.Connection.{seconds, timeout}

pub record Response : Type 0 where
  pub status : ℕ
  pub headers : Dict Bytes
  pub body : Bytes

abbrev html : ℕ → Bytes → Response
html status body = record {
  status = status;
  headers = (codes "content-type", codes "text/html; charset=utf-8") ∷ [];
  body = body;
}

abbrev text : ℕ → Bytes → Response
text status body = record {
  status = status;
  headers = (codes "content-type", codes "text/plain; charset=utf-8") ∷ [];
  body = body;
}

-- The answer to a path with no route.
unfoldable pub default_page : Response
default_page = html 404 (codes "An error has occurred. (404)")

unfoldable pub favicon : Response
favicon = record {
  status = 301;
  headers = (codes "location", codes "https://e-hentai.org/favicon.ico") ∷ [];
  body = [];
}

unfoldable pub robots : Response
robots = text 200 (codes "User-agent: *\nDisallow: /")

unfoldable pub forbidden : Response
forbidden = html 403 (codes "An error has occurred. (403)")

unfoldable pub not_found : Response
not_found = text 404 (codes "An error has occurred. (404)")

-- `TimeoutLayer` with the handler of its error.
unfoldable pub timely : Bool → Response → Response
timely true response = response
timely false response = record { status = 503; headers = []; body = [] }

unfoldable pub in_time : Option ℕ → Response → Response
unfolding timeout timely
in_time takes response = timely (timeout (seconds 181) takes).1 response

-- `SERVER_HEADER`, by the version of the package.
unfoldable pub server_text : Bytes → Bytes
server_text version =
    codes "Genetic Lifeform and Distributed Open Server 1.6.6 (Rust " ++ (version ++ codes ")")

unfoldable pub default_headers : Bytes → Response → Response
unfolding server_text
default_headers version r = record r {
  headers = insert (codes "server") (server_text version) r.headers;
}

-- `register_layer` around a handler.
unfoldable pub layered : Bool → Bytes → Option ℕ → Response → Response
unfolding in_time default_headers
layered server_header version takes response =
    let answered = in_time takes response in
    if server_header then default_headers version answered else answered
