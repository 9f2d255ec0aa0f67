-- ===== src/Server/Stream/Tests.antt =====
-- A stream whose time runs out behind the first chunk.
use hath_rust.Prelude.{
  ◌≡◌, refl, true, false, [], ◌∷◌, some, Bytes, codes, bytes_eq, ◌==◌, if◌then◌else◌,
}
use hath_rust.Server.Stream.{
  data_frame, late, sends, Response, Stream, chunk, header, stop, request_cancelled, serve_request,
  send_body, send_frame, after_body, h3_header, remove, contains,
}
use hath_rust.Server.Stream.Whole.{IsHandled, serve_request-IsHandled}

abbrev service : Bytes → Response
service request = record {
  status = 200;
  headers = (codes "connection", codes "close") ∷ [];
  body = data_frame request ∷ data_frame request ∷ [];
}

abbrev stream : Stream Bytes
stream = record {
  request = some (codes "x");
  takes_header = true;
  rounds = λ i. if i == 0 then sends true else late;
}

serve_request-IsHandled_example :
    IsHandled service false stream (serve_request service (codes "now") false stream)
serve_request-IsHandled_example = serve_request-IsHandled service (codes "now") false stream

cancelled : serve_request service (codes "now") false stream ≡ (
  true,
  header 200 ((codes "date", codes "now") ∷ []) ∷ chunk (codes "x") ∷ stop request_cancelled ∷ [],
)
unfolding serve_request send_body send_frame after_body h3_header remove contains bytes_eq
cancelled = refl
