-- ===== src/Server/Stream.antt =====
-- The task of one request of `accept_loop_h3` of src/server/mod.rs: what it sends on its stream.
-- The service behind it and the stream are arguments; of a body, which the service gives, come data,
-- trailers and errors.
pub mod Whole
mod Tests
use hath_rust.Prelude.{
  ℕ, suc, Bool, true, false, not, List, [], ◌∷◌, ◌++◌, Option, none, some, Bytes, bytes_eq, codes,
  if◌then◌else◌,
}

pub data Frame : Type 0 where
  data_frame : Bytes → Frame
  trailers : Bytes → Frame
  failed : Frame

-- The codes that the task stops a stream with.
pub data Code : Type 0 where
  excessive_load internal_error request_cancelled : Code

-- What the client sees of a stream.
pub data Sent : Type 0 where
  header : ℕ → List (Bytes × Bytes) → Sent
  chunk : Bytes → Sent
  trailer : Bytes → Sent
  stop : Code → Sent
  finish : Sent

-- A turn of the loop over the body: its time runs out, or the send in it ends well or not.
pub data Round : Type 0 where
  late : Round
  sends : Bool → Round

-- How `timeout(.., send_body)` ends: `Ok(true)`, `Ok(false)` and an error.
pub data BodyEnd : Type 0 where
  all_sent given_up timed_out : BodyEnd

pub record Response : Type 0 where
  pub status : ℕ
  pub headers : List (Bytes × Bytes)
  pub body : List Frame

-- `HeaderMap::remove`.
unfoldable pub remove : Bytes → List (Bytes × Bytes) → List (Bytes × Bytes)
remove name [] = []
remove name ((n, v) ∷ headers) =
    let rest = remove name headers in if bytes_eq n name then rest else (n, v) ∷ rest

unfoldable pub contains : Bytes → List (Bytes × Bytes) → Bool
contains name [] = false
contains name ((n, v) ∷ headers) =
    let later = contains name headers in if bytes_eq n name then true else later

-- The header without `connection`, with `date` as it is or as given.
unfoldable pub h3_header : Bytes → List (Bytes × Bytes) → List (Bytes × Bytes)
unfolding remove contains
h3_header date headers =
    let kept = remove (codes "connection") headers in
    if contains (codes "date") kept then kept else kept ++ ((codes "date", date) ∷ [])

-- A turn of the loop over the body, by its frame, or the end of the body.
unfoldable pub send_frame : Option Frame → Round → List Sent × BodyEnd → List Sent × BodyEnd
send_frame frame late rest = ([], timed_out)
send_frame none (sends ok) rest = ([], all_sent)
send_frame (some failed) (sends ok) rest = (stop internal_error ∷ [], given_up)
send_frame (some (data_frame bytes)) (sends false) rest = ([], given_up)
send_frame (some (data_frame bytes)) (sends true) (sent, end) = (chunk bytes ∷ sent, end)
send_frame (some (trailers t)) (sends false) rest = ([], given_up)
send_frame (some (trailers t)) (sends true) (sent, end) = (trailer t ∷ sent, end)

-- The loop over the frames of the body, with what it sends.
unfoldable pub send_body : (ℕ → Round) → ℕ → List Frame → List Sent × BodyEnd
unfolding send_frame
send_body rounds i [] = send_frame none (rounds i) ([], all_sent)
send_body rounds i (frame ∷ body) =
    send_frame (some frame) (rounds i) (send_body rounds (suc i) body)

-- What is sent behind the loop: the stream is finished only behind all of the body.
unfoldable pub after_body : List Sent × BodyEnd → List Sent
after_body (sent, all_sent) = sent ++ (finish ∷ [])
after_body (sent, given_up) = sent
after_body (sent, timed_out) = sent ++ (stop request_cancelled ∷ [])

-- What the stream does: whether a request can be read from it, whether it takes the header, and the
-- turns of the body.
pub record Stream (Request : Type 0) : Type 0 where
  pub request : Option Request
  pub takes_header : Bool
  pub rounds : ℕ → Round

-- The task: whether the request reached the service, and what is sent.
module _ {Request : Type 0} (service : Request → Response) (date : Bytes) where
  unfoldable pub serve_request : Bool → Stream Request → Bool × List Sent
  unfolding h3_header send_body after_body
  serve_request blocked s = elim s.request [
    | none ↦ (false, [])
    | some request ↦
        if blocked
        then (false, stop excessive_load ∷ [])
        else (let response = service request in
            let sent = after_body (send_body s.rounds 0 response.body) in
            (
              true,
              if s.takes_header
                  then header response.status (h3_header date response.headers) ∷ sent
                  else [],
            ))
  ]
