-- ===== src/Server/Stream/Whole.antt =====
-- A stream is finished only behind the whole body, and a blocked request reaches no service.
use hath_rust.Prelude.{
  ℕ, suc, ◌≡◌, refl, Bool, true, false, List, [], ◌∷◌, ◌++◌, none, some, Bytes, bytes_eq, codes,
  take, arith, if_cases, option_cases, if◌then◌else◌,
}
use hath_rust.Server.Stream.{
  Frame, data_frame, trailers, failed, excessive_load, internal_error, request_cancelled, Sent,
  header, chunk, trailer, stop, finish, Round, late, sends, BodyEnd, all_sent, given_up, timed_out,
  Response, remove, contains, h3_header, send_frame, send_body, after_body, Stream, serve_request,
}

-- The messages of a body up to its first error, and whether it has none.
abbrev pub messages : List Frame → List Sent
messages [] = []
messages (data_frame bytes ∷ body) = chunk bytes ∷ messages body
messages (trailers t ∷ body) = trailer t ∷ messages body
messages (failed ∷ body) = []

abbrev pub is_clean : List Frame → Bool
is_clean [] = true
is_clean (data_frame bytes ∷ body) = is_clean body
is_clean (trailers t ∷ body) = is_clean body
is_clean (failed ∷ body) = false

-- What the loop may have sent, and how it ends then.
pub data IsSent (body : List Frame) : List Sent × BodyEnd → Type 0 where
  all : is_clean body ≡ true → IsSent body (messages body, all_sent)
  lost : (n : ℕ) → IsSent body (take n (messages body), given_up)
  broken :
      is_clean body ≡ false → IsSent body (messages body ++ (stop internal_error ∷ []), given_up)
  slow : (n : ℕ) → IsSent body (take n (messages body), timed_out)

send_frame-IsSent :
    (frame : Frame) (body : List Frame) (r : Round) {rest : List Sent × BodyEnd}
    → IsSent body rest
    → IsSent (frame ∷ body) (send_frame (some frame) r rest)
unfolding send_frame
send_frame-IsSent frame body late h = slow 0
send_frame-IsSent failed body (sends ok) h = broken refl
send_frame-IsSent (data_frame bytes) body (sends false) h = lost 0
send_frame-IsSent (trailers t) body (sends false) h = lost 0
send_frame-IsSent (data_frame bytes) body (sends true) (all c) = all c
send_frame-IsSent (data_frame bytes) body (sends true) (lost n) = lost (suc n)
send_frame-IsSent (data_frame bytes) body (sends true) (broken c) = broken c
send_frame-IsSent (data_frame bytes) body (sends true) (slow n) = slow (suc n)
send_frame-IsSent (trailers t) body (sends true) (all c) = all c
send_frame-IsSent (trailers t) body (sends true) (lost n) = lost (suc n)
send_frame-IsSent (trailers t) body (sends true) (broken c) = broken c
send_frame-IsSent (trailers t) body (sends true) (slow n) = slow (suc n)

end-IsSent : (r : Round) → IsSent [] (send_frame none r ([], all_sent))
unfolding send_frame
end-IsSent late = slow 0
end-IsSent (sends ok) = all refl

send_body-IsSent :
    (rounds : ℕ → Round) (i : ℕ) (body : List Frame) → IsSent body (send_body rounds i body)
unfolding send_body
send_body-IsSent rounds i [] = end-IsSent (rounds i)
send_body-IsSent rounds i (frame ∷ body) =
    send_frame-IsSent frame body (rounds i) (send_body-IsSent rounds (suc i) body)

-- A body on a stream, behind its header: whole and finished, or cut and not finished.
pub data IsOnStream (body : List Frame) : List Sent → Type 0 where
  whole : is_clean body ≡ true → IsOnStream body (messages body ++ (finish ∷ []))
  cut : (n : ℕ) → IsOnStream body (take n (messages body))
  cancelled : (n : ℕ) → IsOnStream body (take n (messages body) ++ (stop request_cancelled ∷ []))
  errored : is_clean body ≡ false → IsOnStream body (messages body ++ (stop internal_error ∷ []))

after_body-IsOnStream :
    (body : List Frame) {sent : List Sent × BodyEnd}
    → IsSent body sent
    → IsOnStream body (after_body sent)
unfolding after_body
after_body-IsOnStream body (all c) = whole c
after_body-IsOnStream body (lost n) = cut n
after_body-IsOnStream body (broken c) = errored c
after_body-IsOnStream body (slow n) = cancelled n

-- A header that HTTP/3 allows, with a date.
abbrev pub IsAllowed : List (Bytes × Bytes) → Type 0
IsAllowed headers =
    (contains (codes "connection") headers ≡ false) × (contains (codes "date") headers ≡ true)

contains-remove :
    (name : Bytes) (headers : List (Bytes × Bytes)) → contains name (remove name headers) ≡ false
unfolding contains remove
contains-remove name [] = refl
contains-remove name (h ∷ headers) = ground (arith, contains-remove name headers)

contains-append :
    (name other value : Bytes) (headers : List (Bytes × Bytes))
    → contains name (headers ++ ((other, value) ∷ []))
      ≡ (if contains name headers then true else bytes_eq other name)
unfolding contains
contains-append name other value [] = ground arith
contains-append name other value (h ∷ headers) =
    ground (arith, contains-append name other value headers)

h3_header-IsAllowed :
    (date : Bytes) (headers : List (Bytes × Bytes)) → IsAllowed (h3_header date headers)
unfolding h3_header bytes_eq
h3_header-IsAllowed date headers =
    let kept = remove (codes "connection") headers in
    let gone = contains-remove (codes "connection") headers in
    if_cases IsAllowed (contains (codes "date") kept) _ _ (λ q. (gone, q))
      λ q. (
        rw (contains-append (codes "connection") (codes "date") date kept, gone) refl,
        rw (contains-append (codes "date") (codes "date") date kept, q) refl,
      )

-- What a task does: it reads no request, refuses one, cannot answer, or answers.
module _ {Request : Type 0} (service : Request → Response) (blocked : Bool)
    (s : Stream Request) where
  pub data IsHandled : Bool × List Sent → Type 0 where
    unread : s.request ≡ none → IsHandled (false, [])
    refused : blocked ≡ true → IsHandled (false, stop excessive_load ∷ [])
    unanswered : blocked ≡ false → s.takes_header ≡ false → IsHandled (true, [])
    answered :
        (request : Request) (headers : List (Bytes × Bytes)) (sent : List Sent)
        → blocked ≡ false
        → s.request ≡ some request
        → IsAllowed headers
        → IsOnStream (service request).body sent
        → IsHandled (true, header (service request).status headers ∷ sent)

-- A request of a blocked address reaches no service, and its stream is stopped. One that is served
-- has a header without `connection` and with a date, and behind it the whole body and the finish
-- of the stream, or a part of the body and no finish.
pub serve_request-IsHandled :
    {Request : Type 0} (service : Request → Response) (date : Bytes) (blocked : Bool)
    (s : Stream Request)
    → IsHandled service blocked s (serve_request service date blocked s)
unfolding serve_request
serve_request-IsHandled service date blocked s =
    option_cases (IsHandled service blocked s) s.request _ _ unread λ request e.
      if_cases (IsHandled service blocked s) blocked _ _ refused λ b.
        if_cases (λ sent. IsHandled service blocked s (true, sent)) s.takes_header _ _
          (λ t.
            answered request (h3_header date (service request).headers) _ b e
              (h3_header-IsAllowed date (service request).headers)
              (after_body-IsOnStream (service request).body
                (send_body-IsSent s.rounds 0 (service request).body)))
          (unanswered b)
