-- ===== src/RequestLog.antt =====
-- The request log of src/middleware/logger.rs: `Logger` counts the requests and, with its
-- `LoggerFinalizer` around each body, the bytes that are sent of it. The texts of the lines and the
-- durations are left out; the size is a u64, and so are the counters of `prometheus_client`.
pub mod Counts
use hath_rust.Prelude.{
  ℕ, ◌+◌, ◌%◌, ◌^◌, Bool, true, false, not, ◌&&◌, List, [], ◌∷◌, Option, none, some, Bytes, length,
  if◌then◌else◌,
}
use hath_rust.Text.Decimal.{parse_uint}
use hath_rust.Rpc.Settings.{u64_max}
use hath_rust.Body.{chunk, trailers, Polled, pending, ended, frame, failed}

pub record Metrics : Type 0 where
  pub cache_sent : ℕ
  pub cache_sent_size : ℕ

-- The beginning of `call`: the request's number, and the metrics.
unfoldable pub call : Metrics → ℕ × Metrics
call m = ((m.cache_sent + 1) % 2 ^ 64, record m { cache_sent = (m.cache_sent + 1) % 2 ^ 64 })

-- The size that is announced in the log when the response is there: its Content-Length, where it has
-- one of text and the request is not a HEAD.
unfoldable pub announced_size : Bool → Option Bytes → ℕ
announced_size is_head content_length = if is_head then 0 else elim content_length [
  | none ↦ 0
  | some text ↦ elim (parse_uint u64_max text) [ none ↦ 0 | some n ↦ n ]
]

-- `LoggerFinalizer::poll_frame`, on the size so far and what the inner body's poll returns: the new
-- size, and the result.
unfoldable pub poll_frame : ℕ → Polled → ℕ × Polled
poll_frame size pending = (size, pending)
poll_frame size ended = (size, ended)
poll_frame size (failed err) = (size, failed err)
poll_frame size (frame (trailers t)) = (size, frame (trailers t))
poll_frame size (frame (chunk data_)) = ((size + length data_) % 2 ^ 64, frame (chunk data_))

-- The polls of the body until it ends or fails: the size, and what they return.
unfoldable pub serve : ℕ → List Polled → ℕ × List Polled
unfolding poll_frame
serve size [] = (size, [])
serve size (pending ∷ ps) = let (n, out) = serve size ps in (n, pending ∷ out)
serve size (ended ∷ ps) = (size, ended ∷ [])
serve size (failed err ∷ ps) = (size, failed err ∷ [])
serve size (frame (trailers t) ∷ ps) = let (n, out) = serve size ps in (n, frame (trailers t) ∷ out)
serve size (frame (chunk data_) ∷ ps) =
    let (size', p) = poll_frame size (frame (chunk data_)) in
    let (n, out) = serve size' ps in (n, p ∷ out)

-- `drop` of a finalizer of this size.
unfoldable pub drop_body : ℕ → Metrics → Metrics
drop_body size m = record m { cache_sent_size = (m.cache_sent_size + size) % 2 ^ 64 }
