-- ===== src/Body.antt =====
-- `TruncateBody` of src/server/util.rs: a body that ends after a number of bytes. The inner body is
-- what each poll of it returns; the crate `http_body` gives the frames and the size hint.
pub mod Truncates
pub mod Hints
mod Tests
use hath_rust.Prelude.{
  ℕ, ◌-◌, ◌≤◌, Bool, true, false, List, [], ◌∷◌, ◌++◌, Option, none, some, Bytes, length, take, ltb,
  leb, ◌==◌, if◌then◌else◌, min,
}

pub data Frame : Type 0 where
  chunk : Bytes → Frame
  trailers : Bytes → Frame

-- `Poll<Option<Result<Frame, Error>>>`.
pub data Polled : Type 0 where
  pending : Polled
  ended : Polled
  frame : Frame → Polled
  failed : Bytes → Polled

-- `poll_frame` on the limit and what the inner body's poll returns: the new limit, and the result.
unfoldable pub poll_frame : ℕ → Polled → ℕ × Polled
poll_frame limit pending = (limit, pending)
poll_frame limit ended = (limit, ended)
poll_frame limit (failed err) = (limit, failed err)
poll_frame limit (frame (trailers t)) =
    if limit == 0 then (limit, ended) else (limit, frame (trailers t))
poll_frame limit (frame (chunk data_)) =
    let len = length data_ in
    if limit == 0
    then (limit, ended)
    else if ltb limit len
    then (0, frame (chunk (take limit data_)))
    else (limit - len, frame (chunk data_))

-- What a server sends that polls a body until it ends or fails: the bytes of its chunks.
unfoldable pub sent : List Polled → Bytes
sent [] = []
sent (pending ∷ ps) = sent ps
sent (ended ∷ ps) = []
sent (failed err ∷ ps) = []
sent (frame (trailers t) ∷ ps) = sent ps
sent (frame (chunk data_) ∷ ps) = data_ ++ sent ps

-- The polls of the truncated body, one for each poll of the inner one.
unfoldable pub polls : ℕ → List Polled → List Polled
polls limit [] = []
polls limit (p ∷ ps) = let (limit', out) = poll_frame limit p in out ∷ polls limit' ps

-- `http_body::SizeHint`; `set_upper` panics below the lower bound, which is `none` here.
pub record SizeHint : Type 0 where
  pub lower : ℕ
  pub upper : Option ℕ

set_upper : ℕ → SizeHint → Option SizeHint
set_upper value hint =
    if leb hint.lower value then some (record hint { upper = some value }) else none

-- `TruncateBody::size_hint`, from the hint of the inner body.
unfoldable pub size_hint : ℕ → SizeHint → Option SizeHint
unfolding set_upper
size_hint limit hint =
    if leb limit hint.lower
    then some (record { lower = limit; upper = some limit })
    else elim hint.upper [
      | some most ↦ set_upper (min limit most) hint
      | none ↦ set_upper limit hint
    ]
