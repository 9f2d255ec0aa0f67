-- ===== src/Body/Truncates.antt =====
-- The bytes that a truncated body sends.
use hath_rust.Prelude.{
  ℕ, zero, suc, ◌-◌, ◌≡◌, refl, List, [], ◌∷◌, ◌++◌, Bytes, length, take, ltb, min, take-append_ge,
  take-append_le, length-take, Bool-cases, inl, inr, arith, ap, sym, ◌∙◌, append-nil, true, false,
}
use hath_rust.Body.{chunk, trailers, Polled, pending, ended, frame, failed, poll_frame, sent, polls}

polls-zero : (ps : List Polled) → sent (polls 0 ps) ≡ []
unfolding sent polls poll_frame
polls-zero [] = refl
polls-zero (pending ∷ ps) = polls-zero ps
polls-zero (ended ∷ ps) = refl
polls-zero (failed err ∷ ps) = refl
polls-zero (frame (trailers t) ∷ ps) = refl
polls-zero (frame (chunk d) ∷ ps) = refl

module _ (n : ℕ) (d : Bytes) where
  poll_long :
      ltb (suc n) (length d) ≡ true
      → poll_frame (suc n) (frame (chunk d)) ≡ (0, frame (chunk (take (suc n) d)))
  unfolding poll_frame
  poll_long h = ground arith

  poll_short :
      ltb (suc n) (length d) ≡ false
      → poll_frame (suc n) (frame (chunk d)) ≡ (suc n - length d, frame (chunk d))
  unfolding poll_frame
  poll_short h = ground arith

sent-polls_chunk :
    (n : ℕ) (d : Bytes) (ps : List Polled)
    → sent (polls (suc n - length d) ps) ≡ take (suc n - length d) (sent ps)
    → sent (polls (suc n) (frame (chunk d) ∷ ps)) ≡ take (suc n) (d ++ sent ps)
unfolding sent polls
sent-polls_chunk n d ps ih = elim (Bool-cases (ltb (suc n) (length d))) [
  | inl long ↦
      rw (poll_long n d long, polls-zero ps, append-nil)
        (sym (take-append_le (suc n) d (sent ps) (ground arith)))
  | inr short ↦
      rw (poll_short n d short, ih) (sym (take-append_ge (suc n) d (sent ps) (ground arith)))
]

-- However the inner body is cut into chunks, and whatever it does besides, the truncated body sends
-- the first `limit` bytes of what the inner body would send, and no other.
pub sent-polls : (limit : ℕ) (ps : List Polled) → sent (polls limit ps) ≡ take limit (sent ps)
unfolding sent polls poll_frame
sent-polls zero ps = polls-zero ps
sent-polls (suc n) [] = refl
sent-polls (suc n) (pending ∷ ps) = sent-polls (suc n) ps
sent-polls (suc n) (ended ∷ ps) = refl
sent-polls (suc n) (failed err ∷ ps) = refl
sent-polls (suc n) (frame (trailers t) ∷ ps) = ground (arith, sent-polls (suc n) ps)
sent-polls (suc n) (frame (chunk d) ∷ ps) =
    sent-polls_chunk n d ps (sent-polls (suc n - length d) ps)

-- So a range response is as long as its Content-Length says, where the file is long enough.
pub length-sent-polls :
    (limit : ℕ) (ps : List Polled) → length (sent (polls limit ps)) ≡ min limit (length (sent ps))
length-sent-polls limit ps = ap length (sent-polls limit ps) ∙ length-take limit (sent ps)
