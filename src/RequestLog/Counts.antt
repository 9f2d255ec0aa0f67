-- ===== src/RequestLog/Counts.antt =====
-- The log counts what is sent, and changes none of it.
use hath_rust.Prelude.{
  ℕ, ◌+◌, ◌%◌, ◌^◌, ◌≡◌, refl, ap, List, [], ◌∷◌, ◌++◌, length, length-append, min, arith,
}
use hath_rust.Body.{chunk, trailers, Polled, pending, ended, frame, failed, sent, polls}
use hath_rust.Body.Truncates.{length-sent-polls}
use hath_rust.RequestLog.{serve, Metrics, drop_body}

pub serve-sent :
    (size : ℕ) (ps : List Polled)
    → (sent (serve size ps).1 ≡ sent ps)
      × ((serve size ps).0 % 2 ^ 64 ≡ (size + length (sent ps)) % 2 ^ 64)
unfolding serve sent
serve-sent size [] = (refl, omega arith)
serve-sent size (pending ∷ ps) = serve-sent size ps
serve-sent size (ended ∷ ps) = (refl, omega arith)
serve-sent size (failed err ∷ ps) = (refl, omega arith)
serve-sent size (frame (trailers t) ∷ ps) = serve-sent size ps
serve-sent size (frame (chunk d) ∷ ps) =
    let (same, n) = serve-sent ((size + length d) % 2 ^ 64) ps in
    (ap (λ t. d ++ t) same, omega (arith, n, length-append d (sent ps)))

-- A response of one range is logged with as many bytes as the truncated body sends.
pub serve-polls :
    (limit : ℕ) (ps : List Polled) (m : Metrics)
    → (drop_body (serve 0 (polls limit ps)).0 m).cache_sent_size
      ≡ (m.cache_sent_size + min limit (length (sent ps))) % 2 ^ 64
unfolding drop_body
serve-polls limit ps m =
    omega (arith, (serve-sent 0 (polls limit ps)).1, length-sent-polls limit ps)
