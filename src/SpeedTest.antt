-- ===== src/SpeedTest.antt =====
-- `speedtest` and `random_response` of src/route/speed_test.rs: a body of a given size, in blocks of
-- one buffer, for a caller who has the hash.
pub mod Sizes
mod Tests
use hath_rust.Prelude.{
  ℕ, zero, suc, ◌+◌, ◌-◌, Bool, true, false, not, ◌||◌, List, [], ◌∷◌, Option, none, some, Bytes,
  codes, bytes_eq, take, ltb, ◌==◌, if◌then◌else◌, min,
}
use hath_rust.Prelude.Int.{ℤ, pos, negsuc, between, sub_i64}
use hath_rust.Text.{join}
use hath_rust.Text.Decimal.{show, show_int}
use hath_rust.Crypto.{Crypto, string_to_hash}

abbrev pub buffer_size : ℕ
buffer_size = 16384

-- The stream's loop: `filled` bytes have been sent; the fuel bounds the rounds.
unfoldable pub blocks : Bytes → ℕ → ℕ → ℕ → List Bytes
blocks buffer zero size filled = []
blocks buffer (suc fuel) size filled =
    let n = min (size - filled) buffer_size in
    let block = if n == buffer_size then buffer else take n buffer in
    let rest = blocks buffer fuel size (filled + n) in if ltb filled size then block ∷ rest else []

-- The Content-Length and the blocks of the body; `buffer` is random.
pub record Response : Type 0 where
  pub content_length : ℕ
  pub body : List Bytes

unfoldable pub random_response : Bytes → ℕ → Response
unfolding blocks
random_response buffer size = record {
  content_length = size;
  body = blocks buffer (suc size) size 0;
}

-- What the hash of a speed test's address is taken over.
unfoldable pub test_text : ℕ → ℤ → ℤ → Bytes → Bytes
test_text size time id key =
    join (b'-' ∷ [])
      (codes "hentai@home" ∷ codes "speedtest" ∷ show size ∷ show_int time ∷ show_int id ∷ key ∷ [])

-- `speedtest`: none is the reply 403. The drift is five minutes on either side.
unfoldable pub speedtest : Crypto → ℤ → Bytes → ℤ → Bytes → ℕ → ℤ → Bytes → Option Response
unfolding test_text random_response
speedtest c id key now buffer size time hash =
    if not (between (negsuc 299) (pos 300) (sub_i64 now time))
      || not (bytes_eq (string_to_hash c (test_text size time id key)) hash)
    then none
    else some (random_response buffer size)
