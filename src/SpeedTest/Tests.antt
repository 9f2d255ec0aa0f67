-- ===== src/SpeedTest/Tests.antt =====
-- A speed test of 20000 bytes, with a buffer of zeros.
use hath_rust.Prelude.{
  ℕ, zero, suc, ◌≡◌, ◌≤◌, refl, ap, [], ◌∷◌, some, Bytes, bytes_eq_refl, ◌+◌, length, All, arith,
  codes,
}
use hath_rust.Prelude.Int.{pos, sub_i64}
use hath_rust.Crypto.{string_to_hash}
use hath_rust.Samples.{crypto}
use hath_rust.SpeedTest.{buffer_size, random_response, test_text, speedtest}
use hath_rust.SpeedTest.Sizes.{total, random_response-size, speedtest-total}

unfoldable filled : ℕ → Bytes
filled zero = []
filled (suc n) = 0 ∷ filled n

length-filled : (n : ℕ) → length (filled n) ≡ n
unfolding filled
length-filled zero = refl
length-filled (suc n) = ap suc (length-filled n)

abbrev buffer : Bytes
buffer = filled buffer_size

random_response-size_example :
    (total (random_response buffer 20000).body ≡ (random_response buffer 20000).content_length)
    × All (λ b. (1 ≤ length b) × (length b ≤ buffer_size)) (random_response buffer 20000).body
random_response-size_example = random_response-size buffer (length-filled buffer_size) 20000

-- The hash is twenty bytes of `hentai@home-speedtest-…`, in hexadecimal.
abbrev right : Bytes
right = string_to_hash crypto (test_text 3 (pos 5) (pos 7) (codes "k"))

asked :
    speedtest crypto (pos 7) (codes "k") (pos 5) buffer 3 (pos 5) right
    ≡ some (random_response buffer 3)
unfolding speedtest sub_i64
asked = rw (bytes_eq_refl right) refl

speedtest-total_example :
    (right ≡ right) × (5 ≤ 5 + 300) × (5 ≤ 5 + 300) × (total (random_response buffer 3).body ≡ 3)
speedtest-total_example =
    speedtest-total buffer (length-filled buffer_size) crypto (pos 7) (codes "k") 5 3 5 right
      (random_response buffer 3) (omega arith) (omega arith) asked
