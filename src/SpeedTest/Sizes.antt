-- ===== src/SpeedTest/Sizes.antt =====
-- The body is as long as its Content-Length.
use hath_rust.Prelude.{
  true, Option, none, some, bytes_eq, bytes_eq→eq, sym, ◌^◌, ℕ, zero, suc, ◌+◌, ◌-◌, ◌≤◌, ◌<◌, ◌≡◌,
  List, [], ◌∷◌, Bytes, length, take, ltb, ◌==◌, if◌then◌else◌, min, All, length-take, Bool-cases,
  inl, inr, arith, ap, ◌∙◌,
}
use native.Mathlib.Nat.{sub-zero}
use hath_rust.Prelude.Int.{ℤ, pos, negsuc, between, sub_i64}
use hath_rust.Crypto.{Crypto, string_to_hash}
use hath_rust.SpeedTest.{buffer_size, blocks, Response, random_response, test_text, speedtest}

abbrev pub total : List Bytes → ℕ
total [] = 0
total (b ∷ bs) = length b + total bs

near_lem :
    (now time : ℕ)
    → now < 2 ^ 62
    → time < 2 ^ 62
    → between (negsuc 299) (pos 300) (sub_i64 (pos now) (pos time)) ≡ true
    → (now ≤ time + 300) × (time ≤ now + 300)
unfolding sub_i64
near_lem now time n t e = ground arith

abbrev total_of : Option Response → ℕ
total_of none = 0
total_of (some r) = total r.body

module _ (buffer : Bytes) (full : length buffer ≡ buffer_size) where
  abbrev block : ℕ → Bytes
  block n = if n == buffer_size then buffer else take n buffer

  length-block : (n : ℕ) → n ≤ buffer_size → length (block n) ≡ n
  length-block n h = ground (arith, full, length-take n buffer)

  -- Each round sends a byte at least, so that fuel above the bytes left is enough.
  total-blocks :
      (fuel size filled : ℕ)
      → size - filled < fuel
      → total (blocks buffer fuel size filled) ≡ size - filled
  unfolding blocks
  total-blocks zero size filled h = absurd (omega arith)
  total-blocks (suc fuel) size filled h = elim (Bool-cases (ltb filled size)) [
    | inl more ↦
        let n = min (size - filled) buffer_size in
        let lt : filled < size = ground arith in
        rw (more, length-block n (omega arith), total-blocks fuel size (filled + n) (omega arith))
          (omega arith)
    | inr done ↦ rw done (ground arith)
  ]

  blocks_bounded :
      (fuel size filled : ℕ)
      → All (λ b. (1 ≤ length b) × (length b ≤ buffer_size)) (blocks buffer fuel size filled)
  unfolding blocks
  blocks_bounded zero size filled = tt
  blocks_bounded (suc fuel) size filled = elim (Bool-cases (ltb filled size)) [
    | inl more ↦
        let n = min (size - filled) buffer_size in
        let lt : filled < size = ground arith in
        let len = length-block n (omega arith) in
        rw more
          ((omega (arith, len, lt), omega (arith, len)), blocks_bounded fuel size (filled + n))
    | inr done ↦ rw done tt
  ]

  -- The body of a speed test is as long as its Content-Length says, and no block is empty or longer
  -- than the buffer; `random_response` gives the loop fuel enough to end by its test.
  pub random_response-size :
      (size : ℕ)
      → (total (random_response buffer size).body ≡ (random_response buffer size).content_length)
        × All (λ b. (1 ≤ length b) × (length b ≤ buffer_size)) (random_response buffer size).body
  unfolding random_response
  random_response-size size = (
    total-blocks (suc size) size 0 (omega arith) ∙ sub-zero size,
    blocks_bounded (suc size) size 0,
  )

  -- On a clock and for a time below 2 ^ 62, a speed test that is not refused was asked for within five minutes of the clock, with the hash
  -- under the client's key, and is answered with a body of exactly the size that was asked for.
  pub speedtest-total :
      (c : Crypto) (id : ℤ) (key : Bytes) (now : ℕ) (size : ℕ) (time : ℕ) (hash : Bytes)
      (r : Response)
      → now < 2 ^ 62
      → time < 2 ^ 62
      → speedtest c id key (pos now) buffer size (pos time) hash ≡ some r
      → (string_to_hash c (test_text size (pos time) id key) ≡ hash)
        × (now ≤ time + 300)
        × (time ≤ now + 300)
        × (total r.body ≡ size)
  unfolding speedtest random_response
  speedtest-total c id key now size time hash r n t e =
      let own = string_to_hash c (test_text size (pos time) id key) in
      let in_time = between (negsuc 299) (pos 300) (sub_i64 (pos now) (pos time)) in
      elim (Bool-cases in_time) [
        | inr q ↦ absurd (cc (rw q at e))
        | inl q ↦ elim (Bool-cases (bytes_eq own hash)) [
          | inr s ↦ absurd (cc (rw (q, s) at e))
          | inl s ↦
              let same : some (random_response buffer size) ≡ some r = rw (q, s) at e in
              let near : (now ≤ time + 300) × (time ≤ now + 300) = near_lem now time n t q in
              (
                bytes_eq→eq own hash s,
                near.0,
                near.1,
                ap total_of (sym same) ∙ (random_response-size size).0,
              )
        ]
      ]
