-- ===== src/Rpc/Authentic.antt =====
-- What a successful answer guarantees, and that a server's answer is read.
use hath_rust.Prelude.{
  ◌≡◌, refl, true, false, not, ◌&&◌, List, [], ◌∷◌, Option, none, some, Bytes, codes, bytes_eq,
  bytes_eq→eq, if◌then◌else◌, ◌>>=◌, unwrap_or, arith, Bool-cases, inl, inr,
}
use hath_rust.Prelude.Int.{ℤ, pos}
use hath_rust.Text.{split, lines, starts_with, is_empty}
use hath_rust.Text.Decimal.{parse_int}
use hath_rust.Crypto.{Crypto, string_to_hash}
use hath_rust.Rpc.Response.{
  ApiResponse, is_ok, i32_max, nth_part, hash_body, parse_lines, parse_response,
}

-- The answer's own hash, over its time, the client's key and its data: the time is the number in the
-- second part of the status line (0 where there is none), and the hash its third part.
pub record IsAuthentic (c : Crypto) (key : Bytes) (data_ : List Bytes) (status : Bytes)
    : Type 0 where
  pub time : ℤ
  pub timed : time ≡ unwrap_or (pos 0) (nth_part 1 (split b'-' status) >>= parse_int i32_max)
  pub hash : Bytes
  pub stated : nth_part 2 (split b'-' status) ≡ some hash
  pub verified : string_to_hash c (hash_body key time data_) ≡ hash

module _ (c : Crypto) (key status : Bytes) (data_ : List Bytes) (time : ℤ)
    (first host : Bytes) where
  -- What `parse_ok` makes of the hash that the status line states, if any.
  abbrev judge : Option Bytes → ApiResponse
  judge stated =
      let hash = unwrap_or [] stated in
      if not (is_empty hash) && bytes_eq (string_to_hash c (hash_body key time data_)) hash
      then record { status = first; data_ = data_ }
      else record { status = codes "RESPONSE_HASH_FAILED"; data_ = host ∷ [] }

  judge-verified :
      (stated : Option Bytes)
      → is_ok (judge stated) ≡ true
      → (hash : Bytes) × (stated ≡ some hash)
        × (string_to_hash c (hash_body key time data_) ≡ hash)
        × ((judge stated).data_ ≡ data_)
  unfolding is_ok bytes_eq
  judge-verified none ok = cc
  judge-verified (some []) ok = cc
  judge-verified (some (x ∷ hash)) ok =
      let actual = string_to_hash c (hash_body key time data_) in
      elim (Bool-cases (bytes_eq actual (x ∷ hash))) [
        | inl e ↦ (x ∷ hash, refl, bytes_eq→eq actual (x ∷ hash) e, rw e)
        | inr e ↦ absurd (cc (rw e at ok))
      ]

not-starts_with : (s : Bytes) → starts_with s (codes "OK") ≡ false → bytes_eq s (codes "OK") ≡ false
unfolding starts_with bytes_eq
not-starts_with [] h = refl
not-starts_with (a ∷ []) h = ground arith
not-starts_with (a ∷ b ∷ s) h = ground arith

no_response-fails : (c : Crypto) (key host : Bytes) → is_ok (parse_lines c key host []) ≡ false
unfolding is_ok bytes_eq parse_lines
no_response-fails c key host = refl

other_status-fails :
    (s : Bytes) (rest : List Bytes)
    → starts_with s (codes "OK") ≡ false
    → is_ok (record { status = s; data_ = rest }) ≡ false
unfolding is_ok
other_status-fails s rest h = not-starts_with s h

-- An answer passes for successful only if its first line states a hash, and this is the hash of the
-- answer's time, the client's key and all the lines behind the first; these lines are its data.
pub parse_response-IsAuthentic :
    (c : Crypto) (key host res : Bytes)
    → is_ok (parse_response c key host res) ≡ true
    → (status : Bytes) × (rest : List Bytes) × (lines res ≡ status ∷ rest)
      × IsAuthentic c key rest status
      × ((parse_response c key host res).data_ ≡ rest)
unfolding parse_response parse_lines
parse_response-IsAuthentic c key host res ok = go (lines res) refl ok
  where
    go :
        (ls : List Bytes)
        → lines res ≡ ls
        → is_ok (parse_lines c key host ls) ≡ true
        → (status : Bytes) × (rest : List Bytes) × (lines res ≡ status ∷ rest)
          × IsAuthentic c key rest status
          × ((parse_lines c key host (lines res)).data_ ≡ rest)
    go [] e ok' = absurd (cc (no_response-fails c key host))
    go (s ∷ rest) e ok' = elim (Bool-cases (starts_with s (codes "OK"))) [
      | inl q ↦
          let time = unwrap_or (pos 0) (nth_part 1 (split b'-' s) >>= parse_int i32_max) in
          let first = unwrap_or [] (nth_part 0 (split b'-' s)) in
          let (hash, stated, verified, same) =
            judge-verified c key s rest time first host (nth_part 2 (split b'-' s)) (rw q at ok') in
          (
            s,
            rest,
            e,
            record { time = time; timed = refl; hash = hash; stated = stated; verified = verified },
            rw (e, q) same,
          )
      | inr q ↦
          let bad : is_ok (record { status = s; data_ = rest }) ≡ true = rw q at ok' in
          absurd (cc (other_status-fails s rest q))
    ]
