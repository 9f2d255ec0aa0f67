-- ===== src/Rpc/Response.antt =====
-- `ApiResponse` and `RPCClient::parse_response` of src/rpc.rs.
use hath_rust.Prelude.{
  ℕ, zero, suc, ◌-◌, ◌^◌, Bool, not, ◌&&◌, List, [], ◌∷◌, ◌++◌, Option, none, some, Bytes, codes,
  bytes_eq, if◌then◌else◌, ◌>>=◌, unwrap_or,
}
use hath_rust.Prelude.Int.{ℤ, pos}
use hath_rust.Text.{newline, split, lines, join, starts_with, is_empty}
use hath_rust.Text.Decimal.{parse_int, show_int}
use hath_rust.Crypto.{Crypto, string_to_hash}

pub record ApiResponse : Type 0 where
  pub status : Bytes
  pub data_ : List Bytes

unfoldable pub is_ok : ApiResponse → Bool
is_ok r = bytes_eq r.status (codes "OK")

unfoldable pub is_key_expired : ApiResponse → Bool
is_key_expired r = bytes_eq r.status (codes "KEY_EXPIRED")

unfoldable pub is_hash_fail : ApiResponse → Bool
is_hash_fail r = bytes_eq r.status (codes "RESPONSE_HASH_FAILED")

abbrev pub i32_max : ℕ
i32_max = 2 ^ 31 - 1

abbrev pub nth_part : ℕ → List Bytes → Option Bytes
nth_part n [] = none
nth_part zero (p ∷ ps) = some p
nth_part (suc n) (p ∷ ps) = nth_part n ps

-- What the hash of an answer is taken over.
unfoldable pub hash_body : Bytes → ℤ → List Bytes → Bytes
hash_body key time data_ =
    show_int time
    ++ (b'-' ∷ (key ++ (if is_empty data_ then [] else newline ∷ join (newline ∷ []) data_)))

-- `RPCClient::parse_response`; `host` is the host of the current server.
module _ (c : Crypto) (key host : Bytes) where
  -- The branch of a status line that begins with OK.
  unfoldable pub parse_ok : List Bytes → List Bytes → ApiResponse
  unfolding hash_body
  parse_ok parts data_ =
      let status = unwrap_or [] (nth_part 0 parts) in
      let time = unwrap_or (pos 0) (nth_part 1 parts >>= parse_int i32_max) in
      let hash = unwrap_or [] (nth_part 2 parts) in
      if not (is_empty hash) && bytes_eq (string_to_hash c (hash_body key time data_)) hash
      then record { status = status; data_ = data_ }
      else record { status = codes "RESPONSE_HASH_FAILED"; data_ = host ∷ [] }

  unfoldable pub parse_lines : List Bytes → ApiResponse
  unfolding parse_ok
  parse_lines [] = record { status = codes "NO_RESPONSE"; data_ = [] }
  parse_lines (s ∷ data_) =
      if starts_with s (codes "OK")
      then parse_ok (split b'-' s) data_
      else record { status = s; data_ = data_ }

  unfoldable pub parse_response : Bytes → ApiResponse
  unfolding parse_lines
  parse_response res = parse_lines (lines res)
