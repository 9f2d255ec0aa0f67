-- ===== src/Hath/Tests.antt =====
-- A request for the second and the third byte of a file of four bytes.
use hath_rust.Prelude.{
  ℕ, ◌≡◌, refl, true, List, [], ◌∷◌, Option, none, some, Bytes, codes, bytes_eq, ltb, arith,
  unwrap_or, if◌then◌else◌,
}
use hath_rust.Prelude.Int.{pos, sub_i64}
use hath_rust.Samples.{crypto, pad, info, content, view, view-Serves}
use hath_rust.Text.{split, starts_with}
use hath_rust.Text.Decimal.{parse_uint, parse_int}
use hath_rust.Dict.{get, insert}
use hath_rust.Crypto.{string_to_hash, parse_additional}
use hath_rust.FileId.Hex.{sample}
use hath_rust.FileId.{from_file_id, from_parts, resolution, from_str}
use hath_rust.CacheRead.{get_file}
use hath_rust.Hath.{
  Headers, etag, requested_range, keystamp_text, keystamp_parts, keystamp_ok, hath,
}
use hath_rust.Hath.Ranges.{IsAnswer, Validates, hath-IsAnswer}
use hath_rust.Hath.Keystamp.{IsAuthorized, keystamp_ok-IsAuthorized, keystamp_parts-accepts}

abbrev id : Bytes
id = codes "0102030400000000000000000000000000000000-4-jpg"

abbrev key : Bytes
key = codes "k"

-- The hash of `5-…` begins with the digits of the character `5`.
abbrev additional : Bytes
additional = codes "keystamp=5-35"

abbrev headers : Headers
headers = record { if_none_match = none; if_range = none; range = some (codes "bytes=1-2") }

abbrev ranges : Bytes → ℕ → Option (List (ℕ × ℕ))
ranges h size = if ltb 2 size then some ((1, 2) ∷ []) else none

ranges-Validates : Validates ranges
ranges-Validates h size rs e = ground arith

stamped : keystamp_ok crypto key (pos 5) id additional ≡ true
unfolding keystamp_ok keystamp_parts keystamp_text parse_additional insert get split starts_with
    string_to_hash parse_int sub_i64 sample pad bytes_eq
stamped = refl

id_info : from_file_id crypto.hex id ≡ some info
unfolding from_file_id from_parts resolution split parse_uint from_str bytes_eq sample pad
id_info = refl

hath-IsAnswer_example : IsAnswer content (requested_range ranges (etag crypto info) 4 headers) (
    hath crypto key
      (pos 5)
      ranges
      (λ i o. (get_file pad i.hash i.size view o).result)
      headers
      id
      additional)
hath-IsAnswer_example =
    hath-IsAnswer crypto key (pos 5) ranges (λ i. view) headers id additional info content stamped
      id_info refl ranges-Validates view-Serves

keystamp_ok-IsAuthorized_example :
    IsAuthorized crypto key 5 id
      (split b'-' (unwrap_or [] (get (codes "keystamp") (parse_additional additional))))
keystamp_ok-IsAuthorized_example =
    keystamp_ok-IsAuthorized crypto key 5 id additional (omega arith) stamped

five : parse_int 9223372036854775807 (codes "5") ≡ some (pos 5)
unfolding parse_int parse_uint
five = refl

prefixed :
    starts_with (string_to_hash crypto (keystamp_text (codes "5") id key)) (codes "35") ≡ true
unfolding starts_with string_to_hash keystamp_text sample pad
prefixed = refl

keystamp_parts-accepts_example :
    keystamp_parts crypto key (pos 5) id (codes "5" ∷ codes "35" ∷ []) ≡ true
keystamp_parts-accepts_example =
    keystamp_parts-accepts crypto key 5 5 id (codes "5") (codes "35") five (omega arith)
      (omega arith) (omega arith, omega arith) refl prefixed
