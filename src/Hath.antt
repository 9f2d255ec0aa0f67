-- ===== src/Hath.antt =====
-- The handler `hath` of src/route/cache.rs: a request for a cached file. The crate
-- `http_range_header` is the parameter `ranges`: the byte ranges of a Range header, validated
-- against the size of the file. `now` is `get_timestemp`.
pub mod Keystamp
pub mod Ranges
mod Tests
use hath_rust.Prelude.{
  ℕ, ◌+◌, ◌-◌, ◌^◌, Bool, true, false, not, ◌&&◌, ◌||◌, List, [], ◌∷◌, ◌++◌, Option, none, some,
  Bytes, codes, bytes_eq, length, take, ◌==◌, if◌then◌else◌, ◌>>=◌, unwrap_or,
}
use hath_rust.Prelude.Int.{ℤ, pos, negsuc, between, sub_i64}
use hath_rust.Text.{split, starts_with, is_empty}
use hath_rust.Text.Decimal.{parse_int}
use hath_rust.Dict.{Dict, get}
use hath_rust.Crypto.{Crypto, string_to_hash, parse_additional}
use hath_rust.FileId.{CacheFileInfo, from_file_id, to_mime}
use hath_rust.Body.{Polled, polls}
use hath_rust.CacheRead.{CacheFileResult, full, partial, not_found}
use hath_rust.Rpc.Response.{nth_part}

abbrev pub i64_max : ℕ
i64_max = 2 ^ 63 - 1

-- `TTL`: fifteen minutes, in seconds.
abbrev pub ttl_min : ℤ
ttl_min = negsuc 899

abbrev pub ttl_max : ℤ
ttl_max = pos 900

-- What the hash of a keystamp is taken over.
unfoldable pub keystamp_text : Bytes → Bytes → Bytes → Bytes
keystamp_text time file_id key =
    time ++ (b'-' ∷ (file_id ++ (b'-' ∷ (key ++ codes "-hotlinkthis"))))

-- The check of a keystamp, whose parts are split at the dashes.
unfoldable pub keystamp_parts : Crypto → Bytes → ℤ → Bytes → List Bytes → Bool
unfolding keystamp_text
keystamp_parts c key now file_id parts =
    let time = unwrap_or [] (nth_part 0 parts) in
    let hash = unwrap_or [] (nth_part 1 parts) in
    let time_diff = sub_i64 now (unwrap_or (pos 0) (parse_int i64_max time)) in
    not (
      is_empty time
      || is_empty hash
      || not (between ttl_min ttl_max time_diff)
      || not (starts_with (string_to_hash c (keystamp_text time file_id key)) hash))

unfoldable pub keystamp_ok : Crypto → Bytes → ℤ → Bytes → Bytes → Bool
unfolding keystamp_parts
keystamp_ok c key now file_id additional =
    let stamp = unwrap_or [] (get (codes "keystamp") (parse_additional additional)) in
    keystamp_parts c key now file_id (split b'-' stamp)

-- The headers of a request that the handler reads, as text where they are text.
pub record Headers : Type 0 where
  pub if_none_match : Option Bytes
  pub if_range : Option Bytes
  pub range : Option Bytes

-- The entity tag: the first eight hex digits of the hash, in quotes.
unfoldable pub etag : Crypto → CacheFileInfo → Bytes
etag c info = b'"' ∷ (c.hex.encode (take 4 info.hash) ++ b'"' ∷ [])

pub data Reply : Type 0 where
  forbidden : Reply
  missing : Reply
  not_modified : ℕ → Bytes → Reply
  -- The first and the last byte, the size of the file, the Content-Length and the body.
  partial_content : ℕ → ℕ → ℕ → ℕ → List Polled → Reply
  -- The Content-Length and the body.
  whole_file : ℕ → List Polled → Reply
  -- The file is not in the cache, and is fetched.
  proxied : CacheFileInfo → Reply

unfoldable pub only_one : List (ℕ × ℕ) → Option (ℕ × ℕ)
only_one [] = none
only_one (r ∷ []) = some r
only_one (r ∷ q ∷ rs) = none

abbrev pub is_value : Bytes → Option Bytes → Bool
is_value s none = false
is_value s (some t) = bytes_eq t s

abbrev pub is_other : Bytes → Option Bytes → Bool
is_other s none = false
is_other s (some t) = not (bytes_eq t s)

-- The range that is served, if any: one range only, and none where If-Range names another tag.
unfoldable pub requested_range :
    (Bytes → ℕ → Option (List (ℕ × ℕ))) → Bytes → ℕ → Headers → Option (ℕ × ℕ)
unfolding only_one
requested_range ranges tag file_size headers =
    if is_other tag headers.if_range
    then none
    else headers.range >>= (λ h. ranges h file_size >>= only_one)

abbrev pub start_of : Option (ℕ × ℕ) → Option ℕ
start_of none = none
start_of (some r) = some r.0

-- Where the file was read from its beginning, a range from elsewhere is dropped.
abbrev pub drop_unless_zero : Option (ℕ × ℕ) → Option (ℕ × ℕ)
drop_unless_zero none = none
drop_unless_zero (some r) = if r.0 == 0 then some r else none

unfoldable pub respond : ℕ → Option (ℕ × ℕ) → List Polled → Reply
respond file_size none stream = whole_file file_size stream
respond file_size (some (start, end)) stream =
    let content_length = end - start + 1 in
    partial_content start end file_size content_length (polls content_length stream)

-- The response to a cache lookup.
unfoldable pub from_cache : CacheFileInfo → Option (ℕ × ℕ) → CacheFileResult → Reply
unfolding respond
from_cache info range (full stream) = respond info.size (drop_unless_zero range) stream
from_cache info range (partial stream) = respond info.size range stream
from_cache info range not_found = proxied info

-- The handler for a parsed identifier; `lookup` is `get_file` on it.
unfoldable pub serve :
    Crypto
    → (Bytes → ℕ → Option (List (ℕ × ℕ)))
    → (CacheFileInfo → Option ℕ → CacheFileResult)
    → Headers
    → CacheFileInfo
    → Reply
unfolding from_cache requested_range etag
serve c ranges lookup headers info =
    let range = requested_range ranges (etag c info) info.size headers in
    if is_value (etag c info) headers.if_none_match
    then not_modified info.size (etag c info)
    else from_cache info range (lookup info (start_of range))

-- `hath`, up to the fetch of a file that is not in the cache.
unfoldable pub hath :
    Crypto
    → Bytes
    → ℤ
    → (Bytes → ℕ → Option (List (ℕ × ℕ)))
    → (CacheFileInfo → Option ℕ → CacheFileResult)
    → Headers
    → Bytes
    → Bytes
    → Reply
unfolding serve keystamp_ok
hath c key now ranges lookup headers file_id additional =
    if not (keystamp_ok c key now file_id additional)
    then forbidden
    else elim (from_file_id c.hex file_id) [
      | none ↦ missing
      | some info ↦ serve c ranges lookup headers info
    ]
