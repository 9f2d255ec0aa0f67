-- ===== src/Hath/Ranges.antt =====
-- What a client gets of a file that is in the cache: `hath`, `get_file` and `TruncateBody` together.
use hath_rust.Prelude.{
  ℕ, ◌+◌, ◌-◌, ◌≤◌, ◌<◌, ◌≡◌, refl, sym, ap, ◌∙◌, true, false, List, [], ◌∷◌, Option, none, some,
  Bytes, length, take, drop, ◌==◌, arith, All, Bool-cases, Option-cases, inl, inr, length-take,
  length-drop, ==_iff,
}
use mathlib.Core.Path.{subst}
use hath_rust.Prelude.Int.{ℤ}
use hath_rust.Crypto.{Crypto}
use hath_rust.FileId.{CacheFileInfo, from_file_id}
use hath_rust.Body.{Polled, sent}
use hath_rust.Body.Truncates.{sent-polls}
use hath_rust.CacheRead.{CacheFileResult, full, partial, not_found, View, get_file}
use hath_rust.CacheRead.Streams.{Serves, Sends}
use hath_rust.CacheRead.Serving.{get_file-Sends}
use hath_rust.Hath.{
  keystamp_ok, Headers, etag, Reply, forbidden, missing, not_modified, partial_content, whole_file,
  proxied, only_one, is_value, is_other, requested_range, start_of, respond, from_cache, serve,
  hath,
}

-- The reply carries the content: all of it, or the part that was asked for; the Content-Length is
-- the number of bytes sent.
abbrev pub IsAnswer : Bytes → Option (ℕ × ℕ) → Reply → Type 0
IsAnswer content asked forbidden = ⊥
IsAnswer content asked missing = ⊥
IsAnswer content asked (not_modified n tag) = ⊥
IsAnswer content asked (proxied info) = ⊥
IsAnswer content asked (whole_file n stream) = (n ≡ length content) × (sent stream ≡ content)
IsAnswer content asked (partial_content start end size n stream) =
    (asked ≡ some (start, end))
    × (size ≡ length content)
    × (length (sent stream) ≡ n)
    × (sent stream ≡ take (end + 1 - start) (drop start content))

-- What `http_range_header` promises of the ranges that it validates.
abbrev pub Within : ℕ → ℕ × ℕ → Type 0
Within size (start, end) = (start ≤ end) × (end < size)

abbrev pub Validates : (Bytes → ℕ → Option (List (ℕ × ℕ))) → Type 0
Validates ranges =
    (h : Bytes) (size : ℕ) (rs : List (ℕ × ℕ)) → ranges h size ≡ some rs → All (Within size) rs

only_one-Within :
    (size : ℕ) (rs : List (ℕ × ℕ)) (r : ℕ × ℕ)
    → All (Within size) rs
    → only_one rs ≡ some r
    → Within size r
unfolding only_one
only_one-Within size [] r a e = cc
only_one-Within size (q ∷ []) r a e = let same : q ≡ r = cc e in subst (Within size) same a.0
only_one-Within size (p ∷ q ∷ rs) r a e = cc

-- The range of a request is one that the crate has validated.
requested_range-Within :
    (ranges : Bytes → ℕ → Option (List (ℕ × ℕ))) (tag : Bytes) (size : ℕ) (headers : Headers)
    (r : ℕ × ℕ)
    → Validates ranges
    → requested_range ranges tag size headers ≡ some r
    → Within size r
unfolding requested_range
requested_range-Within ranges tag size headers r v e =
    elim (Bool-cases (is_other tag headers.if_range)) [
      | inl q ↦ absurd (cc (rw q at e))
      | inr q ↦ elim (Option-cases headers.range) [
        | inl n ↦ absurd (cc (rw (q, n) at e))
        | inr (h, eh) ↦ elim (Option-cases (ranges h size)) [
          | inl n ↦ absurd (cc (rw (q, eh, n) at e))
          | inr (rs, er) ↦ only_one-Within size rs r (v h size rs er) (rw (q, eh, er) at e)
        ]
      ]
    ]

respond_part :
    (content : Bytes) (start end : ℕ) (stream : List Polled)
    → start ≤ end
    → end < length content
    → sent stream ≡ drop start content
    → IsAnswer content (some (start, end)) (respond (length content) (some (start, end)) stream)
unfolding respond
respond_part content start end stream le lt e =
    let body = sent-polls (end - start + 1) stream ∙ ap (take (end - start + 1)) e in
    let n : end + 1 - start ≡ end - start + 1 = omega arith in
    (
      refl,
      refl,
      ap length body
          ∙ length-take (end - start + 1) (drop start content)
          ∙ omega (arith, length-drop start content),
      body ∙ ap (λ m. take m (drop start content)) (sym n),
    )

module _ (info : CacheFileInfo) (content : Bytes) (size : length content ≡ info.size) where
  from_cache-IsAnswer :
      (asked : Option (ℕ × ℕ)) (result : CacheFileResult)
      → ((r : ℕ × ℕ) → asked ≡ some r → Within (length content) r)
      → Sends content (start_of asked) result
      → IsAnswer content asked (from_cache info asked result)
  unfolding from_cache respond
  from_cache-IsAnswer asked not_found w s = absurd s
  from_cache-IsAnswer none (full stream) w s = (sym size, s)
  from_cache-IsAnswer none (partial stream) w s = (sym size, s)
  from_cache-IsAnswer (some (start, end)) (partial stream) w s =
      rw (← size)
        (respond_part content start end stream (w (start, end) refl).0 (w (start, end) refl).1 s)
  from_cache-IsAnswer (some (start, end)) (full stream) w s = elim (Bool-cases (start == 0)) [
    | inl q ↦
        let z : start ≡ 0 = (==_iff start 0).0 q in
        let s' : sent stream ≡ drop start content = s ∙ ap (λ m. drop m content) {x = 0} (sym z) in
        rw (q, ← size)
          (respond_part content start end stream (w (start, end) refl).0 (w (start, end) refl).1 s')
    | inr q ↦ rw q (sym size, s)
  ]

-- For an accepted request of a file that is in the cache, which the client does not hold already,
-- the reply carries the content of the file: all of it, or, where one range was asked for, the
-- bytes of the range; and as many bytes are sent as the Content-Length says. This holds for a file
-- that is verified while it is sent and for one that is not, whatever the sizes of the reads.
-- The ranges that the crate validates are taken to lie in the file.
pub hath-IsAnswer :
    (c : Crypto) (key : Bytes) (now : ℤ) (ranges : Bytes → ℕ → Option (List (ℕ × ℕ)))
    (view : CacheFileInfo → View) (headers : Headers) (file_id additional : Bytes)
    (info : CacheFileInfo) (content : Bytes)
    → keystamp_ok c key now file_id additional ≡ true
    → from_file_id c.hex file_id ≡ some info
    → is_value (etag c info) headers.if_none_match ≡ false
    → Validates ranges
    → Serves (view info) info.size content
    → IsAnswer content (requested_range ranges (etag c info) info.size headers) (
        hath c key now ranges
          (λ i o. (get_file c.sha1 i.hash i.size (view i) o).result)
          headers
          file_id
          additional)
unfolding hath serve
hath-IsAnswer c key now ranges view headers file_id additional info content k p n v s =
    let asked = requested_range ranges (etag c info) info.size headers in
    rw (k, p, n)
      (from_cache-IsAnswer info content s.size_eq asked
        (get_file c.sha1 info.hash info.size (view info) (start_of asked)).result
        (λ r e.
          subst (λ m. Within m r) (sym s.size_eq)
            (requested_range-Within ranges (etag c info) info.size headers r v e))
        (get_file-Sends info.size (view info) content s c.sha1 info.hash (start_of asked)))
