-- ===== src/CacheRead/Streams.antt =====
-- What a client gets of a cached file.
use hath_rust.Prelude.{
  ℕ, zero, suc, ◌+◌, ◌-◌, ◌≤◌, ◌≡◌, refl, sym, ap, ◌∙◌, true, false, List, [], ◌∷◌, ◌++◌, Option,
  none, some, Bytes, length, drop, ltb, leb, arith, Bool-cases, inl, inr, append_assoc, append-nil,
  length-append, drop-append_le, drop-append_ge, drop_all,
}
use hath_rust.Body.{ended, sent}
use hath_rust.CacheRead.{
  ReadResult, got, error, reader_stream, Verified, requested, send, verify, View, CacheFileResult,
  full, partial, not_found,
}

-- The bytes that reads without an error return up to the first empty one.
abbrev pub read_bytes : List ReadResult → Bytes
read_bytes [] = []
read_bytes (error e ∷ rs) = []
read_bytes (got [] ∷ rs) = []
read_bytes (got (b ∷ bs) ∷ rs) = (b ∷ bs) ++ read_bytes rs

pub sent-reader_stream : (rs : List ReadResult) → sent (reader_stream rs) ≡ read_bytes rs
unfolding sent reader_stream
sent-reader_stream [] = refl
sent-reader_stream (error e ∷ rs) = refl
sent-reader_stream (got [] ∷ rs) = refl
sent-reader_stream (got (b ∷ bs) ∷ rs) = ap (λ t. (b ∷ bs) ++ t) (sent-reader_stream rs)

-- The position from which a request reads.
abbrev pub from : Option ℕ → ℕ
from none = 0
from (some offset) = offset

-- Of a buffer that begins at `at`, the bytes from the offset on are sent.
abbrev bytes_of : Option Bytes → Bytes
bytes_of none = []
bytes_of (some b) = b

requested-drop :
    (offset : Option ℕ) (at : ℕ) (buffer : Bytes)
    → bytes_of (requested offset (at + length buffer) buffer) ≡ drop (from offset - at) buffer
unfolding requested
requested-drop none at buffer = let e : 0 - at ≡ 0 = omega arith in rw e refl
requested-drop (some o) at buffer = elim (Bool-cases (ltb o (at + length buffer))) [
  | inl q ↦ elim (Bool-cases (ltb (at + length buffer - length buffer) o)) [
    | inl r ↦
        let e : length buffer - (at + length buffer - o) ≡ o - at = ground arith in
        rw (q, r, e) refl
    | inr r ↦ let e : o - at ≡ 0 = ground arith in rw (q, r, e) refl
  ]
  | inr q ↦ rw q (sym (drop_all (o - at) buffer (ground arith)))
]

-- All reads return bytes, and together they return the rest of the file.
abbrev pub Reads : Bytes → List ReadResult → Type 0
Reads content [] = content ≡ []
Reads content (error e ∷ rs) = ⊥
Reads content (got buffer ∷ rs) = (rest : Bytes) × (content ≡ buffer ++ rest) × Reads rest rs

sent-send :
    (o : Option Bytes) (v : Verified)
    → (sent (send o v).sends ≡ bytes_of o ++ sent v.sends) × ((send o v).hashed ≡ v.hashed)
unfolding send sent
sent-send none v = (refl, refl)
sent-send (some b) v = (refl, refl)

drop_append : (n : ℕ) (xs ys : Bytes) → drop n xs ++ drop (n - length xs) ys ≡ drop n (xs ++ ys)
drop_append n xs ys = elim (Bool-cases (leb n (length xs))) [
  | inl q ↦
      let e : n - length xs ≡ 0 = ground arith in rw e (sym (drop-append_le n xs ys (ground arith)))
  | inr q ↦ rw (drop_all n xs (ground arith)) (sym (drop-append_ge n xs ys (ground arith)))
]

-- What the verifying task has sent and hashed, when `rest` of the file is left.
pub record Sent (content hashed : Bytes) (skip : ℕ) (v : Verified) : Type 0 where
  pub sends : sent v.sends ≡ drop skip content
  pub whole : v.hashed ≡ some (hashed ++ content)

verify_more :
    (content rest buffer hashed : Bytes) (offset : Option ℕ) (at : ℕ) (v : Verified)
    → content ≡ buffer ++ rest
    → Sent rest (hashed ++ buffer) (from offset - (at + length buffer)) v
    → Sent content hashed (from offset - at) (send (requested offset (at + length buffer) buffer) v)
verify_more content rest buffer hashed offset at v e s =
    let o = requested offset (at + length buffer) buffer in
    let n : from offset - (at + length buffer) ≡ from offset - at - length buffer = omega arith in
    record {
      sends =
          (sent-send o v).0
          ∙ ap (λ t. t ++ sent v.sends) (requested-drop offset at buffer)
          ∙ ap (λ t. drop (from offset - at) buffer ++ t) (s.sends ∙ ap (λ m. drop m rest) n)
          ∙ drop_append (from offset - at) buffer rest
          ∙ ap (λ t. drop (from offset - at) t) (sym e);
      whole =
          (sent-send o v).1
          ∙ s.whole
          ∙ ap (λ t. some t) (append_assoc hashed buffer rest ∙ ap (λ t. hashed ++ t) (sym e));
    }

drop_nil : (n : ℕ) → ◌≡◌ {A = Bytes} [] (drop n [])
drop_nil zero = refl
drop_nil (suc n) = refl

verify_done :
    (content hashed : Bytes) (skip : ℕ)
    → content ≡ []
    → Sent content hashed skip (record { sends = ended ∷ []; hashed = some hashed })
unfolding sent
verify_done content hashed skip e =
    rw e (record { sends = drop_nil skip; whole = ap (λ t. some t) (sym (append-nil hashed)) })

no_bytes : (content : Bytes) → length content ≡ 0 → content ≡ []
no_bytes [] e = refl
no_bytes (x ∷ xs) e = absurd (omega (arith, e))

-- Whatever the sizes of the reads, the task sends the file from the offset on, hashes all of it, and
-- ends.
pub verify-Sent :
    (file_size : ℕ) (offset : Option ℕ) (at : ℕ) (hashed content : Bytes) (rs : List ReadResult)
    → at + length content ≡ file_size
    → Reads content rs
    → Sent content hashed (from offset - at) (verify file_size offset at hashed rs)
unfolding verify
verify-Sent size offset at hashed content [] e r =
    let full : ltb at size ≡ false = ground (arith, ap length r) in
    rw full (verify_done content hashed (from offset - at) r)
verify-Sent size offset at hashed content (error x ∷ rs) e r = absurd r
verify-Sent size offset at hashed content (got buffer ∷ rs) e (rest, eq, r) =
    elim (Bool-cases (ltb at size)) [
      | inl q ↦ rw q (
          verify_more content rest buffer hashed offset at _ eq (
            verify-Sent size offset (at + length buffer) (hashed ++ buffer) rest rs
              (omega (arith, ap length eq, length-append buffer rest, e)) r))
      | inr q ↦ rw q (
          verify_done content hashed (from offset - at)
            (no_bytes content (let q' : size ≤ at = ground arith in omega arith)))
    ]

-- A file of the right size that the file system reads without an error.
pub record Serves (v : View) (size : ℕ) (content : Bytes) : Type 0 where
  pub mtime : ℕ
  pub metadata : v.metadata ≡ some (record { is_file = true; len = size; mtime = mtime })
  pub opens : v.opens ≡ true
  pub size_eq : length content ≡ size
  pub streams : (n : ℕ) → read_bytes (v.reads_from n) ≡ drop n content
  pub reads : Reads content (v.reads_from 0)

-- A full result sends the file, and a partial one sends it from the offset on.
abbrev pub Sends : Bytes → Option ℕ → CacheFileResult → Type 0
Sends content offset (full s) = sent s ≡ content
Sends content offset (partial s) = sent s ≡ drop (from offset) content
Sends content offset not_found = ⊥
