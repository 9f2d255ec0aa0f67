-- ===== src/Scan/Holds.antt =====
-- What a directory of the disk holds of a listing, told without the scan's own check, and that the
-- scan counts just that.
use hath_rust.Prelude.{
  ℕ, ◌≡◌, ==_iff, refl, sym, ap, ◌∙◌, Bool, List, [], ◌∷◌, some, Bytes, length, arith, bytes_eq,
  bytes_eq_iff, bytes_eq_refl, Bool-cases, inl, inr, if◌then◌else◌,
}
use hath_rust.Dict.{Dict}
use hath_rust.Crypto.{Crypto}
use hath_rust.FileId.{CacheFileInfo, static_range}
use hath_rust.CacheStore.Directories.{total}
use hath_rust.Scan.{Metadata, Entry, Verdict, ignored, deleted, counted, count, check_info, check}
use hath_rust.Scan.Judges.{IsNamed, IsGood, IsJudged, check-IsJudged}
use hath_rust.Scan.Recounts.{files_of, size_of, file_number, file_size}

module _ (c : Crypto) (verify_cache : Bool) where
  -- A good file of the range, which takes so many bytes.
  abbrev pub IsFileOf : Bytes → Entry → ℕ → Type 0
  IsFileOf r e size =
      (m : Metadata) × ((info : CacheFileInfo) × (IsNamed c verify_cache e m info
          × (IsGood c verify_cache e m info
              × ((static_range c.hex info ≡ r) × (e.filesize_fast ≡ some size)))))

  -- A directory that holds the good files of the range among these entries, with the bytes they take,
  -- and nothing else.
  pub data Holds (r : Bytes) : List Entry → Dict ℕ → Type 0 where
    nothing : Holds r [] []
    other :
        {e : Entry} {es : List Entry} {d : Dict ℕ}
        → ((size : ℕ) → IsFileOf r e size → ⊥)
        → Holds r es d
        → Holds r (e ∷ es) d
    here :
        {e : Entry} {es : List Entry} {d : Dict ℕ} (name : Bytes) (size : ℕ)
        → e.name ≡ some name
        → IsFileOf r e size
        → Holds r es d
        → Holds r (e ∷ es) ((name, size) ∷ d)

  check_info-good :
      (e : Entry) (m : Metadata) (info : CacheFileInfo)
      → IsGood c verify_cache e m info
      → check_info c verify_cache e m info ≡ count c verify_cache e m info
  unfolding check_info
  check_info-good e m info (same, hashed) =
      let q = (==_iff m.len info.size).1 same in
      elim (Bool-cases verify_cache) [
        | inr v ↦ rw (q, v) refl
        | inl v ↦
            let (bytes, (read, h)) = hashed v in
            rw (q, v, read, (bytes_eq_iff (c.sha1 bytes) info.hash).1 h) refl
      ]

  check-counted :
      (r : Bytes) (e : Entry) (size : ℕ) (f : IsFileOf r e size)
      → check c verify_cache e ≡ counted r size f.0.mtime
  unfolding check
  check-counted r e size (m, (info, (named, (good, (of, takes))))) =
      rw (named.0, named.1.0, named.1.1, check_info-good e m info good, takes, of) refl

  judged_other :
      (r : Bytes) (e : Entry) (v : Verdict)
      → IsJudged c verify_cache e v
      → ((size : ℕ) → IsFileOf r e size → ⊥)
      → (files_of r v ≡ 0) × (size_of r v ≡ 0)
  judged_other r e ignored j n = (refl, refl)
  judged_other r e deleted j n = (refl, refl)
  judged_other r e (counted range size mtime) (m, (info, (named, (good, (of, (takes, t)))))) n =
      elim (Bool-cases (bytes_eq range r)) [
        | inr q ↦ rw q (refl, refl)
        | inl q ↦
            absurd
              (n size (m, (info, (named, (good, (sym of ∙ (bytes_eq_iff range r).0 q, takes))))))
      ]

  -- The scan counts the files that the directory holds.
  pub Holds-counted :
      (r : Bytes) {es : List Entry} {d : Dict ℕ}
      → Holds r es d
      → (length d ≡ file_number c verify_cache r es) × (total d ≡ file_size c verify_cache r es)
  Holds-counted r nothing = (refl, refl)
  Holds-counted r (other {e} n h) =
      let (a, b) = judged_other r e (check c verify_cache e) (check-IsJudged c verify_cache e) n in
      let rest = Holds-counted r h in (omega (arith, a, rest.0), omega (arith, b, rest.1))
  Holds-counted r (here {e} name size q f h) =
      let rest = Holds-counted r h in
      let found = check-counted r e size f in
      (
        omega (
          arith,
          ap (files_of r) found,
          ap {B = ℕ} (λ b. if b then 1 else 0) (bytes_eq_refl r),
          rest.0,
        ),
        omega (
          arith,
          ap (size_of r) found,
          ap {B = ℕ} (λ b. if b then size else 0) (bytes_eq_refl r),
          rest.1,
        ),
      )
