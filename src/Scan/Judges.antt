-- ===== src/Scan/Judges.antt =====
-- What the scan counts is a file of the size that its name states, and what it deletes is not, or
-- has another hash.
use mathlib.Core.Path.{subst}
use hath_rust.Prelude.{
  ◌≡◌, ◌≢◌, refl, sym, Bool, true, false, some, Bytes, bytes_eq, bytes_eq_iff, ◌==◌, ==_iff,
  Bool-cases, Option-cases, inl, inr, ◌⊎◌, ◌>>=◌,
}
use hath_rust.Crypto.{Crypto}
use hath_rust.FileId.{CacheFileInfo, from_file_id, static_range}
use hath_rust.Scan.{Metadata, Entry, Verdict, ignored, deleted, counted, count, check_info, check}

module _ (c : Crypto) (verify_cache : Bool) where
  -- A file, and not a directory, whose name is an identifier.
  abbrev pub IsNamed : Entry → Metadata → CacheFileInfo → Type 0
  IsNamed e m info =
      (e.metadata ≡ some m)
      × ((m.is_dir ≡ false) × ((e.name >>= λ n. from_file_id c.hex n) ≡ some info))

  -- The file has the size that its name states, and if this is verified, the hash.
  abbrev pub IsGood : Entry → Metadata → CacheFileInfo → Type 0
  IsGood e m info =
      (m.len ≡ info.size)
      × (verify_cache ≡ true
          → (bytes : Bytes) × ((e.reads ≡ some bytes) × (c.sha1 bytes ≡ info.hash)))

  -- It has another size, or this is verified and what was read of it, up to its end or to the first
  -- read error, has another hash.
  abbrev pub IsBad : Entry → Metadata → CacheFileInfo → Type 0
  IsBad e m info =
      (m.len ≢ info.size)
      ⊎ ((verify_cache ≡ true)
          × ((bytes : Bytes) × ((e.reads ≡ some bytes) × (c.sha1 bytes ≢ info.hash))))

  abbrev pub IsJudged : Entry → Verdict → Type 0
  IsJudged e ignored = Unit
  IsJudged e deleted =
      (m : Metadata) × ((info : CacheFileInfo) × (IsNamed e m info × IsBad e m info))
  IsJudged e (counted range size mtime) =
      (m : Metadata) × ((info : CacheFileInfo) × (IsNamed e m info
          × (IsGood e m info
              × ((range ≡ static_range c.hex info)
                  × ((e.filesize_fast ≡ some size) × (mtime ≡ m.mtime))))))

  becomes : (e : Entry) {v : Verdict} (w : Verdict) → v ≡ w → IsJudged e w → IsJudged e v
  becomes e w same j = subst (IsJudged e) (sym same) j

  count-IsJudged :
      (e : Entry) (m : Metadata) (info : CacheFileInfo)
      → IsNamed e m info
      → IsGood e m info
      → IsJudged e (count c verify_cache e m info)
  count-IsJudged e m info n g = elim (Option-cases e.filesize_fast) [
    | inl q ↦ becomes e ignored (rw q refl) tt
    | inr q ↦
        becomes e (counted (static_range c.hex info) q.0 m.mtime) (rw q.1 refl)
          (m, (info, (n, (g, (refl, (q.1, refl))))))
  ]

  check_info-IsJudged :
      (e : Entry) (m : Metadata) (info : CacheFileInfo)
      → IsNamed e m info
      → IsJudged e (check_info c verify_cache e m info)
  unfolding check_info
  check_info-IsJudged e m info n = elim (Bool-cases (m.len == info.size)) [
    | inr q ↦
        becomes e deleted (rw q refl)
          (m, (info, (n, inl (λ x. cc ((==_iff m.len info.size).1 x, q)))))
    | inl q ↦
        let same = (==_iff m.len info.size).0 q in
        let all = count c verify_cache e m info in
        elim (Bool-cases verify_cache) [
          | inr v ↦
              becomes e all (rw (q, v) refl)
                (count-IsJudged e m info n (same, λ x. absurd (cc (x, v))))
          | inl v ↦ elim (Option-cases e.reads) [
            | inl r ↦ becomes e ignored (rw (q, v, r) refl) tt
            | inr r ↦
                let (bytes, read) = r in
                elim (Bool-cases (bytes_eq (c.sha1 bytes) info.hash)) [
                  | inl h ↦ becomes e all (rw (q, v, read, h) refl) (
                      count-IsJudged e m info n
                        (same, λ x. (bytes, (read, (bytes_eq_iff (c.sha1 bytes) info.hash).0 h))))
                  | inr h ↦ becomes e deleted (rw (q, v, read, h) refl) (
                    m,
                    (
                      info,
                      (
                        n,
                        inr (
                          v,
                          (bytes, (read, λ x. cc ((bytes_eq_iff (c.sha1 bytes) info.hash).1 x, h))),
                        ),
                      ),
                    ),
                  )
                ]
          ]
        ]
  ]

  pub check-IsJudged : (e : Entry) → IsJudged e (check c verify_cache e)
  unfolding check
  check-IsJudged e = elim (Option-cases e.metadata) [
    | inl q ↦ becomes e ignored (rw q refl) tt
    | inr q ↦
        let (m, there) = q in
        elim (Bool-cases m.is_dir) [
          | inl d ↦ becomes e ignored (rw (there, d) refl) tt
          | inr d ↦ elim (Option-cases (e.name >>= λ n. from_file_id c.hex n)) [
            | inl n ↦ becomes e ignored (rw (there, d, n) refl) tt
            | inr n ↦
                becomes e (check_info c verify_cache e m n.0) (rw (there, d, n.1) refl)
                  (check_info-IsJudged e m n.0 (there, (d, n.1)))
          ]
        ]
  ]
