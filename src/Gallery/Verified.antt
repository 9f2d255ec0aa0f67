-- ===== src/Gallery/Verified.antt =====
-- A request of a file that comes to its end leaves the file in the directory, with its hash.
use mathlib.Core.Option.{some-injective}
use hath_rust.Prelude.{
  ◌≡◌, ◌≢◌, inl, inr, refl, sym, ap, ◌∙◌, Bool, true, false, ◌&&◌, List, [], ◌∷◌, ◌++◌, Option,
  none, some, take, Bytes, bytes_eq, bytes_eq_iff, bytes_eq_refl, Bool-cases, Option-cases,
}
use hath_rust.Dict.{Dict, get, insert, get-insert}
use hath_rust.Download.{wrote, lost, fails}
use hath_rust.Gallery.{GalleryFile}
use hath_rust.Gallery.Fetch.{
  path_of, Chunk, received, broken, Fetch, Outcome, finished, request_error, io_error,
  hash_mismatch, receive_unheard, receive, compare_hash, download, check_hash,
}

-- The response does not end behind these bytes: more come, or it breaks off.
abbrev pub GoesOn : List Chunk → Type 0
GoesOn [] = ⊥
GoesOn (broken ∷ chunks) = Unit
GoesOn (received [] outcome ∷ chunks) = GoesOn chunks
GoesOn (received (b ∷ bytes) outcome ∷ chunks) = Unit

-- Bytes that were reported as written and did not reach the file are never the last ones.
abbrev pub IsTold : List Chunk → Type 0
IsTold [] = Unit
IsTold (broken ∷ chunks) = Unit
IsTold (received bytes wrote ∷ chunks) = IsTold chunks
IsTold (received bytes (lost n) ∷ chunks) = GoesOn chunks
IsTold (received bytes (fails n) ∷ chunks) = Unit

abbrev pub IsToldBy : Option (List Chunk) → Type 0
IsToldBy none = Unit
IsToldBy (some chunks) = IsTold chunks

module _ (sha1 : Bytes → Bytes) where
  -- The file is there, and has the hash that is stated for it, if one is.
  abbrev pub IsVerified : Dict Bytes → GalleryFile → Type 0
  IsVerified disk f =
      (bytes : Bytes) × ((get (path_of f) disk ≡ some bytes)
        × ((expected : Bytes) → f.expected_sha1_hash ≡ some expected → sha1 bytes ≡ expected))

  IsVerified-insert :
      (f : GalleryFile) (bytes : Bytes) (disk : Dict Bytes)
      → ((expected : Bytes) → f.expected_sha1_hash ≡ some expected → sha1 bytes ≡ expected)
      → IsVerified (insert (path_of f) bytes disk) f
  IsVerified-insert f bytes disk h = (
    bytes,
    (get-insert (path_of f) (path_of f) bytes disk ∙ (rw (bytes_eq_refl (path_of f)) refl), h),
  )

  -- What is written elsewhere changes nothing.
  pub IsVerified-elsewhere :
      (g : GalleryFile) (path bytes : Bytes) (disk : Dict Bytes)
      → path_of g ≢ path
      → IsVerified disk g
      → IsVerified (insert path bytes disk) g
  IsVerified-elsewhere g path bytes disk n v =
      let other : bytes_eq path (path_of g) ≡ false =
        elim (Bool-cases (bytes_eq path (path_of g))) [
          | inl q ↦ absurd (n (sym ((bytes_eq_iff path (path_of g)).0 q)))
          | inr q ↦ q
        ] in
      (v.0, (get-insert path (path_of g) bytes disk ∙ (rw other v.1.0), v.1.1))

  -- A response that comes to its end is written as it is hashed.
  abbrev Written : Outcome × (Bytes × Bytes) → Type 0
  Written (o, (file, hashed)) = o ≡ finished → file ≡ hashed

  receive_unheard-GoesOn :
      (chunks : List Chunk) (file hashed : Bytes)
      → GoesOn chunks
      → (receive_unheard chunks file hashed).0 ≢ finished
  unfolding receive_unheard
  receive_unheard-GoesOn [] file hashed g = absurd g
  receive_unheard-GoesOn (broken ∷ chunks) file hashed g = λ e. cc
  receive_unheard-GoesOn (received [] o ∷ chunks) file hashed g =
      receive_unheard-GoesOn chunks file hashed g
  receive_unheard-GoesOn (received (b ∷ bytes) o ∷ chunks) file hashed g = λ e. cc

  unfinished-Written : (r : Outcome × (Bytes × Bytes)) → r.0 ≢ finished → Written r
  unfinished-Written r n = λ e. absurd (n e)

  receive-Written :
      (chunks : List Chunk) (bytes : Bytes) → IsTold chunks → Written (receive chunks bytes bytes)
  unfolding receive
  receive-Written [] bytes t = λ e. refl
  receive-Written (broken ∷ chunks) bytes t = λ e. absurd cc
  receive-Written (received more wrote ∷ chunks) bytes t = receive-Written chunks (bytes ++ more) t
  receive-Written (received more (lost n) ∷ chunks) bytes t =
      unfinished-Written (receive_unheard chunks (bytes ++ take n more) (bytes ++ more))
        (receive_unheard-GoesOn chunks (bytes ++ take n more) (bytes ++ more) t)
  receive-Written (received more (fails n) ∷ chunks) bytes t = λ e. absurd cc

  compare_hash-finished :
      (h : Option Bytes) (r : Outcome × (Bytes × Bytes))
      → Written r
      → (compare_hash sha1 h r).0 ≡ finished
      → (expected : Bytes) → h ≡ some expected
      → sha1 (compare_hash sha1 h r).1 ≡ expected
  unfolding compare_hash
  compare_hash-finished none r w e expected q = absurd cc
  compare_hash-finished (some h) (finished, (file, hashed)) w e expected q =
      elim (Bool-cases (bytes_eq (sha1 hashed) h)) [
        | inl s ↦
            ap sha1 (w refl) ∙ (bytes_eq_iff (sha1 hashed) h).0 s ∙ some-injective h expected q
        | inr s ↦ absurd (cc (rw s at e))
      ]
  compare_hash-finished (some h) (request_error, r) w e expected q = absurd cc
  compare_hash-finished (some h) (io_error, r) w e expected q = absurd cc
  compare_hash-finished (some h) (hash_mismatch, r) w e expected q = absurd cc

  module _ (f : GalleryFile) (disk : Dict Bytes) where
    IsVerified-other :
        (bytes : Bytes) (g : GalleryFile)
        → path_of g ≢ path_of f
        → IsVerified disk g
        → IsVerified (insert (path_of f) bytes disk) g
    IsVerified-other bytes g n v = IsVerified-elsewhere g (path_of f) bytes disk n v

    pub download-finished :
        (created : Bool) (response : Option (List Chunk))
        → IsToldBy response
        → let fetch : Fetch = record { created = created; response = response } in
          ((download sha1 f fetch disk).0 ≡ finished → IsVerified (download sha1 f fetch disk).1 f)
    unfolding download
    download-finished false response t e = absurd cc
    download-finished true none t e = absurd cc
    download-finished true (some chunks) t e = IsVerified-insert f _ disk (
        compare_hash-finished f.expected_sha1_hash (receive chunks [] [])
          (receive-Written chunks [] t) e)

    pub download-other :
        (created : Bool) (response : Option (List Chunk)) (g : GalleryFile)
        → path_of g ≢ path_of f
        → IsVerified disk g
        → IsVerified (download sha1 f (record { created = created; response = response }) disk).1 g
    unfolding download
    download-other false response g n v = v
    download-other true none g n v = IsVerified-other [] g n v
    download-other true (some chunks) g n v = IsVerified-other _ g n v

    pub check_hash-IsVerified :
        (opens : Bool) → check_hash sha1 f opens disk ≡ true → IsVerified disk f
    unfolding check_hash
    check_hash-IsVerified opens e = elim (Option-cases (get (path_of f) disk)) [
      | inl q ↦ absurd (cc (rw (check_hash, q) at e))
      | inr q ↦ (
        q.0,
        (
          q.1,
          λ expected x.
              let read : (opens && bytes_eq (sha1 q.0) expected) ≡ true =
                rw (check_hash, q.1, x) at e in
              (bytes_eq_iff (sha1 q.0) expected).0 (second opens _ read),
        ),
      )
    ]
      where
        second : (a b : Bool) → (a && b) ≡ true → b ≡ true
        second true b h = h
        second false b h = absurd cc
