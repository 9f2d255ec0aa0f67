-- ===== src/Gallery/Gathers.antt =====
-- What the loops over the files and the tries of a gallery gather is verified.
use mathlib.Core.Path.{subst}
use hath_rust.Prelude.{
  if_cases, option_cases, ℕ, suc, zero, ◌+◌, ◌≡◌, ◌≢◌, ◌⊎◌, inl, inr, refl, sym, Bool, true, false,
  not, ◌&&◌, List, [], ◌∷◌, Option, none, some, Bytes, length, ◌==◌, ==_iff, Bool-cases, All,
  if◌then◌else◌,
}
use hath_rust.Dict.{Dict}
use hath_rust.Gallery.{GalleryFile}
use hath_rust.Gallery.Fetch.{
  path_of, contains, Fetch, Outcome, finished, request_error, io_error, hash_mismatch, download,
  check_hash, Progress, insert_file, note_failure, Visit, after_request, fetch_rounds, visit_file,
  visit_files, GalleryEnd, complete, try_gallery, download_gallery,
}
use hath_rust.Gallery.Members.{IsIn, IsIn-contains, every-IsIn}
use hath_rust.Gallery.Verified.{
  IsToldBy, IsVerified, download-finished, download-other, check_hash-IsVerified,
}

-- In no response that comes to its end the last bytes are reported as written, and lost.
abbrev pub IsHeard : (Bool → ℕ → Fetch) → Type 0
IsHeard requests = (use_proxy : Bool) (round : ℕ) → IsToldBy (requests use_proxy round).response

module _ (sha1 : Bytes → Bytes) where
  -- What is downloaded belongs to the gallery, and is verified.
  record IsKept (files : List GalleryFile) (p : Progress) : Type 0 where
    ours : (g : GalleryFile) → IsIn g p.downloaded → IsIn g files
    good : (g : GalleryFile) → IsIn g p.downloaded → IsVerified sha1 p.disk g

  module _ (files : List GalleryFile)
      (distinct : (f g : GalleryFile)
        → IsIn f files
        → IsIn g files
        → path_of f ≡ path_of g
        → f ≡ g) where
    insert_file-IsKept :
        (f : GalleryFile) (p : Progress)
        → IsIn f files
        → IsVerified sha1 p.disk f
        → IsKept files p
        → IsKept files (insert_file f p)
    unfolding insert_file
    insert_file-IsKept f p i v k = elim (Bool-cases (contains f p.downloaded)) [
      | inl q ↦ rw q (record { ours = k.ours; good = k.good })
      | inr q ↦ rw q (record {
        ours = λ g. λ h. one_more (λ x. IsIn x files) g i (k.ours g) h;
        good = λ g. λ h. one_more (IsVerified sha1 p.disk) g v (k.good g) h;
      })
    ]
      where
        one_more :
            (P : GalleryFile → Type 0) (g : GalleryFile)
            → P f
            → (IsIn g p.downloaded → P g)
            → (g ≡ f) ⊎ IsIn g p.downloaded
            → P g
        one_more P g x k (inl e) = subst P (sym e) x
        one_more P g x k (inr h) = k h

    -- None of the files that are there has the path of this one.
    abbrev IsMissing : GalleryFile → Progress → Type 0
    IsMissing f p = (g : GalleryFile) → IsIn g p.downloaded → path_of g ≢ path_of f

    missing :
        (f : GalleryFile) (p : Progress)
        → IsIn f files
        → contains f p.downloaded ≡ false
        → IsKept files p
        → IsMissing f p
    missing f p i q k g h e =
        let same = distinct g f (k.ours g h) i e in
        cc (IsIn-contains f p.downloaded (subst (λ x. IsIn x p.downloaded) same h), q)

    note_failure-IsKept :
        (host : Option Bytes) (f : GalleryFile) (p : Progress)
        → IsKept files p
        → IsKept files (note_failure host f p)
    note_failure-IsKept none f p k = k
    note_failure-IsKept (some host) f p k = record { ours = k.ours; good = k.good }

    last_or_again :
        (last counts : Bool) (host : Option Bytes) (f : GalleryFile) (p again : Progress)
        → IsKept files p
        → IsKept files again
        → IsKept files (if last then (if counts then note_failure host f p else p) else again)
    last_or_again true true host f p again k l = note_failure-IsKept host f p k
    last_or_again true false host f p again k l = k
    last_or_again false counts host f p again k l = l

    after_request-IsKept :
        (host : Option Bytes) (f : GalleryFile) (round : ℕ) (o : Outcome) (p again : Progress)
        → IsIn f files
        → (o ≡ finished → IsVerified sha1 p.disk f)
        → IsKept files p
        → IsKept files again
        → IsKept files (after_request sha1 host f round o p again)
    unfolding after_request
    after_request-IsKept host f round finished p again i v k l = insert_file-IsKept f p i (v refl) k
    after_request-IsKept host f round request_error p again i v k l =
        last_or_again (round == 2) true host f p again k l
    after_request-IsKept host f round io_error p again i v k l =
        last_or_again (round == 2) false host f p again k l
    after_request-IsKept host f round hash_mismatch p again i v k l =
        last_or_again (round == 2) true host f p again k l

    fetch_rounds-IsKept :
        (rounds : List ℕ) (requests : Bool → ℕ → Fetch) (host : Option Bytes) (f : GalleryFile)
        (use_proxy : Bool) (p : Progress)
        → IsIn f files
        → IsMissing f p
        → IsHeard requests
        → IsKept files p
        → IsKept files (fetch_rounds sha1 rounds requests host f use_proxy p)
    unfolding fetch_rounds
    fetch_rounds-IsKept [] requests host f use_proxy p i m t k = k
    fetch_rounds-IsKept (round ∷ rounds) requests host f use_proxy p i m t k =
        let fetch = requests use_proxy round in
        let (o, disk) = download sha1 f fetch p.disk in
        let p' : Progress = record p { disk = disk } in
        let kept : IsKept files p' = record {
          ours = k.ours;
          good = λ g.
              λ h. download-other sha1 f p.disk fetch.created fetch.response g (m g h) (k.good g h);
        } in
        let next = use_proxy && not (round == 1) in
        after_request-IsKept host f round o p' (fetch_rounds sha1 rounds requests host f next p') i
          (download-finished sha1 f p.disk fetch.created fetch.response (t use_proxy round)) kept
          (fetch_rounds-IsKept rounds requests host f next p' i m t kept)

    visit_file-IsKept :
        (use_proxy : Bool) (v : Visit) (f : GalleryFile) (p : Progress)
        → IsIn f files
        → IsHeard v.requests
        → IsKept files p
        → IsKept files (visit_file sha1 use_proxy v f p)
    unfolding visit_file
    visit_file-IsKept use_proxy v f p i t k =
        if_cases (IsKept files) (contains f p.downloaded) _ _ (λ q. k)
          (λ q.
            if_cases (IsKept files) (check_hash sha1 f v.opens p.disk) _ _
              (λ c. insert_file-IsKept f p i (check_hash-IsVerified sha1 f p.disk v.opens c) k)
              (λ c.
                option_cases (IsKept files) v.link _ _ (λ l. k)
                  (λ host l.
                    fetch_rounds-IsKept (0 ∷ 1 ∷ 2 ∷ []) v.requests host f use_proxy p i
                      (missing f p i q k) t k)))

    visit_files-IsKept :
        (use_proxy : Bool) (visits : ℕ → Visit) (n : ℕ) (fs : List GalleryFile) (p : Progress)
        → All (λ f. IsIn f files) fs
        → ((i : ℕ) → IsHeard (visits i).requests)
        → IsKept files p
        → IsKept files (visit_files sha1 use_proxy visits n fs p).1
    unfolding visit_files
    visit_files-IsKept use_proxy visits n [] p a t k = k
    visit_files-IsKept use_proxy visits n (f ∷ fs) p a t k =
        if_cases (λ (r : Bool × Progress). IsKept files r.1) (visits n).running _ _
          (λ q.
            visit_files-IsKept use_proxy visits (n + 1) fs _ a.1 t
              (visit_file-IsKept use_proxy (visits n) f p a.0 (t n) k))
          (λ q. k)

    module _ (has_proxy : Bool) (visits : ℕ → ℕ → Visit) (filecount : ℕ)
        (heard : (retry i : ℕ) → IsHeard (visits retry i).requests) where
      -- The gallery is complete only with as many files as it says.
      abbrev Counted : GalleryEnd × Progress → Type 0
      Counted (e, p) = IsKept files p × (e ≡ complete → length p.downloaded ≡ filecount)

      try_gallery-Counted :
          (left retry : ℕ) (p : Progress)
          → All (λ f. IsIn f files) files
          → IsKept files p
          → Counted (try_gallery sha1 has_proxy visits filecount left retry files p)
      unfolding try_gallery
      try_gallery-Counted zero retry p a k = (k, λ e. absurd cc)
      try_gallery-Counted (suc left) retry p a k =
          let use_proxy = not (retry == 0) && has_proxy in
          let r = visit_files sha1 use_proxy (visits retry) 0 files p in
          let kept = visit_files-IsKept use_proxy (visits retry) 0 files p a (heard retry) k in
          if_cases Counted r.0 _ _ (λ q. (kept, λ e. absurd cc))
            (λ q.
              if_cases Counted (length r.1.downloaded == filecount) _ _
                (λ n. (kept, λ e. (==_iff (length r.1.downloaded) filecount).0 n))
                (λ n. try_gallery-Counted left (retry + 1) r.1 a kept))

-- Where no two files of a gallery have one path, and where no last bytes of a response are reported
-- as written and lost, then however else the servers, the network and the file system behave, each file that counts as downloaded when the download of the gallery ends is a file
-- of the gallery, is in the directory, and has there the hash that the description states for it, if
-- it states one; and a gallery is called complete only with as many files as it says.
pub download_gallery-IsVerified :
    (sha1 : Bytes → Bytes) (has_proxy : Bool) (visits : ℕ → ℕ → Visit) (filecount : ℕ)
    (files : List GalleryFile) (disk : Dict Bytes)
    → ((f g : GalleryFile) → IsIn f files → IsIn g files → path_of f ≡ path_of g → f ≡ g)
    → ((retry i : ℕ) → IsHeard (visits retry i).requests)
    → let r = download_gallery sha1 has_proxy visits filecount files disk in
      (((g : GalleryFile) → IsIn g r.1.downloaded → IsIn g files × IsVerified sha1 r.1.disk g)
        × (r.0 ≡ complete → length r.1.downloaded ≡ filecount))
unfolding download_gallery
download_gallery-IsVerified sha1 has_proxy visits filecount files disk distinct heard =
    let p : Progress = record { downloaded = []; failures = []; disk = disk } in
    let (k, n) =
      try_gallery-Counted sha1 files distinct has_proxy visits filecount heard 10 0 p
        (every-IsIn files) (record { ours = λ g h. absurd h; good = λ g h. absurd h }) in
    (λ g h. (k.ours g h, k.good g h), n)
