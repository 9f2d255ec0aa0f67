-- ===== src/Gallery/FetchTests.antt =====
-- A gallery of one file whose first request breaks off.
use hath_rust.Prelude.{
  ℕ, ◌≡◌, ◌≤◌, inl, inr, sym, ◌∙◌, refl, Bool, true, false, [], ◌∷◌, some, bytes_eq, codes, length,
  arith, ◌==◌, if◌then◌else◌, if_cases,
}
use hath_rust.Samples.{pad, content}
use hath_rust.Dict.{get, insert}
use hath_rust.Download.{wrote}
use hath_rust.Gallery.{GalleryFile}
use hath_rust.Gallery.Fetch.{
  path_of, received, broken, Fetch, Visit, complete, receive, compare_hash, download, check_hash,
  insert_file, contains, file_eq, after_request, fetch_rounds, visit_file, visit_files, try_gallery,
  download_gallery,
}
use hath_rust.Gallery.Verified.{IsVerified, IsToldBy}
use hath_rust.Gallery.Gathers.{IsHeard, download_gallery-IsVerified}
use hath_rust.Gallery.Members.{IsIn}
use hath_rust.Gallery.Folder.{directory_name, directory_name-length}

abbrev file : GalleryFile
file = record {
  page = 1;
  fileindex = 2;
  xres = codes "org";
  expected_sha1_hash = some (pad content);
  filetype = codes "jpg";
  filename = codes "a";
}

abbrev answer : Bool → ℕ → Fetch
answer use_proxy round =
    if round == 0
    then record { created = true; response = some (received (1 ∷ []) wrote ∷ broken ∷ []) }
    else record { created = true; response = some (received content wrote ∷ []) }

abbrev visits : ℕ → ℕ → Visit
visits retry i = record {
  running = true;
  opens = true;
  link = some (some (codes "h"));
  requests = answer;
}

only_one :
    (f g : GalleryFile) → IsIn f (file ∷ []) → IsIn g (file ∷ []) → path_of f ≡ path_of g → f ≡ g
only_one f g (inl a) (inl b) e = a ∙ sym b
only_one f g (inl a) (inr b) e = absurd b
only_one f g (inr a) i e = absurd a

visits-IsHeard : (retry i : ℕ) → IsHeard (visits retry i).requests
visits-IsHeard retry i use_proxy round =
    if_cases (λ (f : Fetch). IsToldBy f.response) (round == 0) _ _ (λ q. tt) (λ q. tt)

download_gallery-IsVerified_example :
    ((g : GalleryFile)
      → IsIn g (download_gallery pad false visits 1 (file ∷ []) []).1.downloaded
      → IsIn g (file ∷ [])
        × IsVerified pad (download_gallery pad false visits 1 (file ∷ []) []).1.disk g)
    × ((download_gallery pad false visits 1 (file ∷ []) []).0 ≡ complete
        → length (download_gallery pad false visits 1 (file ∷ []) []).1.downloaded ≡ 1)
download_gallery-IsVerified_example =
    download_gallery-IsVerified pad false visits 1 (file ∷ []) [] only_one visits-IsHeard

gathered : (download_gallery pad false visits 1 (file ∷ []) []).1.downloaded ≡ file ∷ []
unfolding download_gallery try_gallery visit_files visit_file fetch_rounds after_request insert_file
    contains check_hash download receive compare_hash get insert pad bytes_eq file_eq
gathered = refl

directory_name-length_example :
    length (directory_name (λ t. []) (codes "title") (codes " [1]")) ≤ 255
directory_name-length_example =
    directory_name-length (λ t. []) (codes "title") (codes " [1]") (omega arith)
