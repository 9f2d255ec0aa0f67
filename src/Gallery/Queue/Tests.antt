-- ===== src/Gallery/Queue/Tests.antt =====
-- The turn of a gallery whose one file comes at the second request.
use hath_rust.Prelude.{
  ℕ, ◌≡◌, inl, inr, sym, ◌∙◌, refl, Bool, true, false, List, [], ◌∷◌, some, Bytes, codes, ◌==◌,
  if◌then◌else◌, if_cases, bytes_eq,
}
use hath_rust.Samples.{pad, world, client, content}
use hath_rust.Dict.{get, insert}
use hath_rust.Download.{wrote}
use hath_rust.Gallery.{GalleryFile, parsed}
use hath_rust.Gallery.Tests.{raw_gallery, result, accepted}
use hath_rust.Gallery.Fetch.{
  path_of, received, broken, Fetch, Visit, complete, download_gallery, try_gallery, visit_files,
  visit_file, fetch_rounds, after_request, insert_file, contains, check_hash, download, receive,
  receive_unheard, compare_hash, file_eq,
}
use hath_rust.Gallery.Members.{IsIn}
use hath_rust.Gallery.Verified.{IsVerified, IsToldBy}
use hath_rust.Gallery.Gathers.{IsHeard}
use hath_rust.Gallery.Queue.{Turn, Queue, info_file, files_in, turn}
use hath_rust.Gallery.Queue.Finishes.{turn-IsVerified}

abbrev requests : Bool → ℕ → Fetch
requests use_proxy round =
    if round == 0
    then record { created = true; response = some (received (1 ∷ []) wrote ∷ broken ∷ []) }
    else record { created = true; response = some (received content wrote ∷ []) }

abbrev visits : ℕ → ℕ → Visit
visits retry i = record {
  running = true;
  opens = true;
  link = some (some (codes "h"));
  requests = requests;
}

abbrev queue : Queue
queue = record { client = client; dirs = []; download_count = 0 }

abbrev once : Turn
once = record {
  running = true;
  has_dir = true;
  visits = visits;
  writes_info = true;
  client_after = λ c. c;
  chosen = λ l. l;
}

abbrev positions : Bytes → List ℕ
positions title = []

only_one :
    (f g : GalleryFile)
    → IsIn f result.gallery_files
    → IsIn g result.gallery_files
    → path_of f ≡ path_of g
    → f ≡ g
only_one f g (inl a) (inl b) e = a ∙ sym b
only_one f g (inl a) (inr b) e = absurd b
only_one f g (inr a) i e = absurd a

visits-IsHeard : (retry i : ℕ) → IsHeard (visits retry i).requests
visits-IsHeard retry i use_proxy round =
    if_cases (λ (f : Fetch). IsToldBy f.response) (round == 0) _ _ (λ q. tt) (λ q. tt)

-- The file comes, so that the theorem says something of it.
gathered :
    (download_gallery pad false visits 1 result.gallery_files
      (files_in positions result queue)).1.downloaded
    ≡ result.gallery_files
unfolding download_gallery try_gallery visit_files visit_file fetch_rounds after_request insert_file
    contains check_hash download receive receive_unheard compare_hash get insert pad bytes_eq
    file_eq files_in
gathered = refl

turn-IsVerified_example :
    ((g : GalleryFile)
      → IsIn g
          (download_gallery pad false visits 1 result.gallery_files
            (files_in positions result queue)).1.downloaded
      → IsVerified pad
          (files_in positions result (turn world pad positions false once (parsed result) queue).1)
          g)
    × ((download_gallery pad false visits 1 result.gallery_files
            (files_in positions result queue)).0
          ≡ complete
        → once.writes_info ≡ true
        → get info_file (
            files_in positions result (turn world pad positions false once (parsed result) queue).1)
          ≡ some result.information)
turn-IsVerified_example =
    turn-IsVerified world pad positions false (codes "k") raw_gallery result once queue accepted
      only_one visits-IsHeard refl refl
