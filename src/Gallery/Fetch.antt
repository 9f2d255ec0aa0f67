-- ===== src/Gallery/Fetch.antt =====
-- The download of a gallery's files of src/gallery_downloader.rs: `download`, `check_hash` and the
-- loops of `run` over the files and the tries. What the network and the file system do is an
-- argument. The task of a file is taken to end before the next file is looked at: with no two files
-- of one path, tasks do not meet. A directory is a map from names to what was written.
use hath_rust.Prelude.{
  ℕ, suc, zero, ◌+◌, Bool, true, false, not, ◌&&◌, ◌||◌, List, [], ◌∷◌, ◌++◌, Option, none, some,
  Bytes, bytes_eq, length, take, ◌==◌, if◌then◌else◌,
}
use hath_rust.Text.Decimal.{show}
use hath_rust.Dict.{Dict, get, insert}
use hath_rust.Download.{Write, wrote, lost, fails}
use hath_rust.Gallery.{GalleryFile}

abbrev pub path_of : GalleryFile → Bytes
path_of f = f.filename ++ (b'.' ∷ f.filetype)

abbrev pub hash_eq : Option Bytes → Option Bytes → Bool
hash_eq none none = true
hash_eq none (some k) = false
hash_eq (some h) none = false
hash_eq (some h) (some k) = bytes_eq h k

-- The equality of `GalleryFile` that is derived.
unfoldable pub file_eq : GalleryFile → GalleryFile → Bool
file_eq f g =
    (f.page == g.page)
    && ((f.fileindex == g.fileindex)
        && (bytes_eq f.xres g.xres
            && (hash_eq f.expected_sha1_hash g.expected_sha1_hash
                && (bytes_eq f.filetype g.filetype && bytes_eq f.filename g.filename))))

-- `downloaded_files.contains` of a set.
unfoldable pub contains : GalleryFile → List GalleryFile → Bool
unfolding file_eq
contains f [] = false
contains f (g ∷ gs) = file_eq f g || contains f gs

-- An item of a response: bytes, with how writing them ends, or an error.
pub data Chunk : Type 0 where
  received : Bytes → Write → Chunk
  broken : Chunk

-- One request of a file: whether the file is created, and the response if there is one.
pub record Fetch : Type 0 where
  pub created : Bool
  pub response : Option (List Chunk)

-- How `download` ends; a request error is one of `reqwest`.
pub data Outcome : Type 0 where
  finished request_error io_error hash_mismatch : Outcome

-- The loop behind bytes that were reported as written and did not reach the file: the next write has
-- the error. The file is never flushed.
unfoldable pub receive_unheard : List Chunk → Bytes → Bytes → Outcome × (Bytes × Bytes)
receive_unheard [] file hashed = (finished, (file, hashed))
receive_unheard (broken ∷ chunks) file hashed = (request_error, (file, hashed))
receive_unheard (received [] outcome ∷ chunks) file hashed = receive_unheard chunks file hashed
receive_unheard (received (b ∷ bytes) outcome ∷ chunks) file hashed = (io_error, (file, hashed))

-- The loop over the response: how it ends, what is in the file, and what was hashed.
unfoldable pub receive : List Chunk → Bytes → Bytes → Outcome × (Bytes × Bytes)
unfolding receive_unheard
receive [] file hashed = (finished, (file, hashed))
receive (broken ∷ chunks) file hashed = (request_error, (file, hashed))
receive (received bytes wrote ∷ chunks) file hashed =
    receive chunks (file ++ bytes) (hashed ++ bytes)
receive (received bytes (lost n) ∷ chunks) file hashed =
    receive_unheard chunks (file ++ take n bytes) (hashed ++ bytes)
receive (received bytes (fails n) ∷ chunks) file hashed = (io_error, (file ++ take n bytes, hashed))

-- The files of a gallery that are there, the failures, and the directory.
pub record Progress : Type 0 where
  pub downloaded : List GalleryFile
  pub failures : List Bytes
  pub disk : Dict Bytes

unfoldable pub insert_file : GalleryFile → Progress → Progress
unfolding contains
insert_file f p = record p {
  downloaded = if contains f p.downloaded then p.downloaded else f ∷ p.downloaded;
}

-- The errors that count as failures of a host.
abbrev pub is_host_error : Outcome → Bool
is_host_error finished = false
is_host_error request_error = true
is_host_error io_error = false
is_host_error hash_mismatch = true

-- The failure that is noted behind the last try, if the address names a host.
abbrev pub note_failure : Option Bytes → GalleryFile → Progress → Progress
note_failure none f p = p
note_failure (some host) f p = record p {
  failures = p.failures ++ ((host ++ (b'-' ∷ (show f.fileindex ++ (b'-' ∷ f.xres)))) ∷ []);
}

-- What happens to a file in one of the tries of its gallery: whether the client still runs, whether
-- the file there can be opened, the host of the address that the servers name for it, if they do,
-- and its requests, by whether they use the proxy, and by their number.
pub record Visit : Type 0 where
  pub running : Bool
  pub opens : Bool
  pub link : Option (Option Bytes)
  pub requests : Bool → ℕ → Fetch

module _ (sha1 : Bytes → Bytes) where
  -- The comparison of the hash.
  unfoldable pub compare_hash : Option Bytes → Outcome × (Bytes × Bytes) → Outcome × Bytes
  compare_hash none (o, (file, hashed)) = (o, file)
  compare_hash (some expected) (finished, (file, hashed)) =
      (if bytes_eq (sha1 hashed) expected then finished else hash_mismatch, file)
  compare_hash (some expected) (request_error, (file, hashed)) = (request_error, file)
  compare_hash (some expected) (io_error, (file, hashed)) = (io_error, file)
  compare_hash (some expected) (hash_mismatch, (file, hashed)) = (hash_mismatch, file)

  -- `download`: how it ends, and the directory.
  unfoldable pub download : GalleryFile → Fetch → Dict Bytes → Outcome × Dict Bytes
  unfolding receive compare_hash
  download f fetch disk =
      let empty = insert (path_of f) [] disk in
      if not fetch.created then (io_error, disk) else elim fetch.response [
        | none ↦ (request_error, empty)
        | some chunks ↦
            let (o, file) = compare_hash f.expected_sha1_hash (receive chunks [] []) in
            (o, insert (path_of f) file disk)
      ]

  -- `GalleryFile::check_hash`, where reads succeed in the end: one that fails is tried again.
  unfoldable pub check_hash : GalleryFile → Bool → Dict Bytes → Bool
  check_hash f opens disk = elim (get (path_of f) disk) [
    | none ↦ false
    | some bytes ↦ elim f.expected_sha1_hash [
      | none ↦ true
      | some expected ↦ opens && bytes_eq (sha1 bytes) expected
    ]
  ]

  -- What the task of a file does behind a request that has ended.
  unfoldable pub after_request :
      Option Bytes → GalleryFile → ℕ → Outcome → Progress → Progress → Progress
  unfolding insert_file
  after_request host f round finished p again = insert_file f p
  after_request host f round o p again =
      if round == 2 then (if is_host_error o then note_failure host f p else p) else again

  -- The rest of the task of a file, which has three requests; the one behind the second does
  -- without the proxy.
  unfoldable pub fetch_rounds :
      List ℕ → (Bool → ℕ → Fetch) → Option Bytes → GalleryFile → Bool → Progress → Progress
  fetch_rounds [] requests host f use_proxy p = p
  fetch_rounds (round ∷ rounds) requests host f use_proxy p =
      let (o, disk) = download f (requests use_proxy round) p.disk in
      let p' : Progress = record p { disk = disk } in
      after_request host f round o p'
        (fetch_rounds rounds requests host f (use_proxy && not (round == 1)) p')

  -- The body of the loop over the files, behind the test that the client runs.
  unfoldable pub visit_file : Bool → Visit → GalleryFile → Progress → Progress
  unfolding insert_file contains
  visit_file use_proxy v f p =
      if contains f p.downloaded
      then p
      else if check_hash f v.opens p.disk
      then insert_file f p
      else elim v.link [
        | none ↦ p
        | some host ↦ fetch_rounds (0 ∷ 1 ∷ 2 ∷ []) v.requests host f use_proxy p
      ]

  -- The loop over the files, with their number; `true` says that the client has stopped.
  unfoldable pub visit_files :
      Bool → (ℕ → Visit) → ℕ → List GalleryFile → Progress → Bool × Progress
  visit_files use_proxy visits i [] p = (false, p)
  visit_files use_proxy visits i (f ∷ files) p =
      let rest = visit_files use_proxy visits (i + 1) files (visit_file use_proxy (visits i) f p) in
      if (visits i).running then rest else (true, p)

-- How the download of a gallery ends.
pub data GalleryEnd : Type 0 where
  complete permanently_failed client_stopped : GalleryEnd

module _ (sha1 : Bytes → Bytes) (has_proxy : Bool) (visits : ℕ → ℕ → Visit) (filecount : ℕ) where
  -- The tries that are left, from the given one on.
  unfoldable pub try_gallery : ℕ → ℕ → List GalleryFile → Progress → GalleryEnd × Progress
  try_gallery zero retry files p = (permanently_failed, p)
  try_gallery (suc left) retry files p =
      let (stopped, p') =
        visit_files sha1 (not (retry == 0) && has_proxy) (visits retry) 0 files p in
      let again = try_gallery left (retry + 1) files p' in
      if stopped
      then (client_stopped, p')
      else if length p'.downloaded == filecount
      then (complete, p')
      else again

  -- The download of a gallery whose directory is there, in ten tries.
  unfoldable pub download_gallery : List GalleryFile → Dict Bytes → GalleryEnd × Progress
  unfolding try_gallery
  download_gallery files disk =
      try_gallery 10 0 files (record { downloaded = []; failures = []; disk = disk })
