-- ===== src/Gallery/Queue/Finishes.antt =====
-- What a turn of the loop leaves in the directory of its gallery.
use hath_rust.Prelude.{
  ℕ, ◌+◌, ◌≡◌, ◌≢◌, ◌⊎◌, inl, inr, refl, sym, ap, ◌∙◌, Bool, true, List, [], ◌∷◌, ◌++◌, some, Bytes,
  codes, bytes_eq_refl, unwrap_or, All, if_cases, arith,
}
use mathlib.Core.Path.{subst}
use hath_rust.Dict.{Dict, get, insert, get-insert}
use hath_rust.Rpc.Client.{World}
use hath_rust.Gallery.{GalleryFile, Parser, parsed, parser}
use hath_rust.Gallery.Safe.{IsSafe, one_of, parser-IsSafe}
use hath_rust.Gallery.Members.{IsIn}
use hath_rust.Gallery.Verified.{IsVerified, IsVerified-elsewhere}
use hath_rust.Gallery.Gathers.{IsHeard, download_gallery-IsVerified}
use hath_rust.Gallery.Fetch.{
  path_of, Progress, GalleryEnd, complete, permanently_failed, client_stopped, download_gallery,
}
use hath_rust.Gallery.Queue.{Turn, Queue, info_file, write_info, folder, files_in, finish, turn}

-- The last byte tells the description from the files of a gallery.
abbrev last_byte : Bytes → ℕ
last_byte [] = 0
last_byte (c ∷ []) = c
last_byte (c ∷ d ∷ s) = last_byte (d ∷ s)

last_byte-append : (s : Bytes) (c : ℕ) (t : Bytes) → last_byte (s ++ (c ∷ t)) ≡ last_byte (c ∷ t)
last_byte-append [] c t = refl
last_byte-append (a ∷ []) c t = refl
last_byte-append (a ∷ b ∷ s) c t = last_byte-append (b ∷ s) c t

path_of-other : (f : GalleryFile) → IsSafe f → path_of f ≢ info_file
path_of-other f safe e = go (one_of f.filetype safe.allowed)
  where
    ends_in : last_byte (b'.' ∷ f.filetype) ≡ b't'
    ends_in = sym (last_byte-append f.filename b'.' f.filetype) ∙ ap last_byte e

    go :
        (f.filetype ≡ codes "jpg")
          ⊎ ((f.filetype ≡ codes "gif")
              ⊎ ((f.filetype ≡ codes "png") ⊎ (f.filetype ≡ codes "webp")))
        → ⊥
    go (inl q) = omega (arith, rw q at ends_in)
    go (inr (inl q)) = omega (arith, rw q at ends_in)
    go (inr (inr (inl q))) = omega (arith, rw q at ends_in)
    go (inr (inr (inr q))) = omega (arith, rw q at ends_in)

All-at : (files : List GalleryFile) → All IsSafe files → (g : GalleryFile) → IsIn g files → IsSafe g
All-at [] safe g i = absurd i
All-at (f ∷ files) safe g (inl e) = subst IsSafe (sym e) safe.0
All-at (f ∷ files) safe g (inr i) = All-at files safe.1 g i

-- What the directory holds behind the tries.
abbrev left_in : Turn → Parser → GalleryEnd × Progress → Dict Bytes
left_in t meta (client_stopped, p) = p.disk
left_in t meta (permanently_failed, p) = p.disk
left_in t meta (complete, p) = write_info t.writes_info meta.information p.disk

module _ (w : World) (sha1 : Bytes → Bytes) (grapheme_indices : Bytes → List ℕ)
    (has_proxy : Bool) where
  read_back :
      (meta : Parser) (disk : Dict Bytes) (dirs : Dict (Dict Bytes))
      → unwrap_or []
          (get (folder grapheme_indices meta) (insert (folder grapheme_indices meta) disk dirs))
        ≡ disk
  read_back meta disk dirs =
      let dir = folder grapheme_indices meta in
      rw (get-insert dir dir disk dirs, bytes_eq_refl dir) refl

  finish-left_in :
      (t : Turn) (meta : Parser) (r : GalleryEnd × Progress) (q : Queue)
      → files_in grapheme_indices meta (finish w sha1 grapheme_indices has_proxy t meta r q).1
        ≡ left_in t meta r
  unfolding finish
  finish-left_in t meta (client_stopped, p) q = read_back meta p.disk q.dirs
  finish-left_in t meta (permanently_failed, p) q = read_back meta p.disk q.dirs
  finish-left_in t meta (complete, p) q =
      read_back meta (write_info t.writes_info meta.information p.disk) q.dirs

  -- What is verified stays so when the description is written.
  write_info-IsVerified :
      (f : GalleryFile) (writes : Bool) (information : Bytes) (disk : Dict Bytes)
      → IsSafe f
      → IsVerified sha1 disk f
      → IsVerified sha1 (write_info writes information disk) f
  unfolding write_info
  write_info-IsVerified f writes information disk safe v =
      if_cases (λ d. IsVerified sha1 d f) writes _ _
        (λ q. IsVerified-elsewhere sha1 f info_file information disk (path_of-other f safe) v)
        (λ q. v)

  left_in-IsVerified :
      (f : GalleryFile) (t : Turn) (meta : Parser) (r : GalleryEnd × Progress)
      → IsSafe f
      → IsVerified sha1 r.1.disk f
      → IsVerified sha1 (left_in t meta r) f
  left_in-IsVerified f t meta (client_stopped, p) safe v = v
  left_in-IsVerified f t meta (permanently_failed, p) safe v = v
  left_in-IsVerified f t meta (complete, p) safe v =
      write_info-IsVerified f t.writes_info meta.information p.disk safe v

  left_in-info :
      (t : Turn) (meta : Parser) (r : GalleryEnd × Progress)
      → r.0 ≡ complete
      → t.writes_info ≡ true
      → get info_file (left_in t meta r) ≡ some meta.information
  unfolding write_info
  left_in-info t meta (client_stopped, p) e i = absurd cc
  left_in-info t meta (permanently_failed, p) e i = absurd cc
  left_in-info t meta (complete, p) e i =
      rw (i, get-insert info_file info_file meta.information p.disk, bytes_eq_refl info_file) refl

  -- When the loop is done with a gallery whose description was accepted and names no path twice, and
  -- where no last bytes of a response are reported as written and lost, each file that counts as downloaded is in the gallery's directory with the hash that is stated
  -- for it, whatever else was written there; and where the gallery is complete and its description
  -- could be written, the description is in `galleryinfo.txt`.
  pub turn-IsVerified :
      (key : Bytes) (raw : List Bytes) (meta : Parser) (t : Turn) (q : Queue)
      → parser w.crypto key raw ≡ parsed meta
      → ((f g : GalleryFile)
          → IsIn f meta.gallery_files
          → IsIn g meta.gallery_files
          → path_of f ≡ path_of g
          → f ≡ g)
      → ((retry i : ℕ) → IsHeard (t.visits retry i).requests)
      → t.running ≡ true
      → t.has_dir ≡ true
      → let r =
          download_gallery sha1 has_proxy t.visits meta.filecount meta.gallery_files
            (files_in grapheme_indices meta q) in
        let disk =
          files_in grapheme_indices meta
            (turn w sha1 grapheme_indices has_proxy t (parsed meta) q).1 in
        ((g : GalleryFile) → IsIn g r.1.downloaded → IsVerified sha1 disk g)
        × (r.0 ≡ complete → t.writes_info ≡ true → get info_file disk ≡ some meta.information)
  unfolding turn
  turn-IsVerified key raw meta t q accepted distinct heard runs dir =
      let r =
        download_gallery sha1 has_proxy t.visits meta.filecount meta.gallery_files
          (files_in grapheme_indices meta q) in
      let left : files_in grapheme_indices meta
            (turn w sha1 grapheme_indices has_proxy t (parsed meta) q).1
          ≡ left_in t meta r =
        rw (turn, runs, dir)
          (finish-left_in t meta r (record q { download_count = q.download_count + 1 })) in
      let (kept, n) =
        download_gallery-IsVerified sha1 has_proxy t.visits meta.filecount meta.gallery_files
          (files_in grapheme_indices meta q) distinct heard in
      let safe = (parser-IsSafe w.crypto key raw meta accepted).0 in
      (
        λ g h.
            let (mine, good) = kept g h in
            subst (λ d. IsVerified sha1 d g) (sym left)
              (left_in-IsVerified g t meta r (All-at meta.gallery_files safe g mine) good),
        λ e i. ap (get info_file) left ∙ left_in-info t meta r e i,
      )
