-- ===== src/Gallery/Queue.antt =====
-- The loop over galleries, `run` of src/gallery_downloader.rs. The parser, the download of the files
-- and the calls of the central servers are those of Gallery, Fetch and Rpc.Calls.
pub mod Finishes
mod Tests
use hath_rust.Prelude.{
  Bool, true, false, not, List, [], ◌∷◌, ◌++◌, Option, none, some, Bytes, codes, unwrap_or, ℕ, ◌+◌,
  if◌then◌else◌,
}
use mathlib.Core.Option
use hath_rust.Text.Decimal.{show_int}
use hath_rust.Dict.{Dict, get, insert}
use hath_rust.Rpc.Servers.{RpcClient}
use hath_rust.Rpc.Client.{World}
use hath_rust.Rpc.Calls.{fetch_queue, dl_fails}
use hath_rust.Gallery.{Parser, Step, parsed, failed, panicked, parser}
use hath_rust.Gallery.Folder.{directory_name}
use hath_rust.Gallery.Fetch.{
  Visit, Progress, GalleryEnd, complete, permanently_failed, client_stopped, download_gallery,
}

-- What happens in a turn: whether the client runs at its head, whether the directory is there or
-- can be created, the visits of the files, whether the description can be written, what the
-- requests for the files' addresses leave of the client, and the choice of many failures.
pub record Turn : Type 0 where
  pub running : Bool
  pub has_dir : Bool
  pub visits : ℕ → ℕ → Visit
  pub writes_info : Bool
  pub client_after : RpcClient → RpcClient
  pub chosen : List Bytes → List Bytes

-- How the loop ends: on an empty queue, with the client, or with an error of a gallery; or the
-- turns run out.
pub data RunEnd : Type 0 where
  no_more stopped bad_metadata no_directory crashed unfinished : RunEnd

-- The client, the download directory, and the number of downloads.
pub record Queue : Type 0 where
  pub client : RpcClient
  pub dirs : Dict (Dict Bytes)
  pub download_count : ℕ

pub data After : Type 0 where
  ends : RunEnd → After
  goes_on : Parser → After

abbrev pub info_file : Bytes
info_file = codes "galleryinfo.txt"

-- The description that is written into the directory.
unfoldable pub write_info : Bool → Bytes → Dict Bytes → Dict Bytes
write_info writes information disk = if writes then insert info_file information disk else disk

module _ (grapheme_indices : Bytes → List ℕ) where
  -- The directory of a gallery.
  unfoldable pub folder : Parser → Bytes
  folder meta =
      directory_name grapheme_indices meta.title
        (codes " [" ++ (show_int meta.gid ++ (meta.xres_title ++ codes "]")))

  -- The files of a gallery's directory.
  abbrev pub files_in : Parser → Queue → Dict Bytes
  files_in meta q = unwrap_or [] (get (folder meta) q.dirs)

module _ (w : World) (sha1 : Bytes → Bytes) (grapheme_indices : Bytes → List ℕ)
    (has_proxy : Bool) where
  -- Behind the tries of a gallery.
  unfoldable pub finish : Turn → Parser → GalleryEnd × Progress → Queue → After × Queue
  unfolding folder write_info
  finish t meta (client_stopped, p) q = (
    ends stopped,
    record q {
      client = t.client_after q.client;
      dirs = insert (folder grapheme_indices meta) p.disk q.dirs;
    },
  )
  finish t meta (permanently_failed, p) q = (
    goes_on meta,
    record q {
      client = t.client_after q.client;
      dirs = insert (folder grapheme_indices meta) p.disk q.dirs;
    },
  )
  finish t meta (complete, p) q = (
    goes_on meta,
    record q {
      client = dl_fails w t.chosen p.failures (t.client_after q.client);
      dirs =
          insert (folder grapheme_indices meta) (write_info t.writes_info meta.information p.disk)
            q.dirs;
    },
  )

  -- One gallery, as the parser made it.
  unfoldable pub turn : Turn → Step → Queue → After × Queue
  unfolding finish
  turn t panicked q = (ends crashed, q)
  turn t failed q = (if t.running then ends bad_metadata else ends stopped, q)
  turn t (parsed meta) q =
      if not t.running
      then (ends stopped, q)
      else if not t.has_dir
      then (ends no_directory, q)
      else finish t meta
          (download_gallery sha1 has_proxy t.visits meta.filecount meta.gallery_files
            (files_in grapheme_indices meta q))
          (record q { download_count = q.download_count + 1 })

  -- The loop, from a gallery on that the servers have given, or none.
  unfoldable pub run_from : List Turn → Option Step → Queue → RunEnd × Queue
  unfolding turn
  run_from turns none q = (no_more, q)
  run_from [] (some s) q = (unfinished, q)
  run_from (t ∷ turns) (some s) q =
      let (after, q') = turn t s q in
      elim after [
        | ends e ↦ (e, q')
        | goes_on meta ↦
            let (raw, client) = fetch_queue w (some (meta.gid, meta.minxres)) q'.client in
            run_from turns (Option.map (parser w.crypto client.key) raw)
              (record q' { client = client })
      ]

  -- `run`.
  unfoldable pub run : List Turn → Queue → RunEnd × Queue
  unfolding run_from
  run turns q =
      let (raw, client) = fetch_queue w none q.client in
      run_from turns (Option.map (parser w.crypto client.key) raw) (record q { client = client })
