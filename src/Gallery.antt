-- ===== src/Gallery.antt =====
-- `GalleryDownloader::parser` and `is_safe_path` of src/gallery_downloader.rs: the description of a
-- gallery. The patterns of `regex_lite` are the tests that they stand for, on ASCII classes.
-- Messages to the log are left out; the fields of a gallery that the parser fills are kept.
pub mod Names
pub mod Titles
pub mod Fetch
pub mod Verified
pub mod Members
pub mod Gathers
pub mod Folder
pub mod Queue
pub mod Safe
mod Tests
mod FetchTests
use hath_rust.Prelude.{
  ℕ, zero, suc, ◌+◌, ◌-◌, ◌^◌, Bool, true, false, not, ◌&&◌, ◌||◌, List, [], ◌∷◌, ◌++◌, Option,
  none, some, Bytes, codes, bytes_eq, length, leb, ◌==◌, if◌then◌else◌,
}
use hath_rust.Prelude.Int.{ℤ, pos}
use hath_rust.Text.{newline, split, splitn, is_empty}
use hath_rust.Text.Decimal.{parse_uint, parse_int}
use hath_rust.FileId.Hex.{HexCodec}
use hath_rust.Crypto.{Crypto, string_to_hash}
use hath_rust.Rpc.Response.{i32_max, nth_part}
use hath_rust.Rpc.Settings.{u64_max}
use hath_rust.Gallery.Names.{
  allow_filetype, allow_filename, is_minxres, is_dl_hash, is_safe_path, clean_title,
}

pub record GalleryFile : Type 0 where
  pub page : ℕ
  pub fileindex : ℕ
  pub xres : Bytes
  pub expected_sha1_hash : Option Bytes
  pub filetype : Bytes
  pub filename : Bytes

-- The variables of the parser; the files are in the order in which they are pushed.
pub record Parser : Type 0 where
  pub parse_state : ℕ
  pub gid : ℤ
  pub filecount : ℕ
  pub minxres : Bytes
  pub xres_title : Bytes
  pub dl_hash : Bytes
  pub title : Bytes
  pub information : Bytes
  pub gallery_files : List GalleryFile
  pub hash_body : Bytes

-- How a step ends: on, with an error, or in a panic of an index.
pub data Step : Type 0 where
  parsed : Parser → Step
  failed : Step
  panicked : Step

unfoldable pub new : Bytes → Parser
new key = record {
  parse_state = 0;
  gid = pos 0;
  filecount = 0;
  minxres = [];
  xres_title = [];
  dl_hash = [];
  title = [];
  information = [];
  gallery_files = [];
  hash_body = key;
}

set_gid : Option ℤ → Parser → Step
set_gid none p = failed
set_gid (some n) p = parsed (record p { gid = n })

set_filecount : Option ℕ → Parser → Step
set_filecount none p = failed
set_filecount (some n) p = parsed (record p { filecount = n })

-- A line of the basic metadata, with a value behind the first space.
unfoldable pub metadata_value : Bytes → Bytes → Parser → Step
unfolding set_gid set_filecount
metadata_value name value p =
    if bytes_eq name (codes "GID")
    then set_gid (parse_int i32_max value) p
    else if bytes_eq name (codes "FILECOUNT")
    then set_filecount (parse_uint u64_max value) p
    else if bytes_eq name (codes "MINXRES")
    then parsed (if is_minxres value then record p { minxres = value } else p)
    else if bytes_eq name (codes "DLHASH")
    then parsed (if is_dl_hash value then record p { dl_hash = value } else p)
    else if bytes_eq name (codes "TITLE")
    then parsed (record p {
      title = clean_title value;
      xres_title = if bytes_eq p.minxres (codes "org") then [] else b'-' ∷ (p.minxres ++ codes "x");
    })
    else parsed p

is_known : Bytes → Bool
is_known name =
    bytes_eq name (codes "GID")
    || bytes_eq name (codes "FILECOUNT")
    || bytes_eq name (codes "MINXRES")
    || bytes_eq name (codes "DLHASH")
    || bytes_eq name (codes "TITLE")

-- A line of the basic metadata; a known name with no value is an index out of range.
unfoldable pub metadata_line : List Bytes → Parser → Step
unfolding is_known
metadata_line [] p = panicked
metadata_line (name ∷ []) p = if is_known name then panicked else parsed p
metadata_line (name ∷ value ∷ rest) p = metadata_value name value p

module _ (hex : HexCodec) where
  -- The checks of a file's type and name.
  unfoldable pub add_file : ℕ → ℕ → Bytes → Option Bytes → Bytes → List Bytes → Parser → Step
  add_file page fileindex xres hash filetype [] p =
      if allow_filetype filetype then panicked else failed
  add_file page fileindex xres hash filetype (filename ∷ rest) p =
      if not (allow_filetype filetype)
      then failed
      else if not (is_safe_path filename) || not (allow_filename filename)
      then failed
      else parsed (record p {
        gallery_files =
            p.gallery_files
            ++ record {
              page = page;
              fileindex = fileindex;
              xres = xres;
              expected_sha1_hash = hash;
              filetype = filetype;
              filename = filename;
            }
              ∷ [];
      })

  -- `page fileindex xres sha1hash filetype filename`, in the order in which they are read.
  file_fields : Option ℕ → Option ℕ → List Bytes → Parser → Step
  unfolding add_file
  file_fields none index rest p = failed
  file_fields (some page) none rest p = failed
  file_fields (some page) (some index) (xres ∷ hash ∷ filetype ∷ rest) p =
      add_file page index xres (hex.decode20 hash) filetype rest p
  file_fields (some page) (some index) [] p = panicked
  file_fields (some page) (some index) (a ∷ []) p = panicked
  file_fields (some page) (some index) (a ∷ b ∷ []) p = panicked

  page_only : Option ℕ → Step
  page_only none = failed
  page_only (some page) = panicked

  -- The parts of a line of the file list.
  unfoldable pub file_parts : List Bytes → Parser → Step
  unfolding file_fields page_only
  file_parts [] p = panicked
  file_parts (page ∷ []) p = page_only (parse_uint u64_max page)
  file_parts (page ∷ index ∷ rest) p =
      file_fields (parse_uint u64_max page) (parse_uint u64_max index) rest p

  -- One turn of the loop over the lines.
  unfoldable pub line : Bytes → Parser → Step
  unfolding metadata_line file_parts
  line s p =
      if bytes_eq s (codes "FILELIST") && p.parse_state == 0
      then parsed (record p { parse_state = 1 })
      else if bytes_eq s (codes "INFORMATION") && p.parse_state == 1
      then parsed (record p { parse_state = 2 })
      else if not (leb 2 p.parse_state) && is_empty s
      then parsed p
      else if p.parse_state == 0
      then metadata_line (splitn 2 b' ' s) p
      else if p.parse_state == 1
      then file_parts (splitn 6 b' ' s) (record p { hash_body = p.hash_body ++ (newline ∷ s) })
      else parsed (record p { information = p.information ++ (s ++ newline ∷ []) })

  -- The loop.
  unfoldable pub lines_of : List Bytes → Parser → Step
  unfolding line
  lines_of [] p = parsed p
  lines_of (s ∷ rest) p = elim (line s p) [
    | failed ↦ failed
    | panicked ↦ panicked
    | parsed q ↦ lines_of rest q
  ]

-- The check of the hash behind the loop.
unfoldable pub checked : Crypto → Step → Step
checked c failed = failed
checked c panicked = panicked
checked c (parsed p) =
    if is_empty p.dl_hash || not (bytes_eq (string_to_hash c p.hash_body) p.dl_hash)
    then failed
    else parsed p

-- `GalleryDownloader::parser`.
unfoldable pub parser : Crypto → Bytes → List Bytes → Step
unfolding lines_of checked new
parser c key raw_gallery = checked c (lines_of c.hex raw_gallery (new key))
