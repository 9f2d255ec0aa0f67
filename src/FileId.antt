-- ===== src/FileId.antt =====
-- `FileType` and `CacheFileInfo` of src/cache_manager.rs: the identifier of a cached file, its parser
-- and its path. The hex codec is the crate `const_hex`, which enters as a parameter.
pub mod Hex
pub mod RoundTrip
pub mod Paths
mod Tests
use hath_rust.Prelude.{
  ℕ, ◌-◌, ◌^◌, Bool, true, false, List, [], ◌∷◌, ◌++◌, Option, none, some, Bytes, codes, bytes_eq,
  length, take, drop, ltb, ◌==◌, if◌then◌else◌, ◌>>=◌,
}
use hath_rust.Text.{split, join}
use hath_rust.Text.Decimal.{parse_uint, show}
use hath_rust.FileId.Hex.{HexCodec}

pub data FileType : Type 0 where
  jpeg png gif mp4 webm webp avif jpegxl : FileType
  other : Bytes → FileType

-- `FileType::as_str`, which `Display` prints.
unfoldable pub as_str : FileType → Bytes
as_str jpeg = codes "jpg"
as_str png = codes "png"
as_str gif = codes "gif"
as_str mp4 = codes "mp4"
as_str webm = codes "wbm"
as_str webp = codes "wbp"
as_str avif = codes "avf"
as_str jpegxl = codes "jxl"
as_str (other s) = s

-- `From<&str> for FileType`.
unfoldable pub from_str : Bytes → FileType
from_str s =
    if bytes_eq s (codes "jpg")
    then jpeg
    else if bytes_eq s (codes "png")
    then png
    else if bytes_eq s (codes "gif")
    then gif
    else if bytes_eq s (codes "mp4")
    then mp4
    else if bytes_eq s (codes "wbm")
    then webm
    else if bytes_eq s (codes "wbp")
    then webp
    else if bytes_eq s (codes "avf")
    then avif
    else if bytes_eq s (codes "jxl")
    then jpegxl
    else other s

-- `FileType::to_mime`, as text.
unfoldable pub to_mime : FileType → Bytes
to_mime jpeg = codes "image/jpeg"
to_mime png = codes "image/png"
to_mime gif = codes "image/gif"
to_mime mp4 = codes "video/mp4"
to_mime webm = codes "video/webm"
to_mime webp = codes "image/webp"
to_mime avif = codes "image/avif"
to_mime jpegxl = codes "image/jxl"
to_mime (other s) = codes "application/octet-stream"

pub record CacheFileInfo : Type 0 where
  pub hash : Bytes
  pub size : ℕ
  pub xres : ℕ
  pub yres : ℕ
  pub mime_type : FileType

abbrev pub u32_max : ℕ
u32_max = 2 ^ 32 - 1

abbrev pub dash : ℕ
dash = b'-'

-- `part.next()`: the next part, and the parts behind it.
abbrev pub next : List Bytes → Option (Bytes × List Bytes)
next [] = none
next (p ∷ ps) = some (p, ps)

-- A resolution: 0 where the identifier has none, else the next part as a number.
unfoldable pub resolution : Bool → List Bytes → Option (ℕ × List Bytes)
resolution true ps = some (0, ps)
resolution false ps = do (p, rest) ← next ps; n ← parse_uint u32_max p; some (n, rest)

-- The clock-free part of a path: the two directory levels and the file name.
pub record CachePath : Type 0 where
  pub l1 : Bytes
  pub l2 : Bytes
  pub filename : Bytes

module _ (hex : HexCodec) where
  -- `CacheFileInfo::from_file_id` on the parts.
  unfoldable pub from_parts : List Bytes → Option CacheFileInfo
  unfolding resolution
  from_parts parts = do
    let none_res = length parts == 3
    (h, ps1) ← next parts
    hash ← hex.decode20 h
    (s, ps2) ← next ps1
    size ← parse_uint u32_max s
    (xres, ps3) ← resolution none_res ps2
    (yres, ps4) ← resolution none_res ps3
    (t, ps5) ← next ps4
    some (record { hash = hash; size = size; xres = xres; yres = yres; mime_type = from_str t })

  -- `CacheFileInfo::from_file_id`.
  unfoldable pub from_file_id : Bytes → Option CacheFileInfo
  unfolding from_parts
  from_file_id id = from_parts (split dash id)

  -- The file name that `to_path` formats.
  unfoldable pub filename : CacheFileInfo → Bytes
  filename info =
      let hash = hex.encode info.hash in
      if ltb 0 info.xres
      then join (dash ∷ [])
          (hash ∷ show info.size ∷ show info.xres ∷ show info.yres ∷ as_str info.mime_type ∷ [])
      else join (dash ∷ []) (hash ∷ show info.size ∷ as_str info.mime_type ∷ [])

  -- `CacheFileInfo::to_path`, below the cache directory.
  unfoldable pub to_path : CacheFileInfo → CachePath
  unfolding filename
  to_path info =
      let hash = hex.encode info.hash in
      record { l1 = take 2 hash; l2 = take 2 (drop 2 hash); filename = filename info }

  -- `CacheFileInfo::static_range`.
  unfoldable pub static_range : CacheFileInfo → Bytes
  static_range info = hex.encode (take 2 info.hash)
