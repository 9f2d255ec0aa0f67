-- ===== src/FileId/Tests.antt =====
-- The identifier of a file of four bytes.
use hath_rust.Prelude.{◌≡◌, ◌++◌, refl, some, Bytes, codes, bytes_eq}
use hath_rust.Samples.{info, pad}
use hath_rust.Text.{split}
use hath_rust.Text.Decimal.{parse_uint}
use hath_rust.FileId.Hex.{sample}
use hath_rust.FileId.{
  CacheFileInfo, dash, as_str, from_str, from_parts, from_file_id, resolution, filename, to_path,
  static_range,
}
use hath_rust.FileId.RoundTrip.{
  IsValid, type_part, canonical, from_file_id-filename, from_file_id-IsValid, to_path_stable,
  as_str-from_str,
}
use hath_rust.FileId.Paths.{to_path-static_range}

abbrev id : Bytes
id = codes "0102030400000000000000000000000000000000-4-jpg"

id_parsed : from_file_id sample id ≡ some info
unfolding from_file_id from_parts resolution split parse_uint from_str bytes_eq sample pad
id_parsed = refl

from_file_id-IsValid_example : IsValid info × (as_str info.mime_type ≡ type_part (split dash id))
from_file_id-IsValid_example = from_file_id-IsValid sample id info id_parsed

to_path_stable_example :
    (again : CacheFileInfo) × (from_file_id sample (to_path sample info).filename ≡ some again)
    × (to_path sample again ≡ to_path sample info)
to_path_stable_example = to_path_stable sample id info id_parsed

info-IsValid : IsValid info
info-IsValid = (from_file_id-IsValid sample id info id_parsed).0

from_file_id-filename_example : from_file_id sample (filename sample info) ≡ some (canonical info)
from_file_id-filename_example = from_file_id-filename sample info info-IsValid

to_path-static_range_example :
    (to_path sample info).l1 ++ (to_path sample info).l2 ≡ static_range sample info
to_path-static_range_example = to_path-static_range sample info

as_str-from_str_example : as_str (from_str (codes "wbp")) ≡ codes "wbp"
as_str-from_str_example = as_str-from_str (codes "wbp")
