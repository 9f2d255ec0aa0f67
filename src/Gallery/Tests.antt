-- ===== src/Gallery/Tests.antt =====
-- The description of a gallery of one file.
use hath_rust.Prelude.{◌≡◌, refl, List, [], ◌∷◌, some, Bytes, codes, bytes_eq, All, Lacks}
use hath_rust.Prelude.Int.{pos}
use hath_rust.Text.{split, splitn, starts_with}
use hath_rust.Text.Decimal.{parse_uint, parse_int}
use hath_rust.Crypto.{string_to_hash}
use hath_rust.FileId.Hex.{sample}
use hath_rust.Samples.{crypto, pad, content}
use hath_rust.Gallery.{
  Parser, parsed, new, metadata_value, metadata_line, add_file, file_parts, line, lines_of, checked,
  parser,
}
use hath_rust.Gallery.Names.{
  allow_filetype, allow_filename, is_name_char, is_digit, is_dl_hash, is_safe_path, nonempty,
  one_normal, clean_title, is_removed, is_space,
}
use hath_rust.Gallery.Titles.{slash}
use hath_rust.Gallery.Safe.{IsSafe, parser-IsSafe}

abbrev pub raw_gallery : List Bytes
raw_gallery =
    codes "DLHASH 6b0a312032206f72672030313032303330343030"
    ∷ codes "FILECOUNT 1"
    ∷ codes "TITLE a/b"
    ∷ codes "FILELIST"
    ∷ codes "1 2 org 0102030400000000000000000000000000000000 jpg a_1"
    ∷ codes "INFORMATION"
    ∷ codes "x"
    ∷ []

abbrev pub result : Parser
result = record {
  parse_state = 2;
  gid = pos 0;
  filecount = 1;
  minxres = [];
  xres_title = codes "-x";
  dl_hash = codes "6b0a312032206f72672030313032303330343030";
  title = codes "ab";
  information = codes "x\n";
  gallery_files =
      record {
        page = 1;
        fileindex = 2;
        xres = codes "org";
        expected_sha1_hash = some (pad content);
        filetype = codes "jpg";
        filename = codes "a_1";
      }
      ∷ [];
  hash_body = codes "k\n1 2 org 0102030400000000000000000000000000000000 jpg a_1";
}

pub accepted : parser crypto (codes "k") raw_gallery ≡ parsed result
unfolding parser checked lines_of line file_parts add_file metadata_line metadata_value new
    allow_filetype allow_filename is_name_char is_digit is_dl_hash is_safe_path nonempty one_normal
    clean_title split splitn starts_with parse_uint parse_int string_to_hash sample pad bytes_eq
    is_removed is_space
accepted = refl

parser-IsSafe_example :
    All IsSafe result.gallery_files
    × Lacks slash result.title
    × (string_to_hash crypto result.hash_body ≡ result.dl_hash)
parser-IsSafe_example = parser-IsSafe crypto (codes "k") raw_gallery result accepted
