-- ===== src/CacheStore/Tests.antt =====
-- A file is imported into an empty cache, imported again, and removed.
use hath_rust.Prelude.Int.{pos}
use hath_rust.Prelude.{◌≡◌, refl, true, [], bytes_eq, length, arith}
use hath_rust.Text.{join}
use hath_rust.Text.Decimal.{show}
use hath_rust.Dict.{get, insert}
use hath_rust.FileId.Hex.{sample}
use hath_rust.FileId.{to_path, filename, static_range, as_str}
use hath_rust.Samples.{info, pad}
use hath_rust.CacheStore.{
  CacheManager, files, ImportCalls, placed, put, unlink, dir_of, remove_cache, count_file, place,
  import_cache,
}
use hath_rust.CacheStore.Directories.{total}
use hath_rust.CacheStore.Accounts.{IsAccounted, remove_cache-IsAccounted}
use hath_rust.CacheStore.Imports.{works, import_cache-IsAccounted}

abbrev empty : CacheManager
empty = record { disk = []; cache_state = []; size_limit = 0 }

empty-IsAccounted : IsAccounted empty
unfolding get
empty-IsAccounted = record { distinct = λ dir. tt; agrees = λ dir. refl }

abbrev calls : ImportCalls
calls = record {
  dir_ok = true;
  removing = works;
  placing = placed 4096;
  filesize_ok = true;
  now = pos 9;
}

abbrev one_file : CacheManager
one_file = import_cache sample info calls empty

empty-length : length (files (dir_of sample info) empty) ≡ 0
unfolding get
empty-length = refl

empty-total : total (files (dir_of sample info) empty) ≡ 0
unfolding get
empty-total = refl

one_file-IsAccounted : IsAccounted one_file
one_file-IsAccounted =
    import_cache-IsAccounted sample info empty 4096 (pos 9) empty-IsAccounted
      (omega (arith, empty-length)) (omega (arith, empty-total))

one_length : length (files (dir_of sample info) one_file) ≡ 1
unfolding import_cache place put count_file remove_cache unlink get insert to_path filename join
    show as_str static_range sample pad bytes_eq
one_length = refl

one_total : total (files (dir_of sample info) one_file) ≡ 4096
unfolding import_cache place put count_file remove_cache unlink get insert to_path filename join
    show as_str static_range sample pad bytes_eq
one_total = refl

import_cache-IsAccounted_example : IsAccounted (import_cache sample info calls one_file)
import_cache-IsAccounted_example =
    import_cache-IsAccounted sample info one_file 4096 (pos 9) one_file-IsAccounted
      (omega (arith, one_length)) (omega (arith, one_total))

remove_cache-IsAccounted_example : IsAccounted (remove_cache sample info works one_file).1
remove_cache-IsAccounted_example =
    remove_cache-IsAccounted sample info works one_file one_file-IsAccounted
