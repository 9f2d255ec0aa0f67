-- ===== src/Scan/Tests.antt =====
-- A cache of one file of the right size, which is not verified.
use mathlib.Core.Path.{subst}
use mathlib.Core.Option.{some-injective}
use hath_rust.Prelude.Int.{pos}
use hath_rust.Prelude.{
  ℕ, arith, sym, unwrap_or, Bool-cases, inl, inr, bytes_eq_iff, ◌≡◌, ◌<◌, refl, true, false, List,
  [], ◌∷◌, some, none, Bytes, bytes_eq, All, ◌↔◌, ◌⊎◌, ◌≢◌, sym, length, codes,
}
use hath_rust.Text.{split}
use hath_rust.Text.Decimal.{parse_uint}
use hath_rust.CacheStore.Directories.{IsDirectory}
use hath_rust.CacheStore.Accounts.{IsAccounted}
use mathlib.Core.List.Permᴰ
use hath_rust.Scan.Holds.{IsFileOf, nothing, here}
use hath_rust.Scan.Accounted.{IsReadAs, IsFound, scanned_manager, scan_dirs-IsAccounted}
use hath_rust.Dict.{Dict, get, insert, remove}
use hath_rust.FileId.Hex.{sample}
use hath_rust.FileId.{from_str, static_range, from_parts, from_file_id, resolution}
use hath_rust.Samples.{crypto, content, info, pad}
use hath_rust.Scan.{Entry, RangeDir, count_file, check, check_info, scan_files, scan_dir, scan_dirs}
use hath_rust.Scan.Walk.{Root, find_range, walk_sub, walk_subs, walk_tops, walk}
use hath_rust.Scan.Cache.{scanned, cache_is_empty, scan_cache, new_manager}
use hath_rust.Scan.Deletes.{AllForeign, AllBad, scan_cache-deletes}
use hath_rust.Scan.Settles.{AllOf, IsSorted, IsSettled, scan_dirs-IsSettled}
use hath_rust.Scan.Refuses.{IsSteady, IsUnread, scan_cache-empty, new_manager-stops}

abbrev file : Entry
file = record {
  name = some (codes "0102030400000000000000000000000000000000-4-jpg");
  metadata = some (record { is_dir = false; len = 4; mtime = pos 7 });
  reads = some content;
  filesize_fast = some 4096;
  now = pos 9;
}

abbrev dir : RangeDir
dir = record { range = codes "0102"; listed = some 1; files = some (file ∷ []) }

counted_once : (scan_dirs crypto false (dir ∷ []) 0 ([], [])).0 ≡ 1
unfolding scan_dirs scan_dir scan_files count_file check check_info from_file_id from_parts
    resolution get insert remove
counted_once = refl

dir-IsSorted : IsSorted crypto false dir
unfolding check check_info from_file_id from_parts resolution split sample parse_uint static_range
dir-IsSorted es e =
    subst (AllOf crypto false (codes "0102")) (some-injective (file ∷ []) es e) (refl, tt)

scan_dirs-IsSettled_example :
    All
      (λ d.
        IsSettled crypto false d
          (get d.range [])
          (get d.range (scan_dirs crypto false (dir ∷ []) 0 ([], [])).1.0))
      (dir ∷ [])
scan_dirs-IsSettled_example =
    scan_dirs-IsSettled crypto false (dir ∷ []) 0 ([], []) (tt, tt) (dir-IsSorted, tt)

-- A cache directory with the range `0102`, and with a directory of no range.
abbrev root : Root
root = record {
  opens = true;
  tops =
      record {
        name = codes "01";
        is_dir = true;
        opens = true;
        subs =
            record { name = codes "02"; is_dir = true; listed = some 1; files = some (file ∷ []) }
            ∷ record { name = codes "03"; is_dir = true; listed = none; files = none }
            ∷ [];
        ends = true;
      }
      ∷ [];
  ends = true;
}

abbrev ranges : List Bytes
ranges = codes "0102" ∷ []

scan_cache-deletes_example :
    AllForeign ranges (scan_cache crypto true ranges root []).deleted_dirs
    × AllBad crypto true (scan_cache crypto true ranges root []).scan.1
scan_cache-deletes_example = scan_cache-deletes crypto true ranges root []

one_deleted : (scan_cache crypto true ranges root []).deleted_dirs ≡ (codes "01", codes "03") ∷ []
unfolding scan_cache walk walk_tops walk_subs walk_sub find_range bytes_eq
one_deleted = refl

one_range : (walk ranges root).dirs ≡ dir ∷ []
unfolding walk walk_tops walk_subs walk_sub find_range bytes_eq
one_range = refl

steady : All IsSteady (walk ranges root).dirs
steady = subst (All IsSteady) (sym one_range) (λ e. absurd cc, tt)

scan_cache-empty_example : ((scan_cache crypto true ranges root []).result ≡ cache_is_empty) ↔ (
    ((walk ranges root).ok ≡ true) × ((20 < length ranges) × All IsUnread (walk ranges root).dirs))
scan_cache-empty_example = scan_cache-empty crypto true ranges root [] steady

new_manager-stops_example :
    (((new_manager crypto ranges true false none none root).returned ≡ false)
      ⊎ ((new_manager crypto ranges true false none none root).shutdown ≡ true))
    ↔ ((new_manager crypto ranges true false none none root).scan.result ≢ scanned)
new_manager-stops_example = new_manager-stops crypto ranges true false none none root

-- The disk of this cache.
abbrev one_file : Dict ℕ
one_file = (codes "0102030400000000000000000000000000000000-4-jpg", 4096) ∷ []

abbrev disk : Dict (Dict ℕ)
disk = (codes "0102", one_file) ∷ []

file_parsed :
    from_file_id crypto.hex (codes "0102030400000000000000000000000000000000-4-jpg") ≡ some info
unfolding from_file_id from_parts resolution split sample parse_uint bytes_eq from_str pad
file_parsed = refl

file-IsFileOf : IsFileOf crypto false (codes "0102") file 4096
unfolding sample static_range pad
file-IsFileOf = (
  record { is_dir = false; len = 4; mtime = pos 7 },
  (info, ((refl, (refl, file_parsed)), ((refl, λ e. absurd cc), (refl, refl)))),
)

dir-IsReadAs : IsReadAs crypto false dir one_file
unfolding check check_info from_file_id from_parts resolution split sample parse_uint static_range
    bytes_eq
dir-IsReadAs = record {
  listing = file ∷ [];
  listed = refl;
  read = refl;
  sorted = file ∷ [];
  order = Permᴰ.refl (file ∷ []);
  holds = here _ 4096 refl file-IsFileOf nothing;
  few = omega arith;
  small = omega arith;
}

on_disk : (d : Bytes) → bytes_eq (codes "0102") d ≡ false → unwrap_or [] (get d disk) ≡ []
unfolding get
on_disk d q = rw q refl

on_disk_same : (d : Bytes) → bytes_eq (codes "0102") d ≡ true → unwrap_or [] (get d disk) ≡ one_file
unfolding get
on_disk_same d q = rw q refl

one_file-IsDirectory : IsDirectory one_file
unfolding get
one_file-IsDirectory = (refl, tt)

disk-IsFound : (d : Bytes) → IsFound crypto false (dir ∷ []) d (unwrap_or [] (get d disk))
disk-IsFound d = elim (Bool-cases (bytes_eq (codes "0102") d)) [
  | inl q ↦ inl (
    (bytes_eq_iff (codes "0102") d).0 q,
    subst (IsReadAs crypto false dir) (sym (on_disk_same d q)) dir-IsReadAs,
  )
  | inr q ↦ inr (λ e. cc ((bytes_eq_iff (codes "0102") d).1 e, q), on_disk d q)
]

disk-IsDirectory : (d : Bytes) → IsDirectory (unwrap_or [] (get d disk))
disk-IsDirectory d = elim (Bool-cases (bytes_eq (codes "0102") d)) [
  | inl q ↦ subst IsDirectory (sym (on_disk_same d q)) one_file-IsDirectory
  | inr q ↦ subst IsDirectory (sym (on_disk d q)) tt
]

scan_dirs-IsAccounted_example : IsAccounted (scanned_manager crypto false (dir ∷ []) disk 0)
scan_dirs-IsAccounted_example =
    scan_dirs-IsAccounted crypto false (dir ∷ []) disk 0 (tt, tt) (dir-IsSorted, tt)
      disk-IsDirectory disk-IsFound
