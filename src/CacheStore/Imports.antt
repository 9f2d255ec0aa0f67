-- ===== src/CacheStore/Imports.antt =====
-- An import into the cache replaces the old file, and is counted.
use hath_rust.Prelude.Int.{ℤ}
use hath_rust.Prelude.{
  ℕ, ◌+◌, ◌^◌, ◌<◌, ◌≤◌, ◌≡◌, refl, true, Option, none, some, Bytes, bytes_eq_refl, length, arith,
  Option-cases, inl, inr,
}
use hath_rust.Dict.{get, insert, remove, get-insert, get-remove}
use hath_rust.FileId.Hex.{HexCodec}
use hath_rust.FileId.{CacheFileInfo, to_path}
use hath_rust.CacheStore.{
  CacheManager, files, RemoveCalls, placed, put, unlink, dir_of, remove_cache, count_file, place,
  import_cache,
}
use hath_rust.CacheStore.Directories.{total, remove-total}
use hath_rust.CacheStore.Accounts.{IsAccounted, remove_cache-IsAccounted, place-IsAccounted}

-- The calls of a removal succeed.
abbrev pub works : RemoveCalls
works = record { stat_ok = true; size_ok = true; remove_ok = true }

module _ (hex : HexCodec) (info : CacheFileInfo) (m : CacheManager) where
  abbrev name : Bytes
  name = (to_path hex info).filename

  abbrev old : CacheManager → Option ℕ
  old m = get name (files (dir_of hex info) m)

  -- What a removal that works leaves of the file's directory.
  record Removed (after : CacheManager) : Type 0 where
    gone : old after ≡ none
    fewer : length (files (dir_of hex info) after) ≤ length (files (dir_of hex info) m)
    smaller : total (files (dir_of hex info) after) ≤ total (files (dir_of hex info) m)

  remove_cache-Removed : IsAccounted m → Removed (remove_cache hex info works m).1
  unfolding remove_cache unlink
  remove_cache-Removed a = elim (Option-cases (old m)) [
    | inl q ↦ rw (remove_cache, q) (record { gone = q; fewer = omega arith; smaller = omega arith })
    | inr (size, q) ↦
        let (t, n) =
          remove-total name size (files (dir_of hex info) m) (a.distinct (dir_of hex info)) q in
        let here =
          get-insert (dir_of hex info) (dir_of hex info) (remove name (files (dir_of hex info) m))
            m.disk in
        rw (remove_cache, q)
          (record {
            gone =
                rw
                  (
                    here,
                    bytes_eq_refl (dir_of hex info),
                    get-remove name name (files (dir_of hex info) m),
                    bytes_eq_refl name,
                  )
                  refl;
            fewer = rw (here, bytes_eq_refl (dir_of hex info)) (omega (arith, n));
            smaller = rw (here, bytes_eq_refl (dir_of hex info)) (omega (arith, t));
          })
  ]

  -- Where the file system does not fail and the directory's count and size stay within 64 bits, an import keeps the accounts, whether or not a file of
  -- this name was there: the counts and the sizes agree with the disk before and after.
  pub import_cache-IsAccounted :
      (size : ℕ) (now : ℤ)
      → IsAccounted m
      → length (files (dir_of hex info) m) + 1 < 2 ^ 64
      → total (files (dir_of hex info) m) + size < 2 ^ 64
      → IsAccounted (
          import_cache hex info
            (record {
              dir_ok = true;
              removing = works;
              placing = placed size;
              filesize_ok = true;
              now = now;
            })
            m)
  unfolding import_cache
  import_cache-IsAccounted size now a b c =
      let after = (remove_cache hex info works m).1 in
      let r = remove_cache-Removed a in
      place-IsAccounted hex info
        (record {
          dir_ok = true;
          removing = works;
          placing = placed size;
          filesize_ok = true;
          now = now;
        })
        size after (remove_cache-IsAccounted hex info works m a) r.gone (omega (arith, r.fewer, b))
        (omega (arith, r.smaller, c)) refl

  -- After such an import, the file lies on the disk with its new size.
  pub import_cache-files :
      (size : ℕ) (now : ℤ)
      → get name (
          files (dir_of hex info) (
            import_cache hex info
              (record {
                dir_ok = true;
                removing = works;
                placing = placed size;
                filesize_ok = true;
                now = now;
              })
              m))
        ≡ some size
  unfolding import_cache place put count_file
  import_cache-files size now =
      let after = (remove_cache hex info works m).1 in
      rw
        (
          get-insert (dir_of hex info) (dir_of hex info)
              (insert name size (files (dir_of hex info) after)) after.disk,
          bytes_eq_refl (dir_of hex info),
          get-insert name name size (files (dir_of hex info) after),
          bytes_eq_refl name,
        )
        refl
