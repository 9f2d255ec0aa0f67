-- ===== src/CacheStore/Accounts.antt =====
-- The counts and sizes that are kept agree with what lies on the disk.
use hath_rust.Prelude.Int.{ℤ}
use hath_rust.Prelude.{
  ℕ, ◌+◌, ◌^◌, ◌<◌, ◌≡◌, refl, ap, true, not, ◌||◌, [], Option, none, some, Bytes, bytes_eq,
  bytes_eq→eq, length, arith, Bool-cases, Option-cases, inl, inr, if◌then◌else◌, unwrap_or,
}
use hath_rust.Dict.{Dict, get, insert, remove, modify, get-insert, get-modify, map_option}
use hath_rust.FileId.Hex.{HexCodec}
use hath_rust.FileId.{CacheFileInfo, to_path, static_range}
use hath_rust.FileId.Paths.{to_path-static_range}
use hath_rust.CacheStore.{
  CacheState, add_file, remove_file, default_state, CacheManager, files, RemoveCalls, placed,
  ImportCalls, put, unlink, dir_of, remove_cache, count_file, place,
}
use hath_rust.CacheStore.Directories.{
  IsDirectory, total, remove-IsDirectory, insert-IsDirectory, remove-total, insert-total,
}

-- The state of a static range against its directory, both within 64 bits; a range with no state has
-- no files.
abbrev pub Agrees : Option CacheState → Dict ℕ → Type 0
Agrees none d = d ≡ []
Agrees (some s) d =
    ((s.file_count ≡ length d) × (length d < 2 ^ 64)) × ((s.size ≡ total d) × (total d < 2 ^ 64))

-- No directory holds a name twice, and the states agree with all directories.
pub record IsAccounted (m : CacheManager) : Type 0 where
  pub distinct : (dir : Bytes) → IsDirectory (files dir m)
  pub agrees : (dir : Bytes) → Agrees (get dir m.cache_state) (files dir m)

remove_file-Agrees :
    (o : Option CacheState) (name : Bytes) (size : ℕ) (d : Dict ℕ)
    → IsDirectory d
    → get name d ≡ some size
    → Agrees o d
    → Agrees (map_option (remove_file size) o) (remove name d)
unfolding remove_file get
remove_file-Agrees none name size d i e a = absurd (cc (e, ap (get name) a))
remove_file-Agrees (some s) name size d i e a =
    let (t, n) = remove-total name size d i e in
    (
      (omega (arith, a.0.0, a.0.1, n), omega (arith, a.0.1, n)),
      (omega (arith, a.1.0, a.1.1, t), omega (arith, a.1.1, t)),
    )

add_file-Agrees :
    (o : Option CacheState) (name : Bytes) (size : ℕ) (now : ℤ) (d : Dict ℕ)
    → get name d ≡ none
    → length d + 1 < 2 ^ 64
    → total d + size < 2 ^ 64
    → Agrees o d
    → Agrees (some (add_file size (unwrap_or (default_state now) o))) (insert name size d)
unfolding add_file default_state
add_file-Agrees none name size now d e b c a =
    let (t, n) = insert-total name size d e in
    let zero_total : total d ≡ 0 = ap total a in
    let zero_length : length d ≡ 0 = ap length a in
    (
      (omega (arith, n, zero_length), omega (arith, n, b)),
      (omega (arith, t, zero_total, c), omega (arith, t, c)),
    )
add_file-Agrees (some s) name size now d e b c a =
    let (t, n) = insert-total name size d e in
    (
      (omega (arith, n, a.0.0, b), omega (arith, n, b)),
      (omega (arith, t, a.1.0, c), omega (arith, t, c)),
    )

-- One directory and its state change together.
changed_dir :
    (m : CacheManager) (dir : Bytes) (d : Dict ℕ) (o : Option CacheState) (states : Dict CacheState)
    → IsAccounted m
    → IsDirectory d
    → Agrees o d
    → ((j : Bytes) → get j states ≡ (if bytes_eq dir j then o else get j m.cache_state))
    → IsAccounted (record m { disk = insert dir d m.disk; cache_state = states })
changed_dir m dir d o states a i g s = record {
  distinct = λ j. elim (Bool-cases (bytes_eq dir j)) [
    | inl q ↦ rw (get-insert dir j d m.disk, q) i
    | inr q ↦ rw (get-insert dir j d m.disk, q) (a.distinct j)
  ];
  agrees = λ j. elim (Bool-cases (bytes_eq dir j)) [
    | inl q ↦ rw (get-insert dir j d m.disk, s j, q) g
    | inr q ↦ rw (get-insert dir j d m.disk, s j, q) (a.agrees j)
  ];
}

module _ (hex : HexCodec) (info : CacheFileInfo) where
  abbrev dir : Bytes
  dir = dir_of hex info

  abbrev name : Bytes
  name = (to_path hex info).filename

  modify-range :
      (m : CacheManager) (f : CacheState → CacheState) (j : Bytes)
      → get j (modify (static_range hex info) f m.cache_state)
        ≡ (if bytes_eq dir j then map_option f (get dir m.cache_state) else get j m.cache_state)
  modify-range m f j =
      rw (to_path-static_range hex info, get-modify (static_range hex info) j f m.cache_state)
        (elim (Bool-cases (bytes_eq (static_range hex info) j)) [
          | inl q ↦ rw (q, bytes_eq→eq (static_range hex info) j q) refl
          | inr q ↦ rw q refl
        ])

  -- Removing a file keeps the accounts, however the calls of the file system end.
  pub remove_cache-IsAccounted :
      (calls : RemoveCalls) (m : CacheManager)
      → IsAccounted m
      → IsAccounted (remove_cache hex info calls m).1
  unfolding remove_cache unlink
  remove_cache-IsAccounted calls m a = elim (Option-cases (get name (files dir m))) [
    | inl q ↦ rw (remove_cache, q) a
    | inr (size, q) ↦
        elim (Bool-cases (not calls.stat_ok || not calls.size_ok || not calls.remove_ok)) [
          | inl r ↦ rw (remove_cache, q, r) a
          | inr r ↦
              rw (remove_cache, q, r)
                (changed_dir m dir (remove name (files dir m))
                  (map_option (remove_file size) (get dir m.cache_state))
                  (modify (static_range hex info) (remove_file size) m.cache_state) a
                  (remove-IsDirectory name (files dir m) (a.distinct dir))
                  (remove_file-Agrees (get dir m.cache_state) name size (files dir m)
                    (a.distinct dir) q (a.agrees dir))
                  (modify-range m (remove_file size)))
        ]
  ]

  pub place-IsAccounted :
      (calls : ImportCalls) (size : ℕ) (m : CacheManager)
      → IsAccounted m
      → get name (files dir m) ≡ none
      → length (files dir m) + 1 < 2 ^ 64
      → total (files dir m) + size < 2 ^ 64
      → calls.filesize_ok ≡ true
      → IsAccounted (place hex info calls (placed size) m)
  unfolding place put count_file
  place-IsAccounted calls size m a e b c ok =
      let range = to_path-static_range hex info in
      let o = get dir m.cache_state in
      let next = add_file size (unwrap_or (default_state calls.now) o) in
      rw ok (
        changed_dir m dir (insert name size (files dir m)) (some next)
          (insert (static_range hex info)
            (add_file size
              (unwrap_or (default_state calls.now) (get (static_range hex info) m.cache_state)))
            m.cache_state)
          a (insert-IsDirectory name size (files dir m) (a.distinct dir))
          (add_file-Agrees o name size calls.now (files dir m) e b c (a.agrees dir))
          (λ j. rw (get-insert (static_range hex info) j _ m.cache_state, range) refl))
