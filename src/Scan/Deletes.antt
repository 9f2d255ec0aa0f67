-- ===== src/Scan/Deletes.antt =====
-- What the scan deletes: files that are not what their name states, and directories of no range.
use hath_rust.Prelude.{
  ℕ, ◌≡◌, Bool, List, [], ◌∷◌, ◌++◌, none, Bytes, Bool-cases, Option-cases, inl, inr, All,
  All-append,
}
use hath_rust.Dict.{Dict}
use hath_rust.Crypto.{Crypto}
use hath_rust.CacheStore.{CacheState}
use hath_rust.Scan.{
  Entry, Verdict, ignored, deleted, counted, Scanned, check, settle, scan_files, RangeDir, scan_dir,
  scan_dirs, scan_dir-cases,
}
use hath_rust.Scan.Judges.{IsJudged, check-IsJudged}
use hath_rust.Scan.Walk.{Sub, Top, Root, find_range, Walk, walk_sub, walk_subs, walk_tops, walk}
use hath_rust.Scan.Cache.{scan_cache}

module _ (c : Crypto) (verify_cache : Bool) where
  -- All entries that were deleted deserve it.
  abbrev pub AllBad : List Entry → Type 0
  AllBad gone = All (λ e. IsJudged c verify_cache e deleted) gone

  settle-AllBad :
      (e : Entry) (v : Verdict) (s : Scanned)
      → IsJudged c verify_cache e v
      → AllBad s.1
      → AllBad (settle c verify_cache e v s).1
  settle-AllBad e ignored s j a = a
  settle-AllBad e deleted (states, gone) j a = All-append _ gone (e ∷ []) a (j, tt)
  settle-AllBad e (counted range size mtime) (states, gone) j a = a

  scan_files-AllBad :
      (es : List Entry) (s : Scanned) → AllBad s.1 → AllBad (scan_files c verify_cache es s).1
  unfolding scan_files
  scan_files-AllBad [] s a = a
  scan_files-AllBad (e ∷ es) s a =
      scan_files-AllBad es _
        (settle-AllBad e (check c verify_cache e) s (check-IsJudged c verify_cache e) a)

  scan_dirs-AllBad :
      (ds : List RangeDir) (counter : ℕ) (s : Scanned)
      → AllBad s.1
      → AllBad (scan_dirs c verify_cache ds counter s).1.1
  unfolding scan_dirs
  scan_dirs-AllBad [] counter s a = a
  scan_dirs-AllBad (d ∷ ds) counter (states, gone) a =
      scan_dirs-AllBad ds (scan_dir c verify_cache d counter (states, gone)).0 _ (
        scan_dir-cases c verify_cache (λ r. AllBad r.1.1) d counter states gone (λ q. a)
          (λ n q e. a) (λ n q e f. a) (λ n es q e f. scan_files-AllBad es _ a))

module _ (ranges : List Bytes) where
  abbrev pub AllForeign : List (Bytes × Bytes) → Type 0
  AllForeign dirs = All (λ d. find_range (d.0 ++ d.1) ranges ≡ none) dirs

  walk_sub-AllForeign :
      (l1 : Bytes) (s : Sub) (w : Walk)
      → AllForeign w.deleted_dirs
      → AllForeign (walk_sub ranges l1 s w).deleted_dirs
  unfolding walk_sub
  walk_sub-AllForeign l1 s w a = elim (Bool-cases s.is_dir) [
    | inr d ↦ rw d a
    | inl d ↦ elim (Option-cases (find_range (l1 ++ s.name) ranges)) [
      | inl f ↦ rw (d, f) (All-append _ w.deleted_dirs ((l1, s.name) ∷ []) a (f, tt))
      | inr f ↦ rw (d, f.1) a
    ]
  ]

  walk_subs-AllForeign :
      (l1 : Bytes) (subs : List Sub) (w : Walk)
      → AllForeign w.deleted_dirs
      → AllForeign (walk_subs ranges l1 subs w).deleted_dirs
  unfolding walk_subs
  walk_subs-AllForeign l1 [] w a = a
  walk_subs-AllForeign l1 (s ∷ subs) w a =
      walk_subs-AllForeign l1 subs (walk_sub ranges l1 s w) (walk_sub-AllForeign l1 s w a)

  walk_tops-AllForeign :
      (tops : List Top) (ends : Bool) (w : Walk)
      → AllForeign w.deleted_dirs
      → AllForeign (walk_tops ranges tops ends w).deleted_dirs
  unfolding walk_tops
  walk_tops-AllForeign [] ends w a = a
  walk_tops-AllForeign (t ∷ tops) ends w a =
      let below = walk_subs-AllForeign t.name t.subs w a in
      elim (Bool-cases t.is_dir) [
        | inr d ↦ rw d (walk_tops-AllForeign tops ends w a)
        | inl d ↦ elim (Bool-cases t.opens) [
          | inr o ↦ rw (d, o) a
          | inl o ↦ elim (Bool-cases t.ends) [
            | inr l ↦ rw (d, o, l) below
            | inl l ↦
                rw (d, o, l)
                  (walk_tops-AllForeign tops ends (walk_subs ranges t.name t.subs w) below)
          ]
        ]
      ]

  walk-AllForeign : (root : Root) → AllForeign (walk ranges root).deleted_dirs
  unfolding walk
  walk-AllForeign root = elim (Bool-cases root.opens) [
    | inr o ↦ rw o tt
    | inl o ↦ rw o (walk_tops-AllForeign root.tops root.ends _ tt)
  ]

-- Whatever the file system answers, the scan deletes only directories whose two names spell no
-- static range of the client, and only files whose names are identifiers that state another size,
-- or, where the cache is verified, another hash than what was read of the file up to its end or to
-- its first read error has: a good file whose reading fails may be deleted.
pub scan_cache-deletes :
    (c : Crypto) (verify_cache : Bool) (ranges : List Bytes) (root : Root)
    (states : Dict CacheState)
    → AllForeign ranges (scan_cache c verify_cache ranges root states).deleted_dirs
      × AllBad c verify_cache (scan_cache c verify_cache ranges root states).scan.1
unfolding scan_cache
scan_cache-deletes c verify_cache ranges root states = (
  walk-AllForeign ranges root,
  elim (Bool-cases (walk ranges root).ok) [
    | inl o ↦ rw o (scan_dirs-AllBad c verify_cache (walk ranges root).dirs 0 (states, []) tt)
    | inr o ↦ rw o tt
  ],
)
