-- ===== src/CacheClean/Evicts.antt =====
-- Which files go, and that the accounts are kept.
use hath_rust.Prelude.Int.{ℤ}
use hath_rust.Prelude.{
  ℕ, ◌+◌, ◌-◌, ◌≡◌, ◌∙◌, refl, ap, ◌⊎◌, inl, inr, true, false, ◌||◌, List, [], ◌∷◌, ◌++◌, Option,
  none, some, ◌==◌, arith, All, Bool-cases,
}
use hath_rust.FileId.Hex.{HexCodec}
use hath_rust.FileId.{CacheFileInfo}
use hath_rust.CacheStore.{CacheManager, remove_cache}
use hath_rust.CacheStore.Accounts.{IsAccounted, remove_cache-IsAccounted}
use hath_rust.CacheClean.{Entry, is_newer, Sweep, drop_file, evict}

-- The bytes that a file gives when it goes.
abbrev pub weight : Entry → ℕ
weight e = elim e.info [ none ↦ 0 | some info ↦ elim e.size [ none ↦ 0 | some size ↦ size ] ]

abbrev pub weights : List Entry → ℕ
weights [] = 0
weights (e ∷ es) = weight e + weights es

abbrev IsOld : ℤ → Entry → Type 0
IsOld cut_off e = is_newer e cut_off ≡ false

-- Why the loop over the files stops in front of `kept`.
abbrev StopsAt : ℤ → ℕ → List Entry → Type 0
StopsAt cut_off need [] = Unit
StopsAt cut_off need (e ∷ es) = (is_newer e cut_off ≡ true) ⊎ (need ≡ 0)

-- A manager behind the removal of files, first to last: each file whose name parses and whose size
-- can be read is removed, as `remove_cache` removes it.
abbrev pub without : HexCodec → List Entry → CacheManager → CacheManager
without hex [] m = m
without hex (e ∷ es) m = without hex es (elim e.info [
  | none ↦ m
  | some info ↦ elim e.size [ none ↦ m | some size ↦ (remove_cache hex info e.calls m).1 ]
])

-- A listing is cut in two: the files in front are old and are removed, and the need falls by their
-- sizes; the files behind stay, and the first one of them is new, or enough is free.
pub record Cut (hex : HexCodec) (cut_off : ℤ) (before after : Sweep) (entries : List Entry)
    : Type 0 where
  pub gone : List Entry
  pub kept : List Entry
  pub whole : entries ≡ gone ++ kept
  pub old : All (IsOld cut_off) gone
  pub removed : after.manager ≡ without hex gone before.manager
  pub freed : after.need ≡ before.need - weights gone
  pub stops : StopsAt cut_off after.need kept

module _ (hex : HexCodec) where
  drop_file-need : (e : Entry) (s : Sweep) → (drop_file hex e s).need ≡ s.need - weight e
  unfolding drop_file
  drop_file-need e s = ground arith

  drop_file-without :
      (e : Entry) (s : Sweep) → (drop_file hex e s).manager ≡ without hex (e ∷ []) s.manager
  unfolding drop_file
  drop_file-without e s = ground arith

  -- The loop over a directory's files removes files from the front of the listing that it is given
  -- and no others: only files that are not newer than the cutoff, each with `remove_cache` where its
  -- name parses and its size can be read. The need falls by their sizes, also where the removal of
  -- one fails, and the loop stops only at a newer file, when nothing is needed any more, or at the
  -- end.
  pub evict-Cut :
      (cut_off : ℤ) (entries : List Entry) (s : Sweep)
      → Cut hex cut_off s (evict hex cut_off entries s) entries
  unfolding evict
  evict-Cut cut_off [] s = record {
    gone = [];
    kept = [];
    whole = refl;
    old = tt;
    removed = refl;
    freed = omega arith;
    stops = tt;
  }
  evict-Cut cut_off (e ∷ es) s = elim (Bool-cases (is_newer e cut_off)) [
    | inl q ↦ rw q (record {
      gone = [];
      kept = e ∷ es;
      whole = refl;
      old = tt;
      removed = refl;
      freed = omega arith;
      stops = inl q;
    })
    | inr q ↦ elim (Bool-cases (s.need == 0)) [
      | inl r ↦
          rw (q, r)
            (record {
              gone = [];
              kept = e ∷ es;
              whole = refl;
              old = tt;
              removed = refl;
              freed = omega arith;
              stops = inr (ground arith);
            })
      | inr r ↦
          let c = evict-Cut cut_off es (drop_file hex e s) in
          rw (q, r)
            (record {
              gone = e ∷ c.gone;
              kept = c.kept;
              whole = ap (λ t. e ∷ t) c.whole;
              old = (q, c.old);
              removed = c.removed ∙ ap (without hex c.gone) (drop_file-without e s);
              freed = omega (arith, c.freed, drop_file-need e s);
              stops = c.stops;
            })
    ]
  ]

  drop_file-IsAccounted :
      (e : Entry) (s : Sweep) → IsAccounted s.manager → IsAccounted (drop_file hex e s).manager
  unfolding drop_file
  drop_file-IsAccounted e s a = go e.info e.size refl refl
    where
      go :
          (info : Option CacheFileInfo) (size : Option ℕ)
          → e.info ≡ info
          → e.size ≡ size
          → IsAccounted (drop_file hex e s).manager
      go none size p q = rw p a
      go (some info) none p q = rw (p, q) a
      go (some info) (some size) p q =
          rw (p, q) (remove_cache-IsAccounted hex info e.calls s.manager a)

  -- The clean-up of a directory keeps the accounts, however the calls of the file system end.
  pub evict-IsAccounted :
      (cut_off : ℤ) (entries : List Entry) (s : Sweep)
      → IsAccounted s.manager
      → IsAccounted (evict hex cut_off entries s).manager
  unfolding evict
  evict-IsAccounted cut_off [] s a = a
  evict-IsAccounted cut_off (e ∷ es) s a = elim (Bool-cases (is_newer e cut_off || s.need == 0)) [
    | inl q ↦ rw q a
    | inr q ↦ rw q (evict-IsAccounted cut_off es (drop_file hex e s) (drop_file-IsAccounted e s a))
  ]
