-- ===== src/Scan/Recounts.antt =====
-- What the scan makes of the states: a directory that does not hold as many entries as its state
-- knows is counted again, in whatever order its files are looked at.
use mathlib.Core.Path.{subst}
use hath_rust.Prelude.Int.{ℤ, ltb_ℤ}
use hath_rust.Prelude.{
  ℕ, ◌+◌, ◌%◌, ◌^◌, ◌<◌, ◌≡◌, inl, inr, refl, sym, ◌∙◌, Bool, true, false, List, [], ◌∷◌, Option,
  none, some, Bytes, bytes_eq, bytes_eq_iff, Bool-cases, arith, if◌then◌else◌, unwrap_or,
}
use hath_rust.Dict.{Dict, get, insert, get-insert}
use hath_rust.Crypto.{Crypto}
use hath_rust.CacheStore.{CacheState, add_file, default_state}
use hath_rust.Scan.{
  Entry, Verdict, ignored, deleted, counted, Scanned, count_file, check, settle, scan_files,
}

-- The state of a range with `n` files of the size `t`; one without files has none.
abbrev pub IsTally : ℕ → ℕ → Option CacheState → Type 0
IsTally n t none = (n ≡ 0) × (t ≡ 0)
IsTally n t (some s) = (0 < n) × ((s.file_count ≡ n % 2 ^ 64) × (s.size ≡ t % 2 ^ 64))

-- An older time leaves the counts.
aged-IsTally :
    (older : Bool) (mtime : ℤ) (n t : ℕ) (s : CacheState)
    → IsTally n t (some s)
    → IsTally n t (some (if older then record s { oldest = mtime } else s))
aged-IsTally true mtime n t s h = h
aged-IsTally false mtime n t s h = h

add_file-IsTally :
    (o : Option CacheState) (size : ℕ) (now : ℤ) (n t : ℕ)
    → IsTally n t o
    → IsTally (n + 1) (t + size) (some (add_file size (unwrap_or (default_state now) o)))
unfolding add_file default_state
add_file-IsTally none size now n t h = (omega arith, (omega (arith, h.0), omega (arith, h.1)))
add_file-IsTally (some s) size now n t h =
    (omega arith, (omega (arith, h.1.0), omega (arith, h.1.1)))

get-count_file :
    (range j : Bytes) (size : ℕ) (mtime now : ℤ) (states : Dict CacheState) (n t : ℕ)
    → range ≡ j
    → IsTally n t (get j states)
    → IsTally (n + 1) (t + size) (get j (count_file range size mtime now states))
unfolding count_file
get-count_file range j size mtime now states n t same h =
    let s = add_file size (unwrap_or (default_state now) (get range states)) in
    let h' : IsTally n t (get range states) =
      subst (λ k. IsTally n t (get k states)) (sym same) h in
    let s' = if ltb_ℤ mtime s.oldest then record s { oldest = mtime } else s in
    let read : get j (insert range s' states) ≡ some s' =
      get-insert range j s' states ∙ (rw ((bytes_eq_iff range j).1 same) refl) in
    subst (IsTally (n + 1) (t + size)) (sym read) (
      aged-IsTally (ltb_ℤ mtime s.oldest) mtime (n + 1) (t + size) s
        (add_file-IsTally (get range states) size now n t h'))

pub get-count_file_other :
    (range j : Bytes) (size : ℕ) (mtime now : ℤ) (states : Dict CacheState)
    → bytes_eq range j ≡ false
    → get j (count_file range size mtime now states) ≡ get j states
unfolding count_file
get-count_file_other range j size mtime now states q = get-insert range j _ states ∙ (rw q refl)

pub again :
    {n n' t t' : ℕ} (o : Option CacheState) → n ≡ n' → t ≡ t' → IsTally n t o → IsTally n' t' o
again {n} {n'} {t} {t'} o e f h = subst (λ k. IsTally n' k o) f (subst (λ k. IsTally k t o) e h)

-- The files and sizes that a verdict adds to a range.
abbrev pub files_of : Bytes → Verdict → ℕ
files_of r ignored = 0
files_of r deleted = 0
files_of r (counted range size mtime) = if bytes_eq range r then 1 else 0

abbrev pub size_of : Bytes → Verdict → ℕ
size_of r ignored = 0
size_of r deleted = 0
size_of r (counted range size mtime) = if bytes_eq range r then size else 0

-- The verdict counts for no other range.
abbrev pub IsOf : Bytes → Verdict → Type 0
IsOf r ignored = Unit
IsOf r deleted = Unit
IsOf r (counted range size mtime) = range ≡ r

module _ (c : Crypto) (verify_cache : Bool) where
  abbrev pub file_number : Bytes → List Entry → ℕ
  file_number r [] = 0
  file_number r (e ∷ es) = files_of r (check c verify_cache e) + file_number r es

  abbrev pub file_size : Bytes → List Entry → ℕ
  file_size r [] = 0
  file_size r (e ∷ es) = size_of r (check c verify_cache e) + file_size r es

  settle-IsTally :
      (r : Bytes) (e : Entry) (v : Verdict) (s : Scanned) (n t : ℕ)
      → IsTally n t (get r s.0)
      → IsTally (n + files_of r v) (t + size_of r v) (get r (settle c verify_cache e v s).0)
  settle-IsTally r e ignored s n t h = again _ (omega arith) (omega arith) h
  settle-IsTally r e deleted (states, gone) n t h = again _ (omega arith) (omega arith) h
  settle-IsTally r e (counted range size mtime) (states, gone) n t h =
      elim (Bool-cases (bytes_eq range r)) [
        | inl q ↦
            rw q (get-count_file range r size mtime e.now states n t ((bytes_eq_iff range r).0 q) h)
        | inr q ↦
            subst (IsTally _ _) (sym (get-count_file_other range r size mtime e.now states q))
              (again _ (ground arith) (ground arith) h)
      ]

  pub scan_files-IsTally :
      (r : Bytes) (es : List Entry) (s : Scanned) (n t : ℕ)
      → IsTally n t (get r s.0)
      → IsTally
          (n + file_number r es)
          (t + file_size r es)
          (get r (scan_files c verify_cache es s).0)
  unfolding scan_files
  scan_files-IsTally r [] s n t h = again _ (omega arith) (omega arith) h
  scan_files-IsTally r (e ∷ es) s n t h =
      let v = check c verify_cache e in
      again _ (omega arith) (omega arith) (
        scan_files-IsTally r es (settle c verify_cache e v s) (n + files_of r v) (t + size_of r v)
          (settle-IsTally r e v s n t h))
