-- ===== src/Scan/Settles.antt =====
-- What the loop over the directories makes of each of them, whatever the others are.
use mathlib.Core.Path.{subst}
use mathlib.Core.List.{Permᴰ}
use hath_rust.Prelude.{
  ℕ, ◌≡◌, ◌≢◌, inl, inr, refl, sym, ap, ◌∙◌, Bool, List, [], ◌∷◌, Option, none, some, Bytes,
  bytes_eq, bytes_eq_iff, bytes_eq_refl, Bool-cases, arith, All,
}
use hath_rust.Dict.{Dict, get, remove, get-remove}
use hath_rust.Crypto.{Crypto}
use hath_rust.CacheStore.{CacheState}
use hath_rust.Scan.{
  Entry, Verdict, ignored, deleted, counted, Scanned, check, settle, scan_files, RangeDir, known,
  scan_dir, scan_dirs, scan_dir-cases,
}
use hath_rust.Scan.Recounts.{
  IsTally, again, get-count_file_other, IsOf, files_of, size_of, file_number, file_size,
  scan_files-IsTally,
}

get-remove_same : (k : Bytes) (states : Dict CacheState) → get k (remove k states) ≡ none
get-remove_same k states = get-remove k k states ∙ (rw (bytes_eq_refl k) refl)

get-remove_other :
    (k j : Bytes) (states : Dict CacheState) → k ≢ j → get j (remove k states) ≡ get j states
get-remove_other k j states n = elim (Bool-cases (bytes_eq k j)) [
  | inl q ↦ absurd (n ((bytes_eq_iff k j).0 q))
  | inr q ↦ get-remove k j states ∙ (rw q refl)
]

module _ (c : Crypto) (verify_cache : Bool) where
  -- The order in which files come to an end does not show in their number and size.
  Permᴰ-sums :
      (r : Bytes) {es es' : List Entry}
      → Permᴰ es es'
      → (file_number c verify_cache r es ≡ file_number c verify_cache r es')
        × (file_size c verify_cache r es ≡ file_size c verify_cache r es')
  Permᴰ-sums r Permᴰ.nil = (refl, refl)
  Permᴰ-sums r (Permᴰ.cons e p) =
      let (a, b) = Permᴰ-sums r p in
      (
        omega (arith, a, ap (λ x. files_of r (check c verify_cache x)) e),
        omega (arith, b, ap (λ x. size_of r (check c verify_cache x)) e),
      )
  Permᴰ-sums r (Permᴰ.swap e f) = (
    omega (
      arith,
      ap (λ x. files_of r (check c verify_cache x)) e,
      ap (λ x. files_of r (check c verify_cache x)) f,
    ),
    omega (
      arith,
      ap (λ x. size_of r (check c verify_cache x)) e,
      ap (λ x. size_of r (check c verify_cache x)) f,
    ),
  )
  Permᴰ-sums r (Permᴰ.trans p q) =
      let (a, b) = Permᴰ-sums r p in let (a', b') = Permᴰ-sums r q in (a ∙ a', b ∙ b')

  -- The files that count, count for this range.
  abbrev pub AllOf : Bytes → List Entry → Type 0
  AllOf r es = All (λ e. IsOf r (check c verify_cache e)) es

  settle-other :
      (r j : Bytes) (e : Entry) (v : Verdict) (s : Scanned)
      → IsOf r v
      → r ≢ j
      → get j (settle c verify_cache e v s).0 ≡ get j s.0
  settle-other r j e ignored s o n = refl
  settle-other r j e deleted (states, gone) o n = refl
  settle-other r j e (counted range size mtime) (states, gone) o n =
      elim (Bool-cases (bytes_eq range j)) [
        | inl q ↦ absurd (n (sym o ∙ (bytes_eq_iff range j).0 q))
        | inr q ↦ get-count_file_other range j size mtime e.now states q
      ]

  scan_files-other :
      (r j : Bytes) (es : List Entry) (s : Scanned)
      → AllOf r es
      → r ≢ j
      → get j (scan_files c verify_cache es s).0 ≡ get j s.0
  unfolding scan_files
  scan_files-other r j [] s a n = refl
  scan_files-other r j (e ∷ es) s a n =
      scan_files-other r j es _ a.1 n ∙ settle-other r j e (check c verify_cache e) s a.0 n

  -- The directory of a range holds files of that range.
  abbrev pub IsSorted : RangeDir → Type 0
  IsSorted d = (es : List Entry) → d.files ≡ some es → AllOf d.range es

  scan_dir-other :
      (d : RangeDir) (counter : ℕ) (s : Scanned) (j : Bytes)
      → IsSorted d
      → d.range ≢ j
      → get j (scan_dir c verify_cache d counter s).1.0 ≡ get j s.0
  scan_dir-other d counter (states, gone) j sorted n =
      scan_dir-cases c verify_cache (λ r. get j r.1.0 ≡ get j states) d counter states gone
        (λ q. refl) (λ m q e. refl) (λ m q e f. get-remove_other d.range j states n)
        (λ m es q e f.
          scan_files-other d.range j es _ (sorted es f) n ∙ get-remove_other d.range j states n)

  pub scan_dirs-other :
      (ds : List RangeDir) (counter : ℕ) (s : Scanned) (j : Bytes)
      → All IsSorted ds
      → All (λ d. d.range ≢ j) ds
      → get j (scan_dirs c verify_cache ds counter s).1.0 ≡ get j s.0
  unfolding scan_dirs
  scan_dirs-other [] counter s j a n = refl
  scan_dirs-other (d ∷ ds) counter s j a n =
      scan_dirs-other ds _ (scan_dir c verify_cache d counter s).1 j a.1 n.1
      ∙ scan_dir-other d counter s j a.0 n.0

  abbrev pub known_by : Option CacheState → ℕ
  known_by none = 0
  known_by (some s) = s.file_count

  -- What becomes of the state of a range.
  pub data IsSettled (d : RangeDir) (old new : Option CacheState) : Type 0 where
    unlisted : d.listed ≡ none → new ≡ old → IsSettled d old new
    -- The directory holds as many entries as the state knows.
    matched : d.listed ≡ some (known_by old) → new ≡ old → IsSettled d old new
    -- It holds another number, but cannot be read again.
    lost :
        (n : ℕ)
        → d.listed ≡ some n
        → n ≢ known_by old
        → d.files ≡ none
        → new ≡ none
        → IsSettled d old new
    -- It holds another number, and what it lists is counted, in whatever order it is done.
    recounted :
        (n : ℕ) (done : List Entry)
        → d.listed ≡ some n
        → n ≢ known_by old
        → d.files ≡ some done
        → ((es : List Entry)
            → Permᴰ done es
            → IsTally
                (file_number c verify_cache d.range es)
                (file_size c verify_cache d.range es)
                new)
        → IsSettled d old new

  known-known_by :
      (r : Bytes) (states : Dict CacheState)
      → known c verify_cache r states ≡ known_by (get r states)
  known-known_by r states = same (get r states)
    where
      same :
          (o : Option CacheState)
          → ◌≡◌ {A = ℕ} (elim o [ none ↦ 0 | some s ↦ s.file_count ]) (known_by o)
      same none = refl
      same (some s) = refl

  counts-again :
      (r : Bytes) (done : List Entry) (states : Dict CacheState) (gone : List Entry)
      → (es : List Entry) → Permᴰ done es
      → IsTally
          (file_number c verify_cache r es)
          (file_size c verify_cache r es)
          (get r (scan_files c verify_cache done (remove r states, gone)).0)
  counts-again r done states gone es p =
      let (a, b) = Permᴰ-sums r p in
      let fresh : IsTally 0 0 (get r (remove r states)) =
        subst (IsTally 0 0) (sym (get-remove_same r states)) (refl, refl) in
      again _ (omega (arith, a)) (omega (arith, b))
        (scan_files-IsTally c verify_cache r done (remove r states, gone) 0 0 fresh)

  scan_dir-IsSettled :
      (d : RangeDir) (counter : ℕ) (s : Scanned)
      → IsSettled d (get d.range s.0) (get d.range (scan_dir c verify_cache d counter s).1.0)
  scan_dir-IsSettled d counter (states, gone) =
      let k = known-known_by d.range states in
      scan_dir-cases c verify_cache (λ r. IsSettled d (get d.range states) (get d.range r.1.0)) d
        counter states gone (λ q. unlisted q refl) (λ n q e. matched (q ∙ ap some (e ∙ k)) refl)
        (λ n q e f. lost n q (λ x. e (x ∙ sym k)) f (get-remove_same d.range states))
        (λ n es q e f.
          recounted n es q (λ x. e (x ∙ sym k)) f (counts-again d.range es states gone))

  -- No range twice.
  abbrev pub IsDistinct : List RangeDir → Type 0
  IsDistinct [] = Unit
  IsDistinct (d ∷ ds) = All (λ e. e.range ≢ d.range) ds × IsDistinct ds

  -- What holds for the states behind a directory holds for those before it, at other ranges.
  earlier :
      (d : RangeDir) (counter : ℕ) (s : Scanned)
      → IsSorted d
      → (new : RangeDir → Option CacheState) (ds : List RangeDir) → All (λ e. e.range ≢ d.range) ds
      → All (λ e. IsSettled e (get e.range (scan_dir c verify_cache d counter s).1.0) (new e)) ds
      → All (λ e. IsSettled e (get e.range s.0) (new e)) ds
  earlier d counter s sorted new [] n h = tt
  earlier d counter s sorted new (e ∷ ds) n h = (
    subst (λ o. IsSettled e o (new e))
        (scan_dir-other d counter s e.range sorted (λ x. n.0 (sym x))) h.0,
    earlier d counter s sorted new ds n.1 h.1,
  )

  -- Where no static range has two directories, and what counts in a directory is of its range, the
  -- scan leaves each range in one of these ways, whatever the other directories hold: its state is
  -- kept if the directory cannot be read or holds as many entries as the state knows; else it is
  -- dropped, and made of the number and size of the files that count, in whatever order these are
  -- done.
  pub scan_dirs-IsSettled :
      (ds : List RangeDir) (counter : ℕ) (s : Scanned)
      → IsDistinct ds
      → All IsSorted ds
      → All
          (λ d.
            IsSettled d (get d.range s.0) (get d.range (scan_dirs c verify_cache ds counter s).1.0))
          ds
  unfolding scan_dirs
  scan_dirs-IsSettled [] counter s i a = tt
  scan_dirs-IsSettled (d ∷ ds) counter s i a =
      let (counter', s') = scan_dir c verify_cache d counter s in
      (
        subst (IsSettled d (get d.range s.0)) (sym (scan_dirs-other ds counter' s' d.range a.1 i.0))
            (scan_dir-IsSettled d counter s),
        earlier d counter s a.0 (λ e. get e.range (scan_dirs c verify_cache ds counter' s').1.0) ds
            i.0 (scan_dirs-IsSettled ds counter' s' i.1 a.1),
      )
