-- ===== src/CacheStore/Directories.antt =====
-- The number and the size of the files of a directory, as files come and go.
use hath_rust.Prelude.{
  ℕ, suc, ◌+◌, ◌≡◌, refl, sym, ap, ◌∙◌, [], ◌∷◌, none, some, Bytes, bytes_eq, bytes_eq_iff,
  bytes_eq→eq, length, arith, Bool-cases, inl, inr,
}
use hath_rust.Dict.{Dict, get, insert, remove, get-insert, get-remove}

-- No file name twice.
abbrev pub IsDirectory : Dict ℕ → Type 0
IsDirectory [] = Unit
IsDirectory ((j, w) ∷ m) = (get j m ≡ none) × IsDirectory m

abbrev pub total : Dict ℕ → ℕ
total [] = 0
total ((j, w) ∷ m) = w + total m

remove_missing : (k : Bytes) (m : Dict ℕ) → get k m ≡ none → remove k m ≡ m
unfolding get remove
remove_missing k [] e = refl
remove_missing k ((j, w) ∷ m) e = elim (Bool-cases (bytes_eq j k)) [
  | inl q ↦ absurd (cc (rw q at e))
  | inr q ↦ rw q (ap (λ t. (j, w) ∷ t) (remove_missing k m (rw q at e)))
]

pub remove-IsDirectory : (k : Bytes) (m : Dict ℕ) → IsDirectory m → IsDirectory (remove k m)
unfolding remove
remove-IsDirectory k [] d = tt
remove-IsDirectory k ((j, w) ∷ m) d = elim (Bool-cases (bytes_eq j k)) [
  | inl q ↦ rw q (remove-IsDirectory k m d.1)
  | inr q ↦ rw q (
    ground (arith, get-remove k j m, d.0, bytes_eq_iff k j, bytes_eq_iff j k),
    remove-IsDirectory k m d.1,
  )
]

pub insert-IsDirectory :
    (k : Bytes) (v : ℕ) (m : Dict ℕ) → IsDirectory m → IsDirectory (insert k v m)
unfolding insert get
insert-IsDirectory k v [] d = (refl, tt)
insert-IsDirectory k v ((j, w) ∷ m) d = elim (Bool-cases (bytes_eq j k)) [
  | inl q ↦ rw q d
  | inr q ↦ rw q (
    ground (arith, get-insert k j v m, d.0, bytes_eq_iff k j, bytes_eq_iff j k),
    insert-IsDirectory k v m d.1,
  )
]

-- A file that goes takes its size with it.
pub remove-total :
    (k : Bytes) (v : ℕ) (m : Dict ℕ)
    → IsDirectory m
    → get k m ≡ some v
    → (total (remove k m) + v ≡ total m) × (suc (length (remove k m)) ≡ length m)
unfolding get remove
remove-total k v [] d e = cc
remove-total k v ((j, w) ∷ m) d e = elim (Bool-cases (bytes_eq j k)) [
  | inl q ↦
      let same : w ≡ v = cc (rw q at e) in
      let missing : get k m ≡ none = ap (λ t. get t m) (sym (bytes_eq→eq j k q)) ∙ d.0 in
      rw (q, remove_missing k m missing) (omega (arith, same), refl)
  | inr q ↦ let ih = remove-total k v m d.1 (rw q at e) in rw q (omega (arith, ih.0), ap suc ih.1)
]

-- A new file brings its size.
pub insert-total :
    (k : Bytes) (v : ℕ) (m : Dict ℕ)
    → get k m ≡ none
    → (total (insert k v m) ≡ total m + v) × (length (insert k v m) ≡ suc (length m))
unfolding get insert
insert-total k v [] e = (omega arith, refl)
insert-total k v ((j, w) ∷ m) e = elim (Bool-cases (bytes_eq j k)) [
  | inl q ↦ absurd (cc (rw q at e))
  | inr q ↦ let ih = insert-total k v m (rw q at e) in rw q (omega (arith, ih.0), ap suc ih.1)
]
