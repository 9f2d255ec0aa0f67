-- ===== src/Dict.antt =====
-- `HashMap` with byte strings for keys, as an association list whose order stands for the order
-- of iteration. Its laws say what `get` reads after each operation.
use hath_rust.Prelude.{
  ◌≢◌, ◌⊎◌, inl, inr, sym, ◌∙◌, Bool-cases, Bool, ◌≡◌, refl, List, [], ◌∷◌, Option, none, some,
  Bytes, bytes_eq, bytes_eq_iff, bytes_eq_refl, arith, if◌then◌else◌,
}

abbrev pub Dict {ℓ} : Type ℓ → Type ℓ
Dict V = List (Bytes × V)

module _ {ℓ} {V : Type ℓ} where
  unfoldable pub get : Bytes → Dict V → Option V
  get k [] = none
  get k ((j, v) ∷ m) = if bytes_eq j k then some v else get k m

  unfoldable pub insert : Bytes → V → Dict V → Dict V
  insert k v [] = (k, v) ∷ []
  insert k v ((j, w) ∷ m) = if bytes_eq j k then (j, v) ∷ m else (j, w) ∷ insert k v m

  unfoldable pub remove : Bytes → Dict V → Dict V
  remove k [] = []
  remove k ((j, w) ∷ m) = let rest = remove k m in if bytes_eq j k then rest else (j, w) ∷ rest

  -- `get_mut(k)` with a change of the value, if the key is there.
  unfoldable pub modify : Bytes → (V → V) → Dict V → Dict V
  modify k f [] = []
  modify k f ((j, w) ∷ m) = if bytes_eq j k then (j, f w) ∷ m else (j, w) ∷ modify k f m

  -- `retain(p)`; an entry that goes takes with it those of its key behind it.
  unfoldable pub retain : (Bytes → V → Bool) → Dict V → Dict V
  retain p [] = []
  retain p ((j, w) ∷ m) = let rest = retain p m in if p j w then (j, w) ∷ rest else remove j rest

  unfoldable pub values : Dict V → List V
  values [] = []
  values ((j, w) ∷ m) = w ∷ values m

  pub get-insert :
      (k j : Bytes) (v : V) (m : Dict V)
      → get j (insert k v m) ≡ (if bytes_eq k j then some v else get j m)
  unfolding get insert
  get-insert k j v [] = refl
  get-insert k j v ((i, w) ∷ m) =
      ground (arith, get-insert k j v m, bytes_eq_iff i k, bytes_eq_iff i j, bytes_eq_iff k j)

  pub get-remove :
      (k j : Bytes) (m : Dict V) → get j (remove k m) ≡ (if bytes_eq k j then none else get j m)
  unfolding get remove
  get-remove k j [] = ground arith
  get-remove k j ((i, w) ∷ m) =
      ground (arith, get-remove k j m, bytes_eq_iff i k, bytes_eq_iff i j, bytes_eq_iff k j)

  -- What is found behind an insertion is the new value, or was there.
  pub get-insert_found :
      (k j : Bytes) (v w : V) (m : Dict V)
      → get j (insert k v m) ≡ some w
      → ((k ≡ j) × (v ≡ w)) ⊎ ((k ≢ j) × (get j m ≡ some w))
  get-insert_found k j v w m found = elim (Bool-cases (bytes_eq k j)) [
    | inl q ↦
        let read : get j (insert k v m) ≡ some v = get-insert k j v m ∙ rw q in
        inl ((bytes_eq_iff k j).0 q, cc (read, found))
    | inr q ↦
        let read : get j (insert k v m) ≡ get j m = get-insert k j v m ∙ rw q in
        inr (λ e. cc ((bytes_eq_iff k j).1 e, q), sym read ∙ found)
  ]

  -- What is found behind a removal was there, under another key.
  pub get-remove_found :
      (k j : Bytes) (w : V) (m : Dict V)
      → get j (remove k m) ≡ some w
      → (k ≢ j) × (get j m ≡ some w)
  get-remove_found k j w m found = elim (Bool-cases (bytes_eq k j)) [
    | inl q ↦
        let read : get j (remove k m) ≡ none = get-remove k j m ∙ rw q in absurd (cc (read, found))
    | inr q ↦
        let read : get j (remove k m) ≡ get j m = get-remove k j m ∙ rw q in
        (λ e. cc ((bytes_eq_iff k j).1 e, q), sym read ∙ found)
  ]

  abbrev pub map_option : (V → V) → Option V → Option V
  map_option f none = none
  map_option f (some v) = some (f v)

  pub get-modify :
      (k j : Bytes) (f : V → V) (m : Dict V)
      → get j (modify k f m) ≡ (if bytes_eq k j then map_option f (get j m) else get j m)
  unfolding get modify
  get-modify k j f [] = ground arith
  get-modify k j f ((i, w) ∷ m) =
      ground (arith, get-modify k j f m, bytes_eq_iff i k, bytes_eq_iff i j, bytes_eq_iff k j)

module _ {ℓ} {V : Type ℓ} where
  abbrev pub keep_if : (Bytes → V → Bool) → Bytes → Option V → Option V
  keep_if p j none = none
  keep_if p j (some v) = if p j v then some v else none

  pub get-retain :
      (p : Bytes → V → Bool) (j : Bytes) (m : Dict V) → get j (retain p m) ≡ keep_if p j (get j m)
  unfolding get retain
  get-retain p j [] = refl
  get-retain p j ((i, w) ∷ m) =
      ground
        (arith, get-retain p j m, bytes_eq_iff i j, get-remove i j (retain p m), bytes_eq_refl j)

pub ruleset dict_laws = (get-insert, get-remove, get-modify, get-retain)
