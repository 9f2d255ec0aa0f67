-- ===== src/Sharing/Owners.antt =====
-- No request waits for a download that is over.
use hath_rust.Prelude.{
  ℕ, ◌≡◌, ◌≢◌, refl, sym, ◌∙◌, ap, inl, inr, some, Bytes, ◌==◌, ==_iff, ==_refl, Bool-cases,
}
use hath_rust.Prelude.Family.{update}
use mathlib.Core.Path.{subst}
use hath_rust.Dict.{Dict, get, insert, remove, get-insert_found, get-remove_found}
use hath_rust.Sharing.{
  Phase, asking, leading, working, closing, following, gone, Downloads, Move, lead, follow,
  start_worker, give_up, finish, fail, return_, orphaned, leave, pick, Reach, start, later,
}

-- The task has made an entry for this hash, and its download is not over.
abbrev pub IsAlive : Bytes → Phase → Type 0
IsAlive hash asking = ⊥
IsAlive hash (leading h) = h ≡ hash
IsAlive hash (working h) = h ≡ hash
IsAlive hash (closing h) = ⊥
IsAlive hash (following h j) = ⊥
IsAlive hash gone = ⊥

-- Every entry belongs to a task that is alive and is about this hash.
abbrev pub IsOwned : Dict ℕ → (ℕ → Phase) → Type 0
IsOwned entries phase = (hash : Bytes) (j : ℕ) → get hash entries ≡ some j → IsAlive hash (phase j)

module _ (d : Downloads) {i : ℕ} {p : Phase} (o : IsOwned d.entries d.phase)
    (e : d.phase i ≡ p) where
  -- The task moves to `p'`, and only entries go, its own among them unless it stays alive for them.
  moved :
      (m : Dict ℕ) (p' : Phase)
      → ((hash : Bytes) (j : ℕ) → get hash m ≡ some j → get hash d.entries ≡ some j)
      → ((hash : Bytes) → get hash m ≡ some i → IsAlive hash p → IsAlive hash p')
      → IsOwned m (update d.phase i p')
  moved m p' kept own hash j found = elim (Bool-cases (j == i)) [
    | inl q ↦
        let same = (==_iff j i).0 q in
        let mine : get hash m ≡ some i = found ∙ ap some same in
        rw q (own hash mine (subst (λ t. IsAlive hash t) e (o hash i (kept hash i mine))))
    | inr q ↦ rw q (o hash j (kept hash j found))
  ]

  removes :
      (k : Bytes) (p' : Phase)
      → ((hash : Bytes) → k ≢ hash → ¬ (IsAlive hash p))
      → IsOwned (remove k d.entries) (update d.phase i p')
  removes k p' only =
      moved (remove k d.entries) p' (λ h j x. (get-remove_found k h j d.entries x).1)
        (λ h x y. absurd (only h (get-remove_found k h i d.entries x).0 y))

  stays :
      (p' : Phase)
      → ((hash : Bytes) → IsAlive hash p → IsAlive hash p')
      → IsOwned d.entries (update d.phase i p')
  stays p' own = moved d.entries p' (λ h j x. x) (λ h x. own h)

leads :
    (d : Downloads) {i : ℕ} (k : Bytes)
    → IsOwned d.entries d.phase
    → d.phase i ≡ asking
    → IsOwned (insert k i d.entries) (update d.phase i (leading k))
leads d {i} k o e hash j found = elim (get-insert_found k hash i j d.entries found) [
  | inl there ↦ elim (Bool-cases (j == i)) [
    | inl q ↦ rw q there.0
    | inr q ↦ absurd (cc (q, ap (λ t. t == i) (sym there.1), ==_refl i))
  ]
  | inr there ↦ elim (Bool-cases (j == i)) [
    | inl q ↦
        let mine : get hash d.entries ≡ some i = there.1 ∙ ap some ((==_iff j i).0 q) in
        absurd (subst (λ t. IsAlive hash t) e (o hash i mine))
    | inr q ↦ rw q (o hash j there.1)
  ]
]

Move-IsOwned :
    (d : Downloads) {i : ℕ} {p p' : Phase} {m : Dict ℕ}
    → IsOwned d.entries d.phase
    → d.phase i ≡ p
    → Move d i p m p'
    → IsOwned m (update d.phase i p')
Move-IsOwned d o e (lead k n) = leads d k o e
Move-IsOwned d o e (follow k j f) = stays d o e (following k j) (λ h y. y)
Move-IsOwned d o e (start_worker k) = stays d o e (working k) (λ h y. y)
Move-IsOwned d o e (give_up k) = removes d o e k gone (λ h n y. n y)
Move-IsOwned d o e (finish k) = removes d o e k (closing k) (λ h n y. n y)
Move-IsOwned d o e (fail k) = removes d o e k gone (λ h n y. n y)
Move-IsOwned d o e (return_ k) = removes d o e k gone (λ h n y. y)
Move-IsOwned d o e (orphaned k j g) = removes d o e k gone (λ h n y. y)
Move-IsOwned d o e (leave k j) = stays d o e gone (λ h y. y)

-- In whatever order the requests and the downloads run, each entry of the map belongs to a task
-- that leads or carries out a download of this hash and is not over: a request that joins it does
-- not wait for nothing.
pub Reach-IsOwned : {d : Downloads} → Reach d → IsOwned d.entries d.phase
Reach-IsOwned start = λ hash j found. absurd (unfold get in cc)
Reach-IsOwned (later {d} r (pick i mv)) = Move-IsOwned d (Reach-IsOwned r) refl mv
