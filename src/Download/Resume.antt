-- ===== src/Download/Resume.antt =====
-- A try goes on where the last one stopped: no byte is written twice, and none is left out.
use hath_rust.Prelude.{
  ℕ, zero, suc, ◌+◌, ◌-◌, ◌≤◌, ◌≡◌, refl, sym, ap, ◌∙◌, ◌≢◌, false, List, [], ◌∷◌, ◌++◌, Bytes,
  length, take, drop, leb, arith, Bool-cases, inl, inr, append_assoc, length-append, length-drop,
  take_all, take-append-drop, take-append_le,
}
use hath_rust.Download.{
  Event, wrote, received, broken, Worker, StreamEnd, stream_unheard, stream_ended, write_failed,
  fresh_part, store, receive,
}

-- The bytes of a stream up to its first error.
abbrev pub stream_bytes : List Event → Bytes
stream_bytes [] = []
stream_bytes (broken ∷ es) = []
stream_bytes (received bytes outcome ∷ es) = bytes ++ stream_bytes es

-- No write fails.
abbrev pub IsWritten : List Event → Type 0
IsWritten [] = Unit
IsWritten (broken ∷ es) = IsWritten es
IsWritten (received bytes outcome ∷ es) = (outcome ≡ wrote) × IsWritten es

-- The stream has no error.
abbrev pub IsUnbroken : List Event → Type 0
IsUnbroken [] = Unit
IsUnbroken (broken ∷ es) = ⊥
IsUnbroken (received bytes outcome ∷ es) = IsUnbroken es

-- The worker has hashed a first part of `content`.
pub record Holds (content : Bytes) (s : Worker) : Type 0 where
  pub part : s.hashed ≡ take s.progress content
  pub within : s.progress ≤ length content

pub take-add : (n k : ℕ) (xs : Bytes) → take (n + k) xs ≡ take n xs ++ take k (drop n xs)
take-add zero k xs = ap (λ m. take m xs) (omega arith)
take-add (suc n) k [] = let e : suc n + k ≡ suc (n + k) = omega arith in rw e (take_nil k)
  where
    take_nil : (m : ℕ) → ◌≡◌ {A = Bytes} [] (take m [])
    take_nil zero = refl
    take_nil (suc m) = refl
take-add (suc n) k (x ∷ xs) =
    let e : suc n + k ≡ suc (n + k) = omega arith in rw e (ap (λ t. x ∷ t) (take-add n k xs))

drop-add : (n k : ℕ) (xs : Bytes) → drop (n + k) xs ≡ drop k (drop n xs)
drop-add zero k xs = ap (λ m. drop m xs) (omega arith)
drop-add (suc n) k [] = let e : suc n + k ≡ suc (n + k) = omega arith in rw e (drop_nil k)
  where
    drop_nil : (m : ℕ) → ◌≡◌ {A = Bytes} [] (drop m [])
    drop_nil zero = refl
    drop_nil (suc m) = refl
drop-add (suc n) k (x ∷ xs) =
    let e : suc n + k ≡ suc (n + k) = omega arith in rw e (drop-add n k xs)

drop-append_length : (xs ys : Bytes) → drop (length xs) (xs ++ ys) ≡ ys
drop-append_length [] ys = refl
drop-append_length (x ∷ xs) ys = drop-append_length xs ys

-- One more item of a stream that, behind `seen` bytes, goes on with the content.
module _ (content bytes more : Bytes) (seen : ℕ) (s : Worker)
    (ahead : drop seen content ≡ bytes ++ more) (le : seen ≤ s.progress) (h : Holds content s) where
  length-content : seen + (length bytes + length more) ≡ length content
  length-content =
      omega (arith, ap length ahead, length-append bytes more, length-drop seen content, h.within)

  drop_seen : drop (seen + length bytes) content ≡ more
  drop_seen = drop-add seen (length bytes) content ∙ rw ahead (drop-append_length bytes more)

  take_between :
      (k : ℕ) → k ≤ length bytes → take (seen + k) content ≡ take seen content ++ take k bytes
  take_between k short =
      take-add seen k content
      ∙ rw ahead (ap (λ t. take seen content ++ t) (take-append_le k bytes more short))

  module _ (fresh : leb (seen + length bytes) s.progress ≡ false) where
    old_part : s.hashed ≡ take seen content ++ take (s.progress - seen) bytes
    old_part =
        let e : seen + (s.progress - seen) ≡ s.progress = omega arith in
        h.part ∙ ap (λ m. take m content) (sym e) ∙ take_between (s.progress - seen) (ground arith)

    fresh_part-drop : fresh_part (seen + length bytes) bytes s ≡ drop (s.progress - seen) bytes
    unfolding fresh_part
    fresh_part-drop = ap (λ m. drop m bytes) (ground arith)

    store-Holds : Holds content (store (seen + length bytes) bytes s)
    unfolding store
    store-Holds =
        let e : s.progress + (seen + length bytes - s.progress) ≡ seen + length bytes =
          ground arith in
        record {
          part =
              ap (λ t. t ++ fresh_part (seen + length bytes) bytes s) old_part
              ∙ ap (λ t. (take seen content ++ take (s.progress - seen) bytes) ++ t) fresh_part-drop
              ∙ append_assoc (take seen content) (take (s.progress - seen) bytes) _
              ∙ ap (λ t. take seen content ++ t) (take-append-drop (s.progress - seen) bytes)
              ∙ ap (λ t. take seen content ++ t) (sym (take_all (length bytes) bytes (omega arith)))
              ∙ sym (take_between (length bytes) (omega arith))
              ∙ ap (λ m. take m content) (sym e);
          within = omega (arith, length-content, e);
        }

-- Behind a stream that sends a first part of the content, the worker holds a first part of it, and
-- all that the stream has sent; a stream with no error ends as such.
pub record Advanced (content : Bytes) (sent : ℕ) (unbroken : Type 0) (r : StreamEnd × Worker)
    : Type 0 where
  pub holds : Holds content r.1
  pub not_failed : r.0 ≢ write_failed
  pub not_unheard : r.0 ≢ stream_unheard
  pub reached : unbroken → (r.0 ≡ stream_ended) × (sent ≤ r.1.progress)

pub receive-Advanced :
    (content rest : Bytes) (es : List Event) (seen : ℕ) (s : Worker)
    → drop seen content ≡ stream_bytes es ++ rest
    → seen ≤ s.progress
    → Holds content s
    → IsWritten es
    → Advanced content (seen + length (stream_bytes es)) (IsUnbroken es) (receive es seen s)
unfolding receive
receive-Advanced content rest [] seen s e le h w = record {
  holds = h;
  not_failed = λ q. cc;
  not_unheard = λ q. cc;
  reached = λ _. (refl, omega arith);
}
receive-Advanced content rest (broken ∷ es) seen s e le h w = record {
  holds = h;
  not_failed = λ q. cc;
  not_unheard = λ q. cc;
  reached = λ q. absurd q;
}
receive-Advanced content rest (received bytes outcome ∷ es) seen s e le h w =
    let seen' = seen + length bytes in
    let ahead = e ∙ append_assoc bytes (stream_bytes es) rest in
    let behind = drop_seen content bytes (stream_bytes es ++ rest) seen s ahead le h in
    let len = length-append bytes (stream_bytes es) in
    elim (Bool-cases (leb seen' s.progress)) [
      | inl q ↦ rw q (
          more (receive-Advanced content rest es seen' s behind (ground arith) h w.1)
            (omega (arith, len)))
      | inr q ↦
          rw (q, w.0)
            (more
              (receive-Advanced content rest es seen' (store seen' bytes s) behind
                (unfold store in ground arith)
                (store-Holds content bytes (stream_bytes es ++ rest) seen s ahead le h q) w.1)
              (omega (arith, len)))
    ]
  where
    more :
        {n m : ℕ} {u : Type 0} {r : StreamEnd × Worker}
        → Advanced content n u r
        → m ≤ n
        → Advanced content m u r
    more a q = record {
      holds = a.holds;
      not_failed = a.not_failed;
      not_unheard = a.not_unheard;
      reached = λ x. ((a.reached x).0, omega (arith, (a.reached x).1));
    }
