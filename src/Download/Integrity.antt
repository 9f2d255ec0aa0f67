-- ===== src/Download/Integrity.antt =====
-- What is imported into the cache was verified.
use hath_rust.Prelude.{
  ℕ, ◌+◌, ◌-◌, ◌≤◌, ◌≡◌, refl, sym, ap, ◌∙◌, Bool, true, false, ◌&&◌, ◌||◌, List, [], ◌∷◌, ◌++◌,
  some, Bytes, bytes_eq, bytes_eq→eq, length, leb, ◌==◌, arith, Bool-cases, inl, inr, append-nil,
  length-append, length-drop, take_all, drop_all, ==_iff, All,
}
use hath_rust.Download.{
  Event, received, broken, Answer, refused, streamed, Attempt, Worker, start, write_at, StreamEnd,
  stream_ended, stream_unheard, stream_broken, write_failed, wrote, lost, fails, fill,
  receive_unheard, store_lost, fresh_part, store, receive, Next, retry, stop, finished,
  after_stream, try, tries, download,
}

-- The temporary file holds what was hashed, and `progress` is its length.
pub record IsConsistent (s : Worker) : Type 0 where
  pub same : s.file ≡ s.hashed
  pub size : length s.file ≡ s.progress

fill_same : (file : Bytes) → fill (length file) file ≡ file
unfolding fill
fill_same [] = refl
fill_same (b ∷ file) = ap (λ t. b ∷ t) (fill_same file)

pub write_at_end : (file data_ : Bytes) → write_at (length file) data_ file ≡ file ++ data_
unfolding write_at
write_at_end file data_ = rw (
  fill_same file,
  take_all (length file) file (omega arith),
  drop_all (length file + length data_) file (omega arith),
  append-nil data_,
)

module _ (seen : ℕ) (bytes : Bytes) (s : Worker) (c : IsConsistent s)
    (more : leb seen s.progress ≡ false) (within : seen ≤ s.progress + length bytes) where
  pub length-fresh_part : length (fresh_part seen bytes s) ≡ seen - s.progress
  unfolding fresh_part
  length-fresh_part = length-drop (length bytes - (seen - s.progress)) bytes ∙ ground arith

  pub store-file : (store seen bytes s).file ≡ s.file ++ fresh_part seen bytes s
  unfolding store
  store-file =
      ap (λ p. write_at p (fresh_part seen bytes s) s.file) (sym c.size)
      ∙ write_at_end s.file (fresh_part seen bytes s)

  pub store-IsConsistent : IsConsistent (store seen bytes s)
  store-IsConsistent = record {
    same = store-file ∙ unfold store in ap (λ t. t ++ fresh_part seen bytes s) c.same;
    size =
        ap length store-file
        ∙ length-append s.file (fresh_part seen bytes s)
        ∙ unfold store in omega (arith, length-fresh_part, c.size);
  }

-- The stream brings another byte before it ends or breaks off.
abbrev pub IsGoingOn : List Event → Type 0
IsGoingOn [] = ⊥
IsGoingOn (broken ∷ es) = ⊥
IsGoingOn (received [] outcome ∷ es) = IsGoingOn es
IsGoingOn (received (b ∷ bytes) outcome ∷ es) = Unit

-- A stream in which each block that is lost is followed by another one, whose write has the error.
abbrev pub IsTold : List Event → Type 0
IsTold [] = Unit
IsTold (broken ∷ es) = Unit
IsTold (received bytes wrote ∷ es) = IsTold es
IsTold (received bytes (lost n) ∷ es) = IsGoingOn es × IsTold es
IsTold (received bytes (fails n) ∷ es) = IsTold es

abbrev pub IsToldBy : Answer → Type 0
IsToldBy (refused f) = Unit
IsToldBy (streamed es flushed) = IsTold es

receive_unheard-fails :
    (es : List Event) (seen : ℕ) (s : Worker)
    → s.progress ≤ seen
    → IsGoingOn es
    → (receive_unheard es seen s).0 ≡ write_failed
unfolding receive_unheard
receive_unheard-fails [] seen s le g = absurd g
receive_unheard-fails (broken ∷ es) seen s le g = absurd g
receive_unheard-fails (received [] o ∷ es) seen s le g =
    elim (Bool-cases (leb (seen + 0) s.progress)) [
      | inl q ↦ rw q (receive_unheard-fails es (seen + 0) s (omega arith) g)
      | inr q ↦ rw q refl
    ]
receive_unheard-fails (received (b ∷ bytes) o ∷ es) seen s le g =
    let e : leb (seen + length (b ∷ bytes)) s.progress ≡ false = ground arith in rw e refl

abbrev Kept : StreamEnd × Worker → Type 0
Kept (stream_ended, s) = IsConsistent s
Kept (stream_broken, s) = IsConsistent s
Kept (stream_unheard, s) = ⊥
Kept (write_failed, s) = Unit

failed-Kept : (r : StreamEnd × Worker) → r.0 ≡ write_failed → Kept r
failed-Kept (stream_ended, s) e = absurd cc
failed-Kept (stream_broken, s) e = absurd cc
failed-Kept (stream_unheard, s) e = absurd cc
failed-Kept (write_failed, s) e = tt

receive-Kept :
    (es : List Event) (seen : ℕ) (s : Worker)
    → IsConsistent s
    → seen ≤ s.progress
    → IsTold es
    → Kept (receive es seen s)
unfolding receive
receive-Kept [] seen s c le told = c
receive-Kept (broken ∷ es) seen s c le told = c
receive-Kept (received bytes (lost n) ∷ es) seen s c le told =
    let seen' = seen + length bytes in
    elim (Bool-cases (leb seen' s.progress)) [
      | inl q ↦ rw q (receive-Kept es seen' s c (ground arith) told.1)
      | inr q ↦ rw q (
          failed-Kept _ (
            receive_unheard-fails es seen' (store_lost n seen' bytes s)
              (unfold store_lost store in ground arith) told.0))
    ]
receive-Kept (received bytes wrote ∷ es) seen s c le told =
    let seen' = seen + length bytes in
    elim (Bool-cases (leb seen' s.progress)) [
      | inl q ↦ rw q (receive-Kept es seen' s c (ground arith) told)
      | inr q ↦ rw q (
          receive-Kept es seen' (store seen' bytes s)
            (store-IsConsistent seen' bytes s c q (omega arith)) (unfold store in ground arith)
            told)
    ]
receive-Kept (received bytes (fails n) ∷ es) seen s c le told =
    let seen' = seen + length bytes in
    elim (Bool-cases (leb seen' s.progress)) [
      | inl q ↦ rw q (receive-Kept es seen' s c (ground arith) told)
      | inr q ↦ rw q tt
    ]

-- Where a try leaves the worker.
abbrev Sound : ℕ → Next × Worker → Type 0
Sound file_size (retry, s) = IsConsistent s
Sound file_size (stop, s) = Unit
Sound file_size (finished, s) = IsConsistent s × (s.progress ≡ file_size)

after_stream-Sound :
    (file_size : ℕ) (flushed : Bool) (r : StreamEnd × Worker)
    → Kept r
    → Sound file_size (after_stream file_size flushed r)
unfolding after_stream
after_stream-Sound file_size flushed (stream_broken, s) k = k
after_stream-Sound file_size flushed (write_failed, s) k = tt
after_stream-Sound file_size flushed (stream_unheard, s) k = absurd k
after_stream-Sound file_size true (stream_ended, s) k =
    elim (Bool-cases (s.progress == file_size)) [
      | inl q ↦ rw q (record { same = k.same; size = k.size }, (==_iff s.progress file_size).0 q)
      | inr q ↦ rw q k
    ]
after_stream-Sound file_size false (stream_ended, s) k =
    elim (Bool-cases (s.progress == file_size)) [ inl q ↦ rw q tt | inr q ↦ rw q k ]

try_answer-Sound :
    (file_size : ℕ) (has_source : Bool) (round : ℕ) (opened sought : Bool) (answer : Answer)
    (s : Worker)
    → IsConsistent s
    → IsToldBy answer
    → Sound file_size (
        try file_size has_source round
          (record { opened = opened; sought = sought; answer = answer })
          s)
unfolding try
try_answer-Sound file_size has_source round false sought answer s c t = c
try_answer-Sound file_size has_source round true false answer s c t = c
try_answer-Sound file_size false round true true answer s c t = tt
try_answer-Sound file_size true round true true (refused f) s c t =
    elim (Bool-cases (s.use_proxy && (f || round == 1))) [
      | inl q ↦ rw q (record { same = c.same; size = c.size })
      | inr q ↦ rw q c
    ]
try_answer-Sound file_size true round true true (streamed es flushed) s c t =
    after_stream-Sound file_size flushed (receive es 0 s) (receive-Kept es 0 s c (omega arith) t)

-- What the worker makes of a try, with the result of the tries behind it.
abbrev pub conclude : Next × Worker → Bool × Worker → Bool × Worker
conclude (retry, s) again = again
conclude (stop, s) again = (false, s)
conclude (finished, s) again = (true, s)

pub tries-cons :
    (file_size : ℕ) (has_source : Bool) (round : ℕ) (a : Attempt) (later : List Attempt)
    (s : Worker)
    → tries file_size has_source round (a ∷ later) s
      ≡ conclude
          (try file_size has_source round a s)
          (tries file_size has_source (round + 1) later (try file_size has_source round a s).1)
unfolding tries
tries-cons file_size has_source round a later s = ground arith

-- A worker that has the whole file.
abbrev pub IsWhole : ℕ → Bool × Worker → Type 0
IsWhole file_size (done, s) = done ≡ true → IsConsistent s × (s.progress ≡ file_size)

conclude-IsWhole :
    (file_size : ℕ) (r : Next × Worker) (again : Bool × Worker)
    → Sound file_size r
    → (IsConsistent r.1 → IsWhole file_size again)
    → IsWhole file_size (conclude r again)
conclude-IsWhole file_size (retry, s) again k h = h k
conclude-IsWhole file_size (stop, s) again k h = λ e. cc
conclude-IsWhole file_size (finished, s) again k h = λ e. k

pub tries-IsWhole :
    (file_size : ℕ) (has_source : Bool) (round : ℕ) (all : List Attempt) (s : Worker)
    → IsConsistent s
    → All (λ (a : Attempt). IsToldBy a.answer) all
    → IsWhole file_size (tries file_size has_source round all s)
tries-IsWhole file_size has_source round [] s c t = unfold tries in λ e. cc
tries-IsWhole file_size has_source round (a ∷ later) s c t =
    let r = try file_size has_source round a s in
    rw (tries-cons file_size has_source round a later s) (
      conclude-IsWhole file_size r (tries file_size has_source (round + 1) later r.1)
        (try_answer-Sound file_size has_source round a.opened a.sought a.answer s c t.0)
        (λ k. tries-IsWhole file_size has_source (round + 1) later r.1 k t.1))

pub start-IsConsistent : (has_proxy : Bool) → IsConsistent (start has_proxy)
unfolding start
start-IsConsistent has_proxy = record { same = refl; size = refl }

-- Whatever the sources send, and whichever seek, write or flush fails, where each block that
-- `write_all` reported as written and that does not reach the file is followed by another one of its
-- stream (whose write then has the error), a file that the worker hands to the cache has the hash
-- that its name states, over the bytes in the file itself, and the size that its name states.
pub download_verified :
    (sha1 : Bytes → Bytes) (file_size : ℕ) (hash : Bytes) (has_source has_proxy : Bool)
    (a b c : Attempt) (file : Bytes)
    → All (λ (t : Attempt). IsToldBy t.answer) (a ∷ b ∷ c ∷ [])
    → download sha1 file_size hash has_source has_proxy (a, b, c) ≡ some file
    → (sha1 file ≡ hash) × (length file ≡ file_size)
unfolding download
download_verified sha1 file_size hash has_source has_proxy a b c file told e =
    let r = tries file_size has_source 0 (a ∷ b ∷ c ∷ []) (start has_proxy) in
    let facts : (r.0 ≡ true) × (bytes_eq (sha1 r.1.hashed) hash ≡ true) × (r.1.file ≡ file) =
      ground arith in
    let (k, size) =
      tries-IsWhole file_size has_source 0 (a ∷ b ∷ c ∷ []) (start has_proxy)
        (start-IsConsistent has_proxy) told facts.0 in
    (
      ap sha1 (sym facts.2 ∙ k.same) ∙ bytes_eq→eq (sha1 r.1.hashed) hash facts.1,
      ap length (sym facts.2) ∙ k.size ∙ size,
    )
