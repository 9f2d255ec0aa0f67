-- ===== src/Download/Completes.antt =====
-- The worker gets the file, if its sources serve it and one try goes through.
use hath_rust.Prelude.{
  ℕ, ◌+◌, ◌≡◌, refl, ap, ◌∙◌, ◌⊎◌, Bool, true, false, ◌&&◌, ◌||◌, List, [], ◌∷◌, ◌++◌, some, Bytes,
  bytes_eq_refl, length, take, ◌==◌, arith, All, Bool-cases, inl, inr, take_all, ==_refl,
}
use hath_rust.Download.{
  Event, received, broken, wrote, lost, fails, Answer, refused, streamed, Attempt, Worker, start,
  StreamEnd, stream_unheard, stream_ended, stream_broken, write_failed, receive, Next, retry, stop,
  finished, after_stream, try, tries, download,
}
use hath_rust.Download.Integrity.{
  IsTold, IsToldBy, conclude, tries-cons, tries-IsWhole, start-IsConsistent,
}
use hath_rust.Download.Resume.{
  stream_bytes, IsWritten, IsUnbroken, Holds, Advanced, receive-Advanced,
}

-- A source that answers serves a first part of the content, and the file system does its part.
abbrev pub IsFaithful : Bytes → Answer → Type 0
IsFaithful content (refused f) = Unit
IsFaithful content (streamed es flushed) =
    ((rest : Bytes) × (content ≡ stream_bytes es ++ rest)) × (IsWritten es × (flushed ≡ true))

-- The source serves the whole content with no error.
abbrev pub IsComplete : Bytes → Answer → Type 0
IsComplete content (refused f) = ⊥
IsComplete content (streamed es flushed) = IsUnbroken es × (stream_bytes es ≡ content)

-- Where a try leaves the worker; `complete` says that the try went through.
abbrev Settled : Bytes → Type 0 → Next × Worker → Type 0
Settled content complete (retry, s) = Holds content s × (¬ complete)
Settled content complete (stop, s) = ⊥
Settled content complete (finished, s) = Holds content s

after_stream-Settled :
    (content : Bytes) (n : ℕ) (complete unbroken : Type 0) (r : StreamEnd × Worker)
    → (complete → unbroken × (n ≡ length content))
    → Advanced content n unbroken r
    → Settled content complete (after_stream (length content) true r)
unfolding after_stream
after_stream-Settled content n complete unbroken (write_failed, s) f a = absurd (a.not_failed refl)
after_stream-Settled content n complete unbroken (stream_unheard, s) f a =
    absurd (a.not_unheard refl)
after_stream-Settled content n complete unbroken (stream_broken, s) f a =
    (a.holds, λ c. cc ((a.reached (f c).0).0))
after_stream-Settled content n complete unbroken (stream_ended, s) f a =
    elim (Bool-cases (s.progress == length content)) [
      | inl q ↦ rw q (record { part = a.holds.part; within = a.holds.within })
      | inr q ↦ rw q (
        a.holds,
        λ c.
            let reached = (a.reached (f c).0).1 in
            let same : s.progress ≡ length content =
              omega (arith, reached, (f c).1, a.holds.within) in
            cc (q, ap (λ m. m == length content) same, ==_refl (length content)),
      )
    ]

-- The try opens the file.
abbrev pub IsOpened : Attempt → Type 0
IsOpened a = (a.opened ≡ true) × (a.sought ≡ true)

try-Settled :
    (content : Bytes) (round : ℕ) (opened sought : Bool) (answer : Answer) (s : Worker)
    → Holds content s
    → IsFaithful content answer
    → Settled content ((opened ≡ true) × (sought ≡ true) × IsComplete content answer) (
        try
          (length content)
          true
          round
          (record { opened = opened; sought = sought; answer = answer })
          s)
unfolding try
try-Settled content round false sought answer s h f = (h, λ c. cc (c.0))
try-Settled content round true false answer s h f = (h, λ c. cc (c.1))
try-Settled content round true true (refused x) s h f =
    elim (Bool-cases (s.use_proxy && (x || round == 1))) [
      | inl q ↦ rw q (record { part = h.part; within = h.within }, λ c. absurd c.2)
      | inr q ↦ rw q (h, λ c. absurd c.2)
    ]
try-Settled content round true true (streamed es flushed) s h f = rw f.1.1 (
    after_stream-Settled content (length (stream_bytes es)) _ (IsUnbroken es) (receive es 0 s)
      (λ c. (c.2.0, ap length c.2.1))
      (more (receive-Advanced content f.0.0 es 0 s f.0.1 (omega arith) h f.1.0)))
  where
    more :
        {n : ℕ} {u : Type 0} {r : StreamEnd × Worker}
        → Advanced content (0 + n) u r
        → Advanced content n u r
    more a = record {
      holds = a.holds;
      not_failed = a.not_failed;
      not_unheard = a.not_unheard;
      reached = λ x. ((a.reached x).0, omega (arith, (a.reached x).1));
    }

-- One of the tries opens the file, and its source serves the whole content.
abbrev pub GoesThrough : Bytes → List Attempt → Type 0
GoesThrough content [] = ⊥
GoesThrough content (a ∷ later) =
    ((a.opened ≡ true) × (a.sought ≡ true) × IsComplete content a.answer)
    ⊎ GoesThrough content later

abbrev Arrives : Bytes → Bool × Worker → Type 0
Arrives content (done, s) = (done ≡ true) × Holds content s

conclude-Arrives :
    (content : Bytes) (complete later : Type 0) (r : Next × Worker) (again : Bool × Worker)
    → Settled content complete r
    → complete ⊎ later
    → (Holds content r.1 → later → Arrives content again)
    → Arrives content (conclude r again)
conclude-Arrives content complete later (retry, s) again k (inl c) h = absurd (k.1 c)
conclude-Arrives content complete later (retry, s) again k (inr l) h = h k.0 l
conclude-Arrives content complete later (stop, s) again k g h = absurd k
conclude-Arrives content complete later (finished, s) again k g h = (refl, k)

tries-Arrives :
    (content : Bytes) (round : ℕ) (all : List Attempt) (s : Worker)
    → Holds content s
    → All (λ (a : Attempt). IsFaithful content a.answer) all
    → GoesThrough content all
    → Arrives content (tries (length content) true round all s)
tries-Arrives content round [] s h f g = absurd g
tries-Arrives content round (a ∷ later) s h f g =
    let r = try (length content) true round a s in
    rw (tries-cons (length content) true round a later s) (
      conclude-Arrives content _ (GoesThrough content later) r
        (tries (length content) true (round + 1) later r.1)
        (try-Settled content round a.opened a.sought a.answer s h f.0) g
        (λ k l. tries-Arrives content (round + 1) later r.1 k f.1 l))

IsWritten-IsTold : (es : List Event) → IsWritten es → IsTold es
IsWritten-IsTold [] w = tt
IsWritten-IsTold (broken ∷ es) w = tt
IsWritten-IsTold (received bytes wrote ∷ es) w = IsWritten-IsTold es w.1
IsWritten-IsTold (received bytes (lost n) ∷ es) w = absurd (lost-is-not n w.0)
  where
    lost-is-not : (k : ℕ) → lost k ≡ wrote → ⊥
    lost-is-not k e = cc
IsWritten-IsTold (received bytes (fails n) ∷ es) w = IsWritten-IsTold es w.1

IsFaithful-IsToldBy :
    (content : Bytes) (answer : Answer) → IsFaithful content answer → IsToldBy answer
IsFaithful-IsToldBy content (refused f) h = tt
IsFaithful-IsToldBy content (streamed es flushed) h = IsWritten-IsTold es h.1.0

start-Holds : (content : Bytes) (has_proxy : Bool) → Holds content (start has_proxy)
unfolding start
start-Holds content has_proxy = record { part = refl; within = omega arith }

-- Where each source that answers serves a first part of the same content, of any length, where no
-- write or flush fails, and where one of the three tries opens the file and gets the whole
-- content, the worker hands exactly the content to the cache: what earlier tries have stored is
-- skipped and not written again.
pub download_completes :
    (sha1 : Bytes → Bytes) (content : Bytes) (has_proxy : Bool) (a b c : Attempt)
    → All (λ (t : Attempt). IsFaithful content t.answer) (a ∷ b ∷ c ∷ [])
    → GoesThrough content (a ∷ b ∷ c ∷ [])
    → download sha1 (length content) (sha1 content) true has_proxy (a, b, c) ≡ some content
unfolding download
download_completes sha1 content has_proxy a b c f g =
    let all = a ∷ b ∷ c ∷ [] in
    let r = tries (length content) true 0 all (start has_proxy) in
    let (done, h) =
      tries-Arrives content 0 all (start has_proxy) (start-Holds content has_proxy) f g in
    let (k, size) =
      tries-IsWhole (length content) true 0 all (start has_proxy) (start-IsConsistent has_proxy)
        (
          IsFaithful-IsToldBy content a.answer f.0,
          (
            IsFaithful-IsToldBy content b.answer f.1.0,
            (IsFaithful-IsToldBy content c.answer f.1.1.0, tt),
          ),
        )
        done in
    let hashed : r.1.hashed ≡ content =
      h.part ∙ ap (λ m. take m content) size ∙ take_all (length content) content (omega arith) in
    rw (done, hashed, bytes_eq_refl (sha1 content)) (ap some (k.same ∙ hashed))
