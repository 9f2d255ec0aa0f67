-- ===== src/Flood/Limits.antt =====
-- Who is refused, and for how long.
use hath_rust.Prelude.{
  ℕ, zero, suc, ◌+◌, ◌*◌, ◌≤◌, ◌<◌, ◌≡◌, ◌≢◌, ◌⊎◌, inl, inr, refl, Bool, true, false, List, [], ◌∷◌,
  some, Bytes, bytes_eq, bytes_eq_iff, bytes_eq_refl, bytes_eq→eq, ltb, arith, All, ap, Bool-cases,
  length, ◌∙◌,
}
use hath_rust.Dict.{get, get-insert, get-retain}
use hath_rust.Flood.{second, FloodControl, Clock, new, clean, is_after, update_hit, hit}
use hath_rust.Flood.Refines.{
  Counter, fresh, count, count_all, answers, IsHistory, answers-count_all,
}

abbrev pub IsRefused : Bool → Type 0
IsRefused b = b ≡ true

abbrev pub IsServed : Bool → Type 0
IsServed b = b ≡ false

-- Every call of the history reads its clock before `until`.
abbrev pub Before : ℕ → List (Bytes × Clock) → Type 0
Before until [] = Unit
Before until ((a, clock) ∷ rest) = (clock.now < until) × Before until rest

module _ (ip : Bytes) (until : ℕ) where
  clean-blocks :
      (clock : Clock) (fc : FloodControl)
      → get ip fc.block_list ≡ some until
      → clock.now < until
      → get ip (clean clock fc).block_list ≡ some until
  unfolding clean
  clean-blocks clock fc e lt =
      ground (arith, get-retain (λ _ time. ltb clock.now time) ip fc.block_list)

  update_hit-blocks :
      (a : Bytes) (now : ℕ) (fc : FloodControl)
      → a ≢ ip
      → get ip fc.block_list ≡ some until
      → get ip (update_hit a now fc).0.block_list ≡ some until
  unfolding update_hit
  update_hit-blocks a now fc differ e =
      ground (arith, get-insert a ip (now + 60 * second) fc.block_list, bytes_eq_iff a ip)

  hit-blocks :
      (a : Bytes) (clock : Clock) (fc : FloodControl)
      → get ip fc.block_list ≡ some until
      → clock.now < until
      → (get ip (hit a clock fc).0.block_list ≡ some until)
        × (a ≡ ip → IsRefused (hit a clock fc).1)
  unfolding hit
  hit-blocks a clock fc e lt =
      let cleaned = clean-blocks clock fc e lt in
      elim (Bool-cases (bytes_eq a ip)) [
        | inl same ↦
            let eq : a ≡ ip = bytes_eq→eq a ip same in
            let refused : is_after clock.now (get a (clean clock fc).block_list) ≡ true =
              ground (arith, cleaned) in
            rw refused (cleaned, λ _. refl)
        | inr differ ↦
            let ne : a ≢ ip = ground (arith, bytes_eq_iff a ip) in
            elim (Bool-cases (is_after clock.now (get a (clean clock fc).block_list))) [
              | inl q ↦ rw q (cleaned, λ _. refl)
              | inr q ↦
                  rw q (
                    update_hit-blocks a clock.now (clean clock fc) ne cleaned,
                    λ eq. absurd (ne eq),
                  )
            ]
      ]

  answers-blocked :
      (fc : FloodControl) (events : List (Bytes × Clock))
      → get ip fc.block_list ≡ some until
      → Before until events
      → All IsRefused (answers ip fc events)
  unfolding answers
  answers-blocked fc [] e b = tt
  answers-blocked fc ((a, clock) ∷ rest) e b =
      let (kept, refused) = hit-blocks a clock fc e b.0 in
      let later = answers-blocked (hit a clock fc).0 rest kept b.1 in
      elim (Bool-cases (bytes_eq a ip)) [
        | inl same ↦ rw same (refused (bytes_eq→eq a ip same), later)
        | inr differ ↦ rw differ later
      ]

hit_starts_block :
    (ip : Bytes) (clock : Clock) (fc : FloodControl)
    → is_after clock.now (get ip (clean clock fc).block_list) ≡ false
    → IsRefused (hit ip clock fc).1
    → get ip (hit ip clock fc).0.block_list ≡ some (clock.now + 60 * second)
unfolding hit update_hit
hit_starts_block ip clock fc free refused = ground (
  arith,
  get-insert ip ip (clock.now + 60 * second) (clean clock fc).block_list,
  bytes_eq_refl ip,
)

clean-is_after :
    (ip : Bytes) (clock : Clock) (fc : FloodControl)
    → is_after clock.now (get ip fc.block_list) ≡ false
    → is_after clock.now (get ip (clean clock fc).block_list) ≡ false
unfolding clean
clean-is_after ip clock fc e =
    ground (arith, get-retain (λ _ time. ltb clock.now time) ip fc.block_list)

-- When a hit of an address that is not blocked is refused, every hit of that address in the sixty
-- seconds behind it is refused too, whatever other addresses do in between.
pub blocked_for_a_minute :
    (ip : Bytes) (clock : Clock) (fc : FloodControl) (events : List (Bytes × Clock))
    → is_after clock.now (get ip fc.block_list) ≡ false
    → IsRefused (hit ip clock fc).1
    → Before (clock.now + 60 * second) events
    → All IsRefused (answers ip (hit ip clock fc).0 events)
blocked_for_a_minute ip clock fc events free refused before =
    answers-blocked ip (clock.now + 60 * second) (hit ip clock fc).0 events
      (hit_starts_block ip clock fc (clean-is_after ip clock fc free) refused) before

-- The hits of `ip` in a history lie a second apart.
abbrev pub IsSpaced : Bytes → ℕ → List (Bytes × Clock) → Type 0
IsSpaced ip last [] = Unit
IsSpaced ip last ((a, clock) ∷ rest) =
    (bytes_eq a ip ≡ true → (last + second ≤ clock.now) × IsSpaced ip clock.now rest)
    × (bytes_eq a ip ≡ false → IsSpaced ip last rest)

count_spaced :
    (now : ℕ) (c : Counter)
    → c.level ≤ 1
    → c.until ≤ now
    → c.last + second ≤ now
    → (IsServed (count now c).1 × ((count now c).0.level ≤ 1))
      × (((count now c).0.until ≤ now) × ((count now c).0.last ≡ now))
unfolding count
count_spaced now c l u s = ground arith

count_all_spaced :
    (ip : Bytes) (c : Counter) (events : List (Bytes × Clock))
    → c.level ≤ 1
    → c.until ≤ c.last
    → IsSpaced ip c.last events
    → All IsServed (count_all ip c events)
unfolding count_all
count_all_spaced ip c [] l u s = tt
count_all_spaced ip c ((a, clock) ∷ rest) l u s = elim (Bool-cases (bytes_eq a ip)) [
  | inl same ↦
      let (gap, spaced) = s.0 same in
      let (x, y) = count_spaced clock.now c l (omega (arith, gap, u)) gap in
      rw same (
        x.0,
        count_all_spaced ip (count clock.now c).0 rest x.1 (omega (arith, y.0, y.1))
            (rw y.1 spaced),
      )
  | inr differ ↦ rw differ (count_all_spaced ip c rest l u (s.1 differ))
]

-- On a clock that goes forward and with prompt calls, an address whose hits lie at least a second
-- apart (the first one a second behind the clock's origin) is never refused, whatever other addresses do.
pub spaced_never_refused :
    (ip : Bytes) (start : ℕ) (events : List (Bytes × Clock))
    → IsHistory ip start events
    → IsSpaced ip 0 events
    → All IsServed (answers ip (new start) events)
spaced_never_refused ip start events h s =
    rw (answers-count_all ip start events h)
      (count_all_spaced ip fresh events (omega arith) (omega arith) s)

-- All hits are of `ip`, and fall into one second.
abbrev pub IsBurst : Bytes → ℕ → List (Bytes × Clock) → Type 0
IsBurst ip t [] = Unit
IsBurst ip t ((a, clock) ∷ rest) =
    (a ≡ ip) × ((t ≤ clock.now) × ((clock.now < t + second) × IsBurst ip t rest))

-- `n` hits are served, and the next is refused.
abbrev pub served_then_refused : ℕ → List Bool
served_then_refused zero = true ∷ []
served_then_refused (suc n) = false ∷ served_then_refused n

count_last :
    (t now : ℕ) (c : Counter)
    → c.level ≡ 9
    → t ≤ c.last
    → c.until ≤ now
    → now < t + second
    → IsRefused (count now c).1
unfolding count
count_last t now c l a u w = ground arith

count_more :
    (t now n : ℕ) (c : Counter)
    → c.level + suc (suc n) ≡ 10
    → (t ≤ c.last) ⊎ (c.level ≡ 0)
    → c.until ≤ t
    → t ≤ now
    → now < t + second
    → (IsServed (count now c).1 × ((count now c).0.level + suc n ≡ 10))
      × (((count now c).0.until ≤ t) × ((count now c).0.last ≡ now))
unfolding count
count_more t now n c l a u w x = ground arith

count_all_burst :
    (ip : Bytes) (t n : ℕ) (c : Counter) (events : List (Bytes × Clock))
    → length events ≡ suc n
    → c.level + suc n ≡ 10
    → (t ≤ c.last) ⊎ (c.level ≡ 0)
    → c.until ≤ t
    → IsBurst ip t events
    → count_all ip c events ≡ served_then_refused n
unfolding count_all
count_all_burst ip t n c [] len l a u b = absurd (omega (arith, len))
count_all_burst ip t zero c ((i, clock) ∷ []) len l a u b =
    let in_window : t ≤ c.last = ground (arith, a, l) in
    let last =
      count_last t clock.now c (omega (arith, l)) in_window (omega (arith, u, b.1.0)) b.1.1.0 in
    rw (b.0, bytes_eq_refl ip, last)
count_all_burst ip t zero c (e ∷ f ∷ rest) len l a u b = absurd (omega (arith, len))
count_all_burst ip t (suc n) c ((i, clock) ∷ rest) len l a u b =
    let (x, y) = count_more t clock.now n c l a u b.1.0 b.1.1.0 in
    let later =
      count_all_burst ip t n (count clock.now c).0 rest (omega (arith, len)) x.1
        (inl (omega (arith, y.1, b.1.0))) y.0 b.1.1.1 in
    rw (b.0, bytes_eq_refl ip, x.0) (ap (λ k. false ∷ k) later)

-- On a clock that goes forward and with prompt calls, ten hits of a new address within one second: nine are served, and the tenth is refused.
pub burst_refused :
    (ip : Bytes) (start t : ℕ) (events : List (Bytes × Clock))
    → IsHistory ip start events
    → IsBurst ip t events
    → length events ≡ 10
    → answers ip (new start) events ≡ served_then_refused 9
burst_refused ip start t events h b len =
    answers-count_all ip start events h
    ∙ count_all_burst ip t 9 fresh events len (omega arith) (inr refl) (omega arith) b
