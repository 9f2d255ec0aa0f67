-- ===== src/Connections/Counted.antt =====
-- The gauge is the number of requests that are under way.
use hath_rust.Prelude.{
  ℕ, ◌+◌, ◌^◌, ◌<◌, ◌≤◌, ◌≡◌, refl, inl, inr, Bool, true, false, ltb, if◌then◌else◌, arith, ◌*◌,
  ◌&&◌, Bool-cases,
}
use hath_rust.Prelude.Family.{update, sum_over, sum_over-update, sum_over-zero, sum_over-le}
use hath_rust.Connections.{
  soft_limit, Counter, dec, call, Phase, absent, calling, sending, gone, Gate, Move, arrive,
  respond, fail, cancel, drop_body, pick, init, Reach, start, later,
}

abbrev pub under_way : Phase → ℕ
under_way absent = 0
under_way calling = 1
under_way sending = 1
under_way gone = 0

-- The requests among the first `n` that are under way.
abbrev pub in_flight : ℕ → Gate → ℕ
in_flight n s = sum_over under_way n s.phase

in_flight-le : (n : ℕ) (s : Gate) → in_flight n s ≤ n
in_flight-le n s = sum_over-le under_way n s.phase (λ p. ground arith)

Move-gauge :
    {m : ℕ} {c c' : Counter} {p p' : Phase} (n before after : ℕ)
    → n < 2 ^ 64
    → Move m c p c' p'
    → c.gauge ≡ before
    → after + under_way p ≡ before + under_way p'
    → before ≤ n
    → after ≤ n
    → c'.gauge ≡ after
unfolding call dec
Move-gauge n before after b (arrive room) g e low high = ground arith
Move-gauge n before after b respond g e low high = omega arith
Move-gauge n before after b fail g e low high = omega arith
Move-gauge n before after b cancel g e low high = omega arith
Move-gauge n before after b drop_body g e low high = omega arith

-- Whatever order the requests run in, and however they end, the gauge is the number of requests
-- under way: a failed, cancelled or dropped request is counted down exactly once. So it is 0 when
-- none is under way. Fewer than 2 ^ 64 requests are taken to arrive.
pub Reach-counted :
    (n max_connection : ℕ) {s : Gate}
    → n < 2 ^ 64
    → Reach n max_connection s
    → s.counter.gauge ≡ in_flight n s
Reach-counted n m b start = sum_from_zero
  where
    sum_from_zero : 0 ≡ in_flight n init
    sum_from_zero = omega (arith, sum_over-zero under_way n (λ i. absent) (λ i. refl))
Reach-counted n m b (later {s} r (pick i {c} {p} lt mv)) =
    let t : Gate = record { counter = c; phase = update s.phase i p } in
    Move-gauge n (in_flight n s) (in_flight n t) b mv (Reach-counted n m b r)
      (sum_over-update under_way n i s.phase p lt) (in_flight-le n s) (in_flight-le n t)

soft_limit-ltb : (m g : ℕ) → ltb (soft_limit m) g ≡ ltb (4 * m + 4) (5 * g)
unfolding soft_limit
soft_limit-ltb m g = ground arith

told_if :
    (m : ℕ) (room : Bool) (c : Counter)
    → (call m room c).told ≡ (if ltb (soft_limit m) c.gauge && room then c.told + 1 else c.told)
unfolding call
told_if m true c = elim (Bool-cases (ltb (soft_limit m) c.gauge)) [ inl q ↦ rw q | inr q ↦ rw q ]
told_if m false c = elim (Bool-cases (ltb (soft_limit m) c.gauge)) [ inl q ↦ rw q | inr q ↦ rw q ]

-- The program is told of an overload, once, exactly if the channel has room and the requests under
-- way when a request arrives are one more than four fifths of the limit, or beyond.
pub call-told :
    (n max_connection : ℕ) {s : Gate} (has_room : Bool)
    → n < 2 ^ 64
    → Reach n max_connection s
    → (call max_connection has_room s.counter).told ≡ (
        if ltb (4 * max_connection + 4) (5 * in_flight n s) && has_room
        then s.counter.told + 1
        else s.counter.told)
call-told n m {s} room b r =
    rw (told_if m room s.counter, soft_limit-ltb m s.counter.gauge, Reach-counted n m b r)
