-- ===== src/Connections/Tests.antt =====
-- Two requests, of which one has failed and one is being sent.
use hath_rust.Prelude.{◌≡◌, refl, arith, true, ◌+◌, ◌*◌, ltb, if◌then◌else◌, ◌&&◌}
use hath_rust.Prelude.Family.{update}
use hath_rust.Connections.{
  soft_limit, dec, call, absent, calling, sending, gone, Gate, arrive, respond, fail, pick, Reach,
  start, later,
}
use hath_rust.Connections.Counted.{in_flight, Reach-counted, call-told}

-- The limit of one connection has a soft limit of one.
abbrev busy : Gate
busy = record {
  counter = record { gauge = 1; told = 0 };
  phase = update (update (update (update (λ i. absent) 0 calling) 1 calling) 0 sending) 1 gone;
}

busy-reached : Reach 5 1 busy
unfolding call dec soft_limit
busy-reached =
    let r1 = later start (pick 0 (omega arith) (arrive true)) in
    let r2 = later r1 (pick 1 (omega arith) (arrive true)) in
    let r3 = later r2 (pick 0 (omega arith) respond) in later r3 (pick 1 (omega arith) fail)

Reach-counted_example : busy.counter.gauge ≡ in_flight 5 busy
Reach-counted_example = Reach-counted 5 1 (omega arith) busy-reached

call-told_example : (call 1 true busy.counter).told ≡ (
    if ltb (4 * 1 + 4) (5 * in_flight 5 busy) && true
    then busy.counter.told + 1
    else busy.counter.told)
call-told_example = call-told 5 1 true (omega arith) busy-reached

-- The third request of ten meets a limit that is not passed, and of one that is.
told : (call 1 true (record { gauge = 2; told = 0 })).told ≡ 1
unfolding call soft_limit
told = refl
