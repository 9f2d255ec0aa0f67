-- ===== src/Server/Shutdown/Tests.antt =====
-- Two loops and their stop: one stands at its head, and one does not hear of it.
use hath_rust.Prelude.{◌+◌, ◌≤◌, refl, false}
use hath_rust.Prelude.Family.{update}
use hath_rust.Server.Shutdown.{
  checking, deciding, waiting, finished, Halt, load_clear, arm, act, store, notify, notify_waiter,
  Reach, start, later,
}
use hath_rust.Server.Shutdown.Halts.{
  IsOrderly, Reach-IsOrderly, Run, here, more, steps_of, steps_left, Run-ends,
}

-- The loop loads the flag, the flag is set, and the waiters are notified.
abbrev told : Halt
told = record {
  stopper = finished;
  place = λ i. notify_waiter (update (λ j. checking) 0 deciding i);
  late = update (λ j. 0) 0 0;
}

told-Reach : Reach told
told-Reach = later (later (later start (act 0 (load_clear refl))) (store refl)) (notify refl)

Reach-IsOrderly_example : IsOrderly finished (told.place 0) (told.late 0)
Reach-IsOrderly_example = Reach-IsOrderly told-Reach 0

-- It waits with a future that is made behind the notification, until a connection comes.
abbrev missed : Halt
missed = record told {
  place = update told.place 0 (waiting false);
  late = update told.late 0 (told.late 0);
}

missed-Reach : Reach missed
unfolding notify_waiter
missed-Reach = later told-Reach (act 0 arm)

missed-Run : Run told missed
unfolding notify_waiter
missed-Run = more here (act 0 arm)

Run-ends_example :
    (steps_of 0 missed-Run + steps_left (missed.place 0) ≤ steps_left (told.place 0))
    × (steps_left (told.place 0) ≤ 3)
Run-ends_example = Run-ends 0 missed-Run refl
