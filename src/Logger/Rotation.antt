-- ===== src/Logger/Rotation.antt =====
-- The log files stay bounded.
use hath_rust.Prelude.{◌+◌, ◌%◌, ◌^◌, ◌≤◌, Bool, Bytes, ltb, length, arith, Bool-cases, inl, inr}
use hath_rust.Logger.{
  LoggerMessage, LogFile, max_lines, rotate_log, write, LoggerWorker, is_error, receive,
}

-- The count is the number of lines, or one less behind a rotation, and the file is bounded.
pub record IsBounded (f : LogFile) : Type 0 where
  pub counted : length f.current ≤ f.lines + 1
  pub at_most : f.lines ≤ max_lines
  pub old_bound : length f.old ≤ max_lines + 1

write-IsBounded : (message : Bytes) (f : LogFile) → IsBounded f → IsBounded (write message f)
unfolding write rotate_log
write-IsBounded message f b = elim (Bool-cases (ltb max_lines ((f.lines + 1) % 2 ^ 32))) [
  | inl q ↦ rw q (record {
    counted = omega arith;
    at_most = omega arith;
    old_bound = omega (arith, b.counted, b.at_most);
  })
  | inr q ↦ rw q (record {
    counted = omega (arith, b.counted, b.at_most);
    at_most = ground (arith, b.at_most);
    old_bound = b.old_bound;
  })
]

-- The worker with both files in bounds.
pub record IsTidy (w : LoggerWorker) : Type 0 where
  pub out_bounded : IsBounded w.log_out
  pub err_bounded : IsBounded w.log_err

-- Whatever messages come, neither log file nor the old file that it is rotated to grows beyond
-- 100001 lines: the count, which starts again at 0 behind a rotation, misses at most the line that
-- is written there.
pub receive-IsTidy :
    (write_info : Bool) (log : LoggerMessage) (w : LoggerWorker)
    → IsTidy w
    → IsTidy (receive write_info log w)
unfolding receive
receive-IsTidy write_info log w t = elim (Bool-cases (is_error log.level)) [
  | inl q ↦ rw q (record {
    out_bounded = t.out_bounded;
    err_bounded = write-IsBounded log.message w.log_err t.err_bounded;
  })
  | inr q ↦ elim (Bool-cases write_info) [
    | inl r ↦
        rw (q, r)
          (record {
            out_bounded = write-IsBounded log.message w.log_out t.out_bounded;
            err_bounded = t.err_bounded;
          })
    | inr r ↦ rw (q, r) t
  ]
]
