-- ===== src/Logger/Tests.antt =====
-- A file that is full, and one more message.
use hath_rust.Prelude.{true, [], codes, arith}
use hath_rust.Logger.{LogFile, LoggerWorker, error, receive}
use hath_rust.Logger.Rotation.{IsTidy, IsBounded, receive-IsTidy}

abbrev filled : LogFile
filled = record { current = []; old = []; lines = 100000 }

abbrev worker : LoggerWorker
worker = record { log_out = filled; log_err = filled }

filled-IsBounded : IsBounded filled
filled-IsBounded = record { counted = omega arith; at_most = omega arith; old_bound = omega arith }

receive-IsTidy_example :
    IsTidy (receive true (record { level = error; message = codes "x" }) worker)
receive-IsTidy_example =
    receive-IsTidy true (record { level = error; message = codes "x" }) worker
      (record { out_bounded = filled-IsBounded; err_bounded = filled-IsBounded })
