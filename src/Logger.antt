-- ===== src/Logger.antt =====
-- The worker of src/logger.rs: two files, which are rotated after a number of lines. A file is its
-- lines, the last one first; the console is left out, and flushes and the end of the worker are
-- Channel's. Creating and renaming a file behind the start succeed, as the source's `unwrap` asks; a
-- write may fail, and nobody looks.
pub mod Rotation
pub mod Channel
mod Tests
use hath_rust.Prelude.{
  ℕ, ◌+◌, ◌%◌, ◌^◌, Bool, true, false, List, [], ◌∷◌, Bytes, ltb, if◌then◌else◌,
}

pub data Level : Type 0 where
  error warn info debug trace : Level

pub record LoggerMessage : Type 0 where
  pub level : Level
  pub message : Bytes

-- One of the files, the `old` file that it was rotated to, and the count of lines.
pub record LogFile : Type 0 where
  pub current : List Bytes
  pub old : List Bytes
  pub lines : ℕ

abbrev pub max_lines : ℕ
max_lines = 100000

-- `rotate_log` on one file, and a new one in its place.
unfoldable pub rotate_log : LogFile → LogFile
rotate_log f = record { current = []; old = f.current; lines = 0 }

-- A line is counted, and the file rotated if it is due.
unfoldable pub count : LogFile → LogFile
unfolding rotate_log
count f =
    let counted = record f { lines = (f.lines + 1) % 2 ^ 32 } in
    if ltb max_lines counted.lines then rotate_log counted else counted

-- A message is written behind a rotation, if it is due.
unfoldable pub write : Bytes → LogFile → LogFile
unfolding count
write message f = let due = count f in record due { current = message ∷ due.current }

pub record LoggerWorker : Type 0 where
  pub log_out : LogFile
  pub log_err : LogFile

-- `log.level <= Level::Warn`.
unfoldable pub is_error : Level → Bool
is_error error = true
is_error warn = true
is_error info = false
is_error debug = false
is_error trace = false

-- One message of the channel; `write_info` is the setting of that name.
unfoldable pub receive : Bool → LoggerMessage → LoggerWorker → LoggerWorker
unfolding write is_error
receive write_info log w =
    if is_error log.level
    then record w { log_err = write log.message w.log_err }
    else if write_info
    then record w { log_out = write log.message w.log_out }
    else w

-- The same where the write of the line fails: `let _ = writer.write_all(msg).await`.
unfoldable pub receive_lost : Bool → LoggerMessage → LoggerWorker → LoggerWorker
unfolding count is_error
receive_lost write_info log w =
    if is_error log.level
    then record w { log_err = count w.log_err }
    else if write_info
    then record w { log_out = count w.log_out }
    else w
