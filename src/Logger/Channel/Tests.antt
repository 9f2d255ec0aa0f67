-- ===== src/Logger/Channel/Tests.antt =====
-- A message that is written before the worker ends, one whose line is lost, and one that comes too
-- late.
use hath_rust.Prelude.{true, false, [], ◌∷◌, codes}
use hath_rust.Logger.{LoggerMessage, LogFile, LoggerWorker, info, warn}
use hath_rust.Logger.Channel.{Handled, handle, ended, Logging}

abbrev empty : LogFile
empty = record { current = []; old = []; lines = 0 }

abbrev worker : LoggerWorker
worker = record { log_out = empty; log_err = empty }

abbrev line : LoggerMessage
line = record { level = info; message = codes "x" }

abbrev late : LoggerMessage
late = record { level = warn; message = codes "y" }

abbrev first : Handled
first = record { write_info = true; lands = true; log = line }

-- The write of this line fails.
abbrev second : Handled
second = record { write_info = true; lands = false; log = late }

abbrev done : Logging
done = record {
  queue = [];
  is_closed = true;
  worker = handle second (handle first worker);
  buffered = 0;
  place = ended;
  sent = line ∷ late ∷ [];
  handled = first ∷ second ∷ [];
}
