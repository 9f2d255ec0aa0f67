-- ===== src/Logger/Channel.antt =====
-- The channel of src/logger.rs and the worker's loop over it: messages are sent from anywhere while
-- the worker takes them, flushes, and closes the channel when it is told to stop. Steps come in any
-- order, as `select!` takes its branches. The file `log_out` is buffered.
pub mod Drains
mod Tests
use hath_rust.Prelude.{
  ℕ, ◌+◌, ◌≤◌, ◌≡◌, Bool, true, false, not, ◌&&◌, List, [], ◌∷◌, ◌++◌, if◌then◌else◌,
}
use hath_rust.Logger.{
  Level, error, warn, info, debug, trace, LoggerMessage, LoggerWorker, is_error, receive,
  receive_lost,
}

-- `enabled`.
unfoldable pub enabled : Level → Bool
enabled error = true
enabled warn = true
enabled info = true
enabled debug = true
enabled trace = false

-- A message that the worker has dealt with: the setting `write_info` of that time, and whether its
-- line gets into the file, now or when the buffer does. The results of `write_all` and of the flush
-- are not looked at: a line whose write fails is counted and missing.
pub record Handled : Type 0 where
  pub write_info : Bool
  pub lands : Bool
  pub log : LoggerMessage

-- Where the worker stands: its files are not created yet; it takes messages; `log_err` could not be
-- created, and it has returned; or it has ended behind the last message.
pub data Place : Type 0 where
  starting running given_up ended : Place

-- The channel, the files, the lines that the buffer of `log_out` holds, and the place of the worker;
-- and, for the statements, the messages that the channel took and those that the worker has dealt
-- with.
pub record Logging : Type 0 where
  pub place : Place
  pub queue : List LoggerMessage
  pub is_closed : Bool
  pub worker : LoggerWorker
  pub buffered : ℕ
  pub sent : List LoggerMessage
  pub handled : List Handled

-- The lines in the buffer behind a message, by `write_info` and `flush` of the settings.
unfoldable pub buffer : Bool → Bool → LoggerMessage → ℕ → ℕ
buffer write_info flush log n =
    if not (is_error log.level) && write_info then (if flush then 0 else n + 1) else n

-- The worker behind a message: a line that is not written is counted all the same.
unfoldable pub handle : Handled → LoggerWorker → LoggerWorker
unfolding receive_lost
handle h w = if h.lands then receive h.write_info h.log w else receive_lost h.write_info h.log w

unfoldable pub log_message : LoggerMessage → Logging → Logging
unfolding enabled
log_message log s =
    if enabled log.level && not s.is_closed
    then record s { queue = s.queue ++ (log ∷ []); sent = s.sent ++ (log ∷ []) }
    else s

pub data Step (s : Logging) : Logging → Type 0 where
  -- The files are created.
  create : s.place ≡ starting → Step s (record s { place = running })
  -- `File::create(log_err)` fails: the worker returns, and the channel is closed with it.
  create_fails : s.place ≡ starting → Step s (record s { place = given_up; is_closed = true })
  -- `log` of any task.
  send : (log : LoggerMessage) → Step s (log_message log s)
  -- `recv` gives a message.
  take_one :
      (log : LoggerMessage) (queue : List LoggerMessage) (write_info lands flush flushes : Bool)
      → s.place ≡ running
      → s.queue ≡ log ∷ queue
      → Step s (record s {
        queue = queue;
        worker = handle (record { write_info = write_info; lands = lands; log = log }) s.worker;
        buffered = buffer write_info (flush && flushes) log s.buffered;
        handled = s.handled ++ (record { write_info = write_info; lands = lands; log = log } ∷ []);
      })
  -- `flush2.notified()`; a flush that fails is not looked at.
  flush : s.place ≡ running → (n : ℕ) → n ≤ s.buffered → Step s (record s { buffered = n })
  -- `shutdown2.notified()`.
  close : s.place ≡ running → Step s (record s { is_closed = true })
  -- `recv` gives none, and `shutdown` flushes the file.
  end :
      s.place ≡ running
      → s.queue ≡ []
      → s.is_closed ≡ true
      → (n : ℕ) → n ≤ s.buffered
      → Step s (record s { buffered = n; place = ended })

abbrev pub init : LoggerWorker → Logging
init worker = record {
  queue = [];
  is_closed = false;
  worker = worker;
  buffered = 0;
  place = starting;
  sent = [];
  handled = [];
}

pub data Reach (worker : LoggerWorker) : Logging → Type 0 where
  start : Reach worker (init worker)
  later : {s t : Logging} → Reach worker s → Step s t → Reach worker t
