-- ===== src/Logger/Channel/Drains.antt =====
-- The worker deals with the messages that the channel took, in their order, and with all of them
-- before it ends.
use hath_rust.Prelude.{◌≡◌, Bool, true, List, [], ◌∷◌, ◌++◌}
use hath_rust.Logger.{LoggerMessage, LoggerWorker}
use hath_rust.Logger.Channel.{Handled, handle, Place, starting, running, given_up, ended, Logging}

-- The worker behind some messages.
abbrev pub handle_all : List Handled → LoggerWorker → LoggerWorker
handle_all [] w = w
handle_all (h ∷ hs) w = handle_all hs (handle h w)

abbrev pub messages : List Handled → List LoggerMessage
messages [] = []
messages (h ∷ hs) = h.log ∷ messages hs

-- What holds at a place of the worker.
abbrev IsPlaced : Place → Bool → List LoggerMessage → List Handled → Type 0
IsPlaced starting closed queue handled = handled ≡ []
IsPlaced running closed queue handled = Unit
IsPlaced given_up closed queue handled = (closed ≡ true) × (handled ≡ [])
IsPlaced ended closed queue handled = (closed ≡ true) × (queue ≡ [])

-- At any time the messages that the channel took are those that the worker has dealt with, in that
-- order, and behind them those in the queue; and when the worker has ended, the queue is empty.
pub record IsKept (worker : LoggerWorker) (s : Logging) : Type 0 where
  pub order : s.sent ≡ messages s.handled ++ s.queue
  pub files : s.worker ≡ handle_all s.handled worker
  pub placed : IsPlaced s.place s.is_closed s.queue s.handled
