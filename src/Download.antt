-- ===== src/Download.antt =====
-- The download worker of `hath` in src/route/cache.rs: a file that is not cached is fetched from its
-- sources into a temporary file, in three tries, each of which goes on where the last one stopped.
-- What the network and the file system do is an argument, one `Attempt` for each try.
pub mod Integrity
pub mod Resume
pub mod Completes
mod Tests
use hath_rust.Prelude.{
  ℕ, zero, suc, ◌+◌, ◌-◌, Bool, true, false, not, ◌&&◌, ◌||◌, List, [], ◌∷◌, ◌++◌, Option, none,
  some, Bytes, bytes_eq, length, take, drop, leb, ◌==◌, if◌then◌else◌,
}

-- How the write of a block ends. A file of tokio writes in the background: `write_all` may report a
-- block as written of which only the first bytes reach the file (`lost`); the error is told by the
-- next write or flush of the same open file, if there is one. `fails` is a `write_all` that fails
-- itself, behind so many bytes.
pub data Write : Type 0 where
  wrote : Write
  lost fails : ℕ → Write

-- One item of the response's stream: bytes, with how writing them to the file ends, or an error.
pub data Event : Type 0 where
  received : Bytes → Write → Event
  broken : Event

-- How a source answers: an error (the flag: one of connection), or a stream, with the success of
-- the flush behind it.
pub data Answer : Type 0 where
  refused : Bool → Answer
  streamed : List Event → Bool → Answer

pub record Attempt : Type 0 where
  pub opened : Bool
  pub sought : Bool
  pub answer : Answer

-- The worker's variables, the temporary file, and the last progress that was announced.
pub record Worker : Type 0 where
  pub file : Bytes
  pub progress : ℕ
  pub hashed : Bytes
  pub use_proxy : Bool
  pub announced : ℕ

unfoldable pub start : Bool → Worker
start has_proxy = record {
  file = [];
  progress = 0;
  hashed = [];
  use_proxy = has_proxy;
  announced = 0;
}

-- Zeros that make bytes as long as stated: a file has them where nothing was written.
unfoldable pub fill : ℕ → Bytes → Bytes
fill zero bytes = bytes
fill (suc n) [] = 0 ∷ fill n []
fill (suc n) (b ∷ bytes) = b ∷ fill n bytes

-- A write at a position of the file, which may lie behind its end.
unfoldable pub write_at : ℕ → Bytes → Bytes → Bytes
unfolding fill
write_at pos data_ file = take pos (fill pos file) ++ (data_ ++ drop (pos + length data_) file)

-- `stream_unheard` is an end at which the file has an error that was not told yet.
pub data StreamEnd : Type 0 where
  stream_ended stream_unheard stream_broken write_failed : StreamEnd

-- The bytes of an item that the file does not have yet, and the worker that has them.
unfoldable pub fresh_part : ℕ → Bytes → Worker → Bytes
fresh_part download bytes s = drop (length bytes - (download - s.progress)) bytes

unfoldable pub store : ℕ → Bytes → Worker → Worker
unfolding fresh_part write_at
store download bytes s =
    let data_ = fresh_part download bytes s in
    let progress = s.progress + (download - s.progress) in
    record s {
      file = write_at s.progress data_ s.file;
      hashed = s.hashed ++ data_;
      progress = progress;
      announced = progress;
    }

-- A block that is reported as written, and of which `n` bytes reach the file.
unfoldable pub store_lost : ℕ → ℕ → Bytes → Worker → Worker
unfolding store
store_lost n download bytes s = record (store download bytes s) {
  file = write_at s.progress (take n (fresh_part download bytes s)) s.file;
}

-- The loop behind such a block: the next write has the error.
unfoldable pub receive_unheard : List Event → ℕ → Worker → StreamEnd × Worker
receive_unheard [] download s = (stream_unheard, s)
receive_unheard (broken ∷ es) download s = (stream_broken, s)
receive_unheard (received bytes outcome ∷ es) download s =
    let seen = download + length bytes in
    let skip = receive_unheard es seen s in if leb seen s.progress then skip else (write_failed, s)

-- The loop over the stream; `download` bytes of it have been seen.
unfoldable pub receive : List Event → ℕ → Worker → StreamEnd × Worker
receive [] download s = (stream_ended, s)
receive (broken ∷ es) download s = (stream_broken, s)
receive (received bytes outcome ∷ es) download s =
    let seen = download + length bytes in
    let skip = receive es seen s in
    let keep = receive es seen (store seen bytes s) in
    let cut = λ (n : ℕ). record s {
      file = write_at s.progress (take n (fresh_part seen bytes s)) s.file;
    } in
    if leb seen s.progress then skip else elim outcome [
      | wrote ↦ keep
      | lost n ↦ receive_unheard es seen (store_lost n seen bytes s)
      | fails n ↦ (write_failed, cut n)
    ]

-- What the worker does behind a try: the next one, or the end.
pub data Next : Type 0 where
  retry stop finished : Next

-- The end of a stream. The flush has an error that was not told yet; a new try drops the file, and
-- the error with it.
unfoldable pub after_stream : ℕ → Bool → StreamEnd × Worker → Next × Worker
after_stream file_size flushed (stream_broken, s) = (retry, s)
after_stream file_size flushed (write_failed, s) = (stop, s)
after_stream file_size flushed (stream_unheard, s) =
    if s.progress == file_size then (stop, s) else (retry, s)
after_stream file_size flushed (stream_ended, s) =
    if s.progress == file_size
    then (if flushed then (finished, record s { announced = s.progress }) else (stop, s))
    else (retry, s)

-- One try; `sources.next().unwrap()` panics, which ends the task, if there are no sources.
unfoldable pub try : ℕ → Bool → ℕ → Attempt → Worker → Next × Worker
unfolding after_stream receive
try file_size has_source round a s =
    if not a.opened || not a.sought
    then (retry, s)
    else if not has_source
    then (stop, s)
    else elim a.answer [
      | refused is_connect ↦ (
        retry,
        if s.use_proxy && (is_connect || round == 1) then record s { use_proxy = false } else s,
      )
      | streamed events flushed ↦ after_stream file_size flushed (receive events 0 s)
    ]

-- The tries that are left, from the given round on: the final worker, and whether it has the file.
unfoldable pub tries : ℕ → Bool → ℕ → List Attempt → Worker → Bool × Worker
tries file_size has_source round [] s = (false, s)
tries file_size has_source round (a ∷ later) s =
    let (next, s') = try file_size has_source round a s in
    let again = tries file_size has_source (round + 1) later s' in
    elim next [ retry ↦ again | stop ↦ (false, s') | finished ↦ (true, s') ]

-- The worker, on its three tries: the file to import, if it is complete and has the right hash.
unfoldable pub download :
    (Bytes → Bytes) → ℕ → Bytes → Bool → Bool → Attempt × Attempt × Attempt → Option Bytes
unfolding start tries
download sha1 file_size hash has_source has_proxy (a, b, c) =
    let (complete, s) = tries file_size has_source 0 (a ∷ b ∷ c ∷ []) (start has_proxy) in
    if complete && bytes_eq (sha1 s.hashed) hash then some s.file else none
