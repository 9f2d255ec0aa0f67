-- ===== src/Follow.antt =====
-- The end of `hath` in src/route/cache.rs: the requests for a missing file read its temporary file
-- while the worker of Download writes it. They meet in the file and in the progress that the worker
-- announces, and run interleaved. A write that was reported as done may reach the disk later, behind
-- its announcement; that it never does is left out here, and stands in Download.
pub mod Grows
pub mod Prefixes
mod Tests
use hath_rust.Prelude.{
  ℕ, ◌+◌, ◌-◌, ◌≤◌, ◌<◌, ◌≡◌, Bool, true, false, [], ◌++◌, Bytes, length, take, drop, leb, ◌==◌,
  if◌then◌else◌,
}
use hath_rust.Prelude.Family.{update}
use hath_rust.Download.{Worker, start, write_at, fresh_part, store}

-- Where the worker stands: in a stream of which it has seen so many bytes; in the `write_all` of a
-- block, of which so many bytes were handed to the file; behind an error; or behind its last byte.
pub data Writer : Type 0 where
  running : ℕ → Writer
  writing : ℕ → Bytes → ℕ → Writer
  stopped done : Writer

-- Where a request stands: it waits for a first byte, reads, has sent the whole file, or has ended
-- early.
pub data Place : Type 0 where
  waiting reading complete over : Place

pub record Client : Type 0 where
  pub place : Place
  pub read_off : ℕ
  pub write_off : ℕ
  pub sent : Bytes

-- `handed` is what the worker has handed to the temporary file, and `landed` how many bytes of it are
-- on the disk: the file is written in the background.
pub record Stream : Type 0 where
  pub worker : Worker
  pub writer : Writer
  pub handed : Bytes
  pub landed : ℕ
  pub clients : ℕ → Client

-- What the worker does next, and what it has handed to the file then.
pub data Work (file_size landed : ℕ) (w : Worker)
    : Bytes → Writer → Worker → Bytes → Writer → Type 0 where
  -- Another try, whose stream begins at the first byte.
  try_again :
      {disk : Bytes} {seen : ℕ} → Work file_size landed w disk (running seen) w disk (running 0)
  -- A block that the file has already.
  skip :
      {disk : Bytes} {seen : ℕ} (bytes : Bytes)
      → leb (seen + length bytes) w.progress ≡ true
      → Work file_size landed w disk (running seen) w disk (running (seen + length bytes))
  -- The first `n` bytes of a new block are handed to the file.
  write :
      {disk : Bytes} {seen : ℕ} (bytes : Bytes) (n : ℕ)
      → leb (seen + length bytes) w.progress ≡ false
      → Work file_size landed w disk
          (running seen)
          w
          (write_at w.progress (take n (fresh_part (seen + length bytes) bytes w)) w.file)
          (writing (seen + length bytes) bytes n)
  -- Some more of the block is.
  write_more :
      {disk : Bytes} {seen n : ℕ} {bytes : Bytes} (more : ℕ)
      → Work file_size landed w disk
          (writing seen bytes n)
          w
          (write_at w.progress (take (n + more) (fresh_part seen bytes w)) w.file)
          (writing seen bytes (n + more))
  -- All of the block is handed over, and the progress is announced: the bytes need not be on the
  -- disk yet.
  written :
      {disk : Bytes} {seen n : ℕ} {bytes : Bytes}
      → Work file_size landed w disk
          (writing seen bytes n)
          (store seen bytes w)
          (store seen bytes w).file
          (running seen)
  -- The write fails, and the part of the block stays.
  write_fails :
      {disk : Bytes} {seen n : ℕ} {bytes : Bytes}
      → Work file_size landed w disk (writing seen bytes n) w disk stopped
  -- The tries are used up, or the flush fails.
  give_up : {disk : Bytes} {seen : ℕ} → Work file_size landed w disk (running seen) w disk stopped
  -- The stream ends with the last byte of the file, and the flush waits for what is not on the disk.
  finish :
      {disk : Bytes} {seen : ℕ}
      → (w.progress == file_size) ≡ true
      → length disk ≤ landed
      → Work file_size landed w disk (running seen) (record w { announced = w.progress }) disk done

-- What a read of the next `s` bytes of the file makes of a client.
unfoldable pub read_next : ℕ → Bytes → ℕ → Client → Client
read_next file_size disk s c =
    let read_off = c.read_off + s in
    record c {
      place = if read_off == file_size then complete else reading;
      read_off = read_off;
      sent = c.sent ++ take s (drop c.read_off disk);
    }

-- What a request does next, where `disk` is what it finds in the file. A read of no bytes is tried
-- again, and changes nothing.
pub data Reading (file_size announced : ℕ) (disk : Bytes) (c : Client) : Client → Type 0 where
  -- The body is streamed. The code waits for an announcement first; here it may be at any time.
  open_file :
      c.place ≡ waiting
      → Reading file_size announced disk c (record c { place = reading; write_off = announced })
  -- The worker is gone before it has announced anything, and the answer is 404.
  not_found : c.place ≡ waiting → Reading file_size announced disk c (record c { place = over })
  -- The head of the outer loop: there is more to read, or the progress has changed.
  observe :
      c.place ≡ reading → Reading file_size announced disk c (record c { write_off = announced })
  read :
      (s : ℕ)
      → c.place ≡ reading
      → c.read_off < c.write_off
      → 0 < s
      → s ≤ length (drop c.read_off disk)
      → Reading file_size announced disk c (read_next file_size disk s c)
  -- An error of the file ends the body.
  read_fails : c.place ≡ reading → Reading file_size announced disk c (record c { place = over })
  -- No progress within 30 seconds, or never again.
  time_out :
      c.place ≡ reading
      → c.write_off ≤ c.read_off
      → Reading file_size announced disk c (record c { place = over })

pub data Step (file_size : ℕ) (s : Stream) : Stream → Type 0 where
  by_worker :
      {w : Worker} {disk : Bytes} {p : Writer}
      → Work file_size s.landed s.worker s.handed s.writer w disk p
      → Step file_size s (record s { worker = w; writer = p; handed = disk })
  -- Some more of what was handed to the file reaches the disk, at any time.
  by_disk :
      (n : ℕ)
      → s.landed + n ≤ length s.handed
      → Step file_size s (record s { landed = s.landed + n })
  by_client :
      (i : ℕ) {c : Client}
      → Reading file_size s.worker.announced (take s.landed s.handed) (s.clients i) c
      → Step file_size s (record s { clients = update s.clients i c })

abbrev pub idle : Client
idle = record { place = waiting; read_off = 0; write_off = 0; sent = [] }

unfoldable pub init : Bool → Stream
unfolding start
init has_proxy = record {
  worker = start has_proxy;
  writer = running 0;
  handed = [];
  landed = 0;
  clients = λ i. idle;
}

pub data Reach (file_size : ℕ) (has_proxy : Bool) : Stream → Type 0 where
  begin : Reach file_size has_proxy (init has_proxy)
  later :
      {s t : Stream}
      → Reach file_size has_proxy s
      → Step file_size s t
      → Reach file_size has_proxy t
