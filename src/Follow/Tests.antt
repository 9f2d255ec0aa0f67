-- ===== src/Follow/Tests.antt =====
-- A file of two bytes, and a request that reads it: what it is at each end of the request's read.
use hath_rust.Prelude.{◌<◌, ◌≡◌, refl, arith, false, [], ◌∷◌, Bytes, length, take, drop}
use hath_rust.Prelude.Family.{update}
use hath_rust.Download.{Worker, start, write_at, fresh_part, store}
use hath_rust.Follow.{
  running, done, reading, complete, Client, Stream, write, written, finish, read_next, open_file,
  read, by_worker, by_client, by_disk, idle, init, Reach, begin, later,
}
use hath_rust.Follow.Prefixes.{Reach-sent, reads_on}

abbrev two : Bytes
two = 5 ∷ 6 ∷ []

abbrev fetched : Worker
fetched = record { file = two; progress = 2; hashed = two; use_proxy = false; announced = 2 }

abbrev opened : Client
opened = record { place = reading; read_off = 0; write_off = 2; sent = [] }

abbrev served : Client
served = record { place = complete; read_off = 2; write_off = 2; sent = two }

abbrev before : Stream
before = record {
  worker = fetched;
  writer = running 2;
  handed = two;
  landed = 2;
  clients = update (λ i. idle) 0 opened;
}

before-reached : Reach 2 false before
unfolding init start store fresh_part write_at
before-reached =
    let r1 : Reach 2 false _ = later begin (by_worker (write two 1 refl)) in
    let r2 : Reach 2 false _ = later r1 (by_worker written) in
    let r3 : Reach 2 false _ = later r2 (by_disk 2 (omega arith)) in
    later r3 (by_client 0 (open_file refl))

abbrev behind : Stream
behind = record {
  worker = fetched;
  writer = done;
  handed = two;
  landed = 2;
  clients = update (update (λ i. idle) 0 opened) 0 served;
}

behind-reached : Reach 2 false behind
unfolding read_next
behind-reached =
    let all : 0 < 2 = omega arith in
    let r : Reach 2 false _ =
      later before-reached (by_client 0 (read 2 refl all all (omega arith))) in
    later r (by_worker (finish refl (omega arith)))

Reach-sent_example : two ≡ take (length two) two
Reach-sent_example = Reach-sent 0 behind-reached

reads_on_example : 0 < length (drop 0 two)
reads_on_example = reads_on 0 before-reached (omega arith) (omega arith)
