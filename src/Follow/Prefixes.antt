-- ===== src/Follow/Prefixes.antt =====
-- What the requests send is the file, from its first byte on.
use hath_rust.Prelude.{
  ℕ, ◌+◌, ◌≤◌, ◌<◌, ◌≡◌, refl, sym, ap, ◌∙◌, Bool, true, false, ◌++◌, Bytes, length, take, drop,
  ◌==◌, ==_iff, if◌then◌else◌, arith, Bool-cases, inl, inr, length-append, length-take, length-drop,
  take-append-drop, take-append_le, ◌≢◌, take_all,
}
use hath_rust.Prelude.Family.{update}
use hath_rust.Download.{start}
use hath_rust.Download.Resume.{take-add}
use hath_rust.Follow.{
  Place, reading, complete, Client, Stream, read_next, Reading, open_file, not_found, observe, read,
  read_fails, time_out, Step, by_worker, by_client, by_disk, init, Reach, begin, later,
}
use hath_rust.Follow.Grows.{Extends, Works, Work-Works, progress-le}

-- A client has sent what stands before its place in the file, and was told of no byte beyond it.
record Shows (file_size announced : ℕ) (disk : Bytes) (c : Client) : Type 0 where
  first : c.sent ≡ take c.read_off disk
  within : c.read_off ≤ length disk
  told : c.write_off ≤ announced
  whole : c.place ≡ complete → c.read_off ≡ file_size

Shows-grows :
    {file_size announced announced' : ℕ} {disk disk' : Bytes} {c : Client}
    → Shows file_size announced disk c
    → Extends disk disk'
    → announced ≤ announced'
    → Shows file_size announced' disk' c
Shows-grows {disk} {c} h (more, e) le = record {
  first = h.first ∙ sym (ap (take c.read_off) e ∙ take-append_le c.read_off disk more h.within);
  within = omega (arith, h.within, ap length e, length-append disk more);
  told = omega (arith, h.told);
  whole = h.whole;
}

-- The client stays where it is in the file.
keeps :
    {file_size announced : ℕ} {disk : Bytes} {c : Client} {p : Place}
    → Shows file_size announced disk c
    → p ≢ complete
    → Shows file_size announced disk (record c { place = p })
keeps h n = record { first = h.first; within = h.within; told = h.told; whole = λ e. absurd (n e) }

learns :
    {file_size announced : ℕ} {disk : Bytes} {c : Client}
    → Shows file_size announced disk c
    → Shows file_size announced disk (record c { write_off = announced })
learns h = record { first = h.first; within = h.within; told = omega arith; whole = h.whole }

length-take-le : (n : ℕ) (xs : Bytes) → length (take n xs) ≤ length xs
length-take-le n xs =
    omega (arith, ap length (take-append-drop n xs), length-append (take n xs) (drop n xs))

take-take : (k n : ℕ) (xs : Bytes) → k ≤ length (take n xs) → take k (take n xs) ≡ take k xs
take-take k n xs le =
    sym (take-append_le k (take n xs) (drop n xs) le) ∙ ap (take k) (take-append-drop n xs)

complete_if : (b : Bool) → (if b then complete else reading) ≡ complete → b ≡ true
complete_if true e = refl
complete_if false e = absurd cc

Reading-Shows :
    {file_size announced : ℕ} {disk : Bytes} {c c' : Client} (landed : ℕ)
    → Shows file_size announced disk c
    → Reading file_size announced (take landed disk) c c'
    → Shows file_size announced disk c'
unfolding read_next
Reading-Shows landed h (open_file e) = keeps (learns h) (λ x. cc)
Reading-Shows landed h (not_found e) = keeps h (λ x. cc)
Reading-Shows landed h (observe e) = learns h
Reading-Shows {file_size} {disk} {c} landed h (read s e behind some_ le) = record {
  first =
      ap (λ t. t ++ take s (drop c.read_off (take landed disk)))
        (h.first ∙ sym (take-take c.read_off landed disk (omega (arith, ends))))
      ∙ sym (take-add c.read_off s (take landed disk))
      ∙ take-take (c.read_off + s) landed disk ends;
  within = omega (arith, ends, length-take-le landed disk);
  told = h.told;
  whole = λ x. (==_iff _ _).0 (complete_if (c.read_off + s == file_size) x);
}
  where
    ends : c.read_off + s ≤ length (take landed disk)
    ends = omega (arith, some_, le, length-drop c.read_off (take landed disk))
Reading-Shows landed h (read_fails e) = keeps h (λ x. cc)
Reading-Shows landed h (time_out e le) = keeps h (λ x. cc)

record Holds (file_size : ℕ) (s : Stream) : Type 0 where
  works : Works file_size s.worker s.handed s.writer
  shows : (i : ℕ) → Shows file_size s.worker.announced s.handed (s.clients i)

Step-Holds :
    {file_size : ℕ} {s t : Stream} → Holds file_size s → Step file_size s t → Holds file_size t
Step-Holds {s} h (by_worker mv) =
    let (k, (grown, le)) = Work-Works s.worker mv h.works in
    record { works = k; shows = λ i. Shows-grows (h.shows i) grown le }
Step-Holds {s} h (by_disk n le) = record { works = h.works; shows = h.shows }
Step-Holds {file_size} {s} h (by_client i {c} mv) = record { works = h.works; shows = one }
  where
    one : (j : ℕ) → Shows file_size s.worker.announced s.handed (update s.clients i c j)
    one j = elim (Bool-cases (j == i)) [
      | inl q ↦ rw q (Reading-Shows s.landed (h.shows i) mv)
      | inr q ↦ rw q (h.shows j)
    ]

Reach-Holds :
    {file_size : ℕ} {has_proxy : Bool} {s : Stream}
    → Reach file_size has_proxy s
    → Holds file_size s
unfolding init start
Reach-Holds begin = record {
  works = record {
    consistent = record { same = refl; size = refl };
    on_disk = (refl, omega arith);
    announced = omega arith;
  };
  shows = λ i. record {
    first = refl;
    within = omega arith;
    told = omega arith;
    whole = λ e. absurd cc;
  };
}
Reach-Holds (later r step) = Step-Holds (Reach-Holds r) step

-- However the requests and the worker take turns, and whatever goes wrong, what a request has sent
-- are the first bytes of what is handed to the temporary file by now: nothing that was sent is
-- written again.
pub Reach-sent :
    {file_size : ℕ} {has_proxy : Bool} {s : Stream} (i : ℕ)
    → Reach file_size has_proxy s
    → (s.clients i).sent ≡ take (length (s.clients i).sent) s.handed
Reach-sent {s} i r =
    let h = (Reach-Holds r).shows i in
    let e : length (s.clients i).sent ≡ (s.clients i).read_off =
      omega (arith, ap length h.first, length-take (s.clients i).read_off s.handed, h.within) in
    h.first ∙ ap (λ n. take n s.handed) (sym e)

-- A request that was told of bytes it has not read finds some in the file as soon as all that was
-- handed to the file is on the disk: then the loop that reads again where nothing comes goes on.
pub reads_on :
    {file_size : ℕ} {has_proxy : Bool} {s : Stream} (i : ℕ)
    → Reach file_size has_proxy s
    → (s.clients i).read_off < (s.clients i).write_off
    → length s.handed ≤ s.landed
    → 0 < length (drop (s.clients i).read_off (take s.landed s.handed))
reads_on {s} i r behind all =
    let k = (Reach-Holds r).works in
    let h = (Reach-Holds r).shows i in
    let e : take s.landed s.handed ≡ s.handed = take_all s.landed s.handed all in
    rw e (
      omega (
        arith,
        length-drop (s.clients i).read_off s.handed,
        h.told,
        k.announced,
        progress-le s.worker s.handed s.writer k,
      ))
