-- ===== src/Follow/Grows.antt =====
-- What is handed to the temporary file only grows while the worker writes it, and covers what is
-- announced.
use hath_rust.Prelude.{
  ℕ, ◌+◌, ◌≤◌, ◌≡◌, refl, sym, ap, ◌∙◌, false, [], ◌++◌, Bytes, length, take, drop, leb, ==_iff,
  arith, length-append, take-append-drop, append_assoc, append-nil,
}
use hath_rust.Download.{Worker, write_at, fresh_part, store}
use hath_rust.Download.Integrity.{IsConsistent, write_at_end, store-file, store-IsConsistent}
use hath_rust.Download.Resume.{take-add}
use hath_rust.Follow.{
  Writer, running, writing, stopped, done, Work, try_again, skip, write, write_more, written,
  write_fails, give_up, finish,
}

-- What was handed to the temporary file, for each place of the worker.
abbrev pub IsOnDisk : ℕ → Worker → Bytes → Writer → Type 0
IsOnDisk file_size w disk (running seen) = (disk ≡ w.file) × (seen ≤ w.progress)
IsOnDisk file_size w disk (writing seen bytes n) =
    (disk ≡ w.file ++ take n (fresh_part seen bytes w))
    × ((leb seen w.progress ≡ false) × (seen ≤ w.progress + length bytes))
IsOnDisk file_size w disk stopped = w.progress ≤ length disk
IsOnDisk file_size w disk done = (disk ≡ w.file) × (w.progress ≡ file_size)

abbrev pub Extends : Bytes → Bytes → Type 0
Extends disk disk' = (more : Bytes) × (disk' ≡ disk ++ more)

pub record Works (file_size : ℕ) (w : Worker) (disk : Bytes) (p : Writer) : Type 0 where
  pub consistent : IsConsistent w
  pub on_disk : IsOnDisk file_size w disk p
  pub announced : w.announced ≤ w.progress

-- The worker goes on with the same file.
rests :
    {file_size : ℕ} {w : Worker} {disk : Bytes} {p p' : Writer}
    → Works file_size w disk p
    → IsOnDisk file_size w disk p'
    → Works file_size w disk p' × (Extends disk disk × (w.announced ≤ w.announced))
rests {w} {disk} k o = (
  record { consistent = k.consistent; on_disk = o; announced = k.announced },
  (([], sym (append-nil disk)), omega arith),
)

module _ (w : Worker) (c : IsConsistent w) (seen : ℕ) (bytes : Bytes) where
  writes : (part : Bytes) → write_at w.progress part w.file ≡ w.file ++ part
  writes part = ap (λ n. write_at n part w.file) (sym c.size) ∙ write_at_end w.file part

  module _ (more : leb seen w.progress ≡ false) (within : seen ≤ w.progress + length bytes) where
    stores :
        (n : ℕ)
        → (store seen bytes w).file
          ≡ (w.file ++ take n (fresh_part seen bytes w)) ++ drop n (fresh_part seen bytes w)
    stores n =
        store-file seen bytes w c more within
        ∙ ap (λ t. w.file ++ t) (sym (take-append-drop n (fresh_part seen bytes w)))
        ∙ sym (
            append_assoc w.file (take n (fresh_part seen bytes w))
              (drop n (fresh_part seen bytes w)))

    stored-progress :
        ((store seen bytes w).progress ≡ seen) × (((store seen bytes w).announced ≡ seen))
    unfolding store
    stored-progress = (ground arith, ground arith)

pub Work-Works :
    {file_size landed : ℕ} (w : Worker) {disk disk' : Bytes} {p p' : Writer} {w' : Worker}
    → Work file_size landed w disk p w' disk' p'
    → Works file_size w disk p
    → Works file_size w' disk' p' × (Extends disk disk' × (w.announced ≤ w'.announced))
Work-Works w try_again k = rests k (k.on_disk.0, omega arith)
Work-Works w (skip bytes le) k = rests k (k.on_disk.0, ground arith)
Work-Works w (write {disk} {seen} bytes n more) k =
    let e =
      writes w k.consistent (seen + length bytes) bytes
        (take n (fresh_part (seen + length bytes) bytes w)) in
    (
      record {
        consistent = k.consistent;
        on_disk = (e, (more, omega (arith, k.on_disk.1)));
        announced = k.announced;
      },
      (
        (
          take n (fresh_part (seen + length bytes) bytes w),
          e ∙ ap (λ t. t ++ take n (fresh_part (seen + length bytes) bytes w)) (sym k.on_disk.0),
        ),
        omega arith,
      ),
    )
Work-Works w (write_more {disk} {seen} {n} {bytes} more) k =
    let block = fresh_part seen bytes w in
    let (e, (new, within)) = k.on_disk in
    let read = writes w k.consistent seen bytes (take (n + more) block) in
    let added = take more (drop n block) in
    (
      record {
        consistent = k.consistent;
        on_disk = (read, (new, within));
        announced = k.announced;
      },
      (
        (
          added,
          read
              ∙ ap (λ t. w.file ++ t) (take-add n more block)
              ∙ sym (append_assoc w.file (take n block) added)
              ∙ ap (λ t. t ++ added) (sym e),
        ),
        omega arith,
      ),
    )
Work-Works w (written {disk} {seen} {n} {bytes}) k =
    let (e, (more, within)) = k.on_disk in
    let (p, a) = stored-progress w k.consistent seen bytes more within in
    (
      record {
        consistent = store-IsConsistent seen bytes w k.consistent more within;
        on_disk = (refl, omega (arith, p));
        announced = omega (arith, p, a);
      },
      (
        (
          drop n (fresh_part seen bytes w),
          stores w k.consistent seen bytes more within n
              ∙ ap (λ t. t ++ drop n (fresh_part seen bytes w)) (sym e),
        ),
        ground (arith, k.announced),
      ),
    )
Work-Works w (write_fails {disk} {seen} {n} {bytes}) k = rests k (
    omega (
      arith,
      ap length k.on_disk.0,
      length-append w.file (take n (fresh_part seen bytes w)),
      k.consistent.size,
    ))
Work-Works w give_up k = rests k (omega (arith, ap length k.on_disk.0, k.consistent.size))
Work-Works w (finish {disk} end flushed) k = (
  record {
    consistent = record { same = k.consistent.same; size = k.consistent.size };
    on_disk = (k.on_disk.0, (==_iff _ _).0 end);
    announced = omega arith;
  },
  (([], sym (append-nil disk)), k.announced),
)

pub progress-le :
    {file_size : ℕ} (w : Worker) (disk : Bytes) (p : Writer)
    → Works file_size w disk p
    → w.progress ≤ length disk
progress-le w disk (running seen) k = omega (arith, k.consistent.size, ap length k.on_disk.0)
progress-le w disk (writing seen bytes n) k = omega (
  arith,
  k.consistent.size,
  ap length k.on_disk.0,
  length-append w.file (take n (fresh_part seen bytes w)),
)
progress-le w disk stopped k = k.on_disk
progress-le w disk done k = omega (arith, k.consistent.size, ap length k.on_disk.0)
