-- ===== src/Scan/Overlap/Tests.antt =====
-- Two files that are listed and then removed, when the import of a third one has made a new state:
-- the count of the range, which has one file, wraps around.
use hath_rust.Prelude.{ℕ, ◌-◌, ◌^◌, ◌≡◌, refl, Bool, true, ltb}
use hath_rust.Prelude.Family.{update, sum_over}
use hath_rust.Scan.Overlap.{
  placed, counted, absent, unlisted, pending, File, file, Range, forget, list_file, listed, init,
}
use hath_rust.Scan.Overlap.Counts.{on_disk}

abbrev there : ℕ → Bool
there i = ltb i 2

abbrev listing : ℕ → File
listing i = list_file (forget ((init there 7).files i))

abbrev imported : ℕ → File
imported = update (update listing 2 (file placed unlisted 0 0)) 2 (file counted unlisted 1 0)

abbrev cut : ℕ → File
cut = update (update imported 0 (file absent pending 0 1)) 1 (file absent pending 0 1)

abbrev done : Range
done = record {
  stage = listed;
  files = update (update cut 0 (file absent unlisted 0 1)) 1 (file absent unlisted 0 1);
  count = 2 ^ 64 - 1;
  known = true;
}

one_file : sum_over on_disk 3 done.files ≡ 1
unfolding list_file forget
one_file = refl
