-- ===== src/Sharing/Tests.antt =====
-- Runs of the tasks that share downloads.
use hath_rust.Prelude.{◌≡◌, refl, [], ◌∷◌, some, Bytes, bytes_eq}
use hath_rust.Prelude.Family.{update}
use hath_rust.Dict.{get, insert, remove}
use hath_rust.Sharing.{
  asking, leading, working, following, Downloads, lead, follow, start_worker, finish, return_, pick,
  Reach, start, later,
}
use hath_rust.Sharing.Owners.{IsAlive, Reach-IsOwned}

abbrev hash : Bytes
hash = 1 ∷ 2 ∷ []

-- A first request leads, and a second one follows it.
abbrev joined : Downloads
joined = record {
  entries = (hash, 0) ∷ [];
  phase = update (update (λ i. asking) 0 (leading hash)) 1 (following hash 0);
}

joined-reached : Reach joined
unfolding get insert bytes_eq
joined-reached = later (later start (pick 0 (lead hash refl))) (pick 1 (follow hash 0 refl))

found : get hash joined.entries ≡ some 0
unfolding get bytes_eq
found = refl

Reach-IsOwned_example : IsAlive hash (joined.phase 0)
Reach-IsOwned_example = Reach-IsOwned joined-reached hash 0 found

-- The worker of task 0 has removed its entry and imports the file when task 1 starts a download of
-- the same hash; it returns, which removes the entry of task 1, and task 2 starts a third one.
two_workers :
    (d : Downloads) × (Reach d × ((d.phase 1 ≡ working hash) × (d.phase 2 ≡ working hash)))
unfolding get insert remove bytes_eq
two_workers =
    let r1 =
      later (later (later start (pick 0 (lead hash refl))) (pick 0 (start_worker hash)))
        (pick 0 (finish hash)) in
    let r2 = later (later r1 (pick 1 (lead hash refl))) (pick 1 (start_worker hash)) in
    let r3 = later r2 (pick 0 (return_ hash)) in
    let r4 = later (later r3 (pick 2 (lead hash refl))) (pick 2 (start_worker hash)) in
    (_, (r4, (refl, refl)))
