-- ===== src/Scan/Restart/Tests.antt =====
-- The state of one range, saved and found again.
use hath_rust.Prelude.Int.{pos}
use hath_rust.Prelude.{◌≡◌, refl, true, false, [], ◌∷◌, none, codes, if◌then◌else◌}
use hath_rust.Samples.{one_state}
use hath_rust.Dict.{Dict, get}
use hath_rust.CacheStore.{CacheState}
use hath_rust.CacheStore.Saved.{SaveCalls, save_state, read_state}
use hath_rust.Scan.Cache.{contains, first_states}
use hath_rust.Scan.Restart.{save_state-first_states}

abbrev states : Dict CacheState
states = (codes "0102", record { file_count = 3; size = 4096; oldest = pos 5 }) ∷ []

abbrev works : SaveCalls
works = record { creates = true; breaks_off = none }

save_state-first_states_example :
    get (codes "0102") (
      first_states
        (codes "0102" ∷ [])
        false
        (read_state one_state true (save_state one_state works states none)))
    ≡ (if contains (codes "0102") (codes "0102" ∷ []) then get (codes "0102") states else none)
save_state-first_states_example =
    save_state-first_states one_state states (3 ∷ 4096 ∷ 5 ∷ 0 ∷ codes "0102") none
      (codes "0102" ∷ []) (codes "0102") refl
