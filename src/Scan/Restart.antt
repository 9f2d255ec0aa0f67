-- ===== src/Scan/Restart.antt =====
-- What a start finds of the states that the last run saved (src/cache_manager.rs).
mod Tests
use hath_rust.Prelude.{
  ℕ, ◌≡◌, refl, sym, ap, ◌∙◌, Bool, true, false, List, [], ◌∷◌, Option, none, some, Bytes, bytes_eq,
  bytes_eq_iff, bytes_eq_refl, if◌then◌else◌, if_cases, Bool-cases, inl, inr, arith, ◌>>=◌, is_some,
}
use mathlib.Core.Path.{subst}
use hath_rust.Dict.{Dict, get, insert, get-insert}
use hath_rust.CacheStore.{CacheState}
use hath_rust.CacheStore.Saved.{IsMap, Codec, SaveCalls, save_state, read_state}
use hath_rust.Scan.Cache.{contains, load, first_states}

-- The state of a range among the saved ones, if the range is wanted, and else the one before.
abbrev loaded : List Bytes → Dict CacheState → Dict CacheState → Bytes → Option CacheState
loaded ranges saved states k =
    if contains k ranges
    then elim (get k saved) [ none ↦ get k states | some s ↦ some s ]
    else get k states

load-get :
    (ranges : List Bytes) (saved states : Dict CacheState) (k : Bytes)
    → IsMap saved
    → get k (load ranges saved states) ≡ loaded ranges saved states k
unfolding load get
load-get ranges [] states k m = ground arith
load-get ranges ((sr, state) ∷ saved) states k m =
    let next : Dict CacheState = if contains sr ranges then insert sr state states else states in
    let load_rest = load-get ranges saved next k m.1 in
    elim (Bool-cases (bytes_eq sr k)) [
      | inl q ↦
          let same : sr ≡ k = (bytes_eq_iff sr k).0 q in
          let once : get k saved ≡ none = ap (λ j. get j saved) (sym same) ∙ m.0 in
          let alike : contains sr ranges ≡ contains k ranges = ap (λ j. contains j ranges) same in
          load_rest ∙ ground (arith, get-insert sr k state states)
      | inr q ↦ load_rest ∙ ground (arith, get-insert sr k state states)
    ]

-- A restart: where the states were encoded and written, the file can be read, and the cache is not
-- to be verified, each static range that the client still has begins with the state that it had,
-- and no other range has one.
pub save_state-first_states :
    (codec : Codec) (states : Dict CacheState) (buf : Bytes) (file : Option Bytes)
    (ranges : List Bytes) (k : Bytes)
    → codec.to_vec states ≡ some buf
    → let calls : SaveCalls = record { creates = true; breaks_off = none } in
      get k (first_states ranges false (read_state codec true (save_state codec calls states file)))
      ≡ (if contains k ranges then get k states else none)
unfolding save_state read_state first_states get
save_state-first_states codec states buf file ranges k e =
    let (read, decoded, once, same) = codec.to_vec-from_slice states buf e in
    rw (e, decoded) (load-get ranges read [] k once ∙ rw (same k) (ground arith))
