-- ===== src/Scan/Refuses.antt =====
-- When the program refuses to start with the cache that the scan has found.
use hath_rust.Prelude.{
  ℕ, ◌+◌, ◌≤◌, ◌<◌, ◌≡◌, ◌≢◌, ◌↔◌, ◌⊎◌, inl, inr, refl, sym, ap, ◌∙◌, Bool, true, false, ◌&&◌, List,
  [], ◌∷◌, none, Bytes, length, ltb, ◌==◌, ==_iff, ltb→lt, lt→ltb, arith, All, Option,
  if◌then◌else◌,
}
use hath_rust.Dict.{Dict}
use hath_rust.Crypto.{Crypto}
use hath_rust.CacheStore.{CacheState}
use hath_rust.Scan.{Scanned, RangeDir, scan_dir, scan_dirs, scan_dir-cases}
use hath_rust.Scan.Walk.{Root, walk}
use hath_rust.Scan.Cache.{
  ScanResult, scanned, io_error, cache_is_empty, conclude, scan_cache, Ended, run_scan,
  in_foreground, first_states, new_manager,
}

-- A directory whose entries are counted can be read again a moment later.
abbrev pub IsSteady : RangeDir → Type 0
IsSteady d = d.files ≡ none → d.listed ≡ none

-- A directory that cannot be read.
abbrev pub IsUnread : RangeDir → Type 0
IsUnread d = d.listed ≡ none

module _ (c : Crypto) (verify_cache : Bool) where
  scan_dir-counter :
      (d : RangeDir) (counter : ℕ) (s : Scanned)
      → IsSteady d
      → (((scan_dir c verify_cache d counter s).0 ≡ counter) × IsUnread d)
        ⊎ (((scan_dir c verify_cache d counter s).0 ≡ counter + 1) × (¬ (IsUnread d)))
  scan_dir-counter d counter (states, gone) steady =
      scan_dir-cases c verify_cache
        (λ r. ((r.0 ≡ counter) × IsUnread d) ⊎ ((r.0 ≡ counter + 1) × (¬ (IsUnread d)))) d counter
        states gone (λ q. inl (refl, q)) (λ n q e. inr (refl, λ u. cc (q, u)))
        (λ n q e f. absurd (cc (q, steady f))) (λ n es q e f. inr (refl, λ u. cc (q, u)))

  scan_dirs-counter :
      (ds : List RangeDir) (counter : ℕ) (s : Scanned)
      → All IsSteady ds
      → (counter ≤ (scan_dirs c verify_cache ds counter s).0)
        × (((scan_dirs c verify_cache ds counter s).0 ≡ counter) ↔ All IsUnread ds)
  unfolding scan_dirs
  scan_dirs-counter [] counter s steady = (omega arith, (λ e. tt, λ a. refl))
  scan_dirs-counter (d ∷ ds) counter s steady =
      let (counter', s') = scan_dir c verify_cache d counter s in
      let (le, same) = scan_dirs-counter ds counter' s' steady.1 in
      elim (scan_dir-counter d counter s steady.0) [
        | inl u ↦
            (omega (arith, u.0, le), (λ e. (u.1, same.0 (e ∙ sym u.0)), λ a. same.1 a.1 ∙ u.0))
        | inr u ↦ (
          omega (arith, u.0, le),
          (λ e. absurd (omega (arith, u.0, le, e)), λ a. absurd (u.1 a.0)),
        )
      ]

empty_if :
    (a b : Bool)
    → ((if a && b then cache_is_empty else scanned) ≡ cache_is_empty) ↔ ((a ≡ true) × (b ≡ true))
empty_if true true = (λ e. (refl, refl), λ h. refl)
empty_if true false = (λ e. absurd cc, λ h. absurd cc)
empty_if false b = (λ e. absurd cc, λ h. absurd cc)

unless_error :
    (ok : Bool) (r : ScanResult)
    → ((if ok then r else io_error) ≡ cache_is_empty) ↔ ((ok ≡ true) × (r ≡ cache_is_empty))
unless_error true r = (λ e. (refl, e), λ h. h.1)
unless_error false r = (λ e. absurd cc, λ h. absurd cc)

conclude-empty :
    (ranges : List Bytes) (counter : ℕ)
    → (conclude ranges counter ≡ cache_is_empty) ↔ ((20 < length ranges) × (counter ≡ 0))
unfolding conclude
conclude-empty ranges counter =
    let both = empty_if (counter == 0) (ltb 20 (length ranges)) in
    (
      λ e. (ltb→lt 20 (length ranges) (both.0 e).1, (==_iff counter 0).0 (both.0 e).0),
      λ h. both.1 ((==_iff counter 0).1 h.1, lt→ltb 20 (length ranges) h.0),
    )

-- Where a directory that can be read once can be read twice, a scan ends with the error of an empty
-- cache exactly if the cache directory was walked to its end, the client has more than 20 static
-- ranges, and of their directories none can be read, or none is there: an empty directory that can
-- be read is enough to go on.
pub scan_cache-empty :
    (c : Crypto) (verify_cache : Bool) (ranges : List Bytes) (root : Root)
    (states : Dict CacheState)
    → All IsSteady (walk ranges root).dirs
    → ((scan_cache c verify_cache ranges root states).result ≡ cache_is_empty) ↔ (
        ((walk ranges root).ok ≡ true)
        × ((20 < length ranges) × All IsUnread (walk ranges root).dirs))
unfolding scan_cache
scan_cache-empty c verify_cache ranges root states steady =
    let dirs = (walk ranges root).dirs in
    let counter = (scan_dirs c verify_cache dirs 0 (states, [])).0 in
    let outer = unless_error (walk ranges root).ok (conclude ranges counter) in
    let inner = conclude-empty ranges counter in
    let none_done = (scan_dirs-counter c verify_cache dirs 0 (states, []) steady).1 in
    (
      λ e.
          let (ok, empty) = outer.0 e in
          let (many, zero) = inner.0 empty in (ok, (many, none_done.0 zero)),
      λ h. outer.1 (h.0, inner.1 (h.1.0, none_done.1 h.1.1)),
    )

goes_on : ¬ ((true ≡ false) ⊎ (false ≡ true))
goes_on (inl h) = cc
goes_on (inr h) = cc

run_scan-stops :
    (foreground : Bool) (r : ScanResult) (e : Ended)
    → (((run_scan foreground r e).returned ≡ false) ⊎ ((run_scan foreground r e).shutdown ≡ true))
      ↔ (r ≢ scanned)
unfolding run_scan
run_scan-stops true scanned e = ((λ h. absurd (goes_on h)), λ n. absurd (n refl))
run_scan-stops true io_error e = (λ h x. cc, λ n. inl refl)
run_scan-stops true cache_is_empty e = (λ h x. cc, λ n. inl refl)
run_scan-stops false scanned e = ((λ h. absurd (goes_on h)), λ n. absurd (n refl))
run_scan-stops false io_error e = (λ h x. cc, λ n. inr refl)
run_scan-stops false cache_is_empty e = (λ h x. cc, λ n. inr refl)

run_scan-keeps :
    (foreground : Bool) (r : ScanResult) (e : Ended) → (run_scan foreground r e).scan ≡ e
unfolding run_scan
run_scan-keeps true scanned e = refl
run_scan-keeps true io_error e = refl
run_scan-keeps true cache_is_empty e = refl
run_scan-keeps false scanned e = refl
run_scan-keeps false io_error e = refl
run_scan-keeps false cache_is_empty e = refl

-- What the program does with its cache: it goes on exactly with one whose scan has not failed. Else
-- the manager is not returned, or, where the scan ran in the background, the program is told to stop.
pub new_manager-stops :
    (c : Crypto) (ranges : List Bytes) (verify_cache force : Bool) (free : Option ℕ)
    (saved : Option (Dict CacheState)) (root : Root)
    → (((new_manager c ranges verify_cache force free saved root).returned ≡ false)
        ⊎ ((new_manager c ranges verify_cache force free saved root).shutdown ≡ true))
      ↔ ((new_manager c ranges verify_cache force free saved root).scan.result ≢ scanned)
unfolding new_manager
new_manager-stops c ranges verify_cache force free saved root =
    with_scan (in_foreground verify_cache force free)
      (scan_cache c verify_cache ranges root (first_states ranges verify_cache saved))
  where
    with_scan :
        (foreground : Bool) (e : Ended)
        → (((run_scan foreground e.result e).returned ≡ false)
            ⊎ ((run_scan foreground e.result e).shutdown ≡ true))
          ↔ ((run_scan foreground e.result e).scan.result ≢ scanned)
    with_scan foreground e =
        let stops = run_scan-stops foreground e.result e in
        let same : (run_scan foreground e.result e).scan.result ≡ e.result =
          ap (λ x. x.result) (run_scan-keeps foreground e.result e) in
        (λ h x. stops.0 h (sym same ∙ x), λ n. stops.1 (λ x. n (same ∙ x)))
