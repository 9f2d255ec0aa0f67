-- ===== src/Scan/Accounted.antt =====
-- A scan with no saved states sets the counts and sizes up as the rest of the cache manager keeps
-- them.
use mathlib.Core.Path.{subst}
use mathlib.Core.List.{Permᴰ}
use mathlib.Core.Option.{some-injective}
use hath_rust.Prelude.{
  ℕ, suc, ◌^◌, ◌<◌, ◌≡◌, ◌≢◌, ◌⊎◌, inl, inr, refl, sym, ap, ◌∙◌, Bool, List, [], ◌∷◌, Option, none,
  some, Bytes, length, arith, All,
}
use hath_rust.Dict.{Dict, get}
use hath_rust.Crypto.{Crypto}
use hath_rust.CacheStore.{CacheState, CacheManager, files}
use hath_rust.CacheStore.Directories.{IsDirectory, total}
use hath_rust.CacheStore.Accounts.{Agrees, IsAccounted}
use hath_rust.Scan.{Entry, RangeDir, scan_dirs}
use hath_rust.Scan.Recounts.{IsTally, file_number}
use hath_rust.Scan.Holds.{Holds, Holds-counted}
use hath_rust.Scan.Settles.{
  IsSorted, IsSettled, unlisted, matched, lost, recounted, IsDistinct, scan_dirs-IsSettled,
  scan_dirs-other,
}

length-zero {ℓ} : {A : Type ℓ} (d : List A) → length d ≡ 0 → d ≡ []
length-zero [] e = refl
length-zero (x ∷ d) e = absurd (omega arith)

perm-length {ℓ} : {A : Type ℓ} {xs ys : List A} → Permᴰ xs ys → length xs ≡ length ys
perm-length Permᴰ.nil = refl
perm-length (Permᴰ.cons e p) = ap suc (perm-length p)
perm-length (Permᴰ.swap e f) = refl
perm-length (Permᴰ.trans p q) = perm-length p ∙ perm-length q

IsTally-Agrees :
    (o : Option CacheState) (d : Dict ℕ)
    → length d < 2 ^ 64
    → total d < 2 ^ 64
    → IsTally (length d) (total d) o
    → Agrees o d
IsTally-Agrees none d b c h = length-zero d h.0
IsTally-Agrees (some s) d b c h = ((omega (arith, h.1.0, b), b), (omega (arith, h.1.1, c), c))

module _ (c : Crypto) (verify_cache : Bool) where
  -- The directory can be read, and what lies on the disk when the scan is done are the good files of
  -- its range among those that were read, in any order.
  pub record IsReadAs (d : RangeDir) (on_disk : Dict ℕ) : Type 0 where
    pub listing : List Entry
    pub listed : d.listed ≡ some (length listing)
    pub read : d.files ≡ some listing
    pub sorted : List Entry
    pub order : Permᴰ listing sorted
    pub holds : Holds c verify_cache d.range sorted on_disk
    pub few : length on_disk < 2 ^ 64
    pub small : total on_disk < 2 ^ 64

  IsSettled-Agrees :
      (d : RangeDir) (on_disk : Dict ℕ) (new : Option CacheState)
      → IsReadAs d on_disk
      → IsSettled c verify_cache d none new
      → Agrees new on_disk
  IsSettled-Agrees d on_disk new r (unlisted q e) = absurd (cc (q, r.listed))
  IsSettled-Agrees d on_disk new r (matched q e) =
      let none_listed : length r.listing ≡ 0 =
        some-injective (length r.listing) 0 (sym r.listed ∙ q) in
      let none_there : length on_disk ≡ 0 =
        (Holds-counted c verify_cache d.range r.holds).0
        ∙ ap (file_number c verify_cache d.range)
            (length-zero r.sorted (sym (perm-length r.order) ∙ none_listed)) in
      subst (λ o. Agrees o on_disk) (sym e) (length-zero on_disk none_there)
  IsSettled-Agrees d on_disk new r (lost n q k f e) = absurd (cc (f, r.read))
  IsSettled-Agrees d on_disk new r (recounted n done q k f t) =
      let same : done ≡ r.listing = some-injective done r.listing (sym f ∙ r.read) in
      let tally = t r.sorted (subst (λ es. Permᴰ es r.sorted) (sym same) r.order) in
      let (number, size) = Holds-counted c verify_cache d.range r.holds in
      IsTally-Agrees new on_disk r.few r.small (
        subst (λ n. IsTally n (total on_disk) new) (sym number)
          (subst (λ s. IsTally (file_number c verify_cache d.range r.sorted) s new) (sym size)
            tally))

  -- How a directory of the disk stands to the directories that the scan has found: it is one of
  -- them, and was read, or it is none of them, and empty.
  abbrev pub IsFound : List RangeDir → Bytes → Dict ℕ → Type 0
  IsFound [] dir on_disk = on_disk ≡ []
  IsFound (d ∷ ds) dir on_disk =
      ((d.range ≡ dir) × IsReadAs d on_disk) ⊎ ((d.range ≢ dir) × IsFound ds dir on_disk)

  found-Agrees :
      (new : Bytes → Option CacheState) (ds : List RangeDir) (dir : Bytes) (on_disk : Dict ℕ)
      → All (λ d. IsSettled c verify_cache d none (new d.range)) ds
      → (All (λ d. d.range ≢ dir) ds → new dir ≡ none)
      → IsFound ds dir on_disk
      → Agrees (new dir) on_disk
  found-Agrees new [] dir on_disk a other f = subst (λ o. Agrees o on_disk) (sym (other tt)) f
  found-Agrees new (d ∷ ds) dir on_disk a other (inl (e, r)) =
      subst (λ k. Agrees (new k) on_disk) e (IsSettled-Agrees d on_disk (new d.range) r a.0)
  found-Agrees new (d ∷ ds) dir on_disk a other (inr (n, f)) =
      found-Agrees new ds dir on_disk a.1 (λ h. other (n, h)) f

  -- The manager behind a scan that starts with no states, with this disk.
  abbrev pub scanned_manager : List RangeDir → Dict (Dict ℕ) → ℕ → CacheManager
  scanned_manager ds disk size_limit = record {
    disk = disk;
    cache_state = (scan_dirs c verify_cache ds 0 ([], [])).1.0;
    size_limit = size_limit;
  }

  -- Where no static range has two directories, what counts in a directory is of its range, and no
  -- directory of the disk holds a name twice, a scan that starts with no states leaves counts and
  -- sizes that agree with the disk, if each directory of the disk was read and holds, when the scan is
  -- done, just the good files of its range among its entries (those whose names are identifiers of
  -- the range, which have the stated size and on verification the stated hash, and whose size on the
  -- disk is found), fewer than 2 ^ 64 of less than 2 ^ 64 bytes, or is empty: the invariant that
  -- imports and removals keep holds at the start.
  pub scan_dirs-IsAccounted :
      (ds : List RangeDir) (disk : Dict (Dict ℕ)) (size_limit : ℕ)
      → IsDistinct c verify_cache ds
      → All (IsSorted c verify_cache) ds
      → ((dir : Bytes) → IsDirectory (files dir (scanned_manager ds disk size_limit)))
      → ((dir : Bytes) → IsFound ds dir (files dir (scanned_manager ds disk size_limit)))
      → IsAccounted (scanned_manager ds disk size_limit)
  unfolding get
  scan_dirs-IsAccounted ds disk size_limit distinct sorted dirs found =
      let states = (scan_dirs c verify_cache ds 0 ([], [])).1.0 in
      let settled = scan_dirs-IsSettled c verify_cache ds 0 ([], []) distinct sorted in
      record {
        distinct = dirs;
        agrees = λ dir.
            found-Agrees (λ r. get r states) ds dir _ settled
              (scan_dirs-other c verify_cache ds 0 ([], []) dir sorted) (found dir);
      }
