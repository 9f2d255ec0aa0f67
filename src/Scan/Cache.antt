-- ===== src/Scan/Cache.antt =====
-- `scan_cache` of src/cache_manager.rs as a whole, and `CacheManager::new` around it, which loads the
-- saved states and decides on the scan.
use hath_rust.Prelude.{
  ℕ, ◌*◌, Bool, true, false, not, ◌&&◌, ◌||◌, List, [], ◌∷◌, Option, none, some, Bytes, bytes_eq,
  length, ltb, ◌==◌, if◌then◌else◌,
}
use hath_rust.Dict.{Dict, insert}
use hath_rust.Crypto.{Crypto}
use hath_rust.CacheStore.{CacheState}
use hath_rust.Scan.{Scanned, scan_dirs}
use hath_rust.Scan.Walk.{Root, walk}

-- How a scan ends: it is done, a directory could not be read, or the cache is empty.
pub data ScanResult : Type 0 where
  scanned io_error cache_is_empty : ScanResult

-- The end of the scan, behind the loop over `counter` directories.
unfoldable pub conclude : List Bytes → ℕ → ScanResult
conclude ranges counter =
    if (counter == 0) && ltb 20 (length ranges) then cache_is_empty else scanned

-- What a scan leaves: the states and deleted files, and the deleted directories.
pub record Ended : Type 0 where
  pub result : ScanResult
  pub scan : Scanned
  pub deleted_dirs : List (Bytes × Bytes)

unfoldable pub scan_cache : Crypto → Bool → List Bytes → Root → Dict CacheState → Ended
unfolding conclude
scan_cache c verify_cache ranges root states =
    let w = walk ranges root in
    let r = scan_dirs c verify_cache w.dirs 0 (states, []) in
    record {
      result = if w.ok then conclude ranges r.0 else io_error;
      scan = if w.ok then r.1 else (states, []);
      deleted_dirs = w.deleted_dirs;
    }

abbrev pub contains : Bytes → List Bytes → Bool
contains r [] = false
contains r (sr ∷ ranges) = bytes_eq sr r || contains r ranges

-- The saved states that are taken over.
unfoldable pub load : List Bytes → Dict CacheState → Dict CacheState → Dict CacheState
load ranges [] states = states
load ranges ((sr, state) ∷ saved) states =
    load ranges saved (if contains sr ranges then insert sr state states else states)

abbrev pub size_100mb : ℕ
size_100mb = 100 * 1024 * 1024

-- What `CacheManager::new` returns and does: whether the manager is returned, whether the program is
-- told to stop, how many files are looked at at once, and the result of the scan.
pub record Opened : Type 0 where
  pub returned : Bool
  pub shutdown : Bool
  pub parallelism : ℕ
  pub scan : Ended

-- How the scan is run: in the foreground, or in the background, where it has come to its end.
unfoldable pub run_scan : Bool → ScanResult → Ended → Opened
run_scan true scanned e = record { returned = true; shutdown = false; parallelism = 16; scan = e }
run_scan true io_error e = record { returned = false; shutdown = false; parallelism = 16; scan = e }
run_scan true cache_is_empty e = record {
  returned = false;
  shutdown = false;
  parallelism = 16;
  scan = e;
}
run_scan false scanned e = record { returned = true; shutdown = false; parallelism = 4; scan = e }
run_scan false io_error e = record { returned = true; shutdown = true; parallelism = 4; scan = e }
run_scan false cache_is_empty e = record {
  returned = true;
  shutdown = true;
  parallelism = 4;
  scan = e;
}

-- The program waits for the scan if the disk is low, or if the cache is verified and this is not
-- left to the background; `free` is the space on the disk.
unfoldable pub in_foreground : Bool → Bool → Option ℕ → Bool
in_foreground verify_cache force_background_scan free =
    let low_disk : Bool = elim free [ none ↦ false | some x ↦ ltb x size_100mb ] in
    low_disk || (verify_cache && not force_background_scan)

-- The states before the scan; `saved` are those that were read.
unfoldable pub first_states : List Bytes → Bool → Option (Dict CacheState) → Dict CacheState
unfolding load
first_states ranges verify_cache saved =
    let old : Dict CacheState = elim saved [ none ↦ [] | some states ↦ states ] in
    if verify_cache then [] else load ranges old []

-- The part of `CacheManager::new` from the loading of the states on.
unfoldable pub new_manager :
    Crypto → List Bytes → Bool → Bool → Option ℕ → Option (Dict CacheState) → Root → Opened
unfolding run_scan in_foreground first_states
new_manager c ranges verify_cache force_background_scan free saved root =
    let e = scan_cache c verify_cache ranges root (first_states ranges verify_cache saved) in
    run_scan (in_foreground verify_cache force_background_scan free) e.result e
