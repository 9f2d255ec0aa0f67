-- ===== src/CacheStore.antt =====
-- The bookkeeping of `CacheManager` (src/cache_manager.rs): files that are imported, removed and
-- cleaned up, and the counts and sizes that are kept for each static range. The disk is a directory
-- for each static range, with the size that each file takes; how a call of the file system ends
-- is an argument. Metrics and messages to the log are left out.
pub mod Directories
pub mod Accounts
pub mod Imports
pub mod Saved
mod Tests
use hath_rust.Prelude.Int.{ℤ}
use hath_rust.Prelude.{
  ℕ, ◌+◌, ◌-◌, ◌*◌, ◌%◌, ◌^◌, Bool, true, false, not, ◌||◌, List, [], ◌∷◌, ◌++◌, Option, none, some,
  Bytes, if◌then◌else◌, unwrap_or, ◌>>=◌,
}
use hath_rust.Dict.{Dict, get, insert, remove, modify}
use hath_rust.FileId.Hex.{HexCodec}
use hath_rust.FileId.{CacheFileInfo, to_path, static_range}

pub record CacheState : Type 0 where
  pub file_count : ℕ
  pub size : ℕ
  pub oldest : ℤ

-- `CacheState::add_file`, on u64.
unfoldable pub add_file : ℕ → CacheState → CacheState
add_file size s = record s {
  file_count = (s.file_count + 1) % 2 ^ 64;
  size = (s.size + size) % 2 ^ 64;
}

-- `CacheState::remove_file`, on u64: it wraps around in the release build.
unfoldable pub remove_file : ℕ → CacheState → CacheState
remove_file size s = record s {
  file_count = (s.file_count + 2 ^ 64 - 1) % 2 ^ 64;
  size = (s.size + 2 ^ 64 - size) % 2 ^ 64;
}

-- `CacheState::default()`, at the time `now`.
unfoldable pub default_state : ℤ → CacheState
default_state now = record { file_count = 0; size = 0; oldest = now }

pub record CacheManager : Type 0 where
  pub disk : Dict (Dict ℕ)
  pub cache_state : Dict CacheState
  pub size_limit : ℕ

-- The files of a directory.
abbrev pub files : Bytes → CacheManager → Dict ℕ
files dir m = unwrap_or [] (get dir m.disk)

-- How the calls of `remove_cache` end: the metadata, the size, and the removal.
pub record RemoveCalls : Type 0 where
  pub stat_ok : Bool
  pub size_ok : Bool
  pub remove_ok : Bool

-- How a file comes to its place, by a rename or else a copy: it takes this size, or it fails, and
-- may leave a part behind.
pub data Placing : Type 0 where
  placed : ℕ → Placing
  not_placed : Option ℕ → Placing

pub record ImportCalls : Type 0 where
  pub dir_ok : Bool
  pub removing : RemoveCalls
  pub placing : Placing
  pub filesize_ok : Bool
  pub now : ℤ

-- The file of a name in a directory takes this size.
unfoldable pub put : Bytes → Bytes → ℕ → CacheManager → CacheManager
put dir name size m = record m { disk = insert dir (insert name size (files dir m)) m.disk }

unfoldable pub unlink : Bytes → Bytes → CacheManager → CacheManager
unlink dir name m = record m { disk = insert dir (remove name (files dir m)) m.disk }

module _ (hex : HexCodec) where
  abbrev pub dir_of : CacheFileInfo → Bytes
  dir_of info = (to_path hex info).l1 ++ (to_path hex info).l2

  -- `CacheManager::remove_cache`: the manager, and whether a file was removed.
  unfoldable pub remove_cache : CacheFileInfo → RemoveCalls → CacheManager → Bool × CacheManager
  unfolding unlink
  remove_cache info calls m =
      let name = (to_path hex info).filename in
      elim (get name (files (dir_of info) m)) [
        | none ↦ (false, m)
        | some size ↦
            if not calls.stat_ok || not calls.size_ok || not calls.remove_ok then (false, m) else (
              true,
              record (unlink (dir_of info) name m) {
                cache_state = modify (static_range hex info) (remove_file size) m.cache_state;
              },
            )
      ]

  -- `entry(range).or_default().add_file(size)`.
  unfoldable pub count_file : Bytes → ℤ → ℕ → CacheManager → CacheManager
  count_file range now size m =
      let state = unwrap_or (default_state now) (get range m.cache_state) in
      record m { cache_state = insert range (add_file size state) m.cache_state }

  -- What follows the removal of an old file.
  unfoldable pub place : CacheFileInfo → ImportCalls → Placing → CacheManager → CacheManager
  unfolding put count_file
  place info calls (not_placed none) m = m
  place info calls (not_placed (some size)) m = put (dir_of info) (to_path hex info).filename size m
  place info calls (placed size) m =
      let m' = put (dir_of info) (to_path hex info).filename size m in
      if calls.filesize_ok then count_file (static_range hex info) calls.now size m' else m'

  -- `CacheManager::import_cache`.
  unfoldable pub import_cache : CacheFileInfo → ImportCalls → CacheManager → CacheManager
  unfolding place
  import_cache info calls m =
      if calls.dir_ok
      then place info calls calls.placing (remove_cache info calls.removing m).1
      else m

-- `CacheManager::update_settings`.
unfoldable pub update_settings : ℕ → CacheManager → CacheManager
update_settings size_limit m = record m { size_limit = size_limit }
