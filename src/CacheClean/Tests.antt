-- ===== src/CacheClean/Tests.antt =====
-- A clean-up that meets an old file and a new one, and one that meets nothing.
use hath_rust.Prelude.Int.{pos, ◌+ℤ◌}
use hath_rust.Prelude.{
  ◌+◌, ◌≡◌, ◌≢◌, ◌≤◌, ◌⊎◌, refl, true, false, List, [], ◌∷◌, Option, none, some, codes, arith,
  bytes_eq, length,
}
use hath_rust.Dict.{get, insert, modify}
use hath_rust.Text.{join}
use hath_rust.Text.Decimal.{show}
use hath_rust.FileId.{to_path, filename, static_range, as_str}
use hath_rust.CacheStore.Directories.{total}
use hath_rust.FileId.Hex.{sample}
use hath_rust.Samples.{info, one_state, pad}
use hath_rust.CacheStore.{
  CacheManager, files, ImportCalls, placed, put, unlink, dir_of, remove_cache, count_file, place,
  add_file, default_state, remove_file, import_cache,
}
use hath_rust.CacheStore.Accounts.{IsAccounted}
use hath_rust.CacheStore.Imports.{works, import_cache-IsAccounted}
use hath_rust.CacheClean.{
  size_100mb, need_free, disk_need, sweep, sort, insert_sorted, last_mtime, offset, oldest_from,
  drop_file, Entry, Sweep, evict, Round, clean, check_cache_usage, total_size,
}
use hath_rust.CacheStore.Saved.{SaveCalls, save_state}
use hath_rust.CacheClean.Background.{Tick, background_task, background_task-IsAccounted}
use hath_rust.CacheClean.Needs.{IsEnough, IsIdle, need_free-IsEnough, clean-idle}
use hath_rust.CacheClean.Evicts.{Cut, evict-Cut, evict-IsAccounted}

need_free-IsEnough_example :
    (100 ≤ 50 + need_free 100 50 (some 7))
    × IsEnough (need_free 100 50 (some 7)) (some 7)
    × ((need_free 100 50 (some 7) ≡ 0) ⊎ (size_100mb ≤ need_free 100 50 (some 7)))
need_free-IsEnough_example = need_free-IsEnough 100 50 (some 7) (omega arith)

abbrev old_file : Entry
old_file = record { info = some info; mtime = pos 5; nanos = 0; size = some 4096; calls = works }

abbrev new_file : Entry
new_file = record { info = some info; mtime = pos 500; nanos = 0; size = some 4096; calls = works }

abbrev empty : CacheManager
empty = record { disk = []; cache_state = []; size_limit = 0 }

abbrev begun : Sweep
begun = record { need = 10000; new_oldest = pos 500; manager = empty }

evict-Cut_example :
    Cut sample
      (pos 100)
      begun
      (evict sample (pos 100) (old_file ∷ new_file ∷ []) begun)
      (old_file ∷ new_file ∷ [])
evict-Cut_example = evict-Cut sample (pos 100) (old_file ∷ new_file ∷ []) begun

empty-IsAccounted : IsAccounted empty
unfolding get
empty-IsAccounted = record { distinct = λ dir. tt; agrees = λ dir. refl }

evict-IsAccounted_example :
    IsAccounted (evict sample (pos 100) (old_file ∷ new_file ∷ []) begun).manager
evict-IsAccounted_example =
    evict-IsAccounted sample (pos 100) (old_file ∷ new_file ∷ []) begun empty-IsAccounted

abbrev idle : Round
idle = record { same_limit = true; age = none; listing = some []; now = pos 9 }

idle-IsIdle : IsIdle idle
idle-IsIdle = record { same_limit = refl; listing = refl }

abbrev emptied : CacheManager
emptied = record {
  disk = [];
  cache_state = (codes "0102", record { file_count = 0; size = 0; oldest = pos 5 }) ∷ [];
  size_limit = 0;
}

has_state : emptied.cache_state ≢ []
has_state = ground arith

clean-idle_example : (clean sample (idle ∷ idle ∷ []) 104857600 emptied).0 ≡ false
clean-idle_example =
    clean-idle sample (idle ∷ idle ∷ []) 104857600 emptied has_state (ground arith)
      (idle-IsIdle, (idle-IsIdle, tt))

abbrev calls : ImportCalls
calls = record {
  dir_ok = true;
  removing = works;
  placing = placed 4096;
  filesize_ok = true;
  now = pos 9;
}

abbrev one_file : CacheManager
one_file = import_cache sample info calls empty

empty-length : length (files (dir_of sample info) empty) ≡ 0
unfolding get
empty-length = refl

empty-total : total (files (dir_of sample info) empty) ≡ 0
unfolding get
empty-total = refl

one_file-IsAccounted : IsAccounted one_file
one_file-IsAccounted =
    import_cache-IsAccounted sample info empty 4096 (pos 9) empty-IsAccounted
      (omega (arith, empty-length)) (omega (arith, empty-total))

abbrev saving : SaveCalls
saving = record { creates = true; breaks_off = none }

-- The cache of one file has no room: the cleaner removes the file in its first round, and goes on.
abbrev ticks : List (Option Tick)
ticks =
    some (record {
      saving = saving;
      rounds =
          record { same_limit = true; age = none; listing = some (old_file ∷ []); now = pos 9 }
          ∷ idle
          ∷ [];
      disk_free = none;
    })
    ∷ none
    ∷ []

cleaned : total_size (background_task sample one_state ticks one_file none).0.cache_state ≡ 0
unfolding background_task check_cache_usage clean need_free disk_need total_size save_state sweep
    evict sort insert_sorted last_mtime offset oldest_from drop_file import_cache place put
    count_file remove_cache unlink get insert modify to_path filename join show as_str static_range
    sample pad bytes_eq add_file default_state remove_file ◌+ℤ◌
cleaned = refl

background_task-IsAccounted_example :
    IsAccounted (background_task sample one_state ticks one_file none).0
background_task-IsAccounted_example =
    background_task-IsAccounted sample one_state ticks one_file none one_file-IsAccounted
