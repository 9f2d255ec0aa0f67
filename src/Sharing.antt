-- ===== src/Sharing.antt =====
-- The download state of src/route/cache.rs: requests for one missing file share one download. A
-- request that finds no entry for the hash makes one and leads; the others follow it. The tasks run
-- interleaved, a step at a time: what a step does under the lock is one change of the map.
pub mod Owners
mod Tests
use hath_rust.Prelude.{ℕ, ◌≡◌, Option, none, some, [], Bytes}
use hath_rust.Prelude.Family.{update}
use hath_rust.Dict.{Dict, get, insert, remove}

-- Where the task of a request stands.
pub data Phase : Type 0 where
  -- Before the lookup of the hash.
  asking : Phase
  -- The handler that made the entry, until it has its sources: the guard is alive.
  leading : Bytes → Phase
  -- The worker that downloads, and holds the guard.
  working : Bytes → Phase
  -- The worker that has all bytes and has removed the entry; it imports the file, and still holds
  -- the guard.
  closing : Bytes → Phase
  -- A request that follows the download of another task.
  following : Bytes → ℕ → Phase
  gone : Phase

-- The map of the downloads by their hash, each with the task that made the entry.
pub record Downloads : Type 0 where
  pub entries : Dict ℕ
  pub phase : ℕ → Phase

-- A step of the task `i`: the new map, and the task's new phase.
pub data Move (d : Downloads) (i : ℕ) : Phase → Dict ℕ → Phase → Type 0 where
  -- The lookup finds nothing, and the entry is made under the same lock.
  lead :
      (hash : Bytes)
      → get hash d.entries ≡ none
      → Move d i asking (insert hash i d.entries) (leading hash)
  follow :
      (hash : Bytes) (j : ℕ)
      → get hash d.entries ≡ some j
      → Move d i asking d.entries (following hash j)
  -- The sources have come, and the worker starts.
  start_worker : (hash : Bytes) → Move d i (leading hash) d.entries (working hash)
  -- There are no sources, or the request is cancelled: the guard is dropped.
  give_up : (hash : Bytes) → Move d i (leading hash) (remove hash d.entries) gone
  -- All bytes have come and all clients have gone: the entry is removed.
  finish : (hash : Bytes) → Move d i (working hash) (remove hash d.entries) (closing hash)
  -- The worker fails: the guard is dropped.
  fail : (hash : Bytes) → Move d i (working hash) (remove hash d.entries) gone
  -- The worker returns, and the guard is dropped once more.
  return_ : (hash : Bytes) → Move d i (closing hash) (remove hash d.entries) gone
  -- The task that a request follows has gone before it had a temporary file.
  orphaned :
      (hash : Bytes) (j : ℕ)
      → d.phase j ≡ gone
      → Move d i (following hash j) (remove hash d.entries) gone
  -- The request has its answer, or is cancelled.
  leave : (hash : Bytes) (j : ℕ) → Move d i (following hash j) d.entries gone

pub data Step (d : Downloads) : Downloads → Type 0 where
  pick :
      (i : ℕ) {m : Dict ℕ} {p : Phase}
      → Move d i (d.phase i) m p
      → Step d (record { entries = m; phase = update d.phase i p })

abbrev pub init : Downloads
init = record { entries = []; phase = λ i. asking }

pub data Reach : Downloads → Type 0 where
  start : Reach init
  later : {d e : Downloads} → Reach d → Step d e → Reach e
