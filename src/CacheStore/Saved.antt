-- ===== src/CacheStore/Saved.antt =====
-- The file of the states of the static ranges in src/cache_manager.rs: `save_state` and
-- `read_state`. The format, `rmp_serde` for named fields, is an argument with its round trip; a
-- `HashMap` that it reads has each key once.
use hath_rust.Prelude.{
  ℕ, ◌≡◌, Bool, not, [], ◌∷◌, Option, none, some, Bytes, take, if◌then◌else◌, ◌>>=◌,
}
use hath_rust.Dict.{Dict, get}
use hath_rust.CacheStore.{CacheState}

-- No key stands twice.
abbrev pub IsMap : Dict CacheState → Type 0
IsMap [] = Unit
IsMap ((k, v) ∷ m) = (get k m ≡ none) × IsMap m

pub record Codec : Type 0 where
  pub to_vec : Dict CacheState → Option Bytes
  pub from_slice : Bytes → Option (Dict CacheState)
  pub to_vec-from_slice :
      (states : Dict CacheState) (buf : Bytes)
      → to_vec states ≡ some buf
      → (read : Dict CacheState) × (from_slice buf ≡ some read)
        × IsMap read
        × ((k : Bytes) → get k read ≡ get k states)

-- How the calls of `save_state` end: whether the file is created, and whether all is written, or
-- some bytes only.
pub record SaveCalls : Type 0 where
  pub creates : Bool
  pub breaks_off : Option ℕ

-- `write_all` to an empty file.
abbrev pub written : Option ℕ → Bytes → Bytes
written none buf = buf
written (some n) buf = take n buf

-- What is in the file behind `save_state`; it is emptied before the states are encoded.
unfoldable pub save_state : Codec → SaveCalls → Dict CacheState → Option Bytes → Option Bytes
save_state codec calls states file =
    if not calls.creates then file else elim (codec.to_vec states) [
      | none ↦ some []
      | some buf ↦ some (written calls.breaks_off buf)
    ]

-- `read_state`; `reads` is whether the file can be read to its end.
unfoldable pub read_state : Codec → Bool → Option Bytes → Option (Dict CacheState)
read_state codec reads file = do content ← file; if reads then codec.from_slice content else none
