-- ===== src/Scan/Walk.antt =====
-- The first half of `scan_cache` of src/cache_manager.rs: the walk over the two levels of the cache
-- directory, which finds the directories of the static ranges and deletes the others.
use hath_rust.Prelude.{
  ℕ, ◌+◌, Bool, false, not, ◌&&◌, List, map, [], ◌∷◌, ◌++◌, Option, none, some, Bytes, bytes_eq,
  leb, if◌then◌else◌,
}
use hath_rust.Scan.{Entry, RangeDir}

-- The entries of the cache directory and of those below it. A list that breaks off with an error
-- has `ends` false.
pub record Sub : Type 0 where
  pub name : Bytes
  pub is_dir : Bool
  pub listed : Option ℕ
  pub files : Option (List Entry)

pub record Top : Type 0 where
  pub name : Bytes
  pub is_dir : Bool
  pub opens : Bool
  pub subs : List Sub
  pub ends : Bool

pub record Root : Type 0 where
  pub opens : Bool
  pub tops : List Top
  pub ends : Bool

-- `eq_ignore_ascii_case`.
abbrev pub lower : ℕ → ℕ
lower b = if leb b'A' b && leb b b'Z' then b + 32 else b

abbrev pub eq_ignore_case : Bytes → Bytes → Bool
eq_ignore_case s t = bytes_eq (map lower s) (map lower t)

unfoldable pub find_range : Bytes → List Bytes → Option Bytes
find_range hash [] = none
find_range hash (sr ∷ ranges) = if eq_ignore_case hash sr then some sr else find_range hash ranges

-- The directories of static ranges that the walk has found, and those that it has deleted.
pub record Walk : Type 0 where
  pub dirs : List RangeDir
  pub deleted_dirs : List (Bytes × Bytes)
  pub ok : Bool

module _ (ranges : List Bytes) where
  -- One entry below `l1`.
  unfoldable pub walk_sub : Bytes → Sub → Walk → Walk
  unfolding find_range
  walk_sub l1 s w = if not s.is_dir then w else elim (find_range (l1 ++ s.name) ranges) [
    | some sr ↦ record w {
      dirs = w.dirs ++ (record { range = sr; listed = s.listed; files = s.files } ∷ []);
    }
    | none ↦ record w { deleted_dirs = w.deleted_dirs ++ ((l1, s.name) ∷ []) }
  ]

  unfoldable pub walk_subs : Bytes → List Sub → Walk → Walk
  walk_subs l1 [] w = w
  walk_subs l1 (s ∷ subs) w = walk_subs l1 subs (walk_sub l1 s w)

  -- The entries of the cache directory; an error of a list ends the walk.
  unfoldable pub walk_tops : List Top → Bool → Walk → Walk
  walk_tops [] ends w = record w { ok = ends }
  walk_tops (t ∷ tops) ends w =
      let skip = walk_tops tops ends w in
      let below = walk_subs t.name t.subs w in
      let rest = walk_tops tops ends below in
      if not t.is_dir
      then skip
      else if not t.opens
      then record w { ok = false }
      else if not t.ends
      then record below { ok = false }
      else rest

  unfoldable pub walk : Root → Walk
  walk root =
      let none_yet : Walk = record { dirs = []; deleted_dirs = []; ok = false } in
      if root.opens then walk_tops root.tops root.ends none_yet else none_yet
