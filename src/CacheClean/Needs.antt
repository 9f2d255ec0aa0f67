-- ===== src/CacheClean/Needs.antt =====
-- How much the cleaner sets out to free.
use hath_rust.Prelude.{
  ℕ, ◌+◌, ◌^◌, ◌<◌, ◌≤◌, ◌≡◌, ◌≢◌, refl, ◌⊎◌, true, false, List, [], ◌∷◌, Option, none, some, ◌==◌,
  arith, All, ap, Bool, sym, Bytes, ◌∙◌,
}
use hath_rust.Dict.{Dict, modify}
use hath_rust.FileId.Hex.{HexCodec}
use hath_rust.CacheStore.{CacheState, CacheManager}
use hath_rust.CacheClean.{
  size_100mb, disk_need, need_free, Round, sweep, evict, sort, oldest_from, clean,
}

abbrev pub IsEnough : ℕ → Option ℕ → Type 0
IsEnough need none = Unit
IsEnough need (some free) = size_100mb ≤ free + need

-- For a cache of less than 2 ^ 63 bytes: when the bytes to free are gone, the cache is within its limit and 100 MiB are free on the disk;
-- they are none, or 100 MiB at least.
pub need_free-IsEnough :
    (total limit : ℕ) (disk_free : Option ℕ)
    → total < 2 ^ 63
    → (total ≤ limit + need_free total limit disk_free)
      × IsEnough (need_free total limit disk_free) disk_free
      × ((need_free total limit disk_free ≡ 0) ⊎ (size_100mb ≤ need_free total limit disk_free))
unfolding need_free disk_need
need_free-IsEnough total limit none b = (ground arith, tt, ground arith)
need_free-IsEnough total limit (some free) b = (ground arith, ground arith, ground arith)

-- A turn of the loop that finds an empty directory and the same limit.
pub record IsIdle (r : Round) : Type 0 where
  pub same_limit : r.same_limit ≡ true
  pub listing : r.listing ≡ some []

modify-nonempty :
    (range : Bytes) (f : CacheState → CacheState) (c : Dict CacheState)
    → c ≢ []
    → modify range f c ≢ []
unfolding modify
modify-nonempty range f [] n e = n refl
modify-nonempty range f ((j, w) ∷ c) n e = ground arith

module _ (hex : HexCodec) where
  sweep-idle :
      (best : Bytes × CacheState) (r : Round) (need : ℕ) (m : CacheManager)
      → (sweep hex best r [] need m).need ≡ need
  unfolding sweep evict sort
  sweep-idle (range, state) r need m = refl

  sweep-states :
      (best : Bytes × CacheState) (r : Round) (need : ℕ) (m : CacheManager)
      → m.cache_state ≢ []
      → (sweep hex best r [] need m).manager.cache_state ≢ []
  unfolding sweep evict sort
  sweep-states (range, state) r need m n = modify-nonempty range _ m.cache_state n

  clean_turn :
      (r : Round) (rs : List Round) (need : ℕ) (d : Dict (Dict ℕ)) (x : Bytes × CacheState)
      (xs : Dict CacheState) (limit : ℕ)
      → need ≢ 0
      → IsIdle r
      → clean hex (r ∷ rs) need (record { disk = d; cache_state = x ∷ xs; size_limit = limit })
        ≡ clean hex rs
            (sweep hex
              (oldest_from x xs)
              r
              []
              need
              (record { disk = d; cache_state = x ∷ xs; size_limit = limit })).need
            (sweep hex
              (oldest_from x xs)
              r
              []
              need
              (record { disk = d; cache_state = x ∷ xs; size_limit = limit })).manager
  unfolding clean
  clean_turn r rs need d x xs limit n i =
      let more : (need == 0) ≡ false = ground arith in rw (more, i.same_limit, i.listing) refl

  clean_fields :
      (rounds : List Round) (need : ℕ) (d : Dict (Dict ℕ)) (states : Dict CacheState) (limit : ℕ)
      → states ≢ []
      → need ≢ 0
      → All IsIdle rounds
      → (clean hex rounds need (record { disk = d; cache_state = states; size_limit = limit })).0
        ≡ false
  clean_fields [] need d states limit c n a = unfold clean in ground arith
  clean_fields (r ∷ rs) need d [] limit c n a = absurd (c refl)
  clean_fields (r ∷ rs) need d (x ∷ xs) limit c n a =
      let m : CacheManager = record { disk = d; cache_state = x ∷ xs; size_limit = limit } in
      let s = sweep hex (oldest_from x xs) r [] need m in
      ap (λ (r : Bool × (ℕ × CacheManager)). r.0) (clean_turn r rs need d x xs limit n a.0)
      ∙ clean_fields rs s.need s.manager.disk s.manager.cache_state s.manager.size_limit
          (sweep-states (oldest_from x xs) r need m c)
          (λ q. n (sym (sweep-idle (oldest_from x xs) r need m) ∙ q)) a.1

  -- As long as there is something to free, the size limit stays what it is and the directory of the
  -- oldest range is empty in each turn, the loop goes on, however many turns it has had: it ends by
  -- none of its own conditions.
  pub clean-idle :
      (rounds : List Round) (need : ℕ) (m : CacheManager)
      → m.cache_state ≢ []
      → need ≢ 0
      → All IsIdle rounds
      → (clean hex rounds need m).0 ≡ false
  clean-idle rounds need m c n a = clean_fields rounds need m.disk m.cache_state m.size_limit c n a
