-- ===== src/Daemon/Purge.antt =====
-- A purge list is worked off.
use hath_rust.Prelude.{List, [], ◌∷◌, Bytes, Option-cases, inl, inr}
use hath_rust.FileId.Hex.{HexCodec}
use hath_rust.FileId.{CacheFileInfo, from_file_id}
use hath_rust.CacheStore.{CacheManager, RemoveCalls, remove_cache}
use hath_rust.CacheStore.Accounts.{IsAccounted, remove_cache-IsAccounted}
use hath_rust.Daemon.{purge}

-- Whatever a purge list names, and however the calls of the file system end, the counts and sizes
-- of the static ranges still agree with the disk when it has been worked off.
pub purge-IsAccounted :
    (hex : HexCodec) (calls : CacheFileInfo → RemoveCalls) (list : List Bytes) (m : CacheManager)
    → IsAccounted m
    → IsAccounted (purge hex calls list m)
unfolding purge
purge-IsAccounted hex calls [] m a = a
purge-IsAccounted hex calls (id ∷ list) m a = elim (Option-cases (from_file_id hex id)) [
  | inl q ↦ rw (purge, q) (purge-IsAccounted hex calls list m a)
  | inr (info, q) ↦
      rw (purge, q)
        (purge-IsAccounted hex calls list (remove_cache hex info (calls info) m).1
          (remove_cache-IsAccounted hex info (calls info) m a))
]
