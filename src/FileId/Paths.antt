-- ===== src/FileId/Paths.antt =====
-- The directory of a cached file against its static range, on which the scan and the clean-up rely.
use hath_rust.Prelude.{◌≡◌, refl, ◌∙◌, [], ◌∷◌, ◌++◌, Bytes, take, drop}
use hath_rust.FileId.Hex.{HexCodec}
use hath_rust.FileId.{CacheFileInfo, to_path, static_range}

take_four : (s : Bytes) → take 2 s ++ take 2 (drop 2 s) ≡ take 4 s
take_four [] = refl
take_four (a ∷ []) = refl
take_four (a ∷ b ∷ s) = refl

-- The two directory levels of a file's path, put together, spell the file's static range: the name
-- under which `scan_cache` and `check_cache_usage` look the directory up.
pub to_path-static_range :
    (hex : HexCodec) (info : CacheFileInfo)
    → (to_path hex info).l1 ++ (to_path hex info).l2 ≡ static_range hex info
unfolding to_path static_range
to_path-static_range hex info = take_four (hex.encode info.hash) ∙ hex.take-encode 2 info.hash
