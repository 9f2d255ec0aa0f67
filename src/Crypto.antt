-- ===== src/Crypto.antt =====
-- `string_to_hash` of src/util.rs, and the pair syntax that `ApiResponse::to_map` (src/rpc.rs) and
-- `parse_additional` (src/route/mod.rs) share. SHA-1 is the crate `aws_lc_rs`, a parameter.
use hath_rust.Prelude.{List, [], ◌∷◌, Bytes}
use hath_rust.Text.{split}
use hath_rust.Dict.{Dict, insert}
use hath_rust.FileId.Hex.{HexCodec}

pub record Crypto : Type 0 where
  pub hex : HexCodec
  pub sha1 : Bytes → Bytes

unfoldable pub string_to_hash : Crypto → Bytes → Bytes
string_to_hash c s = c.hex.encode (c.sha1 s)

-- One `key=value`: what has no `=` is skipped, and what stands behind a second `=` is dropped.
insert_pair : List Bytes → Dict Bytes → Dict Bytes
insert_pair [] m = m
insert_pair (k ∷ []) m = m
insert_pair (k ∷ v ∷ rest) m = insert k v m

insert_pairs : List Bytes → Dict Bytes → Dict Bytes
insert_pairs [] m = m
insert_pairs (kv ∷ kvs) m = insert_pairs kvs (insert_pair (split b'=' kv) m)

-- `ApiResponse::to_map`.
unfoldable pub to_map : List Bytes → Dict Bytes
unfolding insert_pairs insert_pair
to_map lines = insert_pairs lines []

-- `parse_additional`.
unfoldable pub parse_additional : Bytes → Dict Bytes
unfolding insert_pairs insert_pair
parse_additional additional = insert_pairs (split b';' additional) []
