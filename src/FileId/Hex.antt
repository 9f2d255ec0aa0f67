-- ===== src/FileId/Hex.antt =====
-- The crate `const_hex` as the program uses it: `encode` and `decode_to_array` into 20 bytes. The
-- fields behind the two functions are what its documentation promises. `sample` shows that they
-- can hold together.
mod Sample
pub use Sample.{HexCodec, IsByte}
unfoldable pub use Sample.{sample}
