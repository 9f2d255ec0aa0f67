-- ===== src/CacheRead.antt =====
-- `CacheManager::get_file` of src/cache_manager.rs, and the reader that it streams from
-- (src/file_reader.rs). What the file system does is an argument: the metadata, whether the file
-- opens and seeks, and what successive reads return from a position on.
pub mod Streams
pub mod Serving
mod Tests
use hath_rust.Prelude.{
  ℕ, ◌+◌, ◌-◌, ◌*◌, Bool, true, false, not, ◌&&◌, ◌||◌, List, [], ◌∷◌, ◌++◌, Option, none, some,
  Bytes, bytes_eq, length, drop, ltb, leb, ◌==◌, if◌then◌else◌,
}
use hath_rust.Body.{Polled, pending, ended, frame, failed, chunk}

-- One read of a file: up to a buffer's length of bytes, none at the end; or an error.
pub data ReadResult : Type 0 where
  got : Bytes → ReadResult
  error : Bytes → ReadResult

-- `FileReader` as a `Stream`: an empty read ends it, an error is passed on and the stream goes on.
-- Each poll hands the file to the pool and waits for it, so that reads come one behind the other.
unfoldable pub reader_stream : List ReadResult → List Polled
reader_stream [] = []
reader_stream (got [] ∷ rs) = ended ∷ []
reader_stream (got (b ∷ bs) ∷ rs) = frame (chunk (b ∷ bs)) ∷ reader_stream rs
reader_stream (error e ∷ rs) = failed e ∷ reader_stream rs

-- What the verifying task sends, and what it has hashed when it comes to the end of the file.
pub record Verified : Type 0 where
  pub sends : List Polled
  pub hashed : Option Bytes

-- The part of a buffer that a request from `offset` on gets, where `read_off` bytes have been read
-- with it; `none` if the buffer lies before the offset.
unfoldable pub requested : Option ℕ → ℕ → Bytes → Option Bytes
requested none read_off buffer = some buffer
requested (some offset) read_off buffer =
    if ltb offset read_off
    then (if ltb (read_off - length buffer) offset
        then some (drop (length buffer - (read_off - offset)) buffer)
        else some buffer)
    else none

unfoldable pub send : Option Bytes → Verified → Verified
send none v = v
send (some buffer) v = record v { sends = frame (chunk buffer) ∷ v.sends }

-- The loop of the verifying task; when the reads run out, it is still waiting for one.
unfoldable pub verify : ℕ → Option ℕ → ℕ → Bytes → List ReadResult → Verified
unfolding requested send
verify file_size offset read_off hashed [] =
    if ltb read_off file_size
    then record { sends = pending ∷ []; hashed = none }
    else record { sends = ended ∷ []; hashed = some hashed }
verify file_size offset read_off hashed (error e ∷ rs) =
    if ltb read_off file_size
    then record { sends = failed e ∷ []; hashed = none }
    else record { sends = ended ∷ []; hashed = some hashed }
verify file_size offset read_off hashed (got buffer ∷ rs) =
    let off = read_off + length buffer in
    let rest =
      send (requested offset off buffer) (verify file_size offset off (hashed ++ buffer) rs) in
    if ltb read_off file_size then rest else record { sends = ended ∷ []; hashed = some hashed }

pub record OnDisk : Type 0 where
  pub is_file : Bool
  pub len : ℕ
  pub mtime : ℕ

-- The file system as `get_file` meets it.
pub record View : Type 0 where
  pub metadata : Option OnDisk
  pub opens : Bool
  pub seeks : Bool
  pub reads_from : ℕ → List ReadResult
  pub now : ℕ

pub data CacheFileResult : Type 0 where
  full : List Polled → CacheFileResult
  partial : List Polled → CacheFileResult
  not_found : CacheFileResult

abbrev pub week : ℕ
week = 60 * 60 * 24 * 7

-- The result, whether the file is marked as recently accessed, and whether `remove_cache` is called
-- for it, as for a corrupt one, once it has been read. How that call ends is CacheStore's.
pub record Got : Type 0 where
  pub result : CacheFileResult
  pub marked : Bool
  pub remove_called : Bool

-- A file that was accessed within a week is not verified.
unfoldable pub recent : View → Option ℕ → CacheFileResult
recent v none = full (reader_stream (v.reads_from 0))
recent v (some offset) =
    if not (offset == 0) && v.seeks
    then partial (reader_stream (v.reads_from offset))
    else full (reader_stream (v.reads_from 0))

unfoldable pub by_offset : Option ℕ → List Polled → CacheFileResult
by_offset none stream = full stream
by_offset (some offset) stream = partial stream

unfoldable pub corrupt : (Bytes → Bytes) → Bytes → Option Bytes → Bool
corrupt sha1 hash none = false
corrupt sha1 hash (some hashed) = not (bytes_eq (sha1 hashed) hash)

unfoldable pub open_file : (Bytes → Bytes) → Bytes → ℕ → View → Option ℕ → OnDisk → Got
unfolding recent by_offset corrupt
open_file sha1 hash size v offset m =
    if not m.is_file || not (m.len == size) || not v.opens
    then record { result = not_found; marked = false; remove_called = false }
    else if leb (v.now - week) m.mtime
    then record { result = recent v offset; marked = false; remove_called = false }
    else (let checked = verify m.len offset 0 [] (v.reads_from 0) in
        record {
          result = by_offset offset checked.sends;
          marked = true;
          remove_called = corrupt sha1 hash checked.hashed;
        })

-- `CacheManager::get_file`, for a file of the given hash and size.
unfoldable pub get_file : (Bytes → Bytes) → Bytes → ℕ → View → Option ℕ → Got
unfolding open_file
get_file sha1 hash size v offset = elim v.metadata [
  | none ↦ record { result = not_found; marked = false; remove_called = false }
  | some m ↦ open_file sha1 hash size v offset m
]
