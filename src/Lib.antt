-- ===== src/Lib.antt =====
-- A model of hath-rust, a Hentai@Home client: a cache server that keeps files whose names state
-- their hash, serves them over HTTP, fetches what it misses, and takes orders from central servers.
--
-- The parts, and how they interact:
--   Hath is the handler `hath` of src/route/cache.rs: it checks the keystamp of a link (Keystamp),
--     parses the identifier (FileId), looks the file up (CacheRead, `get_file`), and answers with the
--     file or with one range of it (Ranges), which Body, `TruncateBody` of src/server/util.rs, cuts out.
--   Download is the task behind `hath` that fetches a file that is missing, in three tries; what
--     it has verified goes to `import_cache`.
--   Sharing and Follow are the requests around it: Sharing is the map by which requests for one
--     missing file find one download, and Follow is the stream of such a request, which reads the
--     temporary file while the worker writes it. Both are step relations: the tasks take turns.
--   FileId is `CacheFileInfo` and `FileType` of src/cache_manager.rs: identifiers, names and paths.
--   CacheRead is `get_file` of src/cache_manager.rs with the stream of src/file_reader.rs.
--   CacheStore is the bookkeeping of src/cache_manager.rs: `import_cache`, `remove_cache`, the
--     counts and sizes of each static range against the disk, which is a directory for each range;
--     Saved is the file in which the states are kept.
--   Scan is the scan of the cache at the start: Walk finds the directories of the static ranges,
--     Scan itself checks their files and counts them, Holds says what a directory holds of a listing
--     without the scan's check, and Cache is `scan_cache` and
--     `CacheManager::new` of src/cache_manager.rs. Restart is a start behind a saved state, and
--     Overlap is a scan in the background, beside imports and removals.
--   CacheClean is `check_cache_usage` of src/cache_manager.rs, which removes old files;
--     Background is the task that calls it.
--   Rpc is src/rpc.rs: Response (`parse_response`), Settings, Servers (`RPCClient`, the choice of a
--     server), Client (`build_url`, `check_stat`, `send_action`), Login, Calls. Authentic, Session,
--     Choice and Answers hold what is proved of them.
--   ServerCommand is src/route/server_command.rs, and SpeedTest is src/route/speed_test.rs.
--   Flood is `FloodControl` of src/server/util.rs.
--   Server is the accept loop of src/server/mod.rs, which Flood guards; its children are what the
--     server is built of (Options), its certificate (Cert, src/server/cert.rs), the task of a TCP
--     connection (Connection), the loops over HTTP/3 requests (Http3), what a request sends (Stream),
--     the layers around the routes (Layers, src/middleware/mod.rs and src/route/mod.rs), and how the
--     loops are stopped (Shutdown). Connections is the counter of
--     src/middleware/connection_counter.rs, and RequestLog that of src/middleware/logger.rs.
--   Gallery is the parser of src/gallery_downloader.rs; Names holds its patterns, Folder the name of
--     the directory, Fetch the download of the files, and Queue the loop over galleries.
--   Startup is the start in `main` of src/main.rs: the login, the cache, the certificate, the server,
--     and what the central servers are told. Daemon is the stored credential, the command loop, the
--     keep-alive ticks, the purge lists and the end (Stop) there. Logger is the rotation of the log
--     files of src/logger.rs, and its Channel how the messages get there.
--   Crypto holds the hash and the pair syntax that several parts share; Text and Dict are the parts
--     of `str` and `HashMap` that the program uses; Prelude holds what all files share.
--
-- Conventions. Text is the list of its UTF-8 bytes. Integers are natural numbers with the
-- wrap-around of the release build written out where it can occur; signed ones are ℤ of
-- Prelude.Int. What the network, the file system and the clock do is an argument: `World`, `View`,
-- `Attempt`, `RemoveCalls`, `Clock` and their like. Code of other crates is a parameter with its
-- documented laws: `HexCodec` (FileId.Hex, with `sample` as a value), the SHA-1 function, the byte
-- ranges of `http_range_header`, the parser of addresses.
--
-- Bounds and fuel. The generated body of a speed test gets its size plus one rounds, and each round
-- sends a byte at least. An action has the three tries of the source, and so has a download; a
-- gallery has ten tries, and each file three requests in each. The cleaner's loop takes one `Round`
-- for each turn and says so when the rounds run out before it ends, since the source bounds it by
-- nothing. All other loops follow a list. What runs in any order is a
-- relation of steps, over fewer than 2 ^ 64 requests, so that no counter of 64 bits wraps around by their number.
--
-- A file of tokio is written in the background: that a write which was reported as done fails later
-- is an outcome of the writes of Download (`lost`) and of Gallery.Fetch, and in Follow it is late.
--
-- Not modelled: sockets, TLS and QUIC with their settings, the transport of HTTP/3 and the date header
-- (src/server/h3_quinn.rs and src/server/date_header.rs, taken over from other projects), metrics,
-- messages to the log, temporary files of earlier runs, the tray icon and the command line.
pub mod Prelude
pub mod Text
pub mod Dict
pub mod FileId
pub mod Flood
pub mod Body
pub mod SpeedTest
pub mod Crypto
pub mod Rpc
pub mod Download
pub mod CacheRead
pub mod Hath
pub mod ServerCommand
pub mod CacheStore
pub mod CacheClean
pub mod Gallery
pub mod Daemon
pub mod Logger
pub mod Connections
pub mod Sharing
pub mod Follow
pub mod Scan
pub mod RequestLog
pub mod Server
pub mod Startup
mod Samples
