-- ===== src/CacheRead/Tests.antt =====
-- A file of four bytes, read from its second byte on.
use hath_rust.Prelude.{◌-◌, ◌≡◌, not, ◌&&◌, [], none, some, bytes_eq, leb}
use hath_rust.Samples.{pad, content, view, view-Serves}
use hath_rust.CacheRead.{week, get_file}
use hath_rust.CacheRead.Streams.{Sends}
use hath_rust.CacheRead.Serving.{get_file-Sends, get_file-removed}

get_file-Sends_example : Sends content (some 1) (get_file pad (pad content) 4 view (some 1)).result
get_file-Sends_example = get_file-Sends 4 view content view-Serves pad (pad content) (some 1)

get_file-removed_example :
    (get_file pad (pad []) 4 view none).remove_called
    ≡ not (leb (view.now - week) view-Serves.mtime) && not (bytes_eq (pad content) (pad []))
get_file-removed_example = get_file-removed 4 view content view-Serves pad (pad []) none
