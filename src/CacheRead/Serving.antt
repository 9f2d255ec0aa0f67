-- ===== src/CacheRead/Serving.antt =====
-- What `get_file` returns for a file that is on disk.
use hath_rust.Prelude.{
  ℕ, ◌-◌, ◌≡◌, refl, ap, ◌∙◌, true, false, not, ◌&&◌, List, [], Option, none, some, Bytes, bytes_eq,
  drop, leb, ◌==◌, arith, Bool-cases, inl, inr, ==_refl,
}
use hath_rust.Body.{Polled, sent}
use hath_rust.CacheRead.{
  reader_stream, verify, OnDisk, View, week, recent, by_offset, corrupt, open_file, get_file,
}
use hath_rust.CacheRead.Streams.{from, Serves, Sends, Sent, verify-Sent, sent-reader_stream}

module _ (size : ℕ) (v : View) (content : Bytes) (s : Serves v size content) where
  streamed_from : (n : ℕ) → sent (reader_stream (v.reads_from n)) ≡ drop n content
  streamed_from n = sent-reader_stream (v.reads_from n) ∙ s.streams n

  recent-Sends : (offset : Option ℕ) → Sends content offset (recent v offset)
  unfolding recent
  recent-Sends none = streamed_from 0
  recent-Sends (some o) = elim (Bool-cases (not (o == 0) && v.seeks)) [
    | inl q ↦ rw q (streamed_from o)
    | inr q ↦ rw q (streamed_from 0)
  ]

  by_offset-Sends :
      (offset : Option ℕ) (stream : List Polled)
      → sent stream ≡ drop (from offset) content
      → Sends content offset (by_offset offset stream)
  unfolding by_offset
  by_offset-Sends none stream e = e
  by_offset-Sends (some o) stream e = e

  verified :
      (offset : Option ℕ)
      → Sent content [] (from offset - 0) (verify size offset 0 [] (v.reads_from 0))
  verified offset =
      verify-Sent size offset 0 [] content (v.reads_from 0) (omega (arith, s.size_eq)) s.reads

  module _ (sha1 : Bytes → Bytes) (hash : Bytes) (offset : Option ℕ) where
    abbrev entry : OnDisk
    entry = record { is_file = true; len = size; mtime = s.mtime }

    fresh_file :
        leb (v.now - week) s.mtime ≡ true
        → open_file sha1 hash size v offset entry
          ≡ record { result = recent v offset; marked = false; remove_called = false }
    unfolding open_file
    fresh_file q = rw (==_refl size, s.opens, q)

    old_file :
        leb (v.now - week) s.mtime ≡ false
        → open_file sha1 hash size v offset entry ≡ record {
          result = by_offset offset (verify size offset 0 [] (v.reads_from 0)).sends;
          marked = true;
          remove_called = corrupt sha1 hash (verify size offset 0 [] (v.reads_from 0)).hashed;
        }
    unfolding open_file
    old_file q = rw (==_refl size, s.opens, q)

    -- A file of the right size that the file system reads without an error is found, whatever it was asked for and however old it is: a full
    -- result sends all of it, and a partial one sends it from the offset on.
    pub get_file-Sends : Sends content offset (get_file sha1 hash size v offset).result
    unfolding get_file
    get_file-Sends = elim (Bool-cases (leb (v.now - week) s.mtime)) [
      | inl q ↦ rw (s.metadata, fresh_file q) (recent-Sends offset)
      | inr q ↦
          rw (s.metadata, old_file q)
            (by_offset-Sends offset _ (
              (verified offset).sends
              ∙ ap (λ n. drop n content) {x = from offset - 0} (omega arith)))
    ]

    -- For such a file `remove_cache` is called after it has been read exactly if it was last accessed
    -- more than a week ago and its content does not have the hash of its name, whatever part was asked
    -- for. Whether the call removes the file is left open here.
    pub get_file-removed :
        (get_file sha1 hash size v offset).remove_called
        ≡ not (leb (v.now - week) s.mtime) && not (bytes_eq (sha1 content) hash)
    unfolding get_file
    get_file-removed = elim (Bool-cases (leb (v.now - week) s.mtime)) [
      | inl q ↦ rw (s.metadata, fresh_file q, q)
      | inr q ↦ rw (s.metadata, old_file q, q, (verified offset).whole) (unfold corrupt in refl)
    ]
