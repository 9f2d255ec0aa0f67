-- ===== src/Download/Tests.antt =====
-- The download of four bytes: a stream that breaks off, one that goes through, and a refusal.
use hath_rust.Prelude.{◌≡◌, refl, true, [], ◌∷◌, some, bytes_eq, length, inl, inr}
use hath_rust.Samples.{pad, content}
use hath_rust.Download.{
  received, broken, wrote, lost, fill, refused, streamed, Attempt, start, write_at, fresh_part,
  store_lost, receive_unheard, store, receive, after_stream, try, tries, download,
}
use hath_rust.Download.Integrity.{download_verified}
use hath_rust.Download.Completes.{download_completes}

abbrev first : Attempt
first = record {
  opened = true;
  sought = true;
  answer = streamed (received (1 ∷ 2 ∷ []) wrote ∷ broken ∷ []) true;
}

abbrev second : Attempt
second = record {
  opened = true;
  sought = true;
  answer = streamed (received (1 ∷ []) wrote ∷ received (2 ∷ 3 ∷ 4 ∷ []) wrote ∷ []) true;
}

abbrev third : Attempt
third = record { opened = true; sought = true; answer = refused true }

downloaded : download pad 4 (pad content) true true (first, second, third) ≡ some content
unfolding download start tries try fill after_stream receive store fresh_part write_at pad bytes_eq
downloaded = refl

download_verified_example : (pad content ≡ pad content) × (length content ≡ 4)
download_verified_example =
    download_verified pad 4 (pad content) true true first second third content (tt, (tt, (tt, tt)))
      downloaded

-- The second byte of a block is lost, and the stream breaks off: nobody is told, the next try goes on
-- behind the block, and the file that is imported has a zero where the byte was.
abbrev losing : Attempt
losing = record {
  opened = true;
  sought = true;
  answer = streamed (received (1 ∷ 2 ∷ []) (lost 1) ∷ broken ∷ []) true;
}

downloaded_with_a_hole :
    download pad 4 (pad content) true true (losing, second, third) ≡ some (1 ∷ 0 ∷ 3 ∷ 4 ∷ [])
unfolding download start tries try fill after_stream receive receive_unheard store_lost store
    fresh_part write_at pad bytes_eq
downloaded_with_a_hole = refl

download_completes_example :
    download pad (length content) (pad content) true true (first, second, third) ≡ some content
download_completes_example =
    download_completes pad content true first second third
      (
        ((3 ∷ 4 ∷ [], refl), ((refl, tt), refl)),
        ((([], refl), ((refl, (refl, tt)), refl)), (tt, tt)),
      )
      (inr (inl (refl, refl, (tt, refl))))
