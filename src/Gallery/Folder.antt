-- ===== src/Gallery/Folder.antt =====
-- The name of a gallery's directory in `run` of src/gallery_downloader.rs. The positions of the
-- graphemes of a title are those of `unicode_segmentation`, an argument; lengths are a usize of 64
-- bits, which wraps around in the release build.
use hath_rust.Prelude.{
  ℕ, ◌+◌, ◌-◌, ◌/◌, ◌%◌, ◌^◌, ◌≤◌, ◌≡◌, ◌&&◌, ◌||◌, List, [], ◌∷◌, ◌++◌, Bytes, codes, length, take,
  ltb, leb, ◌==◌, if◌then◌else◌, arith, Bool-cases, inl, inr, length-append, length-take,
}

-- `chars().count()`: the bytes that begin a character.
abbrev pub chars_count : Bytes → ℕ
chars_count [] = 0
chars_count (b ∷ bs) = (if b / 64 == 2 then 0 else 1) + chars_count bs

-- The loop over the positions of the graphemes, from the given index on.
unfoldable pub search_pos : ℕ → ℕ → List ℕ → ℕ → ℕ → ℕ
search_pos max_chars max_bytes [] index truncate_pos = truncate_pos
search_pos max_chars max_bytes (pos ∷ rest) index truncate_pos =
    let later = search_pos max_chars max_bytes rest (index + 1) pos in
    if ltb max_chars (index + 3) || ltb max_bytes (pos + 3) then truncate_pos else later

-- The name for a title and its suffix.
unfoldable pub directory_name : (Bytes → List ℕ) → Bytes → Bytes → Bytes
unfolding search_pos
directory_name grapheme_indices title name_suffix =
    let max_chars = (125 + 2 ^ 64 - length name_suffix) % 2 ^ 64 in
    let max_bytes = (255 + 2 ^ 64 - length name_suffix) % 2 ^ 64 in
    let pos = search_pos max_chars max_bytes (grapheme_indices title) 0 0 in
    if leb (chars_count title) max_chars && leb (length title) max_bytes
    then title ++ name_suffix
    else take pos title ++ (codes "..." ++ name_suffix)

search_pos-le :
    (max_chars max_bytes : ℕ) (positions : List ℕ) (index truncate_pos : ℕ)
    → truncate_pos + 3 ≤ max_bytes
    → search_pos max_chars max_bytes positions index truncate_pos + 3 ≤ max_bytes
unfolding search_pos
search_pos-le max_chars max_bytes [] index truncate_pos h = h
search_pos-le max_chars max_bytes (pos ∷ rest) index truncate_pos h =
    elim (Bool-cases (ltb max_chars (index + 3) || ltb max_bytes (pos + 3))) [
      | inl q ↦ rw q h
      | inr q ↦ rw q (search_pos-le max_chars max_bytes rest (index + 1) pos (ground arith))
    ]

-- The name of a gallery's directory has at most 255 bytes, whatever the title is and wherever its
-- graphemes begin, if the suffix has at most 125.
pub directory_name-length :
    (grapheme_indices : Bytes → List ℕ) (title name_suffix : Bytes)
    → length name_suffix ≤ 125
    → length (directory_name grapheme_indices title name_suffix) ≤ 255
unfolding directory_name
directory_name-length grapheme_indices title name_suffix le =
    let max_chars = (125 + 2 ^ 64 - length name_suffix) % 2 ^ 64 in
    let max_bytes = (255 + 2 ^ 64 - length name_suffix) % 2 ^ 64 in
    let most : max_bytes + length name_suffix ≡ 255 = omega (arith, le) in
    let pos = search_pos max_chars max_bytes (grapheme_indices title) 0 0 in
    elim (Bool-cases (leb (chars_count title) max_chars && leb (length title) max_bytes)) [
      | inl q ↦
          let short : length title ≤ max_bytes = ground arith in
          rw q (omega (arith, length-append title name_suffix, short, most))
      | inr q ↦
          let within : pos + 3 ≤ max_bytes =
            search_pos-le max_chars max_bytes (grapheme_indices title) 0 0
              (omega (arith, most, le)) in
          rw q (
            omega (
              arith,
              length-append (take pos title) (codes "..." ++ name_suffix),
              length-append (codes "...") name_suffix,
              length-take pos title,
              within,
              most,
            ))
    ]
