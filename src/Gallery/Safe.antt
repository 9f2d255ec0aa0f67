-- ===== src/Gallery/Safe.antt =====
-- What is downloaded stays in the gallery's directory.
use hath_rust.Prelude.{
  ℕ, ◌≤◌, ◌≡◌, ◌≢◌, ◌⊎◌, inl, inr, refl, ap, true, false, not, ◌||◌, List, [], ◌∷◌, ◌++◌, Option,
  none, some, Bytes, codes, bytes_eq, bytes_eq→eq, length, All, Lacks, arith, Bool-cases,
}
use mathlib.Core.Path.{subst}
use hath_rust.Text.{is_empty, splitn, split, starts_with}
use hath_rust.FileId.Hex.{HexCodec}
use hath_rust.Crypto.{Crypto, string_to_hash}
use hath_rust.Gallery.Names.{
  allow_filetype, allow_filename, every, is_name_char, is_digit, is_safe_path, nonempty, one_normal,
}
use hath_rust.Gallery.Titles.{slash, clean_title-Lacks}
use hath_rust.Gallery.{
  GalleryFile, Parser, Step, parsed, failed, panicked, new, metadata_value, metadata_line, set_gid,
  set_filecount, add_file, file_fields, file_parts, page_only, line, lines_of, checked, parser,
}

-- A name of one normal component of a path.
pub record IsSafe (f : GalleryFile) : Type 0 where
  pub name_Lacks : Lacks slash f.filename
  pub type_Lacks : Lacks slash f.filetype
  pub allowed : allow_filetype f.filetype ≡ true
  pub not_here : f.filename ≢ codes "."
  pub not_above : f.filename ≢ codes ".."
  pub not_empty : 1 ≤ length f.filename
  pub short : length f.filename ≤ 250

every-Lacks : (s : Bytes) → every is_name_char s ≡ true → Lacks slash s
unfolding is_name_char is_digit
every-Lacks [] e = tt
every-Lacks (c ∷ s) e =
    let facts : (c ≢ slash) × (every is_name_char s ≡ true) = ground arith in
    (facts.0, every-Lacks s facts.1)

filename_chars :
    (s : Bytes)
    → allow_filename s ≡ true
    → (every is_name_char s ≡ true) × ((1 ≤ length s) × (length s ≤ 250))
unfolding allow_filename
filename_chars s e = ground arith

pub one_of :
    (s : Bytes)
    → allow_filetype s ≡ true
    → (s ≡ codes "jpg") ⊎ ((s ≡ codes "gif") ⊎ ((s ≡ codes "png") ⊎ (s ≡ codes "webp")))
unfolding allow_filetype
one_of s e = ground (
  arith,
  bytes_eq→eq s (codes "jpg"),
  bytes_eq→eq s (codes "gif"),
  bytes_eq→eq s (codes "png"),
  bytes_eq→eq s (codes "webp"),
)

filetype-Lacks : (s : Bytes) → allow_filetype s ≡ true → Lacks slash s
filetype-Lacks s e = go (one_of s e)
  where
    go :
        (s ≡ codes "jpg") ⊎ ((s ≡ codes "gif") ⊎ ((s ≡ codes "png") ⊎ (s ≡ codes "webp")))
        → Lacks slash s
    go (inl q) = rw q (omega arith, (omega arith, (omega arith, tt)))
    go (inr (inl q)) = rw q (omega arith, (omega arith, (omega arith, tt)))
    go (inr (inr (inl q))) = rw q (omega arith, (omega arith, (omega arith, tt)))
    go (inr (inr (inr q))) = rw q (omega arith, (omega arith, (omega arith, (omega arith, tt))))

here_unsafe : is_safe_path (codes ".") ≡ false
unfolding is_safe_path nonempty one_normal split starts_with bytes_eq
here_unsafe = refl

above_unsafe : is_safe_path (codes "..") ≡ false
unfolding is_safe_path nonempty one_normal split starts_with bytes_eq
above_unsafe = refl

-- What the parser holds at any time: safe names, and a title with no slash.
abbrev IsGood : Parser → Type 0
IsGood p = All IsSafe p.gallery_files × Lacks slash p.title

abbrev Good : Step → Type 0
Good failed = Unit
Good panicked = Unit
Good (parsed p) = IsGood p

All-snoc :
    (fs : List GalleryFile) (f : GalleryFile) → All IsSafe fs → IsSafe f → All IsSafe (fs ++ f ∷ [])
All-snoc [] f a s = (s, tt)
All-snoc (g ∷ fs) f a s = (a.0, All-snoc fs f a.1 s)

metadata_value-Good :
    (name value : Bytes) (p : Parser) → IsGood p → Good (metadata_value name value p)
unfolding metadata_value set_gid set_filecount
metadata_value-Good name value p g = ground (arith, g.0, g.1, clean_title-Lacks value)

metadata_line-Good : (parts : List Bytes) (p : Parser) → IsGood p → Good (metadata_line parts p)
unfolding metadata_line
metadata_line-Good [] p g = tt
metadata_line-Good (name ∷ []) p g = ground (arith, g.0, g.1)
metadata_line-Good (name ∷ value ∷ rest) p g = metadata_value-Good name value p g

module _ (hex : HexCodec) where
  add_file-Good :
      (page index : ℕ) (xres : Bytes) (hash : Option Bytes) (filetype : Bytes) (rest : List Bytes)
      (p : Parser)
      → IsGood p
      → Good (add_file hex page index xres hash filetype rest p)
  unfolding add_file
  add_file-Good page index xres hash filetype [] p g = ground arith
  add_file-Good page index xres hash filetype (filename ∷ rest) p g =
      elim (Bool-cases (allow_filetype filetype)) [
        | inr q ↦ rw q tt
        | inl q ↦ elim (Bool-cases (is_safe_path filename)) [
          | inr r ↦ rw (q, r) tt
          | inl r ↦ elim (Bool-cases (allow_filename filename)) [
            | inr t ↦ rw (q, r, t) tt
            | inl t ↦
                let (chars, bounds) = filename_chars filename t in
                rw (q, r, t)
                  (
                    All-snoc p.gallery_files _ g.0 (record {
                      name_Lacks = every-Lacks filename chars;
                      type_Lacks = filetype-Lacks filetype q;
                      allowed = q;
                      not_here = λ e. cc (r, here_unsafe, ap is_safe_path e);
                      not_above = λ e. cc (r, above_unsafe, ap is_safe_path e);
                      not_empty = bounds.0;
                      short = bounds.1;
                    }),
                    g.1,
                  )
          ]
        ]
      ]

  file_fields-Good :
      (page index : Option ℕ) (rest : List Bytes) (p : Parser)
      → IsGood p
      → Good (file_fields hex page index rest p)
  unfolding file_fields
  file_fields-Good none index rest p g = tt
  file_fields-Good (some page) none rest p g = tt
  file_fields-Good (some page) (some index) [] p g = tt
  file_fields-Good (some page) (some index) (a ∷ []) p g = tt
  file_fields-Good (some page) (some index) (a ∷ b ∷ []) p g = tt
  file_fields-Good (some page) (some index) (xres ∷ hash ∷ filetype ∷ rest) p g =
      add_file-Good page index xres (hex.decode20 hash) filetype rest p g

  file_parts-Good : (parts : List Bytes) (p : Parser) → IsGood p → Good (file_parts hex parts p)
  unfolding file_parts page_only
  file_parts-Good [] p g = tt
  file_parts-Good (page ∷ []) p g = ground arith
  file_parts-Good (page ∷ index ∷ rest) p g = file_fields-Good _ _ rest p g

  line-Good : (s : Bytes) (p : Parser) → IsGood p → Good (line hex s p)
  unfolding line
  line-Good s p g = ground (
    arith,
    g.0,
    g.1,
    metadata_line-Good (splitn 2 b' ' s) p,
    file_parts-Good (splitn 6 b' ' s) (record p { hash_body = p.hash_body ++ (10 ∷ s) }),
  )

  lines_of-Good : (lines : List Bytes) (p : Parser) → IsGood p → Good (lines_of hex lines p)
  unfolding lines_of
  lines_of-Good [] p g = g
  lines_of-Good (s ∷ rest) p g = go (line hex s p) (line-Good s p g) (λ q k. lines_of-Good rest q k)
    where
      go :
          (r : Step)
          → Good r
          → ((q : Parser) → IsGood q → Good (lines_of hex rest q))
          → Good (elim r [ failed ↦ failed | panicked ↦ panicked | parsed q ↦ lines_of hex rest q ])
      go failed k ih = tt
      go panicked k ih = tt
      go (parsed q) k ih = ih q k

new-Good : (key : Bytes) → IsGood (new key)
unfolding new
new-Good key = (tt, tt)

-- What passes the last check: all that was parsed, and its hash is right.
checked-parsed :
    (c : Crypto) (r : Step) (p : Parser)
    → checked c r ≡ parsed p
    → (r ≡ parsed p) × (string_to_hash c p.hash_body ≡ p.dl_hash)
unfolding checked
checked-parsed c failed p e = cc
checked-parsed c panicked p e = cc
checked-parsed c (parsed q) p e =
    elim (Bool-cases
      (is_empty q.dl_hash || not (bytes_eq (string_to_hash c q.hash_body) q.dl_hash))) [
        | inl x ↦ absurd (cc (rw x at e))
        | inr x ↦
            let same : parsed q ≡ parsed p = rw x at e in
            let right : string_to_hash c q.hash_body ≡ q.dl_hash =
              ground (arith, bytes_eq→eq (string_to_hash c q.hash_body) q.dl_hash) in
            (same, cc (same, right))
      ]

-- A description that is accepted names only files that stay in the gallery's directory: each name
-- is one normal component of a path, of 1 to 250 bytes, and no type and no title holds a slash.
-- The hash that the description states is the hash of the text that the parser has collected.
pub parser-IsSafe :
    (c : Crypto) (key : Bytes) (raw_gallery : List Bytes) (p : Parser)
    → parser c key raw_gallery ≡ parsed p
    → All IsSafe p.gallery_files × Lacks slash p.title × (string_to_hash c p.hash_body ≡ p.dl_hash)
unfolding parser
parser-IsSafe c key raw_gallery p e =
    let (done, hash) = checked-parsed c (lines_of c.hex raw_gallery (new key)) p e in
    let good = subst Good done (lines_of-Good c.hex raw_gallery (new key) (new-Good key)) in
    (good.0, good.1, hash)
