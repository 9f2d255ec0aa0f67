-- ===== src/FileId/RoundTrip.antt =====
-- Parsing a file identifier, and parsing the file name that is made from it.
use hath_rust.Prelude.{
  ℕ, ◌≤◌, ◌≡◌, refl, sym, ◌∙◌, ap, List, [], ◌∷◌, ◌++◌, Option, none, some, Bytes, codes,
  bytes_eq_iff, length, All, Lacks, ltb, if◌then◌else◌, ◌>>=◌, arith, Bool-cases, inl, inr,
}
use mathlib.Core.Path.{subst}
use mathlib.Core.Option.{some-injective}
use hath_rust.Text.{split, join}
use hath_rust.Text.Split.{split-append, split_lacking, split-Lacks}
use hath_rust.Text.Decimal.{
  parse_uint, show, parse_uint-show, parse_uint_bound, show-IsDigit, IsDigit,
}
use hath_rust.FileId.Hex.{HexCodec, IsByte}
use hath_rust.FileId.{
  as_str, from_str, CacheFileInfo, u32_max, dash, from_parts, from_file_id, filename, to_path,
}

-- A type that `from_str` makes prints the text that it was made from.
pub as_str-from_str : (s : Bytes) → as_str (from_str s) ≡ s
unfolding as_str from_str
as_str-from_str s = ground (
  arith,
  bytes_eq_iff s (codes "jpg"),
  bytes_eq_iff s (codes "png"),
  bytes_eq_iff s (codes "gif"),
  bytes_eq_iff s (codes "mp4"),
  bytes_eq_iff s (codes "wbm"),
  bytes_eq_iff s (codes "wbp"),
  bytes_eq_iff s (codes "avf"),
  bytes_eq_iff s (codes "jxl"),
)

-- What every parsed identifier satisfies.
pub record IsValid (info : CacheFileInfo) : Type 0 where
  pub hash_length : length info.hash ≡ 20
  pub hash_bytes : All IsByte info.hash
  pub size_fits : info.size ≤ u32_max
  pub xres_fits : info.xres ≤ u32_max
  pub yres_fits : info.yres ≤ u32_max
  pub type_canonical : from_str (as_str info.mime_type) ≡ info.mime_type
  pub type_Lacks : Lacks dash (as_str info.mime_type)

IsDigit-Lacks : (s : Bytes) → All IsDigit s → Lacks dash s
IsDigit-Lacks [] a = tt
IsDigit-Lacks (c ∷ s) a = ((λ e. omega (arith, a.0, e)), IsDigit-Lacks s a.1)

show-Lacks : (n : ℕ) → Lacks dash (show n)
show-Lacks n = IsDigit-Lacks (show n) (show-IsDigit n)

-- An identifier with no resolution keeps no second one either.
unfoldable pub canonical : CacheFileInfo → CacheFileInfo
canonical info = if ltb 0 info.xres then info else record info { yres = 0 }

module _ (hex : HexCodec) (info : CacheFileInfo) (v : IsValid info) where
  split_three :
      split dash (hex.encode info.hash ++ dash ∷ (show info.size ++ dash ∷ as_str info.mime_type))
      ≡ hex.encode info.hash ∷ show info.size ∷ as_str info.mime_type ∷ []
  split_three =
      split-append dash (hex.encode info.hash) _ (hex.encode-Lacks info.hash)
      ∙ ap (λ t. hex.encode info.hash ∷ t)
          (split-append dash (show info.size) _ (show-Lacks info.size)
            ∙ ap (λ t. show info.size ∷ t)
                (split_lacking dash (as_str info.mime_type) v.type_Lacks))

  split_five :
      split dash (
        hex.encode info.hash
        ++ dash
          ∷ (show info.size
              ++ dash
                ∷ (show info.xres ++ dash ∷ (show info.yres ++ dash ∷ as_str info.mime_type))))
      ≡ hex.encode info.hash
        ∷ show info.size
        ∷ show info.xres
        ∷ show info.yres
        ∷ as_str info.mime_type
        ∷ []
  split_five =
      split-append dash (hex.encode info.hash) _ (hex.encode-Lacks info.hash)
      ∙ ap (λ t. hex.encode info.hash ∷ t)
          (split-append dash (show info.size) _ (show-Lacks info.size)
            ∙ ap (λ t. show info.size ∷ t)
                (split-append dash (show info.xres) _ (show-Lacks info.xres)
                  ∙ ap (λ t. show info.xres ∷ t)
                      (split-append dash (show info.yres) _ (show-Lacks info.yres)
                        ∙ ap (λ t. show info.yres ∷ t)
                            (split_lacking dash (as_str info.mime_type) v.type_Lacks))))

  from_parts_three :
      from_parts hex (hex.encode info.hash ∷ show info.size ∷ as_str info.mime_type ∷ [])
      ≡ some (record info { xres = 0; yres = 0 })
  unfolding from_parts
  from_parts_three = rw (
    hex.decode-encode info.hash v.hash_length v.hash_bytes,
    parse_uint-show u32_max info.size v.size_fits,
    v.type_canonical,
  )

  from_parts_five :
      from_parts hex (
        hex.encode info.hash
        ∷ show info.size
        ∷ show info.xres
        ∷ show info.yres
        ∷ as_str info.mime_type
        ∷ [])
      ≡ some info
  unfolding from_parts
  from_parts_five = simp (
    hex.decode-encode info.hash v.hash_length v.hash_bytes,
    parse_uint-show u32_max info.size v.size_fits,
    parse_uint-show u32_max info.xres v.xres_fits,
    parse_uint-show u32_max info.yres v.yres_fits,
    v.type_canonical,
  )

  -- The name under which a valid file is stored is parsed back to the same file, up to a second
  -- resolution beside a first one of 0, which the name does not hold.
  pub from_file_id-filename : from_file_id hex (filename hex info) ≡ some (canonical info)
  unfolding from_file_id filename join canonical
  from_file_id-filename = elim (Bool-cases (ltb 0 info.xres)) [
    | inl e ↦ rw e (rw split_five from_parts_five)
    | inr e ↦ rw e (rw split_three (from_parts_three ∙ ground arith))
  ]

  -- The name and the path of the file that is parsed back are the ones it was read from.
  pub to_path-canonical : to_path hex (canonical info) ≡ to_path hex info
  unfolding to_path filename canonical
  to_path-canonical = ground arith

-- The fields of an identifier, each as it was parsed.
assemble : Option Bytes → Option ℕ → Option ℕ → Option ℕ → Bytes → Option CacheFileInfo
assemble h s x y t = do
  hash ← h
  size ← s
  xres ← x
  yres ← y
  some (record { hash = hash; size = size; xres = xres; yres = yres; mime_type = from_str t })

Fits : Option ℕ → Type 0
Fits o = (n : ℕ) → o ≡ some n → n ≤ u32_max

assemble-IsValid :
    (h : Option Bytes) (s x y : Option ℕ) (t : Bytes) (info : CacheFileInfo)
    → ((b : Bytes) → h ≡ some b → (length b ≡ 20) × All IsByte b)
    → Fits s
    → Fits x
    → Fits y
    → Lacks dash t
    → assemble h s x y t ≡ some info
    → IsValid info
unfolding assemble Fits
assemble-IsValid none s x y t info fh fs fx fy l e = cc
assemble-IsValid (some b) none x y t info fh fs fx fy l e = cc
assemble-IsValid (some b) (some s) none y t info fh fs fx fy l e = cc
assemble-IsValid (some b) (some s) (some x) none t info fh fs fx fy l e = cc
assemble-IsValid (some b) (some s) (some x) (some y) t info fh fs fx fy l e =
    let made : CacheFileInfo = record {
      hash = b;
      size = s;
      xres = x;
      yres = y;
      mime_type = from_str t;
    } in
    let same : made ≡ info = cc e in
    subst IsValid same (record {
      hash_length = (fh b refl).0;
      hash_bytes = (fh b refl).1;
      size_fits = fs s refl;
      xres_fits = fx x refl;
      yres_fits = fy y refl;
      type_canonical = ap from_str (as_str-from_str t);
      type_Lacks = subst (Lacks dash) (sym (as_str-from_str t)) l;
    })

assemble-type :
    (h : Option Bytes) (s x y : Option ℕ) (t : Bytes) (info : CacheFileInfo)
    → assemble h s x y t ≡ some info
    → as_str info.mime_type ≡ t
unfolding assemble
assemble-type none s x y t info e = absurd cc
assemble-type (some b) none x y t info e = absurd cc
assemble-type (some b) (some s) none y t info e = absurd cc
assemble-type (some b) (some s) (some x) none t info e = absurd cc
assemble-type (some b) (some s) (some x) (some y) t info e =
    subst (λ (i : CacheFileInfo). as_str i.mime_type ≡ t) (some-injective _ _ e) (as_str-from_str t)

-- The part of an identifier that names the type: the third one of three, the fifth one of more.
abbrev pub type_part : List Bytes → Bytes
type_part [] = []
type_part (h ∷ []) = []
type_part (h ∷ s ∷ []) = []
type_part (h ∷ s ∷ t ∷ []) = t
type_part (h ∷ s ∷ x ∷ t ∷ []) = []
type_part (h ∷ s ∷ x ∷ y ∷ t ∷ rest) = t

zero-Fits : Fits (some 0)
unfolding Fits
zero-Fits n e = ground arith

parse_uint-Fits : (s : Bytes) → Fits (parse_uint u32_max s)
unfolding Fits
parse_uint-Fits s n e = parse_uint_bound u32_max s n e

module _ (hex : HexCodec) where
  from_parts-short : (h s x t : Bytes) → from_parts hex (h ∷ s ∷ x ∷ t ∷ []) ≡ none
  unfolding from_parts
  from_parts-short h s x t = ground arith

  from_parts-five :
      (h s x y t : Bytes) (rest : List Bytes)
      → from_parts hex (h ∷ s ∷ x ∷ y ∷ t ∷ rest)
        ≡ assemble
            (hex.decode20 h)
            (parse_uint u32_max s)
            (parse_uint u32_max x)
            (parse_uint u32_max y)
            t
  unfolding from_parts assemble
  from_parts-five h s x y t rest = ground arith

  from_parts-IsValid :
      (parts : List Bytes) (info : CacheFileInfo)
      → All (Lacks dash) parts
      → from_parts hex parts ≡ some info
      → IsValid info
  unfolding from_parts
  from_parts-IsValid [] info a e = cc
  from_parts-IsValid (h ∷ []) info a e = absurd (ground arith)
  from_parts-IsValid (h ∷ s ∷ []) info a e = absurd (ground arith)
  from_parts-IsValid (h ∷ s ∷ t ∷ []) info a e =
      assemble-IsValid (hex.decode20 h) (parse_uint u32_max s) (some 0) (some 0) t info
        (hex.decode20_length h) (parse_uint-Fits s) zero-Fits zero-Fits a.1.1.0
        (unfold assemble in e)
  from_parts-IsValid (h ∷ s ∷ x ∷ t ∷ []) info a e = absurd (cc (from_parts-short h s x t))
  from_parts-IsValid (h ∷ s ∷ x ∷ y ∷ t ∷ rest) info a e =
      assemble-IsValid (hex.decode20 h) (parse_uint u32_max s) (parse_uint u32_max x)
        (parse_uint u32_max y) t info (hex.decode20_length h) (parse_uint-Fits s)
        (parse_uint-Fits x) (parse_uint-Fits y) a.1.1.1.1.0
        (sym (from_parts-five h s x y t rest) ∙ e)

  from_parts-type :
      (parts : List Bytes) (info : CacheFileInfo)
      → from_parts hex parts ≡ some info
      → as_str info.mime_type ≡ type_part parts
  unfolding from_parts
  from_parts-type [] info e = absurd cc
  from_parts-type (h ∷ []) info e = absurd (ground arith)
  from_parts-type (h ∷ s ∷ []) info e = absurd (ground arith)
  from_parts-type (h ∷ s ∷ t ∷ []) info e =
      assemble-type (hex.decode20 h) (parse_uint u32_max s) (some 0) (some 0) t info
        (unfold assemble in e)
  from_parts-type (h ∷ s ∷ x ∷ t ∷ []) info e = absurd (cc (from_parts-short h s x t))
  from_parts-type (h ∷ s ∷ x ∷ y ∷ t ∷ rest) info e =
      assemble-type (hex.decode20 h) (parse_uint u32_max s) (parse_uint u32_max x)
        (parse_uint u32_max y) t info (sym (from_parts-five h s x y t rest) ∙ e)

  -- Whatever text is parsed, the result is in range: a hash of 20 bytes, numbers of 32 bits, and a
  -- type that is parsed back from its text, which has no dash. This text is the part of the
  -- identifier that names the type: the third one of three, the fifth one of more.
  pub from_file_id-IsValid :
      (id : Bytes) (info : CacheFileInfo)
      → from_file_id hex id ≡ some info
      → IsValid info × (as_str info.mime_type ≡ type_part (split dash id))
  unfolding from_file_id
  from_file_id-IsValid id info e = (
    from_parts-IsValid (split dash id) info (split-Lacks dash id) e,
    from_parts-type (split dash id) info e,
  )

  -- A file identifier that is accepted names one path: the file name under which the file is
  -- stored is accepted too, and what it is parsed to has the same path.
  pub to_path_stable :
      (id : Bytes) (info : CacheFileInfo)
      → from_file_id hex id ≡ some info
      → (again : CacheFileInfo) × (from_file_id hex (to_path hex info).filename ≡ some again)
        × (to_path hex again ≡ to_path hex info)
  to_path_stable id info e =
      let v = (from_file_id-IsValid id info e).0 in
      (
        canonical info,
        unfold to_path in from_file_id-filename hex info v,
        to_path-canonical hex info v,
      )
