-- ===== src/Gallery/Names.antt =====
-- The tests of the names of a gallery (src/gallery_downloader.rs), and the cleaning of its title.
use hath_rust.Prelude.{
  ℕ, Bool, true, false, not, ◌&&◌, ◌||◌, List, [], ◌∷◌, Bytes, codes, bytes_eq, length, leb, ◌==◌,
  if◌then◌else◌,
}
use hath_rust.Text.{split, starts_with, is_empty}

-- `^(jpg|gif|png|webp)$`.
unfoldable pub allow_filetype : Bytes → Bool
allow_filetype s =
    bytes_eq s (codes "jpg")
    || bytes_eq s (codes "gif")
    || bytes_eq s (codes "png")
    || bytes_eq s (codes "webp")

abbrev pub every : (ℕ → Bool) → Bytes → Bool
every test [] = true
every test (c ∷ s) = test c && every test s

unfoldable pub is_digit : ℕ → Bool
is_digit c = leb b'0' c && leb c b'9'

-- `[a-zA-Z0-9._-]`.
unfoldable pub is_name_char : ℕ → Bool
unfolding is_digit
is_name_char c =
    (leb b'a' c && leb c b'z')
    || (leb b'A' c && leb c b'Z')
    || is_digit c
    || c == b'.'
    || c == b'_'
    || c == b'-'

-- `^[a-zA-Z0-9._-]{1,250}$`.
unfoldable pub allow_filename : Bytes → Bool
unfolding is_name_char
allow_filename s = every is_name_char s && leb 1 (length s) && leb (length s) 250

-- `^(?:org|\d+)$`.
unfoldable pub is_minxres : Bytes → Bool
unfolding is_digit
is_minxres s = bytes_eq s (codes "org") || (every is_digit s && not (is_empty s))

hex_char : ℕ → Bool
unfolding is_digit
hex_char c = (leb b'a' c && leb c b'f') || is_digit c

-- `^[a-f0-9]{40}$`.
unfoldable pub is_dl_hash : Bytes → Bool
unfolding hex_char
is_dl_hash s = every hex_char s && length s == 40

-- The parts of a path between the slashes, without the empty ones.
unfoldable pub nonempty : List Bytes → List Bytes
nonempty [] = []
nonempty (p ∷ ps) = if is_empty p then nonempty ps else p ∷ nonempty ps

all_dots : List Bytes → Bool
all_dots [] = true
all_dots (p ∷ ps) = bytes_eq p (codes ".") && all_dots ps

-- One normal component, and no other: a `.` behind the first component is none.
unfoldable pub one_normal : List Bytes → Bool
unfolding all_dots
one_normal [] = false
one_normal (p ∷ ps) = not (bytes_eq p (codes ".")) && not (bytes_eq p (codes "..")) && all_dots ps

-- `is_safe_path`, on the paths of Unix: the first component is normal, and it is the only one.
unfoldable pub is_safe_path : Bytes → Bool
unfolding nonempty one_normal
is_safe_path name = not (starts_with name (codes "/")) && one_normal (nonempty (split b'/' name))

-- `[*"\\<>:|?/]`.
unfoldable pub is_removed : ℕ → Bool
is_removed c =
    c == b'*'
    || c == 34
    || c == 92
    || c == b'<'
    || c == b'>'
    || c == b':'
    || c == b'|'
    || c == b'?'
    || c == b'/'

unfoldable pub strip : Bytes → Bytes
strip [] = []
strip (c ∷ s) = if is_removed c then strip s else c ∷ strip s

-- `\s`: tab, line feed, vertical tab, form feed, carriage return and space.
unfoldable pub is_space : ℕ → Bool
is_space c = c == b' ' || (leb 9 c && leb c 13)

-- Each run of spaces becomes one; the flag says that one has just been put.
unfoldable pub collapse : Bool → Bytes → Bytes
collapse spaced [] = []
collapse spaced (c ∷ s) =
    let more = collapse true s in
    let next = collapse false s in
    if is_space c then (if spaced then more else b' ' ∷ more) else c ∷ next

unfoldable pub trim_start : Bytes → Bytes
trim_start [] = []
trim_start (c ∷ s) = let rest = trim_start s in if is_space c then rest else c ∷ s

unfoldable pub trim_end : Bytes → Bytes
trim_end [] = []
trim_end (c ∷ s) = let rest = trim_end s in if is_space c && is_empty rest then [] else c ∷ rest

-- The title as the directory's name holds it.
unfoldable pub clean_title : Bytes → Bytes
unfolding strip collapse trim_start trim_end
clean_title s = trim_end (trim_start (collapse false (strip s)))
