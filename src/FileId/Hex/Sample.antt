-- ===== src/FileId/Hex/Sample.antt =====
-- The interface of the hex codec, and lower-case hexadecimal as a value of it.
use hath_rust.Prelude.{
  ℕ, zero, suc, ◌+◌, ◌-◌, ◌*◌, ◌/◌, ◌%◌, ◌<◌, ◌≡◌, refl, ◌&&◌, [], ◌∷◌, Option, none, some, Bytes,
  All, Lacks, length, take, ltb, leb, ◌==◌, if◌then◌else◌, ◌>>=◌, arith, Option-cases, inl, inr,
}
use mathlib.Core.Path.{subst}

abbrev pub IsByte : ℕ → Type 0
IsByte c = c < 256

pub record HexCodec : Type 0 where
  pub encode : Bytes → Bytes
  -- `decode_to_array::<20>`: `none` is any error.
  pub decode20 : Bytes → Option Bytes
  -- What `encode` prints is read back.
  pub decode-encode : (h : Bytes) → length h ≡ 20 → All IsByte h → decode20 (encode h) ≡ some h
  -- The digits are `0` to `9` and `a` to `f`: there is no dash among them.
  pub encode-Lacks : (h : Bytes) → Lacks b'-' (encode h)
  -- Two digits stand for each byte, in order.
  pub take-encode : (n : ℕ) (h : Bytes) → take (2 * n) (encode h) ≡ encode (take n h)
  -- What is decoded is 20 bytes.
  pub decode20_length : (s h : Bytes) → decode20 s ≡ some h → (length h ≡ 20) × All IsByte h

hex_digit : ℕ → ℕ
hex_digit d = if ltb d 10 then b'0' + d else b'a' + (d - 10)

hex_value : ℕ → Option ℕ
hex_value c =
    if leb b'0' c && leb c b'9'
    then some (c - b'0')
    else if leb b'a' c && leb c b'f'
    then some (c - b'a' + 10)
    else if leb b'A' c && leb c b'F'
    then some (c - b'A' + 10)
    else none

pub encode_hex : Bytes → Bytes
encode_hex [] = []
encode_hex (b ∷ h) = hex_digit (b / 16 % 16) ∷ hex_digit (b % 16) ∷ encode_hex h

decode_hex : Bytes → Option Bytes
decode_hex [] = some []
decode_hex (c ∷ []) = none
decode_hex (c ∷ d ∷ s) = do
  hi ← hex_value c
  lo ← hex_value d
  rest ← decode_hex s
  some ((hi * 16 + lo) ∷ rest)

exactly20 : Bytes → Option Bytes
exactly20 h = if length h == 20 then some h else none

hex_value-hex_digit : (d : ℕ) → d < 16 → hex_value (hex_digit d) ≡ some d
unfolding hex_value hex_digit
hex_value-hex_digit d h = ground arith

hex_digit-ne-dash : (d : ℕ) → ¬ (hex_digit d ≡ b'-')
unfolding hex_digit
hex_digit-ne-dash d = ground arith

hex_value_bound : (c v : ℕ) → hex_value c ≡ some v → v < 16
unfolding hex_value
hex_value_bound c v e = ground arith

decode_hex-encode_hex : (h : Bytes) → All IsByte h → decode_hex (encode_hex h) ≡ some h
unfolding decode_hex encode_hex
decode_hex-encode_hex [] a = refl
decode_hex-encode_hex (b ∷ h) a = ground (
  arith,
  decode_hex-encode_hex h a.1,
  hex_value-hex_digit (b / 16 % 16),
  hex_value-hex_digit (b % 16),
)

pub encode_hex-Lacks : (h : Bytes) → Lacks b'-' (encode_hex h)
unfolding encode_hex
encode_hex-Lacks [] = tt
encode_hex-Lacks (b ∷ h) =
    (hex_digit-ne-dash (b / 16 % 16), (hex_digit-ne-dash (b % 16), encode_hex-Lacks h))

pub take-encode_hex : (n : ℕ) (h : Bytes) → take (2 * n) (encode_hex h) ≡ encode_hex (take n h)
unfolding encode_hex
take-encode_hex zero h = refl
take-encode_hex (suc n) [] = let e : 2 * suc n ≡ suc (suc (2 * n)) = omega arith in rw e refl
take-encode_hex (suc n) (b ∷ h) =
    let e : 2 * suc n ≡ suc (suc (2 * n)) = omega arith in
    rw e (ground (arith, take-encode_hex n h))

push_pair : Option ℕ → Option ℕ → Option Bytes → Option Bytes
push_pair x y r = do hi ← x; lo ← y; rest ← r; some ((hi * 16 + lo) ∷ rest)

push_pair-IsByte :
    (x y : Option ℕ) (r : Option Bytes) (h : Bytes)
    → ((v : ℕ) → x ≡ some v → v < 16)
    → ((v : ℕ) → y ≡ some v → v < 16)
    → ((t : Bytes) → r ≡ some t → All IsByte t)
    → push_pair x y r ≡ some h
    → All IsByte h
unfolding push_pair
push_pair-IsByte none y r h bx by br e = cc
push_pair-IsByte (some v) none r h bx by br e = cc
push_pair-IsByte (some v) (some w) none h bx by br e = cc
push_pair-IsByte (some v) (some w) (some t) h bx by br e =
    let lt : v * 16 + w < 256 = omega (arith, bx v refl, by w refl) in
    let eh : (v * 16 + w) ∷ t ≡ h = cc e in subst (All IsByte) eh (lt, br t refl)

decode_hex-IsByte : (s h : Bytes) → decode_hex s ≡ some h → All IsByte h
unfolding decode_hex
decode_hex-IsByte [] h e = let eh : [] ≡ h = cc e in subst (All IsByte) eh tt
decode_hex-IsByte (c ∷ []) h e = cc
decode_hex-IsByte (c ∷ d ∷ s) h e =
    push_pair-IsByte (hex_value c) (hex_value d) (decode_hex s) h (hex_value_bound c)
      (hex_value_bound d) (decode_hex-IsByte s) (unfold push_pair in e)

exactly20-length : (t h : Bytes) → exactly20 t ≡ some h → (length h ≡ 20) × (t ≡ h)
unfolding exactly20
exactly20-length t h e = ground arith

pub decode20_hex : Bytes → Option Bytes
decode20_hex s = decode_hex s >>= exactly20

pub decode20_hex-encode_hex :
    (h : Bytes) → length h ≡ 20 → All IsByte h → decode20_hex (encode_hex h) ≡ some h
unfolding decode20_hex exactly20
decode20_hex-encode_hex h l a = rw (decode_hex-encode_hex h a) (ground arith)

pub decode20_hex-length : (s h : Bytes) → decode20_hex s ≡ some h → (length h ≡ 20) × All IsByte h
unfolding decode20_hex
decode20_hex-length s h e = elim (Option-cases (decode_hex s)) [
  | inl q ↦ absurd (cc (rw q at e))
  | inr (t, q) ↦
      let (l, th) = exactly20-length t h (rw q at e) in
      (l, subst (All IsByte) th (decode_hex-IsByte s t q))
]

unfoldable pub sample : HexCodec
unfolding decode20_hex decode_hex encode_hex exactly20 hex_value hex_digit
sample = record {
  encode = encode_hex;
  decode20 = decode20_hex;
  decode-encode = decode20_hex-encode_hex;
  encode-Lacks = encode_hex-Lacks;
  take-encode = take-encode_hex;
  decode20_length = decode20_hex-length;
}
