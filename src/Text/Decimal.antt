-- ===== src/Text/Decimal.antt =====
-- Numbers as text: `str::parse` of the unsigned and signed types, and `Display`.
use hath_rust.Prelude.{
  ℕ, zero, suc, ◌+◌, ◌-◌, ◌*◌, ◌/◌, ◌%◌, ◌≤◌, ◌<◌, ◌≡◌, ◌≢◌, ◌∙◌, refl, ◌&&◌, [], ◌∷◌, Option, none,
  some, Bytes, All, ltb, leb, ◌==◌, if◌then◌else◌, arith, Bool-cases, inl, inr,
}
use hath_rust.Prelude.Int.{ℤ, pos, negsuc, pos_part, neg_part}

-- The digits of a number that must not pass `most`; `none` is an error of any kind.
pub parse_digits : ℕ → ℕ → Bytes → Option ℕ
parse_digits most n [] = some n
parse_digits most n (c ∷ s) =
    let m = n * 10 + (c - b'0') in
    let rest = parse_digits most m s in
    if leb b'0' c && leb c b'9' && leb m most then rest else none

-- What may stand behind the sign: one digit at least.
pub parse_number : ℕ → Bytes → Option ℕ
unfolding parse_digits
parse_number most [] = none
parse_number most (c ∷ s) = parse_digits most 0 (c ∷ s)

-- `s.parse::<uN>()`, with `most` the largest value: a plus sign is accepted.
unfoldable pub parse_uint : ℕ → Bytes → Option ℕ
unfolding parse_number
parse_uint most [] = none
parse_uint most (c ∷ s) = if c == b'+' then parse_number most s else parse_number most (c ∷ s)

minus : Option ℕ → Option ℤ
minus none = none
minus (some zero) = some (pos 0)
minus (some (suc n)) = some (negsuc n)

plus : Option ℕ → Option ℤ
plus none = none
plus (some n) = some (pos n)

-- `s.parse::<iN>()`, with `most` the largest value, so that -(most + 1) is the least.
unfoldable pub parse_int : ℕ → Bytes → Option ℤ
unfolding parse_uint parse_number minus plus
parse_int most [] = none
parse_int most (c ∷ s) =
    if c == b'-' then minus (parse_number (most + 1) s) else plus (parse_uint most (c ∷ s))

-- The decimal digits of a number, in front of `out`; the fuel is above the number.
pub show_from : ℕ → ℕ → Bytes → Bytes
show_from zero n out = out
show_from (suc fuel) n out =
    let d = b'0' + n % 10 in
    let rest = show_from fuel (n / 10) (d ∷ out) in if ltb n 10 then d ∷ out else rest

-- `n.to_string()`.
unfoldable pub show : ℕ → Bytes
unfolding show_from
show n = show_from (suc n) n []

unfoldable pub show_int : ℤ → Bytes
show_int (pos n) = show n
show_int (negsuc n) = b'-' ∷ show (suc n)

abbrev pub IsDigit : ℕ → Type 0
IsDigit c = (b'0' ≤ c) × (c ≤ b'9')

pub show_from-IsDigit :
    (fuel n : ℕ) (out : Bytes) → All IsDigit out → All IsDigit (show_from fuel n out)
unfolding show_from
show_from-IsDigit zero n out h = h
show_from-IsDigit (suc fuel) n out h = elim (Bool-cases (ltb n 10)) [
  | inl e ↦ rw e ((omega arith, omega arith), h)
  | inr e ↦ rw e (show_from-IsDigit fuel (n / 10) _ ((omega arith, omega arith), h))
]

pub show_from-ne-nil : (fuel n : ℕ) (out : Bytes) → out ≢ [] → show_from fuel n out ≢ []
unfolding show_from
show_from-ne-nil zero n out h = h
show_from-ne-nil (suc fuel) n out h =
    ground (arith, show_from-ne-nil fuel (n / 10) ((b'0' + n % 10) ∷ out))

pub show-IsDigit : (n : ℕ) → All IsDigit (show n)
unfolding show
show-IsDigit n = show_from-IsDigit (suc n) n [] tt

pub show-ne-nil : (n : ℕ) → show n ≢ []
unfolding show show_from
show-ne-nil n = ground (arith, show_from-ne-nil n (n / 10) ((b'0' + n % 10) ∷ []))

-- Reading the last digit of `n` behind the digits before it gives `n`.
parse_digits_last :
    (most n : ℕ) (out : Bytes)
    → n ≤ most
    → parse_digits most (n / 10) ((b'0' + n % 10) ∷ out) ≡ parse_digits most n out
unfolding parse_digits
parse_digits_last most n out h = ground arith

-- Reading the printed digits again.
pub parse_digits-show_from :
    (most fuel n : ℕ) (out : Bytes)
    → n < fuel
    → n ≤ most
    → parse_digits most 0 (show_from fuel n out) ≡ parse_digits most n out
unfolding show_from
parse_digits-show_from most zero n out lt h = absurd (omega arith)
parse_digits-show_from most (suc fuel) n out lt h = elim (Bool-cases (ltb n 10)) [
  | inl e ↦ let z : n / 10 ≡ 0 = ground arith in rw e (rw (← z) (parse_digits_last most n out h))
  | inr e ↦ rw e (
      parse_digits-show_from most fuel (n / 10) _ (ground arith) (omega arith)
      ∙ parse_digits_last most n out h)
]

parse_number-eq : (most : ℕ) (s : Bytes) → s ≢ [] → parse_number most s ≡ parse_digits most 0 s
unfolding parse_number
parse_number-eq most [] h = absurd (h refl)
parse_number-eq most (c ∷ s) h = refl

parse_uint_digits :
    (most : ℕ) (s : Bytes) → s ≢ [] → All IsDigit s → parse_uint most s ≡ parse_digits most 0 s
unfolding parse_uint
parse_uint_digits most [] h d = absurd (h refl)
parse_uint_digits most (c ∷ s) h d = ground arith

-- A number within the type's range is read back from its decimal print.
pub parse_uint-show : (most n : ℕ) → n ≤ most → parse_uint most (show n) ≡ some n
parse_uint-show most n h =
    parse_uint_digits most (show n) (show-ne-nil n) (show-IsDigit n)
    ∙ unfold show in
      (parse_digits-show_from most (suc n) n [] (omega arith) h ∙ unfold parse_digits in refl)

parse_digits_bound :
    (most n : ℕ) (s : Bytes) (r : ℕ) → n ≤ most → parse_digits most n s ≡ some r → r ≤ most
unfolding parse_digits
parse_digits_bound most n [] r h e = ground arith
parse_digits_bound most n (c ∷ s) r h e =
    ground (arith, parse_digits_bound most (n * 10 + (c - b'0')) s r)

-- What is parsed is in the type's range.
pub parse_uint_bound : (most : ℕ) (s : Bytes) (r : ℕ) → parse_uint most s ≡ some r → r ≤ most
unfolding parse_uint
parse_uint_bound most [] r e = cc
parse_uint_bound most (c ∷ []) r e = ground (arith, parse_digits_bound most 0 (c ∷ []) r)
parse_uint_bound most (c ∷ d ∷ s) r e =
    ground (arith, parse_digits_bound most 0 (c ∷ d ∷ s) r, parse_digits_bound most 0 (d ∷ s) r)

parse_number_bound : (most : ℕ) (s : Bytes) (r : ℕ) → parse_number most s ≡ some r → r ≤ most
unfolding parse_number
parse_number_bound most [] r e = cc
parse_number_bound most (c ∷ s) r e = parse_digits_bound most 0 (c ∷ s) r (omega arith) e

minus_bound :
    (most : ℕ) (o : Option ℕ) (z : ℤ)
    → ((r : ℕ) → o ≡ some r → r ≤ most + 1)
    → minus o ≡ some z
    → (pos_part z ≤ most) × (neg_part z ≤ most + 1)
unfolding minus
minus_bound most none z b m = cc
minus_bound most (some zero) z b m = ground arith
minus_bound most (some (suc n)) z b m = ground (arith, b (suc n) refl)

plus_bound :
    (most : ℕ) (o : Option ℕ) (z : ℤ)
    → ((r : ℕ) → o ≡ some r → r ≤ most)
    → plus o ≡ some z
    → (pos_part z ≤ most) × (neg_part z ≤ most + 1)
unfolding plus
plus_bound most none z b m = cc
plus_bound most (some n) z b m = ground (arith, b n refl)

-- A parsed integer is in range.
pub parse_int_bound :
    (most : ℕ) (s : Bytes) (z : ℤ)
    → parse_int most s ≡ some z
    → (pos_part z ≤ most) × (neg_part z ≤ most + 1)
unfolding parse_int
parse_int_bound most [] z e = cc
parse_int_bound most (c ∷ s) z e = elim (Bool-cases (c == b'-')) [
  | inl q ↦
      minus_bound most (parse_number (most + 1) s) z (parse_number_bound (most + 1) s) (rw q at e)
  | inr q ↦ plus_bound most (parse_uint most (c ∷ s)) z (parse_uint_bound most (c ∷ s)) (rw q at e)
]
