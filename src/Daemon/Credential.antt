-- ===== src/Daemon/Credential.antt =====
-- The credential that the setup writes is the one that the next start reads.
use hath_rust.Prelude.{
  ℕ, ◌≤◌, ◌≡◌, ◌≢◌, refl, sym, ap, ◌∙◌, true, false, [], ◌∷◌, ◌++◌, none, some, Bytes, All,
  All-append, Lacks, ◌==◌, append_assoc, append-nil, arith, ◌⊎◌, inl, inr,
}
use hath_rust.Prelude.Int.{pos}
use hath_rust.Text.{newline, lines, lines_from, split}
use hath_rust.Text.Split.{split_lacking, split-append}
use hath_rust.Text.Decimal.{
  parse_int, parse_uint, show, show_int, parse_uint-show, show-IsDigit, IsDigit,
}
use hath_rust.Rpc.Response.{i32_max}
use hath_rust.Daemon.{
  read_credential, first_line, credential_parts, is_alphanumeric, all_alphanumeric, is_valid_key,
  setup_text,
}

-- A text with no line break is one line.
lines_from-Lacks :
    (cur s : Bytes) → Lacks newline s → cur ++ s ≢ [] → lines_from cur s ≡ (cur ++ s) ∷ []
unfolding lines_from
lines_from-Lacks [] [] l n = absurd (n refl)
lines_from-Lacks (c ∷ cur) [] l n = rw (append-nil cur) refl
lines_from-Lacks [] (c ∷ s) l n =
    let no : (c == newline) ≡ false = ground (arith, l.0) in
    rw (lines_from, no) (lines_from-Lacks (c ∷ []) s l.1 (λ e. n e))
lines_from-Lacks (d ∷ cur) (c ∷ s) l n =
    let no : (c == newline) ≡ false = ground (arith, l.0) in
    rw (lines_from, no)
      (lines_from-Lacks (d ∷ (cur ++ c ∷ [])) s l.1
          (λ e. n (ap (λ t. d ∷ t) (sym (append_assoc cur (c ∷ []) s)) ∙ e))
        ∙ ap (λ t. (d ∷ t) ∷ []) (append_assoc cur (c ∷ []) s))

parse_uint_nil : (most : ℕ) → parse_uint most [] ≡ none
unfolding parse_uint
parse_uint_nil most = refl

digits-parse_int :
    (most n : ℕ) (s : Bytes)
    → All IsDigit s
    → parse_uint most s ≡ some n
    → parse_int most s ≡ some (pos n)
unfolding parse_int
digits-parse_int most n [] a e = absurd (cc (parse_uint_nil most, e))
digits-parse_int most n (c ∷ s) a e =
    let no : (c == b'-') ≡ false = ground (arith, a.0) in rw (no, e) refl

key_chars : (key : Bytes) → all_alphanumeric key ≡ true → Lacks b'-' key × Lacks newline key
unfolding all_alphanumeric is_alphanumeric
key_chars [] e = (tt, tt)
key_chars (c ∷ s) e =
    let facts : (c ≢ b'-') × (c ≢ newline) × (all_alphanumeric s ≡ true) = ground arith in
    let rest = key_chars s facts.2 in ((facts.0, rest.0), (facts.1, rest.1))

digits-Lacks : (c : ℕ) (s : Bytes) → (c ≡ b'-') ⊎ (c ≡ newline) → All IsDigit s → Lacks c s
digits-Lacks c [] o a = tt
digits-Lacks c (d ∷ s) o a = (ground (arith, a.0), digits-Lacks c s o a.1)

snoc-ne-nil : (s key : Bytes) → s ++ (b'-' ∷ key) ≢ []
snoc-ne-nil [] key = ground arith
snoc-ne-nil (c ∷ s) key = ground arith

-- For a client number of an i32 that is not negative and a key that the setup accepts, the file
-- that the setup writes is read back to the same number and key.
pub read_credential-setup_text :
    (n : ℕ) (key : Bytes)
    → n ≤ i32_max
    → is_valid_key key ≡ true
    → read_credential (some (setup_text (pos n) key)) ≡ some (pos n, key)
unfolding read_credential first_line credential_parts setup_text is_valid_key lines show_int
read_credential-setup_text n key b v =
    let chars = key_chars key (ground arith) in
    let text = show n ++ (b'-' ∷ key) in
    let plain : Lacks newline text =
      All-append (λ x. x ≢ newline) (show n) (b'-' ∷ key)
        (digits-Lacks newline (show n) (inr refl) (show-IsDigit n)) (omega arith, chars.1) in
    let parts : split b'-' text ≡ show n ∷ key ∷ [] =
      split-append b'-' (show n) key (digits-Lacks b'-' (show n) (inl refl) (show-IsDigit n))
      ∙ ap (λ t. show n ∷ t) (split_lacking b'-' key chars.0) in
    rw
      (
        lines_from-Lacks [] text plain (snoc-ne-nil (show n) key),
        parts,
        digits-parse_int i32_max n (show n) (show-IsDigit n) (parse_uint-show i32_max n b),
      )
      refl
