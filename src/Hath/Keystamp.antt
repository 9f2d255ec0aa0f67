-- ===== src/Hath/Keystamp.antt =====
-- What an accepted keystamp guarantees, and that a link in time is accepted.
use hath_rust.Prelude.{
  ℕ, ◌+◌, ◌^◌, ◌≤◌, ◌<◌, ◌≡◌, refl, Bool, true, false, not, ◌||◌, List, [], ◌∷◌, Option, none, some,
  Bytes, codes, arith, Option-cases, inl, inr, unwrap_or,
}
use hath_rust.Prelude.Int.{ℤ, pos, negsuc, pos_part, neg_part, between, sub_i64, IsI64}
use hath_rust.Text.{split, starts_with, is_empty}
use hath_rust.Text.Decimal.{parse_int, parse_int_bound}
use hath_rust.Dict.{get}
use hath_rust.Crypto.{Crypto, string_to_hash, parse_additional}
use hath_rust.Rpc.Response.{nth_part}
use hath_rust.Hath.{i64_max, ttl_min, ttl_max, keystamp_text, keystamp_parts, keystamp_ok}

-- Two times that lie at most fifteen minutes apart, the first one a time of the clock.
abbrev pub IsNear : ℕ → ℤ → Type 0
IsNear now t = (now + neg_part t ≤ pos_part t + 900) × (pos_part t ≤ now + neg_part t + 900)

sub_i64-IsNear :
    (now : ℕ) (t : ℤ)
    → now < 2 ^ 62
    → IsI64 t
    → between ttl_min ttl_max (sub_i64 (pos now) t) ≡ true
    → IsNear now t
unfolding sub_i64
sub_i64-IsNear now (pos t) n i e = ground arith
sub_i64-IsNear now (negsuc t) n i e = ground arith

-- What stands behind an accepted request: a time close to the clock, and the first digits, one at
-- least, of the hash of the time, the identifier and the client's key.
pub record IsAuthorized (c : Crypto) (key : Bytes) (now : ℕ) (file_id : Bytes) (parts : List Bytes)
    : Type 0 where
  pub time : Bytes
  pub hash : Bytes
  pub time_part : nth_part 0 parts ≡ some time
  pub hash_part : nth_part 1 parts ≡ some hash
  pub near : IsNear now (unwrap_or (pos 0) (parse_int i64_max time))
  pub nonempty : is_empty hash ≡ false
  pub prefix_ : starts_with (string_to_hash c (keystamp_text time file_id key)) hash ≡ true

parse_time-IsI64 : (time : Bytes) → IsI64 (unwrap_or (pos 0) (parse_int i64_max time))
parse_time-IsI64 time = elim (Option-cases (parse_int i64_max time)) [
  | inl n ↦ rw n (omega arith, omega arith)
  | inr (t, e) ↦
      let b = parse_int_bound i64_max time t e in rw e (omega (arith, b.0), omega (arith, b.1))
]

-- The check on a time and a hash that were found.
abbrev judge : Crypto → Bytes → ℕ → Bytes → Option Bytes → Option Bytes → Bool
judge c key now file_id time? hash? =
    let time = unwrap_or [] time? in
    let hash = unwrap_or [] hash? in
    not (
      is_empty time
      || is_empty hash
      || not
          (between ttl_min ttl_max (sub_i64 (pos now) (unwrap_or (pos 0) (parse_int i64_max time))))
      || not (starts_with (string_to_hash c (keystamp_text time file_id key)) hash))

judge-accepts :
    (c : Crypto) (key : Bytes) (now : ℕ) (file_id : Bytes) (parts : List Bytes)
    (time? hash? : Option Bytes)
    → now < 2 ^ 62
    → nth_part 0 parts ≡ time?
    → nth_part 1 parts ≡ hash?
    → judge c key now file_id time? hash? ≡ true
    → IsAuthorized c key now file_id parts
judge-accepts c key now file_id parts none hash? n et eh e = cc
judge-accepts c key now file_id parts (some []) hash? n et eh e = cc
judge-accepts c key now file_id parts (some (t ∷ ts)) none n et eh e = cc
judge-accepts c key now file_id parts (some (t ∷ ts)) (some []) n et eh e = cc
judge-accepts c key now file_id parts (some (t ∷ ts)) (some (h ∷ hs)) n et eh e =
    let diff = sub_i64 (pos now) (unwrap_or (pos 0) (parse_int i64_max (t ∷ ts))) in
    let facts : (between ttl_min ttl_max diff ≡ true)
        × (starts_with (string_to_hash c (keystamp_text (t ∷ ts) file_id key)) (h ∷ hs) ≡ true) =
      both (between ttl_min ttl_max diff) _ e in
    record {
      time = t ∷ ts;
      hash = h ∷ hs;
      time_part = et;
      hash_part = eh;
      near = sub_i64-IsNear now _ n (parse_time-IsI64 (t ∷ ts)) facts.0;
      nonempty = refl;
      prefix_ = facts.1;
    }
  where
    both : (a b : Bool) → not (not a || not b) ≡ true → (a ≡ true) × (b ≡ true)
    both true true e = (refl, refl)
    both true false e = cc
    both false true e = cc
    both false false e = cc

-- On a clock below 2 ^ 62, a request whose keystamp is accepted carries a keystamp whose time lies within fifteen
-- minutes of the clock, though the difference is computed on machine integers that wrap around,
-- and whose hash is a prefix, of one digit or more, of the hash under the client's key.
pub keystamp_ok-IsAuthorized :
    (c : Crypto) (key : Bytes) (now : ℕ) (file_id additional : Bytes)
    → now < 2 ^ 62
    → keystamp_ok c key (pos now) file_id additional ≡ true
    → IsAuthorized c key now file_id
        (split b'-' (unwrap_or [] (get (codes "keystamp") (parse_additional additional))))
unfolding keystamp_ok keystamp_parts
keystamp_ok-IsAuthorized c key now file_id additional n e =
    let parts = split b'-' (unwrap_or [] (get (codes "keystamp") (parse_additional additional))) in
    judge-accepts c key now file_id parts (nth_part 0 parts) (nth_part 1 parts) n refl refl e

parse_int_nil : parse_int i64_max [] ≡ none
unfolding parse_int
parse_int_nil = refl

-- On a clock and for a time below 2 ^ 62, a link that was made for an identifier within fifteen minutes of the clock, with digits of its
-- own hash, is accepted.
pub keystamp_parts-accepts :
    (c : Crypto) (key : Bytes) (now t : ℕ) (file_id time hash : Bytes)
    → parse_int i64_max time ≡ some (pos t)
    → now < 2 ^ 62
    → t < 2 ^ 62
    → IsNear now (pos t)
    → is_empty hash ≡ false
    → starts_with (string_to_hash c (keystamp_text time file_id key)) hash ≡ true
    → keystamp_parts c key (pos now) file_id (time ∷ hash ∷ []) ≡ true
unfolding keystamp_parts
keystamp_parts-accepts c key now t file_id [] hash p a b n e s = absurd (cc (parse_int_nil, p))
keystamp_parts-accepts c key now t file_id (d ∷ ds) hash p a b n e s =
    let near : between ttl_min ttl_max (sub_i64 (pos now) (pos t)) ≡ true =
      unfold sub_i64 in ground arith in
    rw (p, e, s, near) refl
