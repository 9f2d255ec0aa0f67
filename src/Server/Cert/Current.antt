-- ===== src/Server/Cert/Current.antt =====
-- Clients are shown the last certificate that could be used, and under strict SNI only where it is
-- valid for the name that they send.
use hath_rust.Prelude.{
  ◌≡◌, refl, sym, ap, ◌∙◌, Bool, true, false, List, [], ◌∷◌, Option, none, some, Bytes, ◌⊎◌, inl,
  inr, arith, if◌then◌else◌, ◌>>=◌, Bool-cases,
}
use mathlib.Core.Path.{subst}
use hath_rust.Server.Cert.{ParsedCert, CertStore, new, update, reload_cert, resolve}

-- What a chain of options that ends well went through.
>>=-eq-some :
    {A B : Type 0} (o : Option A) (f : A → Option B) {b : B}
    → (o >>= f) ≡ some b
    → (a : A) × (o ≡ some a) × (f a ≡ some b)
>>=-eq-some none f h = cc
>>=-eq-some (some a) f h = (a, refl, h)

test-eq-some :
    {A : Type 0} (b : Bool) (x k : A) → (if b then some x else none) ≡ some k → (b ≡ true) × (k ≡ x)
test-eq-some b x k h = ground arith

Sum-cases : {A B : Type 0} (s : A ⊎ B) → ((a : A) × (s ≡ inl a)) ⊎ ((b : B) × (s ≡ inr b))
Sum-cases (inl a) = inl (a, refl)
Sum-cases (inr b) = inr (b, refl)

module _ {CertifiedKey Failure : Type 0}
    (from_der : List Bytes → Bytes → Failure ⊎ CertifiedKey) where
  -- The commands one behind the other.
  abbrev pub reload_all : List (Option ParsedCert) → CertStore CertifiedKey → CertStore CertifiedKey
  reload_all [] store = store
  reload_all (p ∷ fetched) store = reload_all fetched (reload_cert from_der p store).0

  -- The certificate of a command, where it can be used, and else the one before.
  abbrev pub usable_or : CertifiedKey → Option ParsedCert → CertifiedKey
  usable_or k none = k
  usable_or k (some p) = elim (from_der p.certs p.key) [ inl e ↦ k | inr cert ↦ cert ]

  -- The last certificate that can be used.
  abbrev pub last_usable : CertifiedKey → List (Option ParsedCert) → CertifiedKey
  last_usable k [] = k
  last_usable k (p ∷ fetched) = last_usable (usable_or k p) fetched

  reload_cert-store :
      (p : Option ParsedCert) (store : CertStore CertifiedKey)
      → (reload_cert from_der p store).0 ≡ record store { cert = usable_or store.cert p }
  unfolding reload_cert update
  reload_cert-store none store = refl
  reload_cert-store (some p) store = ground arith

  reload_all-store :
      (fetched : List (Option ParsedCert)) (store : CertStore CertifiedKey)
      → reload_all fetched store ≡ record store { cert = last_usable store.cert fetched }
  reload_all-store [] store = refl
  reload_all-store (p ∷ fetched) store =
      ap (reload_all fetched) (reload_cert-store p store)
      ∙ reload_all-store fetched (record store { cert = usable_or store.cert p })

module _ {CertifiedKey ServerName Parsed : Type 0} (to_name : Bytes → Option ServerName)
    (end_entity : CertifiedKey → Option Parsed)
    (verify_server_name : Parsed → ServerName → Bool) where
  -- Why a client may see a certificate.
  pub data IsShown (strict : Bool) (name : Option Bytes) (k : CertifiedKey) : Type 0 where
    lenient : strict ≡ false → IsShown strict name k
    valid :
        (sent : Bytes) (server_name : ServerName) (cert : Parsed)
        → name ≡ some sent
        → to_name sent ≡ some server_name
        → end_entity k ≡ some cert
        → verify_server_name cert server_name ≡ true
        → IsShown strict name k

  resolve-IsShown :
      (name : Option Bytes) (store : CertStore CertifiedKey) (k : CertifiedKey)
      → resolve to_name end_entity verify_server_name name store ≡ some k
      → (k ≡ store.cert) × IsShown store.strict name store.cert
  unfolding resolve
  resolve-IsShown name store k h = elim (Bool-cases store.strict) [
    | inr q ↦ ground arith
    | inl q ↦
        let (sent, e1, h1) = >>=-eq-some name _ (rw q at h) in
        let (server_name, e2, h2) = >>=-eq-some (to_name sent) _ h1 in
        let (cert, e3, h3) = >>=-eq-some (end_entity store.cert) _ h2 in
        let (ok, e) = test-eq-some (verify_server_name cert server_name) store.cert k h3 in
        (e, valid sent server_name cert e1 e2 e3 ok)
  ]

new-strict :
    {CertifiedKey Failure : Type 0} (from_der : List Bytes → Bytes → Failure ⊎ CertifiedKey)
    (p : ParsedCert) (strict : Bool) (first : CertStore CertifiedKey)
    → new from_der p strict ≡ some first
    → first.strict ≡ strict
unfolding new
new-strict from_der p strict first n = ground arith

-- Whatever certificates are fetched behind the first one, a client is shown the last one that
-- could be used, and under strict SNI only where it is valid for the name that the client sent.
pub reloads-IsShown :
    {CertifiedKey Failure ServerName Parsed : Type 0}
    (from_der : List Bytes → Bytes → Failure ⊎ CertifiedKey) (to_name : Bytes → Option ServerName)
    (end_entity : CertifiedKey → Option Parsed) (verify_server_name : Parsed → ServerName → Bool)
    (p : ParsedCert) (strict : Bool) (first : CertStore CertifiedKey)
    (fetched : List (Option ParsedCert)) (name : Option Bytes) (k : CertifiedKey)
    → new from_der p strict ≡ some first
    → resolve to_name end_entity verify_server_name name (reload_all from_der fetched first)
      ≡ some k
    → (k ≡ last_usable from_der first.cert fetched)
      × IsShown to_name end_entity verify_server_name strict name k
reloads-IsShown from_der to_name end_entity verify_server_name p strict first fetched name k n r =
    let same = reload_all-store from_der fetched first in
    let (eq, shown) =
      resolve-IsShown to_name end_entity verify_server_name name (reload_all from_der fetched first)
        k r in
    let eq_last : k ≡ last_usable from_der first.cert fetched = eq ∙ ap (λ c. c.cert) same in
    let eq_strict : (reload_all from_der fetched first).strict ≡ strict =
      ap (λ c. c.strict) same ∙ new-strict from_der p strict first n in
    (
      eq_last,
      subst (λ b. IsShown to_name end_entity verify_server_name b name k) eq_strict
          (subst
            (IsShown to_name end_entity verify_server_name
              (reload_all from_der fetched first).strict name)
            (sym eq) shown),
    )
