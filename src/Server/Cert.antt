-- ===== src/Server/Cert.antt =====
-- The certificate of the server, src/server/cert.rs, and its reload by the commands of src/main.rs.
-- What the crates `p12` and `rustls` do is an argument; an error of theirs is a `Failure`.
pub mod Current
mod Tests
use hath_rust.Prelude.{
  Bool, true, false, List, [], ◌∷◌, Option, none, some, Bytes, ◌⊎◌, inl, inr, if◌then◌else◌, ◌>>=◌,
}

pub record ParsedCert : Type 0 where
  pub certs : List Bytes
  pub key : Bytes

-- `Vec::pop`.
abbrev pub last {ℓ} : {A : Type ℓ} → List A → Option A
last [] = none
last (x ∷ []) = some x
last (x ∷ y ∷ xs) = last (y ∷ xs)

module _ {Pfx : Type 0} (parse : Bytes → Option Pfx)
    (key_bags cert_x509_bags : Pfx → Bytes → Option (List Bytes)) where
  -- `ParsedCert::from_p12`.
  unfoldable pub from_p12 : Bytes → Bytes → Option ParsedCert
  from_p12 p12 password = do
    pfx ← parse p12
    keys ← key_bags pfx password
    key ← last keys
    certs ← cert_x509_bags pfx password
    some (record { certs = certs; key = key })

-- `CertStore`, less the provider.
pub record CertStore (CertifiedKey : Type 0) : Type 0 where
  pub cert : CertifiedKey
  pub strict : Bool

module _ {CertifiedKey Failure : Type 0}
    (from_der : List Bytes → Bytes → Failure ⊎ CertifiedKey) where
  -- `CertStore::new`, which panics on a certificate that cannot be used.
  unfoldable pub new : ParsedCert → Bool → Option (CertStore CertifiedKey)
  new p strict = elim (from_der p.certs p.key) [
    | inl e ↦ none
    | inr cert ↦ some (record { cert = cert; strict = strict })
  ]

  -- `CertStore::update`.
  unfoldable pub update :
      ParsedCert → CertStore CertifiedKey → CertStore CertifiedKey × Option Failure
  update p store = elim (from_der p.certs p.key) [
    | inl e ↦ (store, some e)
    | inr cert ↦ (record store { cert = cert }, none)
  ]

  -- A `ReloadCert` command, by the certificate that was fetched: the store, and whether the command
  -- is sent again behind ten seconds.
  unfoldable pub reload_cert :
      Option ParsedCert → CertStore CertifiedKey → CertStore CertifiedKey × Bool
  unfolding update
  reload_cert none store = (store, true)
  reload_cert (some p) store =
      let (store', failed) = update p store in
      elim failed [ none ↦ (store', false) | some e ↦ (store', true) ]

module _ {CertifiedKey ServerName Parsed : Type 0} (to_name : Bytes → Option ServerName)
    (end_entity : CertifiedKey → Option Parsed)
    (verify_server_name : Parsed → ServerName → Bool) where
  -- `resolve` for a client that names a server, or none.
  unfoldable pub resolve : Option Bytes → CertStore CertifiedKey → Option CertifiedKey
  resolve name store =
      if store.strict
      then (do
        sent ← name
        server_name ← to_name sent
        cert ← end_entity store.cert
        if verify_server_name cert server_name then some store.cert else none)
      else some store.cert
