-- ===== src/Server/Cert/Tests.antt =====
-- A certificate that is replaced by a good one and not by a bad one. One that can be used is its key,
-- and is valid for the name that its key is.
use hath_rust.Prelude.{
  ◌≡◌, refl, true, List, [], ◌∷◌, Option, none, some, Bytes, bytes_eq, codes, ◌⊎◌, inl, inr,
  if◌then◌else◌, ◌==◌, length, ℕ,
}
use hath_rust.Server.Cert.{ParsedCert, CertStore, new, update, reload_cert, resolve}
use hath_rust.Server.Cert.Current.{reload_all, last_usable, IsShown, reloads-IsShown}

abbrev from_der : List Bytes → Bytes → ℕ ⊎ Bytes
from_der certs key = if length certs == 0 then inl 1 else inr key

abbrev cert : Bytes → ParsedCert
cert key = record { certs = key ∷ []; key = key }

abbrev bad : ParsedCert
bad = record { certs = []; key = codes "c" }

abbrev first : CertStore Bytes
first = record { cert = codes "a"; strict = true }

abbrev fetched : List (Option ParsedCert)
fetched = some (cert (codes "b")) ∷ none ∷ some bad ∷ []

made : new from_der (cert (codes "a")) true ≡ some first
unfolding new
made = refl

shown :
    resolve some some bytes_eq (some (codes "b")) (reload_all from_der fetched first)
    ≡ some (codes "b")
unfolding resolve reload_cert update bytes_eq
shown = refl

reloads-IsShown_example :
    (codes "b" ≡ last_usable from_der (codes "a") fetched)
    × IsShown some some bytes_eq true (some (codes "b")) (codes "b")
reloads-IsShown_example =
    reloads-IsShown from_der some some bytes_eq (cert (codes "a")) true first fetched
      (some (codes "b")) (codes "b") made shown
