-- ===== src/Server/Options/Advertised.antt =====
-- HTTP/3 is advertised where it is served, and the flood control runs unless it is switched off.
use hath_rust.Prelude.{ℕ, ◌≡◌, Bool, not, ◌&&◌, List, Bytes, is_some, ◌⊎◌, arith}
use hath_rust.Server.Cert.{ParsedCert, new}
use hath_rust.Server.Options.{Args, options_of, BindCalls, Server, built, new_server}

-- A server that is built advertises HTTP/3 exactly when it accepts it, which it does only where the
-- program was told to; its certificate checks names exactly when it was told to; and it has a flood
-- control unless that, or the check of the servers' addresses, was switched off.
pub new_server-IsTold :
    {CertifiedKey Failure : Type 0} (from_der : List Bytes → Bytes → Failure ⊎ CertifiedKey)
    (calls : BindCalls) (udp_binds : Bool) (unspecified : Bytes) (args : Args) (client_port : ℕ)
    (cert : ParsedCert) (s : Server CertifiedKey)
    → new_server from_der calls udp_binds (options_of unspecified args client_port cert) ≡ built s
    → (is_some s.advertises ≡ s.accepts_h3)
      × (s.accepts_h3 ≡ args.enable_h3 && udp_binds)
      × (s.store.strict ≡ args.sni_strict)
      × (s.flood_control ≡ not args.disable_flood_control && not args.disable_ip_origin_check)
unfolding new_server options_of new
new_server-IsTold from_der calls udp unspecified args port cert s h = ground arith
