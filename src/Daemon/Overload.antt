-- ===== src/Daemon/Overload.antt =====
-- The server is told of overloads at most twice a minute.
use hath_rust.Prelude.{
  ℕ, ◌+◌, ◌-◌, ◌<◌, Bool, true, false, List, [], ◌∷◌, Option, none, some, Bytes, ltb, arith,
  Bool-cases, inl, inr,
}
use hath_rust.Rpc.Client.{World}
use hath_rust.Daemon.{
  Command, reload_cert, refresh_command, start_downloader, overload, Daemon, overload_pause, handle,
  notices,
}

-- Each instant is more than thirty seconds behind the one before.
abbrev pub Apart : ℕ → List ℕ → Type 0
Apart last [] = Unit
Apart last (now ∷ rest) = (last + overload_pause < now) × Apart now rest

module _ (w : World) (normalize : Bytes → Option Bytes) (disable_logging : Bool) where
  -- Whatever commands come, and whenever: two notices of an overload, and the first one and the
  -- start, lie more than thirty seconds apart.
  pub notices-Apart :
      (events : List (Command × ℕ)) (d : Daemon)
      → Apart d.last_overload (notices w normalize disable_logging events d)
  unfolding notices handle
  notices-Apart [] d = tt
  notices-Apart ((reload_cert none updates, now) ∷ rest) d = notices-Apart rest _
  notices-Apart ((reload_cert (some cert) true, now) ∷ rest) d = notices-Apart rest _
  notices-Apart ((reload_cert (some cert) false, now) ∷ rest) d = notices-Apart rest _
  notices-Apart ((refresh_command pick, now) ∷ rest) d = notices-Apart rest _
  notices-Apart ((start_downloader, now) ∷ rest) d = notices-Apart rest _
  notices-Apart ((overload, now) ∷ rest) d =
      elim (Bool-cases (ltb overload_pause (now - d.last_overload))) [
        | inl q ↦ rw q (ground arith, notices-Apart rest _)
        | inr q ↦ rw q (notices-Apart rest d)
      ]
