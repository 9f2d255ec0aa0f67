-- ===== src/ServerCommand/Tests.antt =====
-- A command of the server `a`, with its hash, five seconds into the epoch.
use hath_rust.Prelude.{◌≡◌, ◌≤◌, ◌⊎◌, refl, true, [], ◌∷◌, some, Bytes, codes, map, arith}
use hath_rust.Prelude.Int.{pos}
use hath_rust.Crypto.{string_to_hash}
use hath_rust.Samples.{crypto, client}
use hath_rust.ServerCommand.{
  forbidden, Probe, no_response, read, probe, total, run, probes_from, command_text, dispatch,
  to_lowercase, servercmd,
}
use hath_rust.ServerCommand.Guards.{IsCommanded, servercmd-IsCommanded}
use hath_rust.ServerCommand.Probes.{HasRead, probe-HasRead, total-probes_from}

abbrev one_probe : Probe
one_probe = record {
  random = 1;
  first = no_response;
  second = read (some 3) 9;
  third = no_response;
}

abbrev command : Bytes
command = codes "STILL_alive"

abbrev hash : Bytes
hash = string_to_hash crypto (command_text client command [] (pos 5))

servercmd-IsCommanded_example :
    (servercmd crypto client
        (λ u. true)
        (λ n. one_probe)
        []
        (pos 5)
        (codes "a")
        command
        []
        (pos 5)
        hash
      ≡ (forbidden, []))
    ⊎ (IsCommanded crypto client 5 (codes "a") command [] (pos 5) hash
        × (servercmd crypto client
              (λ u. true)
              (λ n. one_probe)
              []
              (pos 5)
              (codes "a")
              command
              []
              (pos 5)
              hash
            ≡ dispatch (λ u. true) (λ n. one_probe) [] (to_lowercase command) [] (pos 5)))
servercmd-IsCommanded_example =
    servercmd-IsCommanded crypto client (λ u. true) (λ n. one_probe) [] 5 (codes "a") command []
      (pos 5) hash (omega arith) (omega arith, omega arith)

probed : probe 3 (no_response ∷ read (some 3) 9 ∷ []) ≡ some 9
unfolding probe
probed = refl

probe-HasRead_example : HasRead 3 9 (no_response ∷ read (some 3) 9 ∷ [])
probe-HasRead_example = probe-HasRead 3 9 (no_response ∷ read (some 3) 9 ∷ []) probed

total-probes_from_example : (total (map (run 3) (probes_from (λ n. one_probe) 0 2))).0 ≤ 2
total-probes_from_example = total-probes_from 3 (λ n. one_probe) 2
