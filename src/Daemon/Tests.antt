-- ===== src/Daemon/Tests.antt =====
-- A stored credential, and a run of commands.
use hath_rust.Prelude.{
  ℕ, ◌≤◌, ◌≡◌, length, refl, true, false, List, [], ◌∷◌, none, some, Bytes, codes, arith,
}
use hath_rust.Prelude.Int.{pos}
use hath_rust.Samples.{world, client, one_state}
use hath_rust.Rpc.Login.{shutdown}
use hath_rust.CacheStore.Saved.{SaveCalls}
use hath_rust.Daemon.Stop.{Program, stop, drop_client, stop_once}
use hath_rust.Daemon.{tick}
use hath_rust.Daemon.{
  read_credential, is_valid_key, all_alphanumeric, is_alphanumeric, setup_text, purge, Command,
  refresh_command, overload, Daemon, notices,
}
use hath_rust.Daemon.Credential.{read_credential-setup_text}
use hath_rust.Dict.{get}
use hath_rust.FileId.Hex.{sample}
use hath_rust.CacheStore.{CacheManager}
use hath_rust.CacheStore.Accounts.{IsAccounted}
use hath_rust.CacheStore.Imports.{works}
use hath_rust.Daemon.Purge.{purge-IsAccounted}
use hath_rust.Daemon.Overload.{Apart, notices-Apart}

abbrev key : Bytes
key = codes "abcdefghij0123456789"

key_valid : is_valid_key key ≡ true
unfolding is_valid_key all_alphanumeric is_alphanumeric
key_valid = refl

read_credential-setup_text_example :
    read_credential (some (setup_text (pos 42) key)) ≡ some (pos 42, key)
read_credential-setup_text_example = read_credential-setup_text 42 key (omega arith) key_valid

abbrev daemon : Daemon
daemon = record {
  client = client;
  cache = record { disk = []; cache_state = []; size_limit = 0 };
  write_info = true;
  cert = none;
  retries = 0;
  downloading = false;
  last_overload = 0;
}

abbrev events : List (Command × ℕ)
events = (overload, 31000000000) ∷ (refresh_command 0, 40000000000) ∷ (overload, 50000000000) ∷ []

notices-Apart_example : Apart 0 (notices world (λ s. some s) false events daemon)
notices-Apart_example = notices-Apart world (λ s. some s) false events daemon

abbrev empty : CacheManager
empty = record { disk = []; cache_state = []; size_limit = 0 }

empty-IsAccounted : IsAccounted empty
unfolding get
empty-IsAccounted = record { distinct = λ dir. tt; agrees = λ dir. refl }

abbrev purge_list : List Bytes
purge_list = codes "0102030400000000000000000000000000000000-4-jpg" ∷ codes "x" ∷ []

purge-IsAccounted_example : IsAccounted (purge sample (λ i. works) purge_list empty)
purge-IsAccounted_example = purge-IsAccounted sample (λ i. works) purge_list empty empty-IsAccounted

abbrev program : Program
program = record { client = client; downloading = true; states = []; state_file = none }

abbrev saving : SaveCalls
saving = record { creates = true; breaks_off = none }

stop_once_example :
    (tick world 5 (stop world one_state saving program).client ≡ none)
    × (shutdown world (stop world one_state saving program).client
        ≡ (stop world one_state saving program).client)
    × (drop_client world (stop world one_state saving program).client
        ≡ (stop world one_state saving program).client)
    × (1 ≤ length (stop world one_state saving program).client.requests)
    × (length (stop world one_state saving program).client.requests ≤ 6)
stop_once_example = stop_once world one_state saving program 5
