-- ===== src/Samples.antt =====
-- Concrete parameters on which the theorems are tried: a hash that keeps the first twenty bytes, a
-- client, and a world that answers every request alike.
use mathlib.Core.Option.{some-injective}
use hath_rust.Dict.{Dict, get}
use hath_rust.CacheStore.{CacheState}
use hath_rust.CacheStore.Saved.{IsMap, Codec}
use hath_rust.Prelude.{
  sym, true, false, [], ◌∷◌, ◌++◌, Option, none, some, Bytes, codes, take, drop, ◌≡◌, refl,
  append-nil, ap, ◌∙◌, arith,
}
use hath_rust.Prelude.Int.{ℤ, pos, pos_part, neg_part, sub_ℕ}
use hath_rust.FileId.Hex.{sample}
use hath_rust.FileId.{CacheFileInfo, jpeg}
use hath_rust.Crypto.{Crypto}
use hath_rust.Rpc.Servers.{RpcClient}
use hath_rust.Rpc.Client.{World, body}
use hath_rust.CacheRead.{View, got}
use hath_rust.CacheRead.Streams.{Serves, read_bytes}

abbrev pub zeros : Bytes
zeros = 0 ∷ 0 ∷ 0 ∷ 0 ∷ 0 ∷ 0 ∷ 0 ∷ 0 ∷ 0 ∷ 0 ∷ 0 ∷ 0 ∷ 0 ∷ 0 ∷ 0 ∷ 0 ∷ 0 ∷ 0 ∷ 0 ∷ 0 ∷ []

unfoldable pub pad : Bytes → Bytes
pad s = take 20 (s ++ zeros)

abbrev pub crypto : Crypto
crypto = record { hex = sample; sha1 = pad }

abbrev pub content : Bytes
content = 1 ∷ 2 ∷ 3 ∷ 4 ∷ []

-- The content followed by zeros is its own hash.
abbrev pub info : CacheFileInfo
info = record { hash = pad content; size = 4; xres = 0; yres = 0; mime_type = jpeg }

abbrev pub client : RpcClient
client = record {
  host = codes "a";
  clock_offset = pos 0;
  id = pos 7;
  key = codes "k";
  rpc_servers = codes "a" ∷ codes "b" ∷ [];
  running = true;
  settings = record {
    size_limit = 0;
    throttle_bytes = 0;
    disable_logging = false;
    max_connection_override = 0;
    disable_ip_check = false;
  };
  requests = [];
}

-- The answer `OK-5-…` with the hash of `5-k`, which is its text in hexadecimal, padded.
abbrev pub answer : Bytes
answer = codes "OK-5-352d6b0000000000000000000000000000000000"

abbrev pub world : World
world = record {
  crypto = crypto;
  net =
      λ n. record { signed_at = pos 5; reply = body answer; took = 0; ended_at = pos 0; pick = 0 };
  shift = λ t o. t;
  is_time = λ t. true;
}

-- A file system that holds the content in a file that was accessed long ago, and reads it at once.
abbrev pub view : View
view = record {
  metadata = some (record { is_file = true; len = 4; mtime = 0 });
  opens = true;
  seeks = true;
  reads_from = λ n. got (drop n content) ∷ got [] ∷ [];
  now = 10000000;
}

at_once : (bs : Bytes) → read_bytes (got bs ∷ got [] ∷ []) ≡ bs
at_once [] = refl
at_once (b ∷ bs) = ap (λ t. b ∷ t) (append-nil bs)

pub view-Serves : Serves view 4 content
view-Serves = record {
  mtime = 0;
  metadata = refl;
  opens = refl;
  size_eq = refl;
  streams = λ n. at_once (drop n content);
  reads = ([], refl, ([], refl, refl));
}

-- A codec for at most one state, in front of its range.
abbrev pub encode_one : Dict CacheState → Option Bytes
encode_one [] = some []
encode_one ((k, s) ∷ []) = some (s.file_count ∷ s.size ∷ pos_part s.oldest ∷ neg_part s.oldest ∷ k)
encode_one (a ∷ b ∷ states) = none

abbrev pub decode_one : Bytes → Option (Dict CacheState)
decode_one [] = some []
decode_one (a ∷ []) = none
decode_one (a ∷ b ∷ []) = none
decode_one (a ∷ b ∷ c ∷ []) = none
decode_one (a ∷ b ∷ c ∷ d ∷ k) =
    some ((k, record { file_count = a; size = b; oldest = sub_ℕ c d }) ∷ [])

sub_ℕ-parts : (a : ℤ) → sub_ℕ (pos_part a) (neg_part a) ≡ a
sub_ℕ-parts a = ground arith

pub decode-encode :
    (states : Dict CacheState) (buf : Bytes)
    → encode_one states ≡ some buf
    → (read : Dict CacheState) × (decode_one buf ≡ some read)
      × IsMap read
      × ((k : Bytes) → get k read ≡ get k states)
unfolding get
decode-encode [] buf e = ([], ap decode_one (some-injective _ _ (sym e)), tt, λ k. refl)
decode-encode ((j, s) ∷ []) buf e = (
  (j, s) ∷ [],
  ap decode_one (some-injective _ _ (sym e)) ∙ rw (sub_ℕ-parts s.oldest) refl,
  (refl, tt),
  λ k. refl,
)
decode-encode (a ∷ b ∷ states) buf e = absurd cc

abbrev pub one_state : Codec
one_state = record {
  to_vec = encode_one;
  from_slice = decode_one;
  to_vec-from_slice = decode-encode;
}
