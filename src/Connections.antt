-- ===== src/Connections.antt =====
-- `ConnectionCounter` of src/middleware/connection_counter.rs: how many requests are under way, and
-- when the program hears of too many. A gauge of `prometheus_client` is a u64, and its `inc`
-- returns the value before it.
pub mod Counted
mod Tests
use hath_rust.Prelude.{
  ℕ, ◌+◌, ◌-◌, ◌*◌, ◌/◌, ◌%◌, ◌^◌, ◌<◌, ◌≡◌, Bool, true, false, ltb, if◌then◌else◌,
}
use hath_rust.Prelude.Family.{update}

-- `(max_connection as f64 * 0.8).ceil()`, in fifths.
unfoldable pub soft_limit : ℕ → ℕ
soft_limit max_connection = (4 * max_connection + 4) / 5

-- The gauge, and the number of times that the program was told of an overload.
pub record Counter : Type 0 where
  pub gauge : ℕ
  pub told : ℕ

unfoldable pub dec : Counter → Counter
dec c = record c { gauge = (c.gauge + 2 ^ 64 - 1) % 2 ^ 64 }

-- The beginning of `call`; `has_room` is whether the command channel takes the message.
unfoldable pub call : ℕ → Bool → Counter → Counter
unfolding soft_limit
call max_connection has_room c =
    let counted = record c { gauge = (c.gauge + 1) % 2 ^ 64 } in
    if ltb (soft_limit max_connection) c.gauge
    then (if has_room then record counted { told = c.told + 1 } else counted)
    else counted

-- Where a request stands, and who will lower the gauge for it: the guard while the handler runs,
-- the finalizer of the body while it is sent, and nobody before and behind.
pub data Phase : Type 0 where
  absent calling sending gone : Phase

pub record Gate : Type 0 where
  pub counter : Counter
  pub phase : ℕ → Phase

-- What may happen to one request, whatever the others do.
pub data Move (max_connection : ℕ) (c : Counter) : Phase → Counter → Phase → Type 0 where
  arrive : (has_room : Bool) → Move max_connection c absent (call max_connection has_room c) calling
  -- The handler has a response, whose body takes over.
  respond : Move max_connection c calling c sending
  -- The handler fails.
  fail : Move max_connection c calling (dec c) gone
  -- The future is dropped, and with it the guard.
  cancel : Move max_connection c calling (dec c) gone
  -- The body is dropped, sent or not.
  drop_body : Move max_connection c sending (dec c) gone

-- `n` requests, interleaved in any order.
pub data Step (n max_connection : ℕ) (s : Gate) : Gate → Type 0 where
  pick :
      (i : ℕ) {c : Counter} {p : Phase}
      → i < n
      → Move max_connection s.counter (s.phase i) c p
      → Step n max_connection s (record { counter = c; phase = update s.phase i p })

abbrev pub init : Gate
init = record { counter = record { gauge = 0; told = 0 }; phase = λ i. absent }

pub data Reach (n max_connection : ℕ) : Gate → Type 0 where
  start : Reach n max_connection init
  later :
      {s t : Gate} → Reach n max_connection s → Step n max_connection s t → Reach n max_connection t
