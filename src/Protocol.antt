-- ===== src/Protocol.antt =====
-- The crates iron-protocol and iron-transport: what a protocol is given and returns, and the errors.
-- Byte strings are their bytes; an error's source, of any type, is left out.
use iron_consensus.Prelude.{ℕ, List, [], Option, none, some, Bool, true, false, Result, ok, err}
use Prim.Native.String.{String}
use iron_consensus.Core.Id.{nonzero_new}
use iron_consensus.Core.Envelope.Types.{Envelope}

pub data ProtocolError : Type 0 where
  -- code, message
  malformed_input rejected : String → String → ProtocolError
  -- record_kind, schema_version
  unsupported_recovery_record : ℕ → ℕ → ProtocolError
  codec : String → ProtocolError
  -- field, message
  invalid_value : String → String → ProtocolError
  invariant_violation : String → ProtocolError

-- `LogicalDuration::from_ticks`; a duration is its nonzero ticks.
unfoldable pub from_ticks : ℕ → Result ProtocolError ℕ
unfolding nonzero_new
from_ticks ticks = elim (nonzero_new ticks) [
  | none ↦ err (ProtocolError.invalid_value "logical_duration" "must be at least one tick")
  | some n ↦ ok n
]

pub record ScheduleTimer : Type 0 where
  pub timer_id : List ℕ
  pub delay : ℕ

pub record ReplyToClient : Type 0 where
  pub request_id : List ℕ
  pub outcome : List ℕ

pub data Action : Type 0 where
  send : Envelope → Action
  schedule_timer : ScheduleTimer → Action
  cancel_timer : List ℕ → Action
  reply_to_client : ReplyToClient → Action

pub record ClientRequest : Type 0 where
  pub request_id : List ℕ
  pub schema_version : ℕ
  pub command : List ℕ

pub record TimerFired : Type 0 where
  pub timer_id : List ℕ

pub data Event : Type 0 where
  message : Envelope → Event
  client_request : ClientRequest → Event
  timer_fired : TimerFired → Event

pub record RecoveredRecord : Type 0 where
  pub lsn : ℕ
  pub record_kind : ℕ
  pub schema_version : ℕ
  pub payload : List ℕ

pub record DurableRecord : Type 0 where
  pub record_kind : ℕ
  pub schema_version : ℕ
  pub payload : List ℕ

-- `NonZeroU16::new` of a record kind, its absence an error.
unfoldable pub record_kind_of : ℕ → Result ProtocolError ℕ
unfolding nonzero_new
record_kind_of record_kind = elim (nonzero_new record_kind) [
  | none ↦ err (ProtocolError.invalid_value "record_kind" "must be nonzero")
  | some kind ↦ ok kind
]

-- `RecoveredRecord::new`
unfoldable pub recovered_record : ℕ → ℕ → ℕ → List ℕ → Result ProtocolError RecoveredRecord
unfolding record_kind_of
recovered_record lsn record_kind schema_version payload = elim (record_kind_of record_kind) [
  | err e ↦ err e
  | ok kind ↦
      ok (record {
        lsn = lsn;
        record_kind = kind;
        schema_version = schema_version;
        payload = payload;
      })
]

-- `DurableRecord::new`
unfoldable pub durable_record : ℕ → ℕ → List ℕ → Result ProtocolError DurableRecord
unfolding record_kind_of
durable_record record_kind schema_version payload = elim (record_kind_of record_kind) [
  | err e ↦ err e
  | ok kind ↦ ok (record { record_kind = kind; schema_version = schema_version; payload = payload })
]

pub record Transition : Type 0 where
  pub durable_record : Option DurableRecord
  pub actions : List Action

-- `Transition::durable`, `stateless` and `no_op`.
unfoldable pub durable : DurableRecord → List Action → Transition
durable r actions = record { durable_record = some r; actions = actions }

unfoldable pub stateless : List Action → Transition
stateless actions = record { durable_record = none; actions = actions }

unfoldable pub no_op : Transition
no_op = record { durable_record = none; actions = [] }

-- The trait `Protocol`: an engine with its state.
pub record Protocol {ℓ} (P : Type ℓ) : Type ℓ where
  pub recover : List RecoveredRecord → P → P × Result ProtocolError (Unit {0})
  pub handle : Event → P → P × Result ProtocolError Transition

pub data TransportError : Type 0 where
  invalid_input : String → TransportError
  unavailable : TransportError
  timeout : String → TransportError
  backpressure : ℕ → TransportError
  -- code, message
  remote_rejected : String → String → TransportError
  internal : TransportError

unfoldable pub is_retryable : TransportError → Bool
is_retryable TransportError.unavailable = true
is_retryable (TransportError.timeout operation) = true
is_retryable (TransportError.backpressure capacity) = true
is_retryable (TransportError.invalid_input text) = false
is_retryable (TransportError.remote_rejected code text) = false
is_retryable TransportError.internal = false

-- The trait `Transport`.
pub record Transport {ℓ} (T : Type ℓ) : Type ℓ where
  pub send : Envelope → T → T × Result TransportError (Unit {0})
