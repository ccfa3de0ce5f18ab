-- ===== src/Grpc/Types.antt =====
-- The data of crates/iron-grpc/src/lib.rs: the protobuf envelope and the errors of its conversion.
-- A `String` is its bytes; the integers of the wire are u32.
use iron_consensus.Prelude.{ℕ, List, Option}
use iron_consensus.Core.Id.{TextError}
use iron_consensus.Core.Envelope.Types.{EnvelopeError}

pub record WireEnvelopeV1 : Type 0 where
  pub envelope_version : ℕ
  pub cluster_id : List ℕ
  pub source_node_id : List ℕ
  pub destination_node_id : List ℕ
  pub message_id : List ℕ
  pub correlation_id : Option (List ℕ)
  pub protocol : List ℕ
  pub message_type : List ℕ
  pub schema_version : ℕ
  pub delivery_attempt : ℕ
  pub payload : List ℕ

-- The names in the `kind` of a `CoreError`.
pub data Kind : Type 0 where
  cluster_id message_id correlation_id node_id protocol_name message_type schema_version : Kind

-- What `CoreError` says in a conversion: an identifier, a text or an integer of some kind is not
-- one, or the envelope is refused.
pub data CoreError : Type 0 where
  zero_identifier : Kind → CoreError
  invalid_text : Kind → TextError → CoreError
  zero_value : Kind → CoreError
  envelope : EnvelopeError → CoreError

-- The names in `InvalidField`.
pub data Field : Type 0 where
  cluster_id message_id correlation_id schema_version envelope_version : Field

pub data GrpcError : Type 0 where
  invalid_field : Field → GrpcError
  core : CoreError → GrpcError

-- The two `Status` codes that the service answers with.
pub data Status : Type 0 where
  invalid_argument internal : GrpcError → Status
