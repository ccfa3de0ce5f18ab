-- ===== src/Grpc.antt =====
-- crates/iron-grpc/src/lib.rs: the protobuf v1 adapter of envelopes, and the service that converts
-- a request before it calls the application.
mod Types
pub mod Fields
pub mod RoundTrip
mod Tests
use iron_consensus.Prelude.{
  ℕ, List, Option, none, some, Bool, true, false, Result, ok, err, ◌>>=◌, if◌then◌else◌, ltb, ◌==◌,
  length, u16_mod,
}
use iron_consensus.Core.Id.{NodeId, TextError, parse_node_id, parse_name, nonzero_new}
use iron_consensus.Core.Envelope.Types.{EnvelopeError, Envelope, from_bytes}
use iron_consensus.Core.Envelope.{as_v1, version_one, try_from_version}
pub use Types.{WireEnvelopeV1, Kind, CoreError, Field, GrpcError, Status}

unfoldable pub from_core : Envelope → WireEnvelopeV1
unfolding as_v1
from_core envelope = record {
  envelope_version = version_one;
  cluster_id = (as_v1 envelope).cluster_id;
  source_node_id = (as_v1 envelope).source;
  destination_node_id = (as_v1 envelope).destination;
  message_id = (as_v1 envelope).message_id;
  correlation_id = (as_v1 envelope).correlation_id;
  protocol = (as_v1 envelope).protocol;
  message_type = (as_v1 envelope).message_type;
  schema_version = (as_v1 envelope).schema_version;
  delivery_attempt = (as_v1 envelope).delivery_attempt;
  payload = (as_v1 envelope).payload;
}

-- The closure of `into_core`.
unfoldable pub bytes16 : List ℕ → Field → Result GrpcError (List ℕ)
bytes16 value field = if length value == 16 then ok value else err (GrpcError.invalid_field field)

-- `bytes16`, then `from_bytes` of an identifier.
unfoldable pub opaque_field : Kind → Field → List ℕ → Result GrpcError (List ℕ)
unfolding bytes16
opaque_field kind field value = do
  bytes ← bytes16 value field
  elim (from_bytes bytes) [
    | ok id ↦ ok id
    | err e ↦ err (GrpcError.core (CoreError.zero_identifier kind))
  ]

unfoldable pub correlation_of : Option (List ℕ) → Result GrpcError (Option (List ℕ))
unfolding opaque_field
correlation_of none = ok none
correlation_of (some bytes) = do
  id ← opaque_field Kind.correlation_id Field.correlation_id bytes
  ok (some id)

-- `parse` of a text, its error with the kind.
unfoldable pub text_field : Kind → Result TextError (List ℕ) → Result GrpcError (List ℕ)
text_field kind (ok text) = ok text
text_field kind (err reason) = err (GrpcError.core (CoreError.invalid_text kind reason))

-- `u16::try_from`
unfoldable pub u16_field : Field → ℕ → Result GrpcError ℕ
u16_field field value = if ltb value u16_mod then ok value else err (GrpcError.invalid_field field)

-- `SchemaVersion::try_from`
unfoldable pub schema_of : ℕ → Result GrpcError ℕ
schema_of value = elim (nonzero_new value) [
  | none ↦ err (GrpcError.core (CoreError.zero_value Kind.schema_version))
  | some schema_version ↦ ok schema_version
]

-- The end of `into_core`.
unfoldable pub core_result : Result EnvelopeError Envelope → Result GrpcError Envelope
core_result (ok envelope) = ok envelope
core_result (err e) = err (GrpcError.core (CoreError.envelope e))

unfoldable pub into_core : WireEnvelopeV1 → ℕ → Result GrpcError Envelope
unfolding opaque_field correlation_of text_field u16_field schema_of core_result
into_core wire max_message_bytes = do
  cluster_id ← opaque_field Kind.cluster_id Field.cluster_id wire.cluster_id
  message_id ← opaque_field Kind.message_id Field.message_id wire.message_id
  correlation_id ← correlation_of wire.correlation_id
  source ← text_field Kind.node_id (parse_node_id wire.source_node_id)
  destination ← text_field Kind.node_id (parse_node_id wire.destination_node_id)
  protocol ← text_field Kind.protocol_name (parse_name wire.protocol)
  message_type ← text_field Kind.message_type (parse_name wire.message_type)
  raw_schema ← u16_field Field.schema_version wire.schema_version
  schema_version ← schema_of raw_schema
  version ← u16_field Field.envelope_version wire.envelope_version
  core_result (
      try_from_version version
        (record {
          cluster_id = cluster_id;
          source = source;
          destination = destination;
          message_id = message_id;
          correlation_id = correlation_id;
          protocol = protocol;
          message_type = message_type;
          schema_version = schema_version;
          delivery_attempt = wire.delivery_attempt;
          payload = wire.payload;
        })
        max_message_bytes)

-- The answer to what the handler returned.
unfoldable pub acknowledged {ℓ} :
    {S : Type ℓ} → S × Result GrpcError (Unit {0}) → S × Result Status Bool
acknowledged (s, ok done) = (s, ok true)
acknowledged (s, err e) = (s, err (Status.internal e))

-- An `EnvelopeHandler`, with its state.
module _ {ℓ} {S : Type ℓ} (handler : Envelope → S → S × Result GrpcError (Unit {0})) where
  -- `NodeTransportService::deliver`, once the envelope is converted; a `DeliveryAck` is its
  -- `accepted`.
  unfoldable pub dispatch : Result GrpcError Envelope → S → S × Result Status Bool
  unfolding acknowledged
  dispatch (ok envelope) s = acknowledged (handler envelope s)
  dispatch (err e) s = (s, err (Status.invalid_argument e))

  -- `NodeTransportService::deliver`
  unfoldable pub deliver : ℕ → WireEnvelopeV1 → S → S × Result Status Bool
  unfolding dispatch into_core
  deliver max_message_bytes wire s = dispatch (into_core wire max_message_bytes) s
