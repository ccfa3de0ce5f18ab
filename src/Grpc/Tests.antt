-- ===== src/Grpc/Tests.antt =====
-- The gRPC adapter at concrete inputs, and its theorems there.
use iron_consensus.Prelude.{ℕ, ◌+◌, ◌≡◌, ◌↔◌, refl, ◌⊎◌, true, List, [], ◌∷◌, some, Result, ok, err}
use iron_consensus.Core.Id.{
  TextError, parse_node_id, validate_node_id, parse_name, all_by, is_node_byte, is_name_byte,
  is_lower_alphanumeric, byte_at, nonzero_new,
}
use iron_consensus.Order.{is_eq, nat_ord, list_ord, cmp_list}
use iron_consensus.Core.Envelope.Types.{EnvelopeError, Envelope, from_bytes, zero_bytes}
use iron_consensus.Core.Envelope.{as_v1, try_from_version, new_v1, from_fields}
use iron_consensus.Grpc.{
  WireEnvelopeV1, Kind, CoreError, Field, GrpcError, Status, from_core, into_core, core_result,
  bytes16, opaque_field, correlation_of, text_field, u16_field, schema_of, deliver, dispatch,
  acknowledged,
}
use iron_consensus.Grpc.RoundTrip.{IsEnvelope, into_core_iff, deliver_cases}

program : Unit {0}
unfolding parse_node_id validate_node_id parse_name all_by is_node_byte is_name_byte
    is_lower_alphanumeric byte_at nonzero_new is_eq list_ord cmp_list from_bytes as_v1
    try_from_version new_v1 from_fields from_core into_core core_result bytes16 opaque_field
    correlation_of text_field u16_field schema_of deliver dispatch acknowledged
program = tt

abbrev id : ℕ → List ℕ
id n = n ∷ 0 ∷ 0 ∷ 0 ∷ 0 ∷ 0 ∷ 0 ∷ 0 ∷ 0 ∷ 0 ∷ 0 ∷ 0 ∷ 0 ∷ 0 ∷ 0 ∷ 1 ∷ []

abbrev sent : Envelope
sent = Envelope.v1 (record {
  cluster_id = id 1;
  source = b'a' ∷ [];
  destination = b'b' ∷ b'-' ∷ b'2' ∷ [];
  message_id = id 2;
  correlation_id = some (id 3);
  protocol = b'r' ∷ b'.' ∷ [];
  message_type = b't' ∷ [];
  schema_version = 7;
  delivery_attempt = 2;
  payload = 0 ∷ 255 ∷ [];
})

abbrev wire : WireEnvelopeV1
wire = record {
  envelope_version = 1;
  cluster_id = id 1;
  source_node_id = b'a' ∷ [];
  destination_node_id = b'b' ∷ b'-' ∷ b'2' ∷ [];
  message_id = id 2;
  correlation_id = some (id 3);
  protocol = b'r' ∷ b'.' ∷ [];
  message_type = b't' ∷ [];
  schema_version = 7;
  delivery_attempt = 2;
  payload = 0 ∷ 255 ∷ [];
}

from_core_test : from_core sent ≡ wire
unfolding program
from_core_test = refl

into_core_test : into_core wire 2 ≡ ok sent
unfolding program
into_core_test = refl

short_identifier_test :
    into_core (record wire { message_id = 1 ∷ [] }) 2
    ≡ err (GrpcError.invalid_field Field.message_id)
unfolding program
short_identifier_test = refl

zero_correlation_test :
    into_core (record wire { correlation_id = some zero_bytes }) 2
    ≡ err (GrpcError.core (CoreError.zero_identifier Kind.correlation_id))
unfolding program
zero_correlation_test = refl

bad_node_test :
    into_core (record wire { destination_node_id = b'b' ∷ b'-' ∷ [] }) 2
    ≡ err (GrpcError.core (CoreError.invalid_text Kind.node_id TextError.bad_boundary))
unfolding program
bad_node_test = refl

zero_schema_test :
    into_core (record wire { schema_version = 0 }) 2
    ≡ err (GrpcError.core (CoreError.zero_value Kind.schema_version))
unfolding program
zero_schema_test = refl

wide_version_test :
    into_core (record wire { envelope_version = 65536 + 1 }) 2
    ≡ err (GrpcError.invalid_field Field.envelope_version)
unfolding program
wide_version_test = refl

large_payload_test :
    into_core wire 1
    ≡ err (GrpcError.core (CoreError.envelope (EnvelopeError.payload_too_large 2 1)))
unfolding program
large_payload_test = refl

-- An application that keeps what it is given, and refuses a second envelope.
abbrev keep_one : Envelope → List Envelope → List Envelope × Result GrpcError (Unit {0})
keep_one envelope [] = (envelope ∷ [], ok tt)
keep_one envelope (e ∷ es) = (e ∷ es, err (GrpcError.invalid_field Field.cluster_id))

deliver_test : deliver keep_one 2 wire [] ≡ (sent ∷ [], ok true)
unfolding program
deliver_test = refl

deliver_twice_test :
    deliver keep_one 2 wire (sent ∷ [])
    ≡ (sent ∷ [], err (Status.internal (GrpcError.invalid_field Field.cluster_id)))
unfolding program
deliver_twice_test = refl

into_core_iff_example : (into_core wire 2 ≡ ok sent) ↔ ((from_core sent ≡ wire) × IsEnvelope 2 sent)
into_core_iff_example = into_core_iff wire 2 sent

deliver_cases_example :
    ((envelope : Envelope) × (((from_core envelope ≡ wire) × IsEnvelope 2 envelope)
        × (deliver keep_one 2 wire [] ≡ acknowledged (keep_one envelope []))))
    ⊎ ((e : GrpcError) × ((deliver keep_one 2 wire [] ≡ ([], err (Status.invalid_argument e)))
          × ((envelope : Envelope) → from_core envelope ≡ wire → ¬ IsEnvelope 2 envelope)))
deliver_cases_example = deliver_cases keep_one 2 wire []
