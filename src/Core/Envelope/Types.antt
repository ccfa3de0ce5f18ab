-- ===== src/Core/Envelope/Types.antt =====
-- The data of crates/iron-core/src/envelope.rs and the opaque identifiers of id.rs. An identifier is
-- its 16 bytes, a text its bytes.
use iron_consensus.Prelude.{ℕ, List, [], ◌∷◌, Option, Result, ok, err, if◌then◌else◌}
use iron_consensus.Order.{is_eq, nat_ord, list_ord}
use iron_consensus.Core.Id.{NodeId}

-- The errors of `CoreError` that envelopes meet; `payload_too_large` has actual and maximum.
pub data EnvelopeError : Type 0 where
  zero_identifier generated_zero_identifier delivery_attempt_overflow invalid_fingerprint :
      EnvelopeError
  unsupported_envelope_version : ℕ → EnvelopeError
  payload_too_large : ℕ → ℕ → EnvelopeError

pub record EnvelopeFields : Type 0 where
  pub cluster_id : List ℕ
  pub source : NodeId
  pub destination : NodeId
  pub message_id : List ℕ
  pub correlation_id : Option (List ℕ)
  pub protocol : List ℕ
  pub message_type : List ℕ
  pub schema_version : ℕ
  pub delivery_attempt : ℕ
  pub payload : List ℕ

pub record EnvelopeV1 : Type 0 where
  pub cluster_id : List ℕ
  pub source : NodeId
  pub destination : NodeId
  pub message_id : List ℕ
  pub correlation_id : Option (List ℕ)
  pub protocol : List ℕ
  pub message_type : List ℕ
  pub schema_version : ℕ
  pub delivery_attempt : ℕ
  pub payload : List ℕ

pub data Envelope : Type 0 where
  v1 : EnvelopeV1 → Envelope

abbrev pub zero_bytes : List ℕ
zero_bytes = 0 ∷ 0 ∷ 0 ∷ 0 ∷ 0 ∷ 0 ∷ 0 ∷ 0 ∷ 0 ∷ 0 ∷ 0 ∷ 0 ∷ 0 ∷ 0 ∷ 0 ∷ 0 ∷ []

-- `opaque_id!`: `from_bytes`.
unfoldable pub from_bytes : List ℕ → Result EnvelopeError (List ℕ)
from_bytes bytes = if is_eq bytes zero_bytes then err EnvelopeError.zero_identifier else ok bytes

-- `opaque_id!`: `generate`, with what the generator returns.
unfoldable pub generated : List ℕ → Result EnvelopeError (List ℕ)
generated bytes =
    if is_eq bytes zero_bytes then err EnvelopeError.generated_zero_identifier else ok bytes
