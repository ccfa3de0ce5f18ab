-- ===== src/Core/Envelope.antt =====
-- crates/iron-core/src/envelope.rs: envelopes, their semantic fingerprint and its text. SHA-256 is a
-- parameter, a function of the bytes that it is fed; so is the generator of identifiers.
pub mod Types
pub mod Preimage
pub mod Hex
pub mod Total
pub mod Exchange
mod Tests
use iron_consensus.Prelude.{
  ℕ, zero, suc, ◌+◌, ◌-◌, ◌*◌, ◌/◌, ◌%◌, Bool, true, false, ◌&&◌, not, List, [], ◌∷◌, ◌++◌, Option,
  none, some, Result, ok, err, ◌>>=◌, if◌then◌else◌, ltb, leb, ◌==◌, length, checked_add, u32_mod,
}
use iron_consensus.Core.Id.{NodeId}
use iron_consensus.Core.Dedup.Types.{DedupKey}
use iron_consensus.Wal.Format.{be_u16, be_u32}
use Types.{EnvelopeError, EnvelopeFields, EnvelopeV1, Envelope, generated}

-- `EnvelopeFields::initial`
unfoldable pub initial :
    List ℕ
    → NodeId
    → NodeId
    → List ℕ
    → Option (List ℕ)
    → List ℕ
    → List ℕ
    → ℕ
    → List ℕ
    → EnvelopeFields
initial cluster_id source destination message_id correlation_id protocol message_type schema_version
      payload =
    record {
      cluster_id = cluster_id;
      source = source;
      destination = destination;
      message_id = message_id;
      correlation_id = correlation_id;
      protocol = protocol;
      message_type = message_type;
      schema_version = schema_version;
      delivery_attempt = 0;
      payload = payload;
    }

-- `EnvelopeV1::from_fields`
unfoldable pub from_fields : EnvelopeFields → ℕ → Result EnvelopeError EnvelopeV1
from_fields fields max_message_bytes =
    if ltb max_message_bytes (length fields.payload)
    then err (EnvelopeError.payload_too_large (length fields.payload) max_message_bytes)
    else ok (record {
      cluster_id = fields.cluster_id;
      source = fields.source;
      destination = fields.destination;
      message_id = fields.message_id;
      correlation_id = fields.correlation_id;
      protocol = fields.protocol;
      message_type = fields.message_type;
      schema_version = fields.schema_version;
      delivery_attempt = fields.delivery_attempt;
      payload = fields.payload;
    })

unfoldable pub new_v1 : EnvelopeFields → ℕ → Result EnvelopeError Envelope
unfolding from_fields
new_v1 fields max_message_bytes = elim (from_fields fields max_message_bytes) [
  | ok envelope ↦ ok (Envelope.v1 envelope)
  | err e ↦ err e
]

-- `EnvelopeVersion::V1`
abbrev pub version_one : ℕ
version_one = 1

unfoldable pub try_from_version : ℕ → EnvelopeFields → ℕ → Result EnvelopeError Envelope
unfolding new_v1
try_from_version version fields max_message_bytes =
    if not (version == version_one)
    then err (EnvelopeError.unsupported_envelope_version version)
    else new_v1 fields max_message_bytes

unfoldable pub as_v1 : Envelope → EnvelopeV1
as_v1 (Envelope.v1 envelope) = envelope

unfoldable pub retry : Envelope → Result EnvelopeError Envelope
retry (Envelope.v1 envelope) = elim (checked_add u32_mod envelope.delivery_attempt 1) [
  | none ↦ err EnvelopeError.delivery_attempt_overflow
  | some delivery_attempt ↦
      ok (Envelope.v1 (record envelope { delivery_attempt = delivery_attempt }))
]

-- `DedupKey::from_envelope`
unfoldable pub from_envelope : Envelope → DedupKey
unfolding as_v1
from_envelope envelope = record {
  cluster_id = (as_v1 envelope).cluster_id;
  source_node_id = (as_v1 envelope).source;
  message_id = (as_v1 envelope).message_id;
}

-- An `IdGenerator`: its state and `next_id`.
module _ {G : Type 0} (next_id : G → List ℕ × G) where
  -- `Envelope::response_v1`, and the generator behind it.
  unfoldable pub response_v1 :
      Envelope → G → List ℕ → ℕ → List ℕ → ℕ → Result EnvelopeError Envelope × G
  unfolding as_v1 generated initial new_v1
  response_v1 request generator message_type schema_version payload max_message_bytes = (
    elim (generated (next_id generator).0) [
      | err e ↦ err e
      | ok message_id ↦
          new_v1
            (initial (as_v1 request).cluster_id (as_v1 request).destination (as_v1 request).source
              message_id (some (as_v1 request).message_id) (as_v1 request).protocol message_type
              schema_version payload)
            max_message_bytes
    ],
    (next_id generator).1,
  )

abbrev pub fingerprint_magic : List ℕ
fingerprint_magic = b'I' ∷ b'C' ∷ b'F' ∷ b'P' ∷ []

abbrev pub fingerprint_format_version : ℕ
fingerprint_format_version = 1

-- `update_field`: the bytes that the digest has been fed, `none` where the length's `expect` panics.
unfoldable pub update_field : List ℕ → List ℕ → Option (List ℕ)
update_field digest field =
    if ltb (length field) u32_mod then some (digest ++ (be_u32 (length field) ++ field)) else none

-- Calls of `update_field`, one after the other.
unfoldable pub update_fields : List ℕ → List (List ℕ) → Option (List ℕ)
unfolding update_field
update_fields digest [] = some digest
update_fields digest (field ∷ fields) = elim (update_field digest field) [
  | none ↦ none
  | some digest' ↦ update_fields digest' fields
]

unfoldable pub correlation_field : Option (List ℕ) → List ℕ
correlation_field none = []
correlation_field (some correlation_id) = correlation_id

-- The fields that `semantic_fingerprint` feeds to the digest, in its order.
unfoldable pub semantic_fields : EnvelopeV1 → List (List ℕ)
unfolding correlation_field
semantic_fields e =
    e.cluster_id
    ∷ e.source
    ∷ e.destination
    ∷ e.message_id
    ∷ correlation_field e.correlation_id
    ∷ e.protocol
    ∷ e.message_type
    ∷ be_u16 e.schema_version
    ∷ e.payload
    ∷ []

module _ (sha256 : List ℕ → List ℕ) where
  unfoldable pub semantic_fingerprint : Envelope → Option (List ℕ)
  unfolding as_v1 update_fields semantic_fields
  semantic_fingerprint envelope =
      elim (update_fields (fingerprint_magic ++ be_u16 fingerprint_format_version)
        (semantic_fields (as_v1 envelope))) [ none ↦ none | some fed ↦ some (sha256 fed) ]

unfoldable pub decode_lower_hex : ℕ → Result EnvelopeError ℕ
decode_lower_hex byte =
    if leb b'0' byte && leb byte b'9'
    then ok (byte - b'0')
    else if leb b'a' byte && leb byte b'f'
    then ok (byte - b'a' + 10)
    else err EnvelopeError.invalid_fingerprint

-- The loop of `parse`, two characters a round; `high << 4 | low` is a sum, as `low` is below 16. The
-- length check before it leaves no odd character.
unfoldable pub decode_pairs : List ℕ → Result EnvelopeError (List ℕ)
unfolding decode_lower_hex
decode_pairs [] = ok []
decode_pairs (a ∷ []) = ok []
decode_pairs (a ∷ (b ∷ input)) = do
  high ← decode_lower_hex a
  low ← decode_lower_hex b
  rest ← decode_pairs input
  ok ((high * 16 + low) ∷ rest)

-- `SemanticFingerprint::parse`
unfoldable pub parse_fingerprint : List ℕ → Result EnvelopeError (List ℕ)
unfolding decode_pairs
parse_fingerprint input =
    if not (length input == 64) then err EnvelopeError.invalid_fingerprint else decode_pairs input

-- One digit of `{:02x}`.
unfoldable pub lower_hex : ℕ → ℕ
lower_hex n = if ltb n 10 then b'0' + n else b'a' + (n - 10)

-- `Display` of a fingerprint.
unfoldable pub show_fingerprint : List ℕ → List ℕ
unfolding lower_hex
show_fingerprint [] = []
show_fingerprint (byte ∷ bytes) =
    lower_hex (byte / 16) ∷ lower_hex (byte % 16) ∷ show_fingerprint bytes
