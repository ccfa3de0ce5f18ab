-- ===== src/Core/Envelope/Total.antt =====
-- The fingerprint of crates/iron-core/src/envelope.rs is there for every envelope that can be built.
use iron_consensus.Prelude.{
  ℕ, ◌≤◌, ◌<◌, ◌≡◌, refl, subst, List, ◌++◌, Option, none, some, ok, arith, All, length, u32_mod,
}
use iron_consensus.Core.Limits.{new_bounded, max_message_bytes}
use iron_consensus.Wal.Format.{be_u16}
use iron_consensus.Core.Envelope.Types.{EnvelopeFields, EnvelopeV1, Envelope}
use iron_consensus.Core.Envelope.{
  new_v1, from_fields, semantic_fingerprint, semantic_fields, correlation_field, as_v1,
  fingerprint_magic, fingerprint_format_version,
}
use iron_consensus.Core.Envelope.Preimage.{update_fields_lem, framed_all}

-- The lengths that the types of the fields give: 16 bytes of an identifier, 64 at most of a name.
pub record IsSized (f : EnvelopeFields) : Type 0 where
  pub cluster_id : length f.cluster_id ≡ 16
  pub source : length f.source ≤ 64
  pub destination : length f.destination ≤ 64
  pub message_id : length f.message_id ≡ 16
  pub correlation_id : (c : List ℕ) → f.correlation_id ≡ some c → length c ≡ 16
  pub protocol : length f.protocol ≤ 64
  pub message_type : length f.message_type ≤ 64

correlation_short :
    (c : Option (List ℕ))
    → ((x : List ℕ) → c ≡ some x → length x ≡ 16)
    → length (correlation_field c) < u32_mod
unfolding correlation_field
correlation_short none h = omega arith
correlation_short (some x) h = omega (arith, h x refl)

limit_bound : (raw maximum : ℕ) → new_bounded max_message_bytes raw ≡ ok maximum → maximum < u32_mod
unfolding new_bounded
limit_bound raw maximum h = ground arith

abbrev built : EnvelopeFields → EnvelopeV1
built f = record {
  cluster_id = f.cluster_id;
  source = f.source;
  destination = f.destination;
  message_id = f.message_id;
  correlation_id = f.correlation_id;
  protocol = f.protocol;
  message_type = f.message_type;
  schema_version = f.schema_version;
  delivery_attempt = f.delivery_attempt;
  payload = f.payload;
}

accepted :
    (f : EnvelopeFields) (maximum : ℕ) (e : Envelope)
    → new_v1 f maximum ≡ ok e
    → (length f.payload ≤ maximum) × (Envelope.v1 (built f) ≡ e)
unfolding new_v1 from_fields
accepted f maximum e h = ground arith

built-All :
    (f : EnvelopeFields)
    → IsSized f
    → length f.payload < u32_mod
    → All (λ x. length x < u32_mod) (semantic_fields (built f))
unfolding semantic_fields
built-All f s p = (
  omega (arith, s.cluster_id),
  (
    omega (arith, s.source),
    (
      omega (arith, s.destination),
      (
        omega (arith, s.message_id),
        (
          correlation_short f.correlation_id s.correlation_id,
          (omega (arith, s.protocol), (omega (arith, s.message_type), (omega arith, (p, tt)))),
        ),
      ),
    ),
  ),
)

-- An envelope that the constructor accepts from fields of the right types, under a maximum that
-- passed the validation of MaxMessageBytes, has a fingerprint: the conversion of a field's length to
-- u32 does not panic. It is the hash of the magic, the format version and the fields, each behind
-- its length.
pub fingerprint_total :
    (sha256 : List ℕ → List ℕ) (f : EnvelopeFields) (raw maximum : ℕ) (e : Envelope)
    → IsSized f
    → new_bounded max_message_bytes raw ≡ ok maximum
    → new_v1 f maximum ≡ ok e
    → semantic_fingerprint sha256 e
      ≡ some (
          sha256 (
            (fingerprint_magic ++ be_u16 fingerprint_format_version)
            ++ framed_all (semantic_fields (as_v1 e))))
unfolding semantic_fingerprint as_v1
fingerprint_total sha256 f raw maximum e s b h =
    let (fits, same) = accepted f maximum e h in
    let bound = limit_bound raw maximum b in
    let short = built-All f s (omega arith) in
    let fed =
      update_fields_lem (fingerprint_magic ++ be_u16 fingerprint_format_version)
        (semantic_fields (built f)) short in
    subst
      (λ v.
        semantic_fingerprint sha256 v
        ≡ some (
            sha256 (
              (fingerprint_magic ++ be_u16 fingerprint_format_version)
              ++ framed_all (semantic_fields (as_v1 v)))))
      same (rw (semantic_fingerprint, as_v1, fed) refl)
