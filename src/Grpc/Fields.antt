-- ===== src/Grpc/Fields.antt =====
-- The conversions of single fields in crates/iron-grpc/src/lib.rs succeed exactly on what the types of
-- the validated fields hold.
use iron_consensus.Prelude.{
  ℕ, ◌≤◌, ◌<◌, ◌≡◌, ◌≢◌, sym, subst, ◌↔◌, List, Option, none, some, ok, length, arith, u16_mod,
}
use iron_consensus.Order.{is_eq_iff, nat_ord, list_ord}
use iron_consensus.Core.Id.{parse_node_id, parse_name, nonzero_new}
use iron_consensus.Core.Id.Text.{IsNodeId, parse_node_id_iff}
use iron_consensus.Core.Id.Names.{IsName, parse_name_iff, parse_node_id-same}
use iron_consensus.Core.Envelope.Types.{from_bytes, zero_bytes}
use iron_consensus.Grpc.{
  Kind, Field, bytes16, opaque_field, correlation_of, text_field, u16_field, schema_of,
}

-- The bytes of an identifier.
pub record IsIdentifier (bytes : List ℕ) : Type 0 where
  pub sized : length bytes ≡ 16
  pub nonzero : bytes ≢ zero_bytes

abbrev pub IsCorrelation : Option (List ℕ) → Type 0
IsCorrelation none = Unit
IsCorrelation (some id) = IsIdentifier id

opaque_field-IsIdentifier :
    (kind : Kind) (field : Field) (value id : List ℕ)
    → opaque_field kind field value ≡ ok id
    → (value ≡ id) × IsIdentifier value
unfolding opaque_field bytes16 from_bytes
opaque_field-IsIdentifier kind field value id h = ground (arith, is_eq_iff value zero_bytes)

identifier_accepted :
    (kind : Kind) (field : Field) (value : List ℕ)
    → IsIdentifier value
    → opaque_field kind field value ≡ ok value
unfolding opaque_field bytes16 from_bytes
identifier_accepted kind field value h =
    ground (arith, h.sized, h.nonzero, is_eq_iff value zero_bytes)

pub opaque_field_iff :
    (kind : Kind) (field : Field) (value id : List ℕ)
    → (opaque_field kind field value ≡ ok id) ↔ ((value ≡ id) × IsIdentifier id)
opaque_field_iff kind field value id = (
  λ h.
      let (same, h') = opaque_field-IsIdentifier kind field value id h in
      (same, subst IsIdentifier same h'),
  λ (same, h).
      subst (λ v. opaque_field kind field v ≡ ok id) (sym same)
        (identifier_accepted kind field id h),
)

pub correlation_of_iff :
    (value id : Option (List ℕ))
    → (correlation_of value ≡ ok id) ↔ ((value ≡ id) × IsCorrelation id)
unfolding correlation_of
correlation_of_iff none none = ground arith
correlation_of_iff none (some id) = ground arith
correlation_of_iff (some value) none = ground arith
correlation_of_iff (some value) (some id) =
    ground (arith, opaque_field_iff Kind.correlation_id Field.correlation_id value id)

pub text_field-IsNodeId :
    (value node : List ℕ)
    → (text_field Kind.node_id (parse_node_id value) ≡ ok node) ↔ ((value ≡ node) × IsNodeId node)
unfolding text_field
text_field-IsNodeId value node =
    ground (arith, parse_node_id-same value node, parse_node_id_iff node)

pub text_field-IsName :
    (kind : Kind) (value name : List ℕ)
    → (text_field kind (parse_name value) ≡ ok name) ↔ ((value ≡ name) × IsName name)
unfolding text_field
text_field-IsName kind value name = ground (arith, parse_name_iff value name)

pub u16_field_iff :
    (field : Field) (value n : ℕ) → (u16_field field value ≡ ok n) ↔ ((value ≡ n) × (n < u16_mod))
unfolding u16_field
u16_field_iff field value n = ground arith

pub schema_of_iff : (value n : ℕ) → (schema_of value ≡ ok n) ↔ ((value ≡ n) × (1 ≤ n))
unfolding schema_of nonzero_new
schema_of_iff value n = ground arith
