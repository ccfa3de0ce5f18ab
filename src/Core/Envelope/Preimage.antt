-- ===== src/Core/Envelope/Preimage.antt =====
-- What the digest of crates/iron-core/src/envelope.rs is fed determines the fields it was fed.
use iron_consensus.Prelude.{
  ℕ, zero, suc, ◌<◌, ◌≡◌, ◌≢◌, refl, sym, ap, ap₂, ◌∙◌, List, [], ◌∷◌, ◌++◌, Option, none, some,
  arith, All, length, u16_mod, u32_mod, Bool-cases, Option-cases, inl, inr, ◌⊎◌,
}
use mathlib.Core.List.{append-nil, append_assoc}
use iron_consensus.Order.{is_eq, is_eq_iff, nat_ord, list_ord}
use iron_consensus.Wal.Format.{be_u16, be_u32, read_u16, read_u32}
use iron_consensus.Wal.Format.RoundTrip.{u16_value, u32_value}
use iron_consensus.Core.Envelope.Types.{EnvelopeV1, Envelope}
use iron_consensus.Core.Envelope.{
  update_field, update_fields, semantic_fields, correlation_field, semantic_fingerprint, as_v1,
  fingerprint_magic, fingerprint_format_version,
}

-- A field with its length before it, and several of them.
abbrev pub framed : List ℕ → List ℕ
framed field = be_u32 (length field) ++ field

abbrev pub framed_all : List (List ℕ) → List ℕ
framed_all [] = []
framed_all (field ∷ fields) = framed field ++ framed_all fields

pub update_fields_lem :
    (digest : List ℕ) (fields : List (List ℕ))
    → All (λ f. length f < u32_mod) fields
    → update_fields digest fields ≡ some (digest ++ framed_all fields)
unfolding update_fields update_field
update_fields_lem d [] h = ground (arith, append-nil d)
update_fields_lem d (f ∷ fs) h = ground (
  arith,
  h.0,
  update_fields_lem (d ++ framed f) fs h.1,
  append_assoc d (framed f) (framed_all fs),
)

-- Only short fields are fed without a panic.
update_fields-All :
    (digest : List ℕ) (fields : List (List ℕ)) (fed : List ℕ)
    → update_fields digest fields ≡ some fed
    → All (λ f. length f < u32_mod) fields
unfolding update_fields update_field
update_fields-All d [] x h = tt
update_fields-All d (f ∷ fs) x h =
    (ground arith, update_fields-All (d ++ framed f) fs x (ground arith))

be_u32_injective : (a b : ℕ) → a < u32_mod → b < u32_mod → be_u32 a ≡ be_u32 b → a ≡ b
unfolding read_u32
be_u32_injective a b p q e = sym (u32_value a p) ∙ ap (λ xs. read_u32 xs 0) e ∙ u32_value b q

be_u16_injective : (a b : ℕ) → a < u16_mod → b < u16_mod → be_u16 a ≡ be_u16 b → a ≡ b
unfolding read_u16
be_u16_injective a b p q e = sym (u16_value a p) ∙ ap (λ xs. read_u16 xs 0) e ∙ u16_value b q

append_split :
    (xs ys r s : List ℕ) → length xs ≡ length ys → xs ++ r ≡ ys ++ s → (xs ≡ ys) × (r ≡ s)
append_split [] [] r s n e = (refl, e)
append_split [] (y ∷ ys) r s n e = absurd (omega (arith, n))
append_split (x ∷ xs) [] r s n e = absurd (omega (arith, n))
append_split (x ∷ xs) (y ∷ ys) r s n e = ground (arith, append_split xs ys r s)

framed_split :
    (f g r s : List ℕ)
    → length f < u32_mod
    → length g < u32_mod
    → framed f ++ r ≡ framed g ++ s
    → (f ≡ g) × (r ≡ s)
framed_split f g r s p q e =
    let whole : be_u32 (length f) ++ (f ++ r) ≡ be_u32 (length g) ++ (g ++ s) = e in
    let (lengths, rest) =
      append_split (be_u32 (length f)) (be_u32 (length g)) (f ++ r) (g ++ s) refl whole in
    append_split f g r s (be_u32_injective (length f) (length g) p q lengths) rest

framed_all_injective :
    (fs gs : List (List ℕ))
    → All (λ f. length f < u32_mod) fs
    → All (λ f. length f < u32_mod) gs
    → length fs ≡ length gs
    → framed_all fs ≡ framed_all gs
    → fs ≡ gs
framed_all_injective [] [] p q n e = refl
framed_all_injective [] (g ∷ gs) p q n e = absurd (omega (arith, n))
framed_all_injective (f ∷ fs) [] p q n e = absurd (omega (arith, n))
framed_all_injective (f ∷ fs) (g ∷ gs) p q n e =
    let (same, rest) = framed_split f g (framed_all fs) (framed_all gs) p.0 q.0 e in
    ap₂ ◌∷◌ same (framed_all_injective fs gs p.1 q.1 (omega (arith, n)) rest)

-- What is fed determines the fields, if it is known how many they are.
update_fields_injective :
    (digest : List ℕ) (fs gs : List (List ℕ)) (fed : List ℕ)
    → length fs ≡ length gs
    → update_fields digest fs ≡ some fed
    → update_fields digest gs ≡ some fed
    → fs ≡ gs
update_fields_injective d fs gs x n p q =
    let short_f = update_fields-All d fs x p in
    let short_g = update_fields-All d gs x q in
    let same : d ++ framed_all fs ≡ d ++ framed_all gs =
      ground (arith, update_fields_lem d fs short_f, update_fields_lem d gs short_g) in
    framed_all_injective fs gs short_f short_g n
      (append_split d d (framed_all fs) (framed_all gs) refl same).1

-- The types of the fields: identifiers have 16 bytes, versions are u16.
pub record IsTyped (e : EnvelopeV1) : Type 0 where
  pub correlation : (c : List ℕ) → e.correlation_id ≡ some c → length c ≡ 16
  pub version : e.schema_version < u16_mod

-- Two envelopes that differ in the delivery attempt at most.
pub record Alike (e f : EnvelopeV1) : Type 0 where
  pub cluster_id : e.cluster_id ≡ f.cluster_id
  pub source : e.source ≡ f.source
  pub destination : e.destination ≡ f.destination
  pub message_id : e.message_id ≡ f.message_id
  pub correlation_id : e.correlation_id ≡ f.correlation_id
  pub protocol : e.protocol ≡ f.protocol
  pub message_type : e.message_type ≡ f.message_type
  pub schema_version : e.schema_version ≡ f.schema_version
  pub payload : e.payload ≡ f.payload

abbrev field_at : ℕ → List (List ℕ) → List ℕ
field_at i [] = []
field_at zero (f ∷ fs) = f
field_at (suc i) (f ∷ fs) = field_at i fs

abbrev pub fingerprint_start : List ℕ
fingerprint_start = fingerprint_magic ++ be_u16 fingerprint_format_version

fields_count : (e f : EnvelopeV1) → length (semantic_fields e) ≡ length (semantic_fields f)
unfolding semantic_fields
fields_count e f = refl

correlation_injective :
    (c d : Option (List ℕ))
    → ((x : List ℕ) → c ≡ some x → length x ≡ 16)
    → ((x : List ℕ) → d ≡ some x → length x ≡ 16)
    → correlation_field c ≡ correlation_field d
    → c ≡ d
unfolding correlation_field
correlation_injective none none p q e = refl
correlation_injective none (some y) p q e = absurd (omega (arith, q y refl, ap length e))
correlation_injective (some x) none p q e = absurd (omega (arith, p x refl, ap length e))
correlation_injective (some x) (some y) p q e = ap some e

semantic_fields-Alike :
    (e f : EnvelopeV1) → IsTyped e → IsTyped f → semantic_fields e ≡ semantic_fields f → Alike e f
unfolding semantic_fields
semantic_fields-Alike e f p q h = record {
  cluster_id = ap (field_at 0) h;
  source = ap (field_at 1) h;
  destination = ap (field_at 2) h;
  message_id = ap (field_at 3) h;
  correlation_id =
      correlation_injective e.correlation_id f.correlation_id p.correlation q.correlation
        (ap (field_at 4) h);
  protocol = ap (field_at 5) h;
  message_type = ap (field_at 6) h;
  schema_version =
      be_u16_injective e.schema_version f.schema_version p.version q.version (ap (field_at 7) h);
  payload = ap (field_at 8) h;
}

-- The hash agrees on what two envelopes feed it, though that differs.
pub record Collision (sha256 : List ℕ → List ℕ) (e f : EnvelopeV1) : Type 0 where
  pub left : List ℕ
  pub right : List ℕ
  pub from_left : update_fields fingerprint_start (semantic_fields e) ≡ some left
  pub from_right : update_fields fingerprint_start (semantic_fields f) ≡ some right
  pub differ : left ≢ right
  pub agree : sha256 left ≡ sha256 right

fed_of :
    (sha256 : List ℕ → List ℕ) (start : List ℕ) (fields : List (List ℕ)) (fingerprint : List ℕ)
    → (elim (update_fields start fields) [ none ↦ none | some fed ↦ some (sha256 fed) ])
      ≡ some fingerprint
    → (fed : List ℕ) × (update_fields start fields ≡ some fed) × (sha256 fed ≡ fingerprint)
fed_of sha256 start fields x h = elim (Option-cases (update_fields start fields)) [
  | inl panics ↦ absurd (grind (arith, h, panics))
  | inr (fed, a) ↦ (fed, a, grind (arith, h, a))
]

-- If two envelopes, whose correlation identifiers have 16 bytes and whose schema versions are u16,
-- have the same semantic fingerprint, then they agree in every field but the delivery attempt, or
-- what the two feed to the hash is a collision of it: different bytes with one hash.
pub fingerprint_decides :
    (sha256 : List ℕ → List ℕ) (e f : EnvelopeV1) (fingerprint : List ℕ)
    → IsTyped e
    → IsTyped f
    → semantic_fingerprint sha256 (Envelope.v1 e) ≡ some fingerprint
    → semantic_fingerprint sha256 (Envelope.v1 f) ≡ some fingerprint
    → Alike e f ⊎ Collision sha256 e f
unfolding semantic_fingerprint as_v1
fingerprint_decides sha256 e f x p q h k =
    let (fed_e, a, hash_e) = fed_of sha256 fingerprint_start (semantic_fields e) x h in
    let (fed_f, b, hash_f) = fed_of sha256 fingerprint_start (semantic_fields f) x k in
    elim (Bool-cases (is_eq fed_e fed_f)) [
      | inl same ↦ inl (
          semantic_fields-Alike e f p q (
            update_fields_injective fingerprint_start (semantic_fields e) (semantic_fields f) fed_f
              (fields_count e f) (a ∙ ap some ((is_eq_iff fed_e fed_f).0 same)) b))
      | inr differ ↦ inr (record {
        left = fed_e;
        right = fed_f;
        from_left = a;
        from_right = b;
        differ = λ s. grind (arith, differ, (is_eq_iff fed_e fed_f).1 s);
        agree = hash_e ∙ sym hash_f;
      })
    ]
