-- ===== src/Grpc/RoundTrip.antt =====
-- What the adapter of crates/iron-grpc/src/lib.rs accepts: the wire forms of the validated envelopes,
-- and no others.
use iron_consensus.Prelude.{
  ℕ, ◌≤◌, ◌<◌, ◌≡◌, ◌≢◌, refl, sym, ap, ◌∙◌, subst, ◌↔◌, ◌⊎◌, inl, inr, false, ltb, Result, ok, err,
  ◌>>=◌, length, arith, u16_mod,
}
use iron_consensus.Core.Id.Text.{IsNodeId}
use iron_consensus.Core.Id.Names.{IsName}
use iron_consensus.Core.Envelope.Types.{EnvelopeFields, EnvelopeV1, Envelope}
use iron_consensus.Core.Envelope.{as_v1, try_from_version, new_v1, from_fields, version_one}
use iron_consensus.Grpc.{
  WireEnvelopeV1, Field, GrpcError, Status, from_core, into_core, core_result, deliver, dispatch,
  acknowledged,
}
use iron_consensus.Grpc.Fields.{
  IsIdentifier, IsCorrelation, opaque_field_iff, correlation_of_iff, text_field-IsNodeId,
  text_field-IsName, u16_field_iff, schema_of_iff,
}

-- What the types of an envelope's fields hold, and the limit on its payload.
pub record IsEnvelope (max_message_bytes : ℕ) (envelope : Envelope) : Type 0 where
  pub cluster_id : IsIdentifier (as_v1 envelope).cluster_id
  pub message_id : IsIdentifier (as_v1 envelope).message_id
  pub correlation_id : IsCorrelation (as_v1 envelope).correlation_id
  pub source : IsNodeId (as_v1 envelope).source
  pub destination : IsNodeId (as_v1 envelope).destination
  pub protocol : IsName (as_v1 envelope).protocol
  pub message_type : IsName (as_v1 envelope).message_type
  pub nonzero_schema : 1 ≤ (as_v1 envelope).schema_version
  pub bounded_schema : (as_v1 envelope).schema_version < u16_mod
  pub fits : length (as_v1 envelope).payload ≤ max_message_bytes

Result-cases {ℓ κ} :
    {E : Type ℓ} {A : Type κ} (r : Result E A) → ((a : A) × (r ≡ ok a)) ⊎ ((e : E) × (r ≡ err e))
Result-cases (ok a) = inl (a, refl)
Result-cases (err e) = inr (e, refl)

never_ok :
    (r : Result GrpcError Envelope) (e : GrpcError) (envelope : Envelope)
    → r ≡ err e
    → r ≢ ok envelope
never_ok r e envelope h k = ground arith

-- A stage of `into_core` that succeeded returned what it was given, which is of its type.
stage {ℓ κ} :
    {A : Type ℓ} (P : A → Type κ) (v : A) (r : Result GrpcError A)
    (f : A → Result GrpcError Envelope) (b : Envelope)
    → ((a : A) → (r ≡ ok a) ↔ ((v ≡ a) × P a))
    → (r >>= f) ≡ ok b
    → P v × (f v ≡ ok b)
stage P v (ok a) f b h e =
    let (same, p) = (h a).0 refl in (subst P (sym same) p, subst (λ x. f x ≡ ok b) (sym same) e)
stage P v (err x) f b h e = ground arith

abbrev fields_of : EnvelopeV1 → EnvelopeFields
fields_of e = record {
  cluster_id = e.cluster_id;
  source = e.source;
  destination = e.destination;
  message_id = e.message_id;
  correlation_id = e.correlation_id;
  protocol = e.protocol;
  message_type = e.message_type;
  schema_version = e.schema_version;
  delivery_attempt = e.delivery_attempt;
  payload = e.payload;
}

-- The end of `into_core`: the version and the payload decide.
finished :
    (version maximum : ℕ) (fields : EnvelopeFields) (envelope : Envelope)
    → core_result (try_from_version version fields maximum) ≡ ok envelope
    → (version ≡ version_one)
      × ((length fields.payload ≤ maximum)
          × (envelope
              ≡ Envelope.v1 (record {
                cluster_id = fields.cluster_id;
                source = fields.source;
                destination = fields.destination;
                message_id = fields.message_id;
                correlation_id = fields.correlation_id;
                protocol = fields.protocol;
                message_type = fields.message_type;
                schema_version = fields.schema_version;
                delivery_attempt = fields.delivery_attempt;
                payload = fields.payload;
              })))
unfolding core_result try_from_version new_v1 from_fields
finished version maximum fields envelope h = ground arith

into_core-IsEnvelope :
    (wire : WireEnvelopeV1) (maximum : ℕ) (envelope : Envelope)
    → into_core wire maximum ≡ ok envelope
    → (from_core envelope ≡ wire) × IsEnvelope maximum envelope
unfolding into_core from_core as_v1
into_core-IsEnvelope wire maximum envelope h =
    let (p1, r1) = stage IsIdentifier wire.cluster_id _ _ _ (opaque_field_iff _ _ _) h in
    let (p2, r2) = stage IsIdentifier wire.message_id _ _ _ (opaque_field_iff _ _ _) r1 in
    let (p3, r3) = stage IsCorrelation wire.correlation_id _ _ _ (correlation_of_iff _) r2 in
    let (p4, r4) = stage IsNodeId wire.source_node_id _ _ _ (text_field-IsNodeId _) r3 in
    let (p5, r5) = stage IsNodeId wire.destination_node_id _ _ _ (text_field-IsNodeId _) r4 in
    let (p6, r6) = stage IsName wire.protocol _ _ _ (text_field-IsName _ _) r5 in
    let (p7, r7) = stage IsName wire.message_type _ _ _ (text_field-IsName _ _) r6 in
    let (p8, r8) = stage (λ n. n < u16_mod) wire.schema_version _ _ _ (u16_field_iff _ _) r7 in
    let (p9, r9) = stage (λ n. 1 ≤ n) wire.schema_version _ _ _ (schema_of_iff _) r8 in
    let (p10, r10) = stage (λ n. n < u16_mod) wire.envelope_version _ _ _ (u16_field_iff _ _) r9 in
    let (one, (fits, same)) = finished wire.envelope_version maximum _ envelope r10 in
    subst (λ v. (from_core v ≡ wire) × IsEnvelope maximum v) (sym same)
      (
        ap (λ v. record wire { envelope_version = v }) (sym one),
        record {
          cluster_id = p1;
          message_id = p2;
          correlation_id = p3;
          source = p4;
          destination = p5;
          protocol = p6;
          message_type = p7;
          nonzero_schema = p9;
          bounded_schema = p8;
          fits = fits;
        },
      )

-- A stage that is given a value of its type passes it on.
pass {ℓ κ} :
    {A : Type ℓ} (P : A → Type κ) (v : A) (r : Result GrpcError A)
    (f : A → Result GrpcError Envelope)
    → ((a : A) → (r ≡ ok a) ↔ ((v ≡ a) × P a))
    → P v
    → (r >>= f) ≡ f v
pass P v r f h p = ap (λ x. x >>= f) ((h v).1 (refl, p))

not_above : (m n : ℕ) → n ≤ m → ltb m n ≡ false
not_above m n h = ground arith

taken :
    (maximum : ℕ) (e : EnvelopeV1)
    → length e.payload ≤ maximum
    → try_from_version version_one (fields_of e) maximum ≡ ok (Envelope.v1 e)
unfolding try_from_version new_v1 from_fields
taken maximum e h =
    rw (try_from_version, new_v1, from_fields, not_above maximum (length e.payload) h) refl

envelope_accepted :
    (maximum : ℕ) (envelope : Envelope)
    → IsEnvelope maximum envelope
    → into_core (from_core envelope) maximum ≡ ok envelope
unfolding into_core from_core as_v1
envelope_accepted maximum (Envelope.v1 e) h =
    pass IsIdentifier e.cluster_id _ _ (opaque_field_iff _ _ _) h.cluster_id
    ∙ pass IsIdentifier e.message_id _ _ (opaque_field_iff _ _ _) h.message_id
    ∙ pass IsCorrelation e.correlation_id _ _ (correlation_of_iff _) h.correlation_id
    ∙ pass IsNodeId e.source _ _ (text_field-IsNodeId _) h.source
    ∙ pass IsNodeId e.destination _ _ (text_field-IsNodeId _) h.destination
    ∙ pass IsName e.protocol _ _ (text_field-IsName _ _) h.protocol
    ∙ pass IsName e.message_type _ _ (text_field-IsName _ _) h.message_type
    ∙ pass (λ n. n < u16_mod) e.schema_version _ _ (u16_field_iff _ _) h.bounded_schema
    ∙ pass (λ n. 1 ≤ n) e.schema_version _ _ (schema_of_iff _) h.nonzero_schema
    ∙ pass (λ n. n < u16_mod) version_one _
        (λ v. core_result (try_from_version v (fields_of e) maximum))
        (u16_field_iff Field.envelope_version _) (omega arith)
    ∙ ap core_result (taken maximum e h.fits)

-- A wire envelope is converted to an envelope exactly if it is the wire form of that envelope, the
-- identifiers are nonzero, the names are of their grammars, the schema version is a nonzero u16 and
-- the payload is within the limit.
pub into_core_iff :
    (wire : WireEnvelopeV1) (maximum : ℕ) (envelope : Envelope)
    → (into_core wire maximum ≡ ok envelope)
      ↔ ((from_core envelope ≡ wire) × IsEnvelope maximum envelope)
into_core_iff wire maximum envelope = (
  into_core-IsEnvelope wire maximum envelope,
  λ (same, h).
      subst (λ w. into_core w maximum ≡ ok envelope) same (envelope_accepted maximum envelope h),
)

module _ {ℓ} {S : Type ℓ} (handler : Envelope → S → S × Result GrpcError (Unit {0})) where
  -- The service, whatever its handler does, calls it once, with an envelope within the limit whose
  -- wire form is the request, and answers as the handler returned; or leaves the handler's state as
  -- it was and answers that the argument is invalid, and then the request is the wire form of no
  -- envelope within the limit.
  pub deliver_cases :
      (maximum : ℕ) (wire : WireEnvelopeV1) (s : S)
      → ((envelope : Envelope) × (((from_core envelope ≡ wire) × IsEnvelope maximum envelope)
            × (deliver handler maximum wire s ≡ acknowledged (handler envelope s))))
        ⊎ ((e : GrpcError) × ((deliver handler maximum wire s
                ≡ (s, err (Status.invalid_argument e)))
              × ((envelope : Envelope)
                  → from_core envelope ≡ wire
                  → ¬ IsEnvelope maximum envelope)))
  unfolding deliver dispatch
  deliver_cases maximum wire s = elim (Result-cases (into_core wire maximum)) [
    | inl (envelope, h) ↦
        inl
          (envelope, ((into_core_iff wire maximum envelope).0 h, ap (λ r. dispatch handler r s) h))
    | inr (e, h) ↦ inr (
      e,
      (
        ap (λ r. dispatch handler r s) h,
        λ envelope same good.
            never_ok _ e envelope h ((into_core_iff wire maximum envelope).1 (same, good)),
      ),
    )
  ]
