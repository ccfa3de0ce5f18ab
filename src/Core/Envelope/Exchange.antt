-- ===== src/Core/Envelope/Exchange.antt =====
-- Requests, their retries and their responses in crates/iron-core/src/envelope.rs, and what the
-- deduplication table of dedup.rs makes of a retry.
use iron_consensus.Prelude.{
  ℕ, zero, suc, ◌+◌, ◌≤◌, ◌<◌, ◌≡◌, ◌≢◌, refl, sym, ap, subst, ◌∙◌, List, ◌∷◌, some, Result, ok,
  err, arith, All, length, u32_mod, Bool-cases, inl, inr, ◌⊎◌, ltb, ltb→lt,
}
use iron_consensus.Order.{is_eq, is_eq_iff, nat_ord, list_ord}
use iron_consensus.Core.Dedup.Types.{BeginResult, DedupTable}
use iron_consensus.Core.Dedup.{begin, complete}
use iron_consensus.Core.Dedup.Valid.{IsValid}
use iron_consensus.Core.Dedup.Calls.{Call, key_of, run}
use iron_consensus.Core.Dedup.Once.{IsConfigured, exactly_once}
use iron_consensus.Core.Envelope.Types.{EnvelopeError, EnvelopeV1, Envelope, generated, zero_bytes}
use iron_consensus.Core.Envelope.{
  retry, as_v1, from_envelope, semantic_fingerprint, semantic_fields, response_v1, new_v1,
  from_fields, initial,
}
use iron_consensus.Core.Envelope.Preimage.{Alike}

-- The envelope after so many retries.
abbrev pub retries : ℕ → Envelope → Result EnvelopeError Envelope
retries zero e = ok e
retries (suc n) e = elim (retry e) [ ok e' ↦ retries n e' | err f ↦ err f ]

-- What so many retries leave as it was, and the attempt that they count.
pub record Retried (sha256 : List ℕ → List ℕ) (n : ℕ) (e e' : Envelope) : Type 0 where
  pub alike : Alike (as_v1 e) (as_v1 e')
  pub attempt : (as_v1 e').delivery_attempt ≡ (as_v1 e).delivery_attempt + n
  pub same_key : from_envelope e' ≡ from_envelope e
  pub same_fingerprint : semantic_fingerprint sha256 e' ≡ semantic_fingerprint sha256 e

abbrev again : EnvelopeV1 → EnvelopeV1
again e = record e { delivery_attempt = e.delivery_attempt + 1 }

retry_lem :
    (e : EnvelopeV1)
    → ((retry (Envelope.v1 e) ≡ ok (Envelope.v1 (again e))) × (e.delivery_attempt + 1 < u32_mod))
      ⊎ ((retry (Envelope.v1 e) ≡ err EnvelopeError.delivery_attempt_overflow)
          × (u32_mod ≤ e.delivery_attempt + 1))
unfolding retry
retry_lem e = elim (Bool-cases (ltb (e.delivery_attempt + 1) u32_mod)) [
  | inl fits ↦ inl (ground arith, ground arith)
  | inr over ↦ inr (ground arith, ground arith)
]

again-Retried :
    (sha256 : List ℕ → List ℕ) (n : ℕ) (e : EnvelopeV1) (e' : Envelope)
    → Retried sha256 n (Envelope.v1 (again e)) e'
    → Retried sha256 (suc n) (Envelope.v1 e) e'
unfolding as_v1 from_envelope semantic_fingerprint semantic_fields
again-Retried sha256 n e e' r = record {
  alike = record {
    cluster_id = r.alike.cluster_id;
    source = r.alike.source;
    destination = r.alike.destination;
    message_id = r.alike.message_id;
    correlation_id = r.alike.correlation_id;
    protocol = r.alike.protocol;
    message_type = r.alike.message_type;
    schema_version = r.alike.schema_version;
    payload = r.alike.payload;
  };
  attempt = omega (arith, r.attempt);
  same_key = r.same_key;
  same_fingerprint = r.same_fingerprint;
}

same-Retried : (sha256 : List ℕ → List ℕ) (e : Envelope) → Retried sha256 zero e e
same-Retried sha256 e = record {
  alike = record {
    cluster_id = refl;
    source = refl;
    destination = refl;
    message_id = refl;
    correlation_id = refl;
    protocol = refl;
    message_type = refl;
    schema_version = refl;
    payload = refl;
  };
  attempt = omega arith;
  same_key = refl;
  same_fingerprint = refl;
}

-- Retrying so many times an envelope whose attempt is u32 either succeeds, and then the envelope has
-- every field, the deduplication key and the semantic fingerprint that it had, and an attempt that
-- is larger by that number; or it is refused, exactly if that attempt would not be u32.
pub retries_counted :
    (sha256 : List ℕ → List ℕ) (n : ℕ) (e : Envelope)
    → (as_v1 e).delivery_attempt < u32_mod
    → ((e' : Envelope) × (retries n e ≡ ok e')
        × Retried sha256 n e e'
        × ((as_v1 e).delivery_attempt + n < u32_mod))
      ⊎ ((retries n e ≡ err EnvelopeError.delivery_attempt_overflow)
          × (u32_mod ≤ (as_v1 e).delivery_attempt + n))
unfolding as_v1
retries_counted sha256 zero e h = inl (e, refl, same-Retried sha256 e, omega arith)
retries_counted sha256 (suc n) (Envelope.v1 e) h = elim (retry_lem e) [
  | inr (refused, over) ↦ inr (rw (retries, refused) refl, omega arith)
  | inl (granted, fits) ↦ elim (retries_counted sha256 n (Envelope.v1 (again e)) fits) [
    | inr (refused, over) ↦ inr (rw (retries, granted) refused, omega arith)
    | inl (e', done, r, small) ↦
        inl (e', rw (retries, granted) done, again-Retried sha256 n e e' r, omega arith)
  ]
]

longer : (xs : List ℕ) → xs ≢ (0 ∷ xs)
longer xs h = omega (arith, ap length h)

one_result : (r : Result EnvelopeError Envelope) (e f : Envelope) → r ≡ ok e → r ≡ ok f → e ≡ f
one_result r e f p q = grind (arith, p, q)

not_both :
    (r : Result EnvelopeError Envelope) (e : Envelope) (f : EnvelopeError) → r ≡ ok e → r ≢ err f
not_both r e f p q = grind (arith, p, q)

-- Suppose an envelope's key and fingerprint are granted by `begin` in a table where the invariant
-- holds, with a legal configuration, any calls on other keys follow, and an outcome within its bound
-- is completed. Then any retry of the envelope has the same fingerprint, and `begin` on the retry
-- replays exactly that outcome and leaves the table as it is.
pub retry_replayed :
    (sha256 : List ℕ → List ℕ) (n : ℕ) (e e' : Envelope) (t : DedupTable)
    (fingerprint outcome : List ℕ) (cs : List Call)
    → (as_v1 e).delivery_attempt < u32_mod
    → retries n e ≡ ok e'
    → semantic_fingerprint sha256 e ≡ some fingerprint
    → IsValid t
    → IsConfigured t.config
    → (begin (from_envelope e) fingerprint t).1 ≡ ok BeginResult.new
    → All (λ c. from_envelope e ≢ key_of c) cs
    → length outcome ≤ t.config.max_outcome_bytes
    → let r =
        complete
          (from_envelope e)
          fingerprint
          outcome
          (run cs (begin (from_envelope e) fingerprint t).0) in
      (semantic_fingerprint sha256 e' ≡ some fingerprint)
      × (begin (from_envelope e') fingerprint r.0 ≡ (r.0, ok (BeginResult.replay outcome)))
retry_replayed sha256 n e e' t fp o cs u32 retried digest v c granted others small =
    elim (retries_counted sha256 n e u32) [
      | inr (refused, over) ↦
          absurd (not_both (retries n e) e' EnvelopeError.delivery_attempt_overflow retried refused)
      | inl (f, done, r, fits) ↦
          let same : f ≡ e' = one_result (retries n e) f e' done retried in
          let (ended, replayed, conflict) =
            exactly_once t (from_envelope e) fp (0 ∷ fp) o cs v c granted others small
              (longer fp) in
          (
            ap (semantic_fingerprint sha256) (sym same) ∙ r.same_fingerprint ∙ digest,
            subst
                (λ k.
                  begin k fp
                    (complete (from_envelope e) fp o (run cs (begin (from_envelope e) fp t).0)).0
                  ≡ (
                    (complete (from_envelope e) fp o (run cs (begin (from_envelope e) fp t).0)).0,
                    ok (BeginResult.replay o),
                  ))
                (sym (ap from_envelope (sym same) ∙ r.same_key)) replayed,
          )
    ]

-- What a response takes from its request.
pub record Answers (request response : EnvelopeV1) : Type 0 where
  pub cluster_id : response.cluster_id ≡ request.cluster_id
  pub back : response.destination ≡ request.source
  pub from : response.source ≡ request.destination
  pub protocol : response.protocol ≡ request.protocol
  pub correlated : response.correlation_id ≡ some request.message_id
  pub first : response.delivery_attempt ≡ 0

abbrev responded : EnvelopeV1 → List ℕ → List ℕ → ℕ → List ℕ → EnvelopeV1
responded request id message_type schema_version payload = record {
  cluster_id = request.cluster_id;
  source = request.destination;
  destination = request.source;
  message_id = id;
  correlation_id = some request.message_id;
  protocol = request.protocol;
  message_type = message_type;
  schema_version = schema_version;
  delivery_attempt = 0;
  payload = payload;
}

-- A response is refused if the generator returns the zero identifier, and else if its payload is
-- above the bound; otherwise it goes back to the request's source from its destination, with the
-- generated identifier, the request's message identifier as its correlation, the type, version and
-- payload given, and attempt zero. The generator has moved on by one identifier in every case.
pub response_v1_cases :
    {G : Type 0} (next_id : G → List ℕ × G) (request : EnvelopeV1) (generator : G)
    (message_type : List ℕ) (schema_version : ℕ) (payload : List ℕ) (maximum : ℕ)
    → let r =
        response_v1 next_id
          (Envelope.v1 request)
          generator
          message_type
          schema_version
          payload
          maximum in
      let id = (next_id generator).0 in
      (r.1 ≡ (next_id generator).1)
      × (((id ≡ zero_bytes) × (r.0 ≡ err EnvelopeError.generated_zero_identifier))
          ⊎ ((id ≢ zero_bytes)
              × (((maximum < length payload)
                    × (r.0 ≡ err (EnvelopeError.payload_too_large (length payload) maximum)))
                  ⊎ ((length payload ≤ maximum)
                      × (response : EnvelopeV1) × (r.0 ≡ ok (Envelope.v1 response))
                      × Answers request response
                      × (response.message_id ≡ id)
                      × (response.message_type ≡ message_type)
                      × (response.schema_version ≡ schema_version)
                      × (response.payload ≡ payload)))))
unfolding response_v1 generated new_v1 from_fields initial as_v1
response_v1_cases next_id q g mt sv payload m = (
  refl,
  elim (Bool-cases (is_eq (next_id g).0 zero_bytes)) [
    | inl blank ↦ inl ((is_eq_iff (next_id g).0 zero_bytes).0 blank, rw (response_v1, blank) refl)
    | inr fresh ↦ inr (
      λ z. grind (arith, fresh, (is_eq_iff (next_id g).0 zero_bytes).1 z),
      elim (Bool-cases (ltb m (length payload))) [
        | inl over ↦ inl (
          ltb→lt m (length payload) over,
          rw (response_v1, fresh, new_v1, from_fields, over) refl,
        )
        | inr fits ↦ inr (
          ground arith,
          responded q (next_id g).0 mt sv payload,
          rw (response_v1, fresh, new_v1, from_fields, fits) refl,
          record {
            cluster_id = refl;
            back = refl;
            from = refl;
            protocol = refl;
            correlated = refl;
            first = refl;
          },
          refl,
          refl,
          refl,
          refl,
        )
      ],
    )
  ],
)
