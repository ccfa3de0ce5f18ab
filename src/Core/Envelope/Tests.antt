-- ===== src/Core/Envelope/Tests.antt =====
-- Envelopes at concrete inputs, and the theorems there. The hash of the examples keeps 32 bytes.
use iron_consensus.Prelude.{
  ℕ, suc, ◌+◌, ◌≤◌, ◌<◌, ◌≡◌, ◌≢◌, ◌↔◌, refl, ◌⊎◌, List, [], ◌∷◌, none, some, ok, err, arith, take,
  u32_mod,
}
use iron_consensus.Order.{nat_ord, list_ord, cmp_list}
use iron_consensus.BTreeMap
use iron_consensus.Core.Dedup.Types.{BeginResult, DedupConfig, cmp_key, key_ord}
use iron_consensus.Core.Dedup.{
  new, begin, begin_present, reserve, make_room, complete, evict_oldest_completed, find_evictable,
}
use iron_consensus.Core.Dedup.Calls.{run, calls-IsValid}
use iron_consensus.Core.Dedup.Once.{IsConfigured}
use iron_consensus.Core.Limits.{new_bounded, max_message_bytes}
use iron_consensus.Core.Envelope.Total.{IsSized}
use iron_consensus.Core.Envelope.Types.{
  EnvelopeFields, EnvelopeError, EnvelopeV1, Envelope, zero_bytes, generated,
}
use iron_consensus.Core.Envelope.{
  as_v1, retry, from_envelope, semantic_fingerprint, semantic_fields, correlation_field,
  update_fields, update_field, response_v1, parse_fingerprint, decode_pairs, decode_lower_hex,
  lower_hex, show_fingerprint, try_from_version, new_v1, from_fields, initial,
}
use iron_consensus.Core.Envelope.Preimage.{IsTyped, Alike, Collision, fingerprint_decides}
use iron_consensus.Core.Envelope.Hex.{IsFingerprint, parse_fingerprint_iff}
use iron_consensus.Core.Envelope.Exchange.{
  Retried, retries, retries_counted, retry_replayed, Answers, response_v1_cases,
}

program : Unit {0}
unfolding key_ord list_ord cmp_list cmp_key BTreeMap.get BTreeMap.insert new begin begin_present
    reserve make_room complete evict_oldest_completed find_evictable generated as_v1 retry
    from_envelope semantic_fingerprint semantic_fields correlation_field update_fields update_field
    response_v1 parse_fingerprint decode_pairs decode_lower_hex lower_hex show_fingerprint
    new_bounded try_from_version new_v1 from_fields initial
program = tt

abbrev id : ℕ → List ℕ
id n = n ∷ 0 ∷ 0 ∷ 0 ∷ 0 ∷ 0 ∷ 0 ∷ 0 ∷ 0 ∷ 0 ∷ 0 ∷ 0 ∷ 0 ∷ 0 ∷ 0 ∷ 1 ∷ []

abbrev sent : EnvelopeV1
sent = record {
  cluster_id = id 1;
  source = b'a' ∷ [];
  destination = b'b' ∷ [];
  message_id = id 2;
  correlation_id = none;
  protocol = b'r' ∷ [];
  message_type = b't' ∷ [];
  schema_version = 7;
  delivery_attempt = 0;
  payload = 0 ∷ 255 ∷ [];
}

abbrev sent_again : EnvelopeV1
sent_again = record sent { delivery_attempt = 2 }

abbrev hash : List ℕ → List ℕ
hash bytes = take 32 bytes

abbrev digest : List ℕ
digest =
    73 ∷ 67 ∷ 70 ∷ 80 ∷ 0 ∷ 1 ∷ 0 ∷ 0 ∷ 0 ∷ 16 ∷ 1 ∷ 0 ∷ 0 ∷ 0 ∷ 0 ∷ 0 ∷ 0 ∷ 0 ∷ 0 ∷ 0 ∷ 0 ∷ 0 ∷ 0
    ∷ 0 ∷ 0 ∷ 1 ∷ 0 ∷ 0 ∷ 0 ∷ 1 ∷ 97 ∷ 0 ∷ []

version_two_refused :
    try_from_version 2 (initial [] [] [] [] none [] [] 1 []) 4
    ≡ err (EnvelopeError.unsupported_envelope_version 2)
unfolding program
version_two_refused = refl

first_hashed : semantic_fingerprint hash (Envelope.v1 sent) ≡ some digest
unfolding program
first_hashed = refl

second_hashed : semantic_fingerprint hash (Envelope.v1 sent_again) ≡ some digest
unfolding program
second_hashed = refl

sent-IsTyped : IsTyped sent
sent-IsTyped = record { correlation = λ c h. absurd (grind (arith, h)); version = omega arith }

sent_again-IsTyped : IsTyped sent_again
sent_again-IsTyped = record {
  correlation = λ c h. absurd (grind (arith, h));
  version = omega arith;
}

fingerprint_decides_example : Alike sent sent_again ⊎ Collision hash sent sent_again
fingerprint_decides_example =
    fingerprint_decides hash sent sent_again digest sent-IsTyped sent_again-IsTyped first_hashed
      second_hashed

parse_fingerprint_iff_example :
    (parse_fingerprint (show_fingerprint digest) ≡ ok digest)
    ↔ (IsFingerprint digest × (show_fingerprint digest ≡ show_fingerprint digest))
parse_fingerprint_iff_example = parse_fingerprint_iff (show_fingerprint digest) digest

abbrev fields : EnvelopeFields
fields = record {
  cluster_id = id 1;
  source = b'a' ∷ [];
  destination = b'b' ∷ [];
  message_id = id 2;
  correlation_id = none;
  protocol = b'r' ∷ [];
  message_type = b't' ∷ [];
  schema_version = 7;
  delivery_attempt = 0;
  payload = 0 ∷ 255 ∷ [];
}

fields-IsSized : IsSized fields
fields-IsSized = record {
  cluster_id = refl;
  source = omega arith;
  destination = omega arith;
  message_id = refl;
  correlation_id = λ c h. absurd (grind (arith, h));
  protocol = omega arith;
  message_type = omega arith;
}

limit_four : new_bounded max_message_bytes 4 ≡ ok 4
unfolding program
limit_four = refl

built_sent : new_v1 fields 4 ≡ ok (Envelope.v1 sent)
unfolding program
built_sent = refl

first_attempt : (as_v1 (Envelope.v1 sent)).delivery_attempt < u32_mod
unfolding program
first_attempt = omega arith

retries_counted_example :
    ((e' : Envelope) × (retries 2 (Envelope.v1 sent) ≡ ok e')
      × Retried hash 2 (Envelope.v1 sent) e'
      × ((as_v1 (Envelope.v1 sent)).delivery_attempt + 2 < u32_mod))
    ⊎ ((retries 2 (Envelope.v1 sent) ≡ err EnvelopeError.delivery_attempt_overflow)
        × (u32_mod ≤ (as_v1 (Envelope.v1 sent)).delivery_attempt + 2))
retries_counted_example = retries_counted hash 2 (Envelope.v1 sent) first_attempt

abbrev small : DedupConfig
small = record { max_entries = 2; max_outcome_bytes = 2; max_total_outcome_bytes = 3 }

retried : retries 2 (Envelope.v1 sent) ≡ ok (Envelope.v1 sent_again)
unfolding program
retried = refl

granted :
    (begin (from_envelope (Envelope.v1 sent)) digest (run [] (new small))).1 ≡ ok BeginResult.new
unfolding program
granted = refl

configured : IsConfigured (run [] (new small)).config
unfolding program
configured = record { outcome_fits = omega arith; total_is_u64 = omega arith }

bounded : 1 ≤ (run [] (new small)).config.max_outcome_bytes
unfolding program
bounded = omega arith

retry_replayed_example :
    let r =
      complete
        (from_envelope (Envelope.v1 sent))
        digest
        (9 ∷ [])
        (run [] (begin (from_envelope (Envelope.v1 sent)) digest (run [] (new small))).0) in
    (semantic_fingerprint hash (Envelope.v1 sent_again) ≡ some digest)
    × (begin (from_envelope (Envelope.v1 sent_again)) digest r.0
        ≡ (r.0, ok (BeginResult.replay (9 ∷ []))))
retry_replayed_example =
    retry_replayed hash 2 (Envelope.v1 sent) (Envelope.v1 sent_again) (run [] (new small)) digest
      (9 ∷ []) [] first_attempt retried first_hashed (calls-IsValid small []).0 configured granted
      tt bounded

abbrev counter : ℕ → List ℕ × ℕ
counter n = (id n, suc n)

response_v1_cases_example :
    let r = response_v1 counter (Envelope.v1 sent) 5 (b'u' ∷ []) 7 (1 ∷ []) 4 in
    let fresh = (counter 5).0 in
    (r.1 ≡ (counter 5).1)
    × (((fresh ≡ zero_bytes) × (r.0 ≡ err EnvelopeError.generated_zero_identifier))
        ⊎ ((fresh ≢ zero_bytes)
            × (((4 < 1) × (r.0 ≡ err (EnvelopeError.payload_too_large 1 4)))
                ⊎ ((1 ≤ 4)
                    × (response : EnvelopeV1) × (r.0 ≡ ok (Envelope.v1 response))
                    × Answers sent response
                    × (response.message_id ≡ fresh)
                    × (response.message_type ≡ b'u' ∷ [])
                    × (response.schema_version ≡ 7)
                    × (response.payload ≡ 1 ∷ [])))))
response_v1_cases_example = response_v1_cases counter sent 5 (b'u' ∷ []) 7 (1 ∷ []) 4
