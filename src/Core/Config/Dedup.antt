-- ===== src/Core/Config/Dedup.antt =====
-- What the validation of deduplication settings in crates/iron-core/src/config.rs accepts.
use iron_consensus.Prelude.{
  ℕ, ◌≤◌, ◌<◌, ◌≡◌, refl, ap, ap₂, ◌∙◌, true, false, List, [], ◌∷◌, Option, some, Result, ok, err,
  arith, ltb, leb, Bool-cases, inl, inr, ◌⊎◌, u32_mod,
}
use iron_consensus.Core.Limits.{
  Limit, RangeError, new_bounded, max_dedup_entries, max_outcome_bytes, max_total_outcome_bytes,
}
use iron_consensus.Core.Dedup.Types.{DedupConfig}
use iron_consensus.Core.Dedup.Once.{IsConfigured}
use iron_consensus.Core.Config.{
  RawDedupConfig, Field, Code, ValidationError, keep_or_push, compare_totals, built, concluded,
  range_error, assembled, try_from,
}

-- A value within a limit.
abbrev pub Within : Limit → ℕ → Type 0
Within limit value = (limit.minimum ≤ value) × (value ≤ limit.maximum)

new_bounded_cases :
    (limit : Limit) (value : ℕ)
    → limit.maximum < u32_mod
    → (Within limit value × (new_bounded limit value ≡ ok value))
      ⊎ ((Within limit value → ⊥) × (e : RangeError) × (new_bounded limit value ≡ err e))
unfolding new_bounded
new_bounded_cases limit value h = elim (Bool-cases (leb limit.minimum value)) [
  | inr low ↦ inr (
    λ w. ground arith,
    RangeError.value_out_of_range value limit.minimum limit.maximum,
    ground arith,
  )
  | inl high ↦ elim (Bool-cases (leb value limit.maximum)) [
    | inr over ↦ inr (
      λ w. ground arith,
      RangeError.value_out_of_range value limit.minimum limit.maximum,
      ground arith,
    )
    | inl fits ↦ inl ((ground arith, ground arith), ground arith)
  ]
]

-- The settings that are legal.
pub record IsLegal (raw : RawDedupConfig) : Type 0 where
  pub entries : Within max_dedup_entries raw.max_entries
  pub outcome : Within max_outcome_bytes raw.max_outcome_bytes
  pub total : Within max_total_outcome_bytes raw.max_total_outcome_bytes
  pub ordered : raw.max_outcome_bytes ≤ raw.max_total_outcome_bytes

abbrev pub validated : RawDedupConfig → DedupConfig
validated raw = record {
  max_entries = raw.max_entries;
  max_outcome_bytes = raw.max_outcome_bytes;
  max_total_outcome_bytes = raw.max_total_outcome_bytes;
}

-- A refusal: the settings are not legal, and there is at least one error.
pub record Refused (raw : RawDedupConfig) : Type 0 where
  pub illegal : IsLegal raw → ⊥
  pub error : ValidationError
  pub errors : List ValidationError
  pub result : try_from raw ≡ some (err (error ∷ errors))

abbrev total_error : ValidationError
total_error = record {
  field = Field.at_max_total_outcome_bytes;
  code = Code.less_than_max_outcome_bytes;
}

-- At least one error.
abbrev Fails : Option (Result (List ValidationError) DedupConfig) → Type 0
Fails r =
    (error : ValidationError) × (errors : List ValidationError) × (r ≡ some (err (error ∷ errors)))

entries-Fails : (e : RangeError) (b c : Result RangeError ℕ) → Fails (assembled (err e) b c)
unfolding assembled keep_or_push compare_totals built concluded
entries-Fails e (err f) (err g) = (_, _, refl)
entries-Fails e (err f) (ok total) = (_, _, refl)
entries-Fails e (ok outcome) (err g) = (_, _, refl)
entries-Fails e (ok outcome) (ok total) = elim (Bool-cases (ltb total outcome)) [
  | inl less ↦ (range_error Field.at_max_entries, total_error ∷ [], rw (less) refl)
  | inr fits ↦ (range_error Field.at_max_entries, [], rw (fits) refl)
]

outcome-Fails :
    (n : ℕ) (e : RangeError) (c : Result RangeError ℕ) → Fails (assembled (ok n) (err e) c)
unfolding assembled keep_or_push compare_totals built concluded
outcome-Fails n e (err g) = (_, _, refl)
outcome-Fails n e (ok total) = (_, _, refl)

total-Fails : (n o : ℕ) (e : RangeError) → Fails (assembled (ok n) (ok o) (err e))
unfolding assembled keep_or_push compare_totals built concluded
total-Fails n o e = (_, _, refl)

order-Fails : (n o t : ℕ) → ltb t o ≡ true → Fails (assembled (ok n) (ok o) (ok t))
unfolding assembled keep_or_push compare_totals built concluded
order-Fails n o t h = (total_error, [], rw (h) refl)

all_pass :
    (n o t : ℕ)
    → ltb t o ≡ false
    → assembled (ok n) (ok o) (ok t)
      ≡ some (ok (record { max_entries = n; max_outcome_bytes = o; max_total_outcome_bytes = t }))
unfolding assembled keep_or_push compare_totals built concluded
all_pass n o t h = rw (h) refl

abbrev outcome_of : RawDedupConfig → Result RangeError ℕ
outcome_of raw = new_bounded max_outcome_bytes raw.max_outcome_bytes

abbrev total_of : RawDedupConfig → Result RangeError ℕ
total_of raw = new_bounded max_total_outcome_bytes raw.max_total_outcome_bytes

Refused-by :
    (raw : RawDedupConfig) (r : Option (Result (List ValidationError) DedupConfig))
    → (IsLegal raw → ⊥)
    → try_from raw ≡ r
    → Fails r
    → Refused raw
Refused-by raw r illegal same (error, errors, result) = record {
  illegal = illegal;
  error = error;
  errors = errors;
  result = same ∙ result;
}

three_results :
    {a b c a' b' c' : Result RangeError ℕ}
    → a ≡ a'
    → b ≡ b'
    → c ≡ c'
    → assembled a b c ≡ assembled a' b' c'
three_results {a = a} {b' = b'} {c' = c'} p q r =
    ap₂ (assembled a) q r ∙ ap (λ x. assembled x b' c') p

-- The validation of deduplication settings never panics. Legal settings, each within its limit and
-- the outcome bound within the total bound, are taken over as they are, and under them the bounds of
-- a table are what `complete` needs to store every outcome that is within its own bound; any others
-- are refused with at least one error.
pub try_from_cases :
    (raw : RawDedupConfig)
    → (IsLegal raw × (try_from raw ≡ some (ok (validated raw))) × IsConfigured (validated raw))
      ⊎ Refused raw
unfolding try_from
try_from_cases raw = elim (new_bounded_cases max_dedup_entries raw.max_entries (omega arith)) [
  | inr (out, e, h) ↦ inr (
      Refused-by raw (assembled (err e) (outcome_of raw) (total_of raw)) (λ l. out l.entries)
        (ap (λ a. assembled a (outcome_of raw) (total_of raw)) h)
        (entries-Fails e (outcome_of raw) (total_of raw)))
  | inl (n, hn) ↦ elim (new_bounded_cases max_outcome_bytes raw.max_outcome_bytes (omega arith)) [
    | inr (out, e, h) ↦ inr (
        Refused-by raw (assembled (ok raw.max_entries) (err e) (total_of raw)) (λ l. out l.outcome)
          (ap₂ (λ a b. assembled a b (total_of raw)) hn h)
          (outcome-Fails raw.max_entries e (total_of raw)))
    | inl (o, ho) ↦
        elim (new_bounded_cases max_total_outcome_bytes raw.max_total_outcome_bytes (omega arith)) [
          | inr (out, e, h) ↦ inr (
              Refused-by raw (assembled (ok raw.max_entries) (ok raw.max_outcome_bytes) (err e))
                (λ l. out l.total) (three_results hn ho h)
                (total-Fails raw.max_entries raw.max_outcome_bytes e))
          | inl (t, ht) ↦
              elim (Bool-cases (ltb raw.max_total_outcome_bytes raw.max_outcome_bytes)) [
                | inl less ↦ inr (
                    Refused-by raw
                      (assembled (ok raw.max_entries) (ok raw.max_outcome_bytes)
                        (ok raw.max_total_outcome_bytes))
                      (λ l. ground (arith, l.ordered)) (three_results hn ho ht)
                      (order-Fails raw.max_entries raw.max_outcome_bytes raw.max_total_outcome_bytes
                        less))
                | inr fits ↦ inl (
                  record { entries = n; outcome = o; total = t; ordered = ground arith },
                  three_results hn ho ht
                      ∙ (all_pass raw.max_entries raw.max_outcome_bytes raw.max_total_outcome_bytes
                          fits),
                  record { outcome_fits = ground arith; total_is_u64 = omega (arith, t.1) },
                )
              ]
        ]
  ]
]
