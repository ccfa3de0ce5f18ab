-- ===== src/Core/Config.antt =====
-- crates/iron-core/src/config.rs: the validation of the deduplication settings. A validation error is
-- its field and its code; its text is left out, and so is the sorting of the errors by it, so that
-- they stand in the order in which they are found.
pub mod Dedup
pub mod Node
use iron_consensus.Prelude.{
  ℕ, ◌*◌, Bool, true, false, List, [], ◌∷◌, ◌++◌, Option, none, some, Result, ok, err,
  if◌then◌else◌, ltb,
}
use iron_consensus.Core.Limits.{
  RangeError, new_bounded, max_dedup_entries, max_outcome_bytes, max_total_outcome_bytes, kibibyte,
  mebibyte,
}
use iron_consensus.Core.Dedup.Types.{DedupConfig}

pub record RawDedupConfig : Type 0 where
  pub max_entries : ℕ
  pub max_outcome_bytes : ℕ
  pub max_total_outcome_bytes : ℕ

-- `RawDedupConfig::default`
abbrev pub default_dedup : RawDedupConfig
default_dedup = record {
  max_entries = 65536;
  max_outcome_bytes = 64 * kibibyte;
  max_total_outcome_bytes = 64 * mebibyte;
}

pub data Field : Type 0 where
  at_max_entries at_max_outcome_bytes at_max_total_outcome_bytes : Field

pub data Code : Type 0 where
  out_of_range less_than_max_outcome_bytes : Code

pub record ValidationError : Type 0 where
  pub field : Field
  pub code : Code

-- `match T::new(raw)`: the value, or nothing and one error more.
unfoldable pub keep_or_push :
    Result RangeError ℕ → ValidationError → List ValidationError → Option ℕ × List ValidationError
keep_or_push (ok value) error errors = (some value, errors)
keep_or_push (err e) error errors = (none, errors ++ (error ∷ []))

-- The comparison of the two bounds, if both are there.
unfoldable pub compare_totals : Option ℕ → Option ℕ → List ValidationError → List ValidationError
compare_totals none total errors = errors
compare_totals (some outcome) none errors = errors
compare_totals (some outcome) (some total) errors =
    if ltb total outcome
    then errors
      ++ (record {
        field = Field.at_max_total_outcome_bytes;
        code = Code.less_than_max_outcome_bytes;
      }
          ∷ [])
    else errors

-- The values behind the errors; `none` is a panic of `expect`.
unfoldable pub built :
    Option ℕ → Option ℕ → Option ℕ → Option (Result (List ValidationError) DedupConfig)
built none outcome total = none
built (some entries) none total = none
built (some entries) (some outcome) none = none
built (some entries) (some outcome) (some total) = some (
    ok (record {
      max_entries = entries;
      max_outcome_bytes = outcome;
      max_total_outcome_bytes = total;
    }))

-- `ValidationErrors::from_vec` and what follows it.
unfoldable pub concluded :
    List ValidationError
    → Option (Result (List ValidationError) DedupConfig)
    → Option (Result (List ValidationError) DedupConfig)
concluded [] result = result
concluded (error ∷ errors) result = some (err (error ∷ errors))

abbrev pub range_error : Field → ValidationError
range_error field = record { field = field; code = Code.out_of_range }

-- `DedupConfig::try_from` behind the three `new` calls.
unfoldable pub assembled :
    Result RangeError ℕ
    → Result RangeError ℕ
    → Result RangeError ℕ
    → Option (Result (List ValidationError) DedupConfig)
unfolding keep_or_push compare_totals built concluded
assembled entries outcome total =
    let first = keep_or_push entries (range_error Field.at_max_entries) [] in
    let second = keep_or_push outcome (range_error Field.at_max_outcome_bytes) first.1 in
    let third = keep_or_push total (range_error Field.at_max_total_outcome_bytes) second.1 in
    concluded (compare_totals second.0 third.0 third.1) (built first.0 second.0 third.0)

-- `DedupConfig::try_from`
unfoldable pub try_from : RawDedupConfig → Option (Result (List ValidationError) DedupConfig)
unfolding assembled
try_from raw =
    assembled (new_bounded max_dedup_entries raw.max_entries)
      (new_bounded max_outcome_bytes raw.max_outcome_bytes)
      (new_bounded max_total_outcome_bytes raw.max_total_outcome_bytes)
