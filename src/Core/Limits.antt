-- ===== src/Core/Limits.antt =====
-- crates/iron-core/src/limits.rs: the bounded integers of the configuration.
use iron_consensus.Prelude.{
  ℕ, ◌*◌, ◌-◌, not, ◌&&◌, Result, ok, err, if◌then◌else◌, leb, ltb, u32_mod,
}

abbrev pub kibibyte : ℕ
kibibyte = 1024

abbrev pub mebibyte : ℕ
mebibyte = 1024 * kibibyte

abbrev pub gibibyte : ℕ
gibibyte = 1024 * mebibyte

-- `WAL_FRAME_OVERHEAD_BYTES`
abbrev pub wal_frame_overhead_bytes : ℕ
wal_frame_overhead_bytes = 40

-- The arguments of `bounded_u32!`.
pub record Limit : Type 0 where
  pub minimum : ℕ
  pub maximum : ℕ

-- `CoreError::ValueOutOfRange`, without the name of the limit: actual, minimum, maximum.
pub data RangeError : Type 0 where
  value_out_of_range : ℕ → ℕ → ℕ → RangeError

abbrev pub max_record_bytes : Limit
max_record_bytes = record { minimum = kibibyte; maximum = 64 * mebibyte }

abbrev pub max_message_bytes : Limit
max_message_bytes = record { minimum = 1; maximum = 64 * mebibyte }

abbrev pub timeout_millis : Limit
timeout_millis = record { minimum = 1; maximum = 300000 }

abbrev pub max_dedup_entries : Limit
max_dedup_entries = record { minimum = 1; maximum = u32_mod - 1 }

abbrev pub max_outcome_bytes : Limit
max_outcome_bytes = record { minimum = 1; maximum = gibibyte }

abbrev pub max_total_outcome_bytes : Limit
max_total_outcome_bytes = record { minimum = 64 * kibibyte; maximum = gibibyte }

abbrev pub max_unsynced_records : Limit
max_unsynced_records = record { minimum = 1; maximum = u32_mod - 1 }

-- `new`, with the conversion to u32 behind the range check.
unfoldable pub new_bounded : Limit → ℕ → Result RangeError ℕ
new_bounded limit value =
    let out_of_range : RangeError =
      RangeError.value_out_of_range value limit.minimum limit.maximum in
    if not (leb limit.minimum value && leb value limit.maximum)
    then err out_of_range
    else if ltb value u32_mod
    then ok value
    else err out_of_range
