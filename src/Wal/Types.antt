-- ===== src/Wal/Types.antt =====
-- The data of crates/iron-wal: records, reports and errors. Integers carry their width in comments;
-- an LSN is a nonzero u64.
use iron_consensus.Prelude.{ℕ, List, Option, Result, ok, err, if◌then◌else◌, ◌==◌}

-- The stable operation names of `WalError::Io`.
pub data Operation : Type 0 where
  reading_length seeking_start reading_header reading_payload : Operation
  truncating_tail syncing_tail seeking_append writing_frame syncing_data : Operation

pub data CorruptionKind : Type 0 where
  bad_magic header_checksum payload_checksum length_mismatch zero_record_metadata : CorruptionKind
  -- expected, actual
  lsn_sequence : ℕ → ℕ → CorruptionKind

pub data UnsupportedField : Type 0 where
  format_version header_length flags : UnsupportedField

pub data WalError : Type 0 where
  already_open : WalError
  io : Operation → WalError
  -- offset, field, actual
  unsupported_format : ℕ → UnsupportedField → ℕ → WalError
  -- offset, last_valid_lsn, kind
  corruption : ℕ → Option ℕ → CorruptionKind → WalError
  -- offset, file_length, last_valid_lsn
  torn_tail : ℕ → ℕ → Option ℕ → WalError
  -- actual, maximum
  record_too_large : ℕ → ℕ → WalError
  -- offset, actual, maximum
  on_disk_record_too_large : ℕ → ℕ → ℕ → WalError
  zero_record_kind lsn_exhausted poisoned : WalError

-- `WalRecordInput`
pub record RecordInput : Type 0 where
  pub record_kind : ℕ
  pub schema_version : ℕ
  pub payload : List ℕ

pub record WalRecord : Type 0 where
  pub lsn : ℕ
  pub record_kind : ℕ
  pub schema_version : ℕ
  pub payload : List ℕ

pub record DecodedHeader : Type 0 where
  pub total_frame_len : ℕ
  pub lsn_raw : ℕ
  pub record_kind : ℕ
  pub schema_version_raw : ℕ
  pub payload_len : ℕ
  pub payload_crc32c : ℕ

pub record TailRepairReport : Type 0 where
  pub offset : ℕ
  pub bytes_removed : ℕ
  pub last_valid_lsn : Option ℕ

pub record ReplayReport : Type 0 where
  pub record_count : ℕ
  pub last_lsn : Option ℕ
  pub durable_file_length : ℕ
  pub tail_repair : Option TailRepairReport

pub record Replay : Type 0 where
  pub records : List WalRecord
  pub report : ReplayReport

pub record AppendOutcome : Type 0 where
  pub lsn : ℕ
  pub durable_through : Option ℕ

pub data TailRepair : Type 0 where
  reject truncate : TailRepair

pub data SyncPolicy : Type 0 where
  always : SyncPolicy
  -- max_unsynced_records, nonzero
  batch : ℕ → SyncPolicy
  manual : SyncPolicy

-- `WalRecordInput::new`; the schema version is nonzero by its type.
unfoldable pub new_input : ℕ → ℕ → List ℕ → Result WalError RecordInput
new_input record_kind schema_version payload =
    if record_kind == 0
    then err WalError.zero_record_kind
    else ok
        (record { record_kind = record_kind; schema_version = schema_version; payload = payload })
