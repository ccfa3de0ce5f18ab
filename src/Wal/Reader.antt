-- ===== src/Wal/Reader.antt =====
-- crates/iron-wal/src/reader.rs: the strict scan of the log.
pub mod Replayed
pub mod Recovery
use iron_consensus.Prelude.{
  ℕ, zero, suc, ◌+◌, ◌-◌, Bool, true, false, not, List, [], ◌∷◌, ◌++◌, Option, none, some, Result,
  ok, err, if◌then◌else◌, ltb, leb, length, checked_add, u64_mod, ok_or,
}
use iron_consensus.Wal.Types.{
  Operation, CorruptionKind, WalError, WalRecord, DecodedHeader, TailRepairReport, ReplayReport,
  Replay, TailRepair,
}
use iron_consensus.Wal.Io.{
  File, M, ◌>>=◌, ◌>>◌, pure, lift, file_len, seek, read_exact, set_len, sync_data,
}
use iron_consensus.Wal.Format.{
  header_len, decode_header, validate_payload_checksum, validate_lsn, decode_schema_version,
}

-- The variables of the loop.
pub record Scan : Type 0 where
  pub offset : ℕ
  pub last_valid_lsn : Option ℕ
  pub records : List WalRecord
  pub record_count : ℕ

abbrev pub replay_of : Scan → ℕ → Option TailRepairReport → Replay
replay_of st file_length repair = record {
  records = st.records;
  report = record {
    record_count = st.record_count;
    last_lsn = st.last_valid_lsn;
    durable_file_length = file_length;
    tail_repair = repair;
  };
}

unfoldable pub finish_torn_tail : Scan → ℕ → TailRepair → M Replay
finish_torn_tail st file_length TailRepair.reject =
    lift (err (WalError.torn_tail st.offset file_length st.last_valid_lsn))
finish_torn_tail st file_length TailRepair.truncate = do
  set_len Operation.truncating_tail st.offset
  sync_data Operation.syncing_tail
  pure (
      replay_of st st.offset (
        some (record {
          offset = st.offset;
          bytes_removed = file_length - st.offset;
          last_valid_lsn = st.last_valid_lsn;
        })))

-- The rest of the loop after one round.
unfoldable pub after_frame :
    (Scan → M Replay)
    → Scan
    → ℕ
    → TailRepair
    → File × Result WalError (Option Scan)
    → File × Result WalError Replay
unfolding finish_torn_tail
after_frame again st file_length policy (f, ok (some st')) = again st' f
after_frame again st file_length policy (f, ok none) = finish_torn_tail st file_length policy f
after_frame again st file_length policy (f, err e) = (f, err e)

module _ (crc32c : List ℕ → ℕ) where
  -- The payload of a frame whose header is read and whose end lies within the file.
  unfoldable pub scan_payload : Scan → DecodedHeader → ℕ → M (Option Scan)
  scan_payload st decoded frame_end = do
    payload ← read_exact Operation.reading_payload decoded.payload_len
    lift (
        validate_payload_checksum crc32c payload decoded.payload_crc32c st.offset st.last_valid_lsn)
    lsn ← lift (validate_lsn decoded.lsn_raw st.last_valid_lsn st.offset)
    schema ← lift (decode_schema_version decoded.schema_version_raw st.offset st.last_valid_lsn)
    count ← lift (ok_or (checked_add u64_mod st.record_count 1) WalError.lsn_exhausted)
    pure (
        some (record {
          offset = frame_end;
          last_valid_lsn = some lsn;
          records =
              st.records
              ++ (record {
                lsn = lsn;
                record_kind = decoded.record_kind;
                schema_version = schema;
                payload = payload;
              }
                  ∷ []);
          record_count = count;
        }))

  -- A frame whose header is read; `none` if its end lies behind the file's.
  unfoldable pub scan_decoded : ℕ → ℕ → Scan → DecodedHeader → M (Option Scan)
  unfolding scan_payload
  scan_decoded max_record_bytes file_length st decoded =
      if ltb max_record_bytes decoded.payload_len
      then lift
          (err (WalError.on_disk_record_too_large st.offset decoded.payload_len max_record_bytes))
      else do
        frame_end ← lift (
            ok_or (checked_add u64_mod st.offset decoded.total_frame_len)
              (WalError.corruption st.offset st.last_valid_lsn CorruptionKind.length_mismatch))
        (if ltb file_length frame_end then pure none else scan_payload st decoded frame_end)

  -- One round of the loop; `none` where the rest of the file is an incomplete frame.
  unfoldable pub scan_frame : ℕ → ℕ → Scan → M (Option Scan)
  unfolding scan_decoded
  scan_frame max_record_bytes file_length st =
      if ltb (file_length - st.offset) header_len then pure none else do
        header ← read_exact Operation.reading_header header_len
        decoded ← lift (decode_header crc32c header st.offset st.last_valid_lsn)
        scan_decoded max_record_bytes file_length st decoded

  -- Each round moves the offset by a frame at least, so `file_length` rounds are enough.
  unfoldable pub scan_loop : ℕ → ℕ → ℕ → TailRepair → Scan → M Replay
  unfolding after_frame
  scan_loop zero max_record_bytes file_length policy st f = (f, ok (replay_of st file_length none))
  scan_loop (suc fuel) max_record_bytes file_length policy st f =
      if ltb st.offset file_length
      then after_frame (scan_loop fuel max_record_bytes file_length policy) st file_length policy
          (scan_frame max_record_bytes file_length st f)
      else (f, ok (replay_of st file_length none))

  unfoldable pub scan : ℕ → TailRepair → M Replay
  unfolding scan_loop scan_frame finish_torn_tail
  scan max_record_bytes policy = do
    file_length ← file_len Operation.reading_length
    seek Operation.seeking_start 0
    scan_loop (suc file_length) max_record_bytes file_length policy
        (record { offset = 0; last_valid_lsn = none; records = []; record_count = 0 })
