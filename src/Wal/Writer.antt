-- ===== src/Wal/Writer.antt =====
-- crates/iron-wal/src/writer.rs: `FileWal`. The file is the model of `WalIo` in Wal/Io.antt.
pub mod Calls
pub mod Outcome
pub mod Atomic
pub mod Crash
use iron_consensus.Prelude.{
  ℕ, ◌+◌, ◌-◌, Bool, true, false, List, Option, none, some, Result, ok, err, if◌then◌else◌, ltb,
  leb, length, checked_add, u32_mod, u64_mod,
}
use iron_consensus.Core.Id.{checked_successor, lsn_first}
use iron_consensus.Wal.Types.{
  Operation, WalError, RecordInput, Replay, ReplayReport, AppendOutcome, TailRepair, SyncPolicy,
}
use iron_consensus.Wal.Io.{File, seek, write_all, sync_data}
use iron_consensus.Wal.Format.{encode_frame}
use iron_consensus.Wal.Reader.{scan}

-- What the writer uses of `WalConfig`.
pub record Config : Type 0 where
  pub max_record_bytes : ℕ
  pub sync_policy : SyncPolicy
  pub tail_repair : TailRepair

pub record FileWal : Type 0 where
  pub file : File
  pub config : Config
  pub last_lsn : Option ℕ
  pub durable_through : Option ℕ
  pub valid_length : ℕ
  pub unsynced_records : ℕ
  pub poisoned : Bool
  pub open_report : ReplayReport

-- A method that mutates the writer and may fail.
abbrev pub Method : Type 0 → Type 0
Method A = FileWal → FileWal × Result WalError A

-- `sync_current`, behind its barrier.
unfoldable pub mark_synced :
    FileWal → File × Result WalError (Unit {0}) → FileWal × Result WalError (Unit {0})
mark_synced w (f, ok done) =
    (record w { file = f; durable_through = w.last_lsn; unsynced_records = 0 }, ok tt)
mark_synced w (f, err e) = (record w { file = f; poisoned = true }, err e)

unfoldable pub sync_current : Method (Unit {0})
unfolding mark_synced
sync_current w = mark_synced w (sync_data Operation.syncing_data w.file)

unfoldable pub must_sync : SyncPolicy → ℕ → Bool
must_sync SyncPolicy.always unsynced = true
must_sync (SyncPolicy.batch max_unsynced_records) unsynced = leb max_unsynced_records unsynced
must_sync SyncPolicy.manual unsynced = false

-- The end of `append`, with what its barrier returned.
unfoldable pub report_append :
    ℕ → FileWal × Result WalError (Unit {0}) → FileWal × Result WalError AppendOutcome
report_append lsn (w, ok done) = (w, ok (record { lsn = lsn; durable_through = w.durable_through }))
report_append lsn (w, err e) = (w, err e)

-- `append`'s sync policy, once the frame is written and counted.
unfoldable pub apply_policy : ℕ → Method AppendOutcome
unfolding report_append
apply_policy lsn w =
    report_append lsn
      (if must_sync w.config.sync_policy w.unsynced_records then sync_current w else (w, ok tt))

-- `append` with the count of unsynchronized records, if it is a u32.
unfoldable pub count_record : ℕ → FileWal → Option ℕ → FileWal × Result WalError AppendOutcome
unfolding apply_policy
count_record lsn w none = (record w { poisoned = true }, err WalError.lsn_exhausted)
count_record lsn w (some count) = apply_policy lsn (record w { unsynced_records = count })

-- `append` with the new length of the log, if it is a u64.
unfoldable pub count_length : ℕ → FileWal → Option ℕ → FileWal × Result WalError AppendOutcome
unfolding count_record
count_length lsn w none = (record w { poisoned = true }, err WalError.lsn_exhausted)
count_length lsn w (some end) =
    count_record lsn (record w { valid_length = end; last_lsn = some lsn })
      (checked_add u32_mod w.unsynced_records 1)

-- `append` behind its `write_all`.
unfoldable pub after_write :
    ℕ → ℕ → FileWal → File × Result WalError (Unit {0}) → FileWal × Result WalError AppendOutcome
unfolding count_length
after_write lsn n w (f, ok done) =
    count_length lsn (record w { file = f }) (checked_add u64_mod w.valid_length n)
after_write lsn n w (f, err e) = (record w { file = f; poisoned = true }, err e)

-- `append` behind its seek.
unfoldable pub after_seek :
    ℕ
    → List ℕ
    → FileWal
    → File × Result WalError (Unit {0})
    → FileWal × Result WalError AppendOutcome
unfolding after_write
after_seek lsn frame w (f, ok done) =
    after_write lsn (length frame) (record w { file = f })
      (write_all Operation.writing_frame frame f)
after_seek lsn frame w (f, err e) = (record w { file = f }, err e)

-- `append` from the seek on.
unfoldable pub write_frame : ℕ → List ℕ → Method AppendOutcome
unfolding after_seek
write_frame lsn frame w =
    after_seek lsn frame w (seek Operation.seeking_append w.valid_length w.file)

-- `flush`, with what its barrier returned.
unfoldable pub report_flush :
    FileWal × Result WalError (Unit {0}) → FileWal × Result WalError (Option ℕ)
report_flush (w, ok done) = (w, ok w.durable_through)
report_flush (w, err e) = (w, err e)

unfoldable pub flush : Method (Option ℕ)
unfolding report_flush
flush w = if w.poisoned then (w, err WalError.poisoned) else report_flush (sync_current w)

unfoldable pub next_append_lsn : Option ℕ → Option ℕ
next_append_lsn none = some lsn_first
next_append_lsn (some previous) = checked_successor previous

-- `open` behind its scan.
unfoldable pub opened : Config → File × Result WalError Replay → Result WalError FileWal
opened config (f, ok found) = ok (record {
  file = f;
  config = config;
  last_lsn = found.report.last_lsn;
  durable_through = found.report.last_lsn;
  valid_length = found.report.durable_file_length;
  unsynced_records = 0;
  poisoned = false;
  open_report = found.report;
})
opened config (f, err e) = err e

-- `replay` behind its scan.
unfoldable pub adopt_replay :
    FileWal → File × Result WalError Replay → FileWal × Result WalError Replay
adopt_replay w (f, ok found) = (
  record w {
    file = f;
    last_lsn = found.report.last_lsn;
    durable_through = found.report.last_lsn;
    valid_length = found.report.durable_file_length;
    unsynced_records = 0;
  },
  ok found,
)
adopt_replay w (f, err e) = (record w { file = f }, err e)

module _ (crc32c : List ℕ → ℕ) where
  -- The part of `open` after the file is created and locked.
  -- `open`, once the file is created and locked.
  unfoldable pub open_file : Config → File → Result WalError FileWal
  unfolding opened
  open_file config file =
      opened config (scan crc32c config.max_record_bytes config.tail_repair file)

  unfoldable pub append : RecordInput → Method AppendOutcome
  unfolding write_frame next_append_lsn
  append r w =
      if w.poisoned
      then (w, err WalError.poisoned)
      else if ltb w.config.max_record_bytes (length r.payload)
      then (w, err (WalError.record_too_large (length r.payload) w.config.max_record_bytes))
      else elim (next_append_lsn w.last_lsn) [
        | none ↦ (w, err WalError.lsn_exhausted)
        | some lsn ↦ elim (encode_frame crc32c lsn r) [
          | err e ↦ (w, err e)
          | ok frame ↦ write_frame lsn frame w
        ]
      ]

  -- `replay` behind its flush.
  unfoldable pub scan_flushed :
      FileWal × Result WalError (Option ℕ) → FileWal × Result WalError Replay
  unfolding adopt_replay
  scan_flushed (w, ok durable) =
      adopt_replay w (scan crc32c w.config.max_record_bytes w.config.tail_repair w.file)
  scan_flushed (w, err e) = (w, err e)

  unfoldable pub replay : Method Replay
  unfolding scan_flushed
  replay w = scan_flushed (flush w)
