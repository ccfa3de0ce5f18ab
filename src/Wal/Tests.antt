-- ===== src/Wal/Tests.antt =====
-- Witnesses and tests of the log, with a checksum that is constant.
use iron_consensus.Prelude.{
  ℕ, ◌+◌, ◌<◌, ◌≡◌, refl, List, [], ◌∷◌, ◌++◌, none, some, Result, ok, err, length, take, u32_mod,
  u64_mod, arith, true, false,
}
use iron_consensus.Wal.Types.{WalError, RecordInput, TailRepair, SyncPolicy}
use iron_consensus.Core.Limits.{new_bounded}
use iron_consensus.Wal.Limits.{encode_frame_within_limit}
use iron_consensus.Wal.Format.{encode_frame}
use iron_consensus.Wal.Format.RoundTrip.{IsInput}
use iron_consensus.Wal.Reader.{scan}
use iron_consensus.Wal.Reader.Replayed.{file_at}
use iron_consensus.Wal.Reader.Recovery.{IsLoggable, encode_log}
use iron_consensus.Wal.Reader.Recovery.Whole.{replay_log, scan_recovers}
use iron_consensus.Wal.Reader.Recovery.Torn.{scan_repairs_tail}
use iron_consensus.Wal.Writer.{Config, FileWal, append, open_file}
use iron_consensus.Wal.Writer.Outcome.{Holds, Appended}
use iron_consensus.Wal.Writer.Atomic.{append-Appended, open_file-Holds}
use iron_consensus.Wal.Writer.Crash.{Recovers, append_crash_atomic}

program : Unit {0}
unfolding encode_log encode_frame
program = tt

abbrev constant : List ℕ → ℕ
constant bytes = 7

constant_bound : (bytes : List ℕ) → constant bytes < u32_mod
constant_bound bytes = omega arith

abbrev first : RecordInput
first = record { record_kind = 1024; schema_version = 1; payload = 1 ∷ 2 ∷ [] }

abbrev second : RecordInput
second = record { record_kind = 1025; schema_version = 1; payload = 3 ∷ [] }

first-IsInput : IsInput first
first-IsInput = record {
  kind_nonzero = omega arith;
  kind_bound = omega arith;
  version_nonzero = omega arith;
  version_bound = omega arith;
}

second-IsInput : IsInput second
second-IsInput = record {
  kind_nonzero = omega arith;
  kind_bound = omega arith;
  version_nonzero = omega arith;
  version_bound = omega arith;
}

first-IsLoggable : IsLoggable 100 first
first-IsLoggable = record { input = first-IsInput; fits = omega arith; small = omega arith }

second-IsLoggable : IsLoggable 100 second
second-IsLoggable = record { input = second-IsInput; fits = omega arith; small = omega arith }

abbrev bytes_of : Result WalError (List ℕ) → List ℕ
bytes_of (ok bytes) = bytes
bytes_of (err e) = []

abbrev log : List ℕ
log = bytes_of (encode_log constant 1 (first ∷ []))

log_encoded : encode_log constant 1 (first ∷ []) ≡ ok log
unfolding program
log_encoded = refl

log_sized : length log < u64_mod
unfolding program
log_sized = omega arith

abbrev frame : List ℕ
frame = bytes_of (encode_frame constant 2 second)

frame_encoded : encode_frame constant 2 second ≡ ok frame
unfolding program
frame_encoded = refl

cut : 40 < length frame
unfolding program
cut = omega arith

both_sized : length (log ++ frame) < u64_mod
unfolding program
both_sized = omega arith

room : length log + 41 < u64_mod
unfolding program
room = omega arith

scan_recovers_example :
    scan constant 100 TailRepair.reject (file_at log 3)
    ≡ (file_at log (length log), ok (replay_log (first ∷ []) (length log) none))
scan_recovers_example =
    scan_recovers constant constant_bound 100 TailRepair.reject (first ∷ []) log 3 log_encoded
      (first-IsLoggable, tt) log_sized

scan_repairs_tail_example :
    (p : ℕ) × ((scan constant 100 TailRepair.truncate (file_at (log ++ take 40 frame) 0) ≡ (
      file_at log p,
      ok (
          replay_log
            (first ∷ [])
            (length log)
            (some (record { offset = length log; bytes_removed = 40; last_valid_lsn = some 1 }))),
    ))
      × (scan constant 100 TailRepair.reject (file_at (log ++ take 40 frame) 0) ≡ (
        file_at (log ++ take 40 frame) p,
        err (WalError.torn_tail (length log) (length log + 40) (some 1)),
      )))
scan_repairs_tail_example =
    scan_repairs_tail constant constant_bound 100 (first ∷ []) second log frame 40 0 log_encoded
      frame_encoded (first-IsLoggable, tt) second-IsLoggable (omega arith) cut both_sized

-- A writer of the log whose next write stores five bytes and fails.
abbrev config : Config
config = record {
  max_record_bytes = 100;
  sync_policy = SyncPolicy.always;
  tail_repair = TailRepair.truncate;
}

abbrev wal : FileWal
wal = record {
  file = record { bytes = log; position = 0; faults = none ∷ some 5 ∷ [] };
  config = config;
  last_lsn = some 1;
  durable_through = some 1;
  valid_length = length log;
  unsynced_records = 0;
  poisoned = false;
  open_report = (replay_log [] 0 none).report;
}

wal-Holds : Holds constant wal (first ∷ [])
wal-Holds = record {
  log = log_encoded;
  loggable = (first-IsLoggable, tt);
  ends = refl;
  last = refl;
  healthy = refl;
}

append-Appended_example : Appended constant wal (first ∷ []) second (append constant second wal)
append-Appended_example = append-Appended constant wal (first ∷ []) second wal-Holds second-IsInput

append_crash_atomic_example :
    let w' = (append constant second wal).0 in
    Recovers constant constant_bound w'.config.max_record_bytes w'.file.bytes (first ∷ []) second 6
append_crash_atomic_example =
    append_crash_atomic constant constant_bound wal (first ∷ []) second wal-Holds second-IsInput
      room 6

abbrev broken_wal : FileWal
broken_wal = record wal { poisoned = true }

open_file-Holds_example :
    (w : FileWal) × ((open_file constant config (file_at log 9) ≡ ok w)
      × (Holds constant w (first ∷ []) × (w.durable_through ≡ some 1)))
open_file-Holds_example =
    open_file-Holds constant constant_bound config (first ∷ []) log 9 log_encoded
      (first-IsLoggable, tt) log_sized

encode_frame_within_limit_example : (bytes : List ℕ) × (encode_frame constant 1 first ≡ ok bytes)
unfolding new_bounded
encode_frame_within_limit_example =
    encode_frame_within_limit constant 2048 2048 1 first refl (omega arith)
