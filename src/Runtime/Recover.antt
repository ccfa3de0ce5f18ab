-- ===== src/Runtime/Recover.antt =====
-- `recover` of crates/iron-runtime/src/lib.rs over the writer of crates/iron-wal/src/writer.rs.
use iron_consensus.Prelude.{
  ℕ, ◌+◌, ◌<◌, ◌≡◌, refl, sym, ap, subst, ◌∙◌, false, List, [], ◌∷◌, none, Result, ok, err, length,
  u32_mod, u64_mod, arith, All,
}
use iron_consensus.Core.Id.{nonzero_new}
use iron_consensus.Wal.Types.{RecordInput}
use iron_consensus.Wal.Io.{sync_data}
use iron_consensus.Wal.Format.RoundTrip.{IsInput}
use iron_consensus.Wal.Reader.Replayed.{file_at}
use iron_consensus.Wal.Reader.Recovery.{IsLoggable, numbered, last_lsn_of}
use iron_consensus.Wal.Reader.Recovery.Whole.{replay_log, scan_recovers}
use iron_consensus.Wal.Writer.{
  FileWal, flush, replay, scan_flushed, adopt_replay, sync_current, report_flush, mark_synced,
}
use iron_consensus.Wal.Writer.Calls.{synced}
use iron_consensus.Wal.Io.{attempt, outcome, later}
use iron_consensus.Wal.Reader.{scan}
use iron_consensus.Wal.Writer.Outcome.{Holds}
use iron_consensus.Protocol.{
  ProtocolError, RecoveredRecord, Protocol, recovered_record, record_kind_of,
}
use iron_consensus.Runtime.{
  RuntimeError, Effects, NodeRuntime, recovered_records, restored, give_records, replayed, recover,
}
use iron_consensus.Runtime.Logged.{file_wal, flush-synced}

-- The records as the protocol gets them, with their LSNs.
abbrev pub recovered : ℕ → List RecordInput → List RecoveredRecord
recovered lsn [] = []
recovered lsn (r ∷ rs) =
    record {
      lsn = lsn;
      record_kind = r.record_kind;
      schema_version = r.schema_version;
      payload = r.payload;
    }
    ∷ recovered (lsn + 1) rs

record_kind_of-ok : (n : ℕ) → 0 < n → record_kind_of n ≡ ok n
unfolding record_kind_of nonzero_new
record_kind_of-ok n h = ground arith

recovered_record-ok :
    (lsn : ℕ) (r : RecordInput)
    → IsInput r
    → recovered_record lsn r.record_kind r.schema_version r.payload
      ≡ ok (record {
        lsn = lsn;
        record_kind = r.record_kind;
        schema_version = r.schema_version;
        payload = r.payload;
      })
unfolding recovered_record
recovered_record-ok lsn r i =
    rw (recovered_record, record_kind_of-ok r.record_kind i.kind_nonzero) refl

recovered_records-numbered :
    (maximum lsn : ℕ) (rs : List RecordInput)
    → All (IsLoggable maximum) rs
    → recovered_records (numbered lsn rs) ≡ ok (recovered lsn rs)
unfolding recovered_records
recovered_records-numbered maximum lsn [] h = refl
recovered_records-numbered maximum lsn (r ∷ rs) h =
    rw
      (
        recovered_records,
        recovered_record-ok lsn r h.0.input,
        recovered_records-numbered maximum (lsn + 1) rs h.1,
      )
      refl

sync_quiet : (w : FileWal) → w.file.faults ≡ [] → sync_current w ≡ (synced w, ok tt)
unfolding sync_current mark_synced sync_data
sync_quiet w quiet = rw (sync_current, sync_data, attempt, ap outcome quiet) refl

flush_quiet :
    (w : FileWal) → w.poisoned ≡ false → w.file.faults ≡ [] → flush w ≡ (synced w, ok w.last_lsn)
unfolding report_flush
flush_quiet w healthy quiet = flush-synced w healthy ∙ ap report_flush (sync_quiet w quiet)

module _ (crc32c : List ℕ → ℕ) (crc32c_bound : (bs : List ℕ) → crc32c bs < u32_mod) where
  -- The writer after a replay of its log.
  abbrev after_replay : FileWal → List RecordInput → FileWal
  after_replay w rs = record (synced w) {
    file = file_at w.file.bytes (length w.file.bytes);
    last_lsn = last_lsn_of (length rs);
    durable_through = last_lsn_of (length rs);
    valid_length = length w.file.bytes;
    unsynced_records = 0;
  }

  replay_quiet :
      (w : FileWal) (rs : List RecordInput)
      → Holds crc32c w rs
      → w.file.faults ≡ []
      → length w.file.bytes < u64_mod
      → replay crc32c w ≡ (after_replay w rs, ok (replay_log rs (length w.file.bytes) none))
  unfolding replay scan_flushed adopt_replay
  replay_quiet w rs h quiet sized =
      let read =
        scan_recovers crc32c crc32c_bound w.config.max_record_bytes w.config.tail_repair rs
          w.file.bytes w.file.position h.log h.loggable sized in
      ap (scan_flushed crc32c) (flush_quiet w h.healthy quiet)
      ∙ ap
          (λ fs. adopt_replay (synced w) (
            scan crc32c w.config.max_record_bytes w.config.tail_repair
              (record w.file { faults = later fs })))
          quiet
      ∙ ap (adopt_replay (synced w)) read

  module _ {ℓ κ} {P : Type ℓ} {X : Type κ} (engine : Protocol P) (fx : Effects X) where
    -- `?` on the protocol's answer.
    abbrev pub answer_of : Result ProtocolError (Unit {0}) → Result RuntimeError (Unit {0})
    answer_of (ok done) = ok tt
    answer_of (err e) = err (RuntimeError.protocol e)

    -- What a recovery leaves.
    abbrev pub Restores :
        NodeRuntime P FileWal X
        → List RecordInput
        → NodeRuntime P FileWal X × Result RuntimeError (Unit {0})
        → Type (ℓ ⊔ κ)
    Restores rt rs o =
        let answer = engine.recover (recovered 1 rs) rt.protocol in
        ((o.0).protocol ≡ answer.0)
        × (((o.0).effects ≡ rt.effects)
            × ((o.1 ≡ answer_of answer.1)
                × (Holds crc32c (o.0).wal rs
                    × ((o.0).wal.durable_through ≡ last_lsn_of (length rs)))))

    restored-Restores :
        (rt : NodeRuntime P FileWal X) (rs : List RecordInput) (w : FileWal)
        (answer : P × Result ProtocolError (Unit {0}))
        → Holds crc32c w rs
        → w.durable_through ≡ last_lsn_of (length rs)
        → engine.recover (recovered 1 rs) rt.protocol ≡ answer
        → Restores rt rs (restored engine (file_wal crc32c) fx (record rt { wal = w }) answer)
    unfolding restored
    restored-Restores rt rs w (p, ok done) h frontier e =
        (ap (λ o. o.0) (sym e), (refl, (ap (λ o. answer_of (o.1)) (sym e), (h, frontier))))
    restored-Restores rt rs w (p, err x) h frontier e =
        (ap (λ o. o.0) (sym e), (refl, (ap (λ o. answer_of (o.1)) (sym e), (h, frontier))))

    -- Over a file whose calls succeed, the recovery of a runtime whose log holds some records gives
    -- the protocol exactly those, in their order and with the LSNs from 1 on; it executes no effect,
    -- and returns as the protocol does; the log holds the same records, all of them durable.
    pub recover_replays :
        (rt : NodeRuntime P FileWal X) (rs : List RecordInput)
        → Holds crc32c rt.wal rs
        → rt.wal.file.faults ≡ []
        → length rt.wal.file.bytes < u64_mod
        → Restores rt rs (recover engine (file_wal crc32c) fx rt)
    unfolding recover replayed
    recover_replays rt rs h quiet sized =
        let w = after_replay rt.wal rs in
        let rt' : NodeRuntime P FileWal X = record rt { wal = w } in
        let found = recovered_records-numbered rt.wal.config.max_record_bytes 1 rs h.loggable in
        let same =
          ap (replayed engine (file_wal crc32c) fx rt) (replay_quiet rt.wal rs h quiet sized)
          ∙ ap (give_records engine (file_wal crc32c) fx rt') found in
        let holds : Holds crc32c w rs = record {
          log = h.log;
          loggable = h.loggable;
          ends = refl;
          last = refl;
          healthy = h.healthy;
        } in
        subst (Restores rt rs) (sym same)
          (restored-Restores rt rs w (engine.recover (recovered 1 rs) rt.protocol) holds refl refl)
