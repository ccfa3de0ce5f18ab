-- ===== src/Runtime/Logged.antt =====
-- The log behind the runtime of crates/iron-runtime/src/lib.rs is the writer of
-- crates/iron-wal/src/writer.rs: what it holds after a record was offered, and what is found when it
-- is opened again.
use iron_consensus.Prelude.{
  ℕ, ◌+◌, ◌<◌, ◌≡◌, refl, sym, ap, subst, ◌∙◌, true, false, List, [], ◌∷◌, ◌++◌, some, Result, ok,
  err, length, length-append, take, u32_mod, u64_mod, arith, All, ◌⊎◌, inl, inr,
}
use iron_consensus.Wal.Types.{WalError, RecordInput, AppendOutcome, Replay, TailRepair, new_input}
use iron_consensus.Wal.Io.{File}
use iron_consensus.Wal.Format.RoundTrip.{IsInput}
use iron_consensus.Wal.Reader.{scan}
use iron_consensus.Wal.Reader.Replayed.{file_at}
use iron_consensus.Wal.Reader.Recovery.{IsLoggable, numbered}
use iron_consensus.Wal.Reader.Recovery.Whole.{scan_recovers}
use iron_consensus.Wal.Writer.{FileWal, append, flush, replay, report_flush, sync_current}
use iron_consensus.Wal.Writer.Calls.{synced, unsynced, sync_current-cases}
use iron_consensus.Wal.Writer.Outcome.{Holds, Breaks, Appended, last_lsn_of-snoc}
use iron_consensus.Wal.Writer.Atomic.{append-Appended, poisoned_refuses}
use iron_consensus.Wal.Writer.Crash.{Recovers, Breaks-Recovers, length-encode_frame}
use iron_consensus.Protocol.{DurableRecord}
use iron_consensus.Runtime.{RuntimeError, WriteAheadLog, log_record, after_append, flushed}

abbrev pub input_of : DurableRecord → RecordInput
input_of r = record {
  record_kind = r.record_kind;
  schema_version = r.schema_version;
  payload = r.payload;
}

pub flush-synced : (w : FileWal) → w.poisoned ≡ false → flush w ≡ report_flush (sync_current w)
unfolding flush
flush-synced w h = rw h refl

module _ (crc32c : List ℕ → ℕ) where
  abbrev pub file_wal : WriteAheadLog FileWal
  file_wal = record { append = append crc32c; flush = flush; replay = replay crc32c }

  -- A log that holds the records; or, behind a poisoned writer, those and a part of another, or
  -- those and the whole of another, whose flush failed.
  pub data Logged (w : FileWal) (rs : List RecordInput) : Type 0 where
    intact : Holds crc32c w rs → Logged w rs
    broken :
        (w0 : FileWal) (r : RecordInput)
        → Holds crc32c w0 rs
        → Breaks crc32c w0 w rs r
        → Logged w rs
    unflushed :
        (w0 : FileWal) (r : RecordInput)
        → Holds crc32c w0 (rs ++ (r ∷ []))
        → w.file.bytes ≡ w0.file.bytes
        → w.poisoned ≡ true
        → w.config ≡ w0.config
        → Logged w rs

  -- How the log takes a record.
  pub data Recorded (rs : List RecordInput) (r : RecordInput)
      : FileWal × Result RuntimeError (Unit {0}) → Type 0 where
    stored :
        (w : FileWal)
        → Holds crc32c w (rs ++ (r ∷ []))
        → w.durable_through ≡ some (length rs + 1)
        → Recorded rs r (w, ok tt)
    failed :
        (w : FileWal) (e : WalError) → Logged w rs → Recorded rs r (w, err (RuntimeError.wal e))

  synced-Holds :
      (w : FileWal) (rs : List RecordInput) → Holds crc32c w rs → Holds crc32c (synced w) rs
  synced-Holds w rs h = record {
    log = h.log;
    loggable = h.loggable;
    ends = h.ends;
    last = h.last;
    healthy = h.healthy;
  }

  flush-Recorded :
      (w : FileWal) (rs : List RecordInput) (r : RecordInput)
      → Holds crc32c w (rs ++ (r ∷ []))
      → Recorded rs r (flushed (flush w))
  unfolding flushed report_flush
  flush-Recorded w rs r h = elim (sync_current-cases w) [
    | inl s ↦
        subst (λ o. Recorded rs r (flushed o)) (sym (flush-synced w h.healthy ∙ ap report_flush s))
          (stored (synced w) (synced-Holds w _ h) (h.last ∙ sym (last_lsn_of-snoc crc32c rs r)))
    | inr s ↦
        subst (λ o. Recorded rs r (flushed o)) (sym (flush-synced w h.healthy ∙ ap report_flush s))
          (failed (unsynced w) _ (unflushed w r h refl refl refl))
  ]

  after_append-Recorded :
      (w : FileWal) (rs : List RecordInput) (r : RecordInput)
      (o : FileWal × Result WalError AppendOutcome)
      → Holds crc32c w rs
      → Appended crc32c w rs r o
      → Recorded rs r (after_append file_wal o)
  unfolding after_append
  after_append-Recorded w rs r o h (Appended.done w' h' always) = flush-Recorded w' rs r h'
  after_append-Recorded w rs r o h (Appended.refused w' e h') = failed w' _ (intact h')
  after_append-Recorded w rs r o h (Appended.broken w' e b) = failed w' _ (broken w r h b)

  new_input-ok :
      (r : DurableRecord)
      → IsInput (input_of r)
      → new_input r.record_kind r.schema_version r.payload ≡ ok (input_of r)
  unfolding new_input
  new_input-ok r i = ground (arith, i.kind_nonzero)

  -- However the I/O calls end, the record is stored and durable, or the log's error is returned and
  -- the log holds what it held, or is poisoned behind that and at most one more.
  pub log_record-Recorded :
      (w : FileWal) (rs : List RecordInput) (r : DurableRecord)
      → Holds crc32c w rs
      → IsInput (input_of r)
      → Recorded rs (input_of r) (log_record file_wal r w)
  unfolding log_record
  log_record-Recorded w rs r h i =
      rw (log_record, new_input-ok r i)
        (after_append-Recorded w rs (input_of r) _ h (append-Appended crc32c w rs (input_of r) h i))

  -- A poisoned writer takes no record.
  pub log_record-poisoned :
      (w : FileWal) (r : DurableRecord)
      → IsInput (input_of r)
      → w.poisoned ≡ true
      → log_record file_wal r w ≡ (w, err (RuntimeError.wal WalError.poisoned))
  unfolding log_record after_append
  log_record-poisoned w r i p =
      rw (log_record, new_input-ok r i)
        (ap (after_append file_wal) (poisoned_refuses crc32c w (input_of r) p).0)

  module _ (crc32c_bound : (bs : List ℕ) → crc32c bs < u32_mod) where
    -- What an open of the file, with truncation of a torn tail, reads: the records, and behind them
    -- at most one more.
    abbrev pub Reopens : FileWal → List RecordInput → Type 0
    Reopens w rs =
        (f : File) × ((found : Replay) × ((scan crc32c w.config.max_record_bytes TailRepair.truncate
                (file_at w.file.bytes 0)
              ≡ (f, ok found))
            × ((found.records ≡ numbered 1 rs)
                ⊎ ((r : RecordInput) × (found.records ≡ numbered 1 (rs ++ (r ∷ [])))))))

    whole-Reopens :
        (w w0 : FileWal) (rs : List RecordInput)
        → Holds crc32c w0 rs
        → w.file.bytes ≡ w0.file.bytes
        → w.config ≡ w0.config
        → length w.file.bytes < u64_mod
        → (f : File) × ((found : Replay) × ((scan crc32c w.config.max_record_bytes
                  TailRepair.truncate
                  (file_at w.file.bytes 0)
                ≡ (f, ok found))
              × (found.records ≡ numbered 1 rs)))
    whole-Reopens w w0 rs h same same_config sized =
        let read =
          scan_recovers crc32c crc32c_bound w.config.max_record_bytes TailRepair.truncate rs
            w.file.bytes 0 (h.log ∙ ap ok (sym same))
            (subst (λ c. All (IsLoggable c.max_record_bytes) rs) (sym same_config) h.loggable)
            sized in
        (_, (_, (read, refl)))

    either :
        (w : FileWal) (rs : List RecordInput) (r : RecordInput)
        → Recovers crc32c crc32c_bound w.config.max_record_bytes w.file.bytes rs r 0
        → Reopens w rs
    either w rs r (f, (found, (read, inl same))) = (f, (found, (read, inl same)))
    either w rs r (f, (found, (read, inr same))) = (f, (found, (read, inr (r, same))))

    -- A log whose file is 4 GiB short of 2 ^ 64 bytes reopens.
    pub Logged-Reopens :
        (w : FileWal) (rs : List RecordInput)
        → Logged w rs
        → length w.file.bytes + u32_mod < u64_mod
        → Reopens w rs
    Logged-Reopens w rs (Logged.intact h) sized =
        let (f, (found, (read, same))) = whole-Reopens w w rs h refl refl (omega arith) in
        (f, (found, (read, inl same)))
    Logged-Reopens w rs (Logged.unflushed w0 r h same poisoned same_config) sized =
        let (f, (found, (read, all))) =
          whole-Reopens w w0 (rs ++ (r ∷ [])) h same same_config (omega arith) in
        (f, (found, (read, inr (r, all))))
    Logged-Reopens w rs (Logged.broken w0 r h b) sized = either w rs r (
        subst (λ c. Recovers crc32c crc32c_bound c.max_record_bytes w.file.bytes rs r 0)
          (sym b.same_config)
          (subst (λ x. Recovers crc32c crc32c_bound w0.config.max_record_bytes x rs r 0)
            (sym b.bytes)
            (Breaks-Recovers crc32c crc32c_bound w0 w rs r h b
              (omega (
                arith,
                sized,
                ap length b.bytes,
                length-append w0.file.bytes (take b.written b.frame),
                length-append w0.file.bytes b.frame,
                length-encode_frame crc32c crc32c_bound (length rs + 1) r b.frame b.writable.small
                    b.encoded,
                b.writable.small,
              ))
              0)))
