-- ===== src/Wal/Writer/Atomic.antt =====
-- `append` of crates/iron-wal/src/writer.rs leaves a log that recovery can read, however its I/O
-- calls end.
use iron_consensus.Prelude.{
  ℕ, zero, suc, ◌+◌, ◌-◌, ◌<◌, ◌≡◌, refl, sym, ap, subst, ◌∙◌, true, false, List, none, some, ok,
  err, ltb, ltb→lt, length, u32_mod, u64_mod, arith, All, Bool-cases, ◌⊎◌, inl, inr,
}
use iron_consensus.Core.Id.{checked_successor}
use iron_consensus.Wal.Types.{WalError, RecordInput}
use iron_consensus.Wal.Format.{encode_frame, header_len}
use iron_consensus.Wal.Format.RoundTrip.{IsInput, encode_frame_lem}
use iron_consensus.Wal.Reader.Replayed.{file_at}
use iron_consensus.Wal.Reader.Recovery.{IsLoggable, last_lsn_of, encode_log}
use iron_consensus.Wal.Reader.Recovery.Whole.{scan_recovers}
use iron_consensus.Wal.Writer.{
  FileWal, Config, next_append_lsn, write_frame, append, flush, replay, open_file, opened,
}
use iron_consensus.Wal.Writer.Calls.{next_file, seek-cases, write_all-cases, checked_add-cases}
use iron_consensus.Wal.Writer.Outcome.{All-snoc, count_length-Appended, Holds, Appended}

module _ (crc32c : List ℕ → ℕ) where
  write_frame-Appended :
      (w : FileWal) (rs : List RecordInput) (r : RecordInput) (frame : List ℕ)
      → Holds crc32c w rs
      → IsLoggable w.config.max_record_bytes r
      → encode_frame crc32c (length rs + 1) r ≡ ok frame
      → Appended crc32c w rs r (write_frame (length rs + 1) frame w)
  unfolding write_frame
  write_frame-Appended w rs r frame h loggable e = elim (seek-cases w.valid_length w.file) [
    | inr s ↦ rw s (
        Appended.refused (record w { file = next_file w.file }) _
          (record {
            log = h.log;
            loggable = h.loggable;
            ends = h.ends;
            last = h.last;
            healthy = h.healthy;
          }))
    | inl s ↦
        rw s
          (elim (write_all-cases frame (next_file (record w.file { position = w.valid_length }))
            h.ends) [
              | inl (f, (written, bytes)) ↦ rw written (
                  count_length-Appended crc32c w (record w { file = f }) rs r frame _
                    (record {
                      log = h.log;
                      loggable = All-snoc crc32c w.config.max_record_bytes rs r h.loggable loggable;
                      encoded = e;
                      bytes = bytes;
                      ends = h.ends;
                      frontier = refl;
                      healthy = h.healthy;
                      same_config = refl;
                      writable = loggable;
                    })
                    (checked_add-cases u64_mod w.valid_length (length frame)))
              | inr (f, (cut, (n, bytes))) ↦ rw cut (
                  Appended.broken (record w { file = f; poisoned = true }) _
                    (record {
                      frame = frame;
                      written = n;
                      encoded = e;
                      bytes = bytes;
                      frontier = refl;
                      poisoned = refl;
                      same_config = refl;
                      writable = loggable;
                    }))
            ])
  ]

  next_append_lsn-cases :
      (m : ℕ)
      → (next_append_lsn (last_lsn_of m) ≡ none) ⊎ (next_append_lsn (last_lsn_of m) ≡ some (m + 1))
  unfolding next_append_lsn checked_successor
  next_append_lsn-cases zero = inr refl
  next_append_lsn-cases (suc m) = checked_add-cases u64_mod (suc m) 1

  encode_frame-too_large :
      (lsn : ℕ) (r : RecordInput)
      → ltb (40 + length r.payload) u32_mod ≡ false
      → encode_frame crc32c lsn r
        ≡ err (WalError.record_too_large (length r.payload) (u32_mod - 1 - header_len))
  unfolding encode_frame
  encode_frame-too_large lsn r h = ground arith

  -- `append` refuses the record before any I/O, or encodes it and writes the frame.
  append-cases :
      (w : FileWal) (rs : List RecordInput) (r : RecordInput)
      → Holds crc32c w rs
      → IsInput r
      → ((e : WalError) × (append crc32c r w ≡ (w, err e)))
        ⊎ ((frame : List ℕ) × (IsLoggable w.config.max_record_bytes r
              × ((encode_frame crc32c (length rs + 1) r ≡ ok frame)
                  × (append crc32c r w ≡ write_frame (length rs + 1) frame w))))
  unfolding append
  append-cases w rs r h i = elim (Bool-cases (ltb w.config.max_record_bytes (length r.payload))) [
    | inl big ↦ inl (
      WalError.record_too_large (length r.payload) w.config.max_record_bytes,
      simp (h.healthy, big),
    )
    | inr fits ↦ elim (next_append_lsn-cases (length rs)) [
      | inl last ↦
          inl (WalError.lsn_exhausted, simp (h.healthy, fits, ap next_append_lsn h.last ∙ last))
      | inr next ↦ elim (Bool-cases (ltb (40 + length r.payload) u32_mod)) [
        | inr large ↦ inl (
          WalError.record_too_large (length r.payload) (u32_mod - 1 - header_len),
          simp (
            h.healthy,
            fits,
            ap next_append_lsn h.last ∙ next,
            encode_frame-too_large (length rs + 1) r large,
          ),
        )
        | inl small ↦
            let e = encode_frame_lem crc32c (length rs + 1) r (ltb→lt _ _ small) in
            inr (
              _,
              (
                record { input = i; fits = ground arith; small = ltb→lt _ _ small },
                (e, simp (h.healthy, fits, ap next_append_lsn h.last ∙ next, e)),
              ),
            )
      ]
    ]
  ]

  -- Whatever calls on the file fail, an append of a valid record to a healthy writer stores the
  -- record under the next LSN, durable at once if the policy is `always`; or refuses it and keeps
  -- the log; or poisons the writer, with the first bytes of its frame behind the log and the
  -- durability frontier where it was.
  pub append-Appended :
      (w : FileWal) (rs : List RecordInput) (r : RecordInput)
      → Holds crc32c w rs
      → IsInput r
      → Appended crc32c w rs r (append crc32c r w)
  append-Appended w rs r h i = elim (append-cases w rs r h i) [
    | inl (e, same) ↦ subst (Appended crc32c w rs r) (sym same) (Appended.refused w e h)
    | inr (frame, (loggable, (e, same))) ↦
        subst (Appended crc32c w rs r) (sym same) (write_frame-Appended w rs r frame h loggable e)
  ]

  -- A poisoned writer refuses append, flush and replay and is left as it is.
  pub poisoned_refuses :
      (w : FileWal) (r : RecordInput)
      → w.poisoned ≡ true
      → (append crc32c r w ≡ (w, err WalError.poisoned))
        × ((flush w ≡ (w, err WalError.poisoned)) × (replay crc32c w ≡ (w, err WalError.poisoned)))
  unfolding append flush replay
  poisoned_refuses w r p = (simp p, (simp p, simp p))

  -- Opening a log of whole frames, each within the configured maximum, whose length is a u64, gives
  -- a healthy writer that holds its records, with the durability frontier at the last of them.
  pub open_file-Holds :
      (crc32c_bound : (bs : List ℕ) → crc32c bs < u32_mod) (config : Config) (rs : List RecordInput)
      (log : List ℕ) (position : ℕ)
      → encode_log crc32c 1 rs ≡ ok log
      → All (IsLoggable config.max_record_bytes) rs
      → length log < u64_mod
      → (w : FileWal) × ((open_file crc32c config (file_at log position) ≡ ok w)
          × (Holds crc32c w rs × (w.durable_through ≡ last_lsn_of (length rs))))
  unfolding open_file
  open_file-Holds crc32c_bound config rs log position e h sized =
      let read =
        scan_recovers crc32c crc32c_bound config.max_record_bytes config.tail_repair rs log position
          e h sized in
      (
        _,
        (
          ap (opened config) read,
          (record { log = e; loggable = h; ends = refl; last = refl; healthy = refl }, refl),
        ),
      )
