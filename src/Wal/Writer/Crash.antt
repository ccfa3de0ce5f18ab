-- ===== src/Wal/Writer/Crash.antt =====
-- Recovery after an append of crates/iron-wal/src/writer.rs that may have been cut off.
use iron_consensus.Prelude.{
  ℕ, zero, suc, ◌+◌, ◌-◌, ◌<◌, ◌≡◌, refl, sym, ap, subst, ◌∙◌, List, [], ◌∷◌, ◌++◌, Result, ok, ltb,
  ltb→lt, length, length-append, take, u64_mod, u32_mod, arith, All, Bool-cases, ◌⊎◌, inl, inr,
}
use mathlib.Core.List.{append-nil, append_assoc}
use native.Mathlib.Nat.{zero-add, suc-add}
use iron_consensus.Wal.Types.{WalError, RecordInput, Replay, AppendOutcome, TailRepair}
use iron_consensus.Wal.Format.{encode_frame}
use iron_consensus.Wal.Format.RoundTrip.{IsInput, encode_frame_lem, length-header_bytes}
use iron_consensus.Wal.Io.{File}
use iron_consensus.Wal.Reader.{scan}
use iron_consensus.Wal.Reader.Replayed.{file_at, header_of}
use iron_consensus.Wal.Reader.Recovery.{IsLoggable, numbered, encode_log}
use iron_consensus.Wal.Reader.Recovery.Whole.{ok_inj, scan_recovers}
use iron_consensus.Wal.Reader.Recovery.Torn.{scan_repairs_tail}
use iron_consensus.Wal.Writer.{FileWal, append}
use iron_consensus.Wal.Writer.Outcome.{Holds, Breaks, Appended, encode_log-snoc, All-snoc}
use iron_consensus.Wal.Writer.Atomic.{append-Appended}

take_past : (xs : List ℕ) (k : ℕ) → take (length xs + k) xs ≡ xs
take_past [] zero = refl
take_past [] (suc k) = rw zero-add refl
take_past (x ∷ xs) k = rw suc-add (ap (◌∷◌ x) (take_past xs k))

module _ (crc32c : List ℕ → ℕ) (crc32c_bound : (bs : List ℕ) → crc32c bs < u32_mod) where
  -- Opening a file of these bytes finds the records, or those and the new one.
  abbrev pub Recovers : ℕ → List ℕ → List RecordInput → RecordInput → ℕ → Type 0
  Recovers max_record_bytes bytes rs r position =
      (f : File) × ((found : Replay) × ((scan crc32c max_record_bytes TailRepair.truncate
              (file_at bytes position)
            ≡ (f, ok found))
          × ((found.records ≡ numbered 1 rs) ⊎ (found.records ≡ numbered 1 (rs ++ (r ∷ []))))))

  pub length-encode_frame :
      (lsn : ℕ) (r : RecordInput) (frame : List ℕ)
      → 40 + length r.payload < u32_mod
      → encode_frame crc32c lsn r ≡ ok frame
      → length frame ≡ 40 + length r.payload
  length-encode_frame lsn r frame small e =
      let hdr = header_of crc32c crc32c_bound lsn r in
      let same : hdr ++ r.payload ≡ frame =
        ok_inj ((simp append_assoc) ∙ sym (encode_frame_lem crc32c lsn r small) ∙ e) in
      let forty : length hdr ≡ 40 = length-header_bytes _ _ _ _ _ _ in
      omega (arith, ap length same, length-append hdr r.payload)

  Holds-Recovers :
      (w : FileWal) (rs : List RecordInput) (r : RecordInput)
      → Holds crc32c w rs
      → length w.file.bytes < u64_mod
      → (position : ℕ) → Recovers w.config.max_record_bytes w.file.bytes rs r position
  Holds-Recovers w rs r h sized position =
      let read =
        scan_recovers crc32c crc32c_bound w.config.max_record_bytes TailRepair.truncate rs
          w.file.bytes position h.log h.loggable sized in
      (_, (_, (read, inl refl)))

  complete-Recovers :
      (max_record_bytes : ℕ) (log : List ℕ) (rs : List RecordInput) (r : RecordInput)
      → encode_log crc32c 1 (rs ++ (r ∷ [])) ≡ ok log
      → All (IsLoggable max_record_bytes) (rs ++ (r ∷ []))
      → length log < u64_mod
      → (position : ℕ) → Recovers max_record_bytes log rs r position
  complete-Recovers max log rs r e h sized position =
      let read =
        scan_recovers crc32c crc32c_bound max TailRepair.truncate (rs ++ (r ∷ [])) log position e h
          sized in
      (_, (_, (read, inr refl)))

  pub Breaks-Recovers :
      (w w' : FileWal) (rs : List RecordInput) (r : RecordInput)
      → Holds crc32c w rs
      → (b : Breaks crc32c w w' rs r) → length (w.file.bytes ++ b.frame) < u64_mod
      → (position : ℕ)
      → Recovers w.config.max_record_bytes (w.file.bytes ++ take b.written b.frame) rs r position
  Breaks-Recovers w w' rs r h b sized = elim (Bool-cases (ltb 0 b.written)) [
    | inr nothing ↦
        let zero_written : 0 ≡ b.written = ground arith in
        subst (λ x. (position : ℕ) → Recovers w.config.max_record_bytes x rs r position)
          (sym (append-nil w.file.bytes) ∙ ap (λ n. w.file.bytes ++ take n b.frame) zero_written)
          (Holds-Recovers w rs r h (omega (arith, length-append w.file.bytes b.frame)))
    | inl some_written ↦ elim (Bool-cases (ltb b.written (length b.frame))) [
      | inl cut_off ↦ λ position.
          let repaired =
            scan_repairs_tail crc32c crc32c_bound w.config.max_record_bytes rs r w.file.bytes
              b.frame b.written position h.log b.encoded h.loggable b.writable
              (ltb→lt _ _ some_written) (ltb→lt _ _ cut_off) sized in
          (_, (_, (repaired.1.0, inl refl)))
      | inr complete ↦
          let rest : length b.frame + (b.written - length b.frame) ≡ b.written = ground arith in
          let all : b.frame ≡ take b.written b.frame =
            sym (take_past b.frame (b.written - length b.frame)) ∙ ap (λ n. take n b.frame) rest in
          subst
            (λ x.
              (position : ℕ) → Recovers w.config.max_record_bytes (w.file.bytes ++ x) rs r position)
            all
            (complete-Recovers w.config.max_record_bytes (w.file.bytes ++ b.frame) rs r
              (encode_log-snoc crc32c 1 rs r w.file.bytes b.frame h.log
                (subst (λ n. encode_frame crc32c n r ≡ ok b.frame) (omega arith) b.encoded))
              (All-snoc crc32c w.config.max_record_bytes rs r h.loggable b.writable) sized)
    ]
  ]

  All-last :
      (max : ℕ) (rs : List RecordInput) (r : RecordInput)
      → All (IsLoggable max) (rs ++ (r ∷ []))
      → IsLoggable max r
  All-last max [] r h = h.0
  All-last max (x ∷ rs) r h = All-last max rs r h.1

  length-encode_log :
      (rs : List RecordInput) (r : RecordInput) (log log' : List ℕ)
      → encode_log crc32c 1 rs ≡ ok log
      → encode_log crc32c 1 (rs ++ (r ∷ [])) ≡ ok log'
      → 40 + length r.payload < u32_mod
      → length log' ≡ length log + (40 + length r.payload)
  length-encode_log rs r log log' e e' small =
      let encoded = encode_frame_lem crc32c (1 + length rs) r small in
      let snoc = encode_log-snoc crc32c 1 rs r log _ e encoded in
      omega (
        arith,
        ap length (ok_inj (sym snoc ∙ e')),
        length-encode_frame (1 + length rs) r _ small encoded,
        length-append log _,
      )

  -- However the calls of an append end, opening the file that it leaves, with truncation of a torn
  -- tail, finds all earlier records, and behind them at most the appended one.
  pub append_crash_atomic :
      (w : FileWal) (rs : List RecordInput) (r : RecordInput)
      → Holds crc32c w rs
      → IsInput r
      → length w.file.bytes + (40 + length r.payload) < u64_mod
      → (position : ℕ)
      → let w' = (append crc32c r w).0 in
        Recovers w'.config.max_record_bytes w'.file.bytes rs r position
  append_crash_atomic w rs r h i sized position =
      ended (append crc32c r w) (append-Appended crc32c w rs r h i) position
    where
      ended :
          (o : FileWal × Result WalError AppendOutcome)
          → Appended crc32c w rs r o
          → (position' : ℕ) → Recovers (o.0).config.max_record_bytes (o.0).file.bytes rs r position'
      ended o (Appended.done w' h' d) =
          complete-Recovers w'.config.max_record_bytes w'.file.bytes rs r h'.log h'.loggable (
            omega (
              arith,
              length-encode_log rs r w.file.bytes w'.file.bytes h.log h'.log
                  (All-last w'.config.max_record_bytes rs r h'.loggable).small,
            ))
      ended o (Appended.refused w' e h') =
          Holds-Recovers w' rs r h' (omega (arith, ap length (ok_inj (sym h.log ∙ h'.log))))
      ended o (Appended.broken w' e b) =
          subst (λ c. (position : ℕ) → Recovers c.max_record_bytes w'.file.bytes rs r position)
            (sym b.same_config)
            (subst (λ x. (position : ℕ) → Recovers w.config.max_record_bytes x rs r position)
              (sym b.bytes)
              (Breaks-Recovers w w' rs r h b (
                omega (
                  arith,
                  length-append w.file.bytes b.frame,
                  length-encode_frame (length rs + 1) r b.frame b.writable.small b.encoded,
                ))))
