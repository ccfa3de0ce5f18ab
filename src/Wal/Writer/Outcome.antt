-- ===== src/Wal/Writer/Outcome.antt =====
-- How an append of crates/iron-wal/src/writer.rs may end, from the write of its frame on.
use iron_consensus.Prelude.{
  ℕ, suc, ◌+◌, ◌≡◌, refl, sym, ap, subst, ◌∙◌, true, false, List, [], ◌∷◌, ◌++◌, Option, none, some,
  Result, ok, err, length, length-append, take, checked_add, u32_mod, arith, All, Bool-cases, ◌⊎◌,
  inl, inr,
}
use mathlib.Core.List.{append-nil, append_assoc}
use native.Mathlib.Nat.{add-zero}
use iron_consensus.Wal.Types.{Operation, WalError, RecordInput, AppendOutcome, SyncPolicy}
use iron_consensus.Wal.Format.{encode_frame}
use iron_consensus.Wal.Reader.Recovery.{IsLoggable, last_lsn_of, encode_log}
use iron_consensus.Wal.Reader.Recovery.Whole.{ok_inj}
use iron_consensus.Wal.Writer.{FileWal, must_sync, apply_policy, count_record, count_length}
use iron_consensus.Wal.Writer.Calls.{take_all, synced, unsynced, sync_current-cases, bind_ok}

module _ (crc32c : List ℕ → ℕ) where
  -- A writer that may go on, and the records of its log.
  pub record Holds (w : FileWal) (rs : List RecordInput) : Type 0 where
    pub log : encode_log crc32c 1 rs ≡ ok w.file.bytes
    pub loggable : All (IsLoggable w.config.max_record_bytes) rs
    pub ends : w.valid_length ≡ length w.file.bytes
    pub last : w.last_lsn ≡ last_lsn_of (length rs)
    pub healthy : w.poisoned ≡ false

  -- What a poisoned writer leaves: so many bytes of the last frame, and the old frontier.
  pub record Breaks (w w' : FileWal) (rs : List RecordInput) (r : RecordInput) : Type 0 where
    pub frame : List ℕ
    pub written : ℕ
    pub encoded : encode_frame crc32c (length rs + 1) r ≡ ok frame
    pub bytes : w'.file.bytes ≡ w.file.bytes ++ take written frame
    pub frontier : w'.durable_through ≡ w.durable_through
    pub poisoned : w'.poisoned ≡ true
    pub same_config : w'.config ≡ w.config
    pub writable : IsLoggable w.config.max_record_bytes r

  -- How an append may end.
  pub data Appended (w : FileWal) (rs : List RecordInput) (r : RecordInput)
      : FileWal × Result WalError AppendOutcome → Type 0 where
    done :
        (w' : FileWal)
        → Holds w' (rs ++ (r ∷ []))
        → (w.config.sync_policy ≡ SyncPolicy.always → w'.durable_through ≡ some (length rs + 1))
        → Appended w rs r
            (w', ok (record { lsn = length rs + 1; durable_through = w'.durable_through }))
    refused : (w' : FileWal) (e : WalError) → Holds w' rs → Appended w rs r (w', err e)
    broken : (w' : FileWal) (e : WalError) → Breaks w w' rs r → Appended w rs r (w', err e)

  -- The frame is in the file and counted; the policy is left.
  pub record Counted (w w' : FileWal) (rs : List RecordInput) (r : RecordInput) : Type 0 where
    frame : List ℕ
    encoded : encode_frame crc32c (length rs + 1) r ≡ ok frame
    bytes : w'.file.bytes ≡ w.file.bytes ++ frame
    frontier : w'.durable_through ≡ w.durable_through
    holds : Holds w' (rs ++ (r ∷ []))
    newest : w'.last_lsn ≡ some (length rs + 1)
    same_config : w'.config ≡ w.config
    writable : IsLoggable w.config.max_record_bytes r

  pub always_synced :
      {w w' : FileWal} {rs : List RecordInput} {r : RecordInput}
      → Counted w w' rs r
      → w.config.sync_policy ≡ SyncPolicy.always
      → must_sync w'.config.sync_policy w'.unsynced_records ≡ false
      → w'.durable_through ≡ some (length rs + 1)
  unfolding must_sync
  always_synced {w} {w'} c always e = grind (
    arith,
    ap (λ p. must_sync p w'.unsynced_records) (ap (λ x. x.sync_policy) c.same_config ∙ always),
  )

  pub apply_policy-Appended :
      (w w' : FileWal) (rs : List RecordInput) (r : RecordInput)
      → Counted w w' rs r
      → Appended w rs r (apply_policy (length rs + 1) w')
  unfolding apply_policy
  apply_policy-Appended w w' rs r c =
      elim (Bool-cases (must_sync w'.config.sync_policy w'.unsynced_records)) [
        | inr e ↦
            let left : apply_policy (length rs + 1) w'
                ≡ (w', ok (record { lsn = length rs + 1; durable_through = w'.durable_through })) =
              rw (e) refl in
            subst (Appended w rs r) (sym left)
              (done w' c.holds (λ always. always_synced c always e))
        | inl e ↦ elim (sync_current-cases w') [
          | inl s ↦
              let ended : apply_policy (length rs + 1) w' ≡ (
                synced w',
                ok (record { lsn = length rs + 1; durable_through = w'.last_lsn }),
              ) =
                rw (e, s) refl in
              subst (Appended w rs r) (sym ended) (
                done (synced w')
                  (record {
                    log = c.holds.log;
                    loggable = c.holds.loggable;
                    ends = c.holds.ends;
                    last = c.holds.last;
                    healthy = c.holds.healthy;
                  })
                  (λ always. c.newest))
          | inr s ↦
              let ended : apply_policy (length rs + 1) w'
                  ≡ (unsynced w', err (WalError.io Operation.syncing_data)) =
                rw (e, s) refl in
              subst (Appended w rs r) (sym ended) (
                broken (unsynced w') _ (record {
                  frame = c.frame;
                  written = length c.frame;
                  encoded = c.encoded;
                  bytes = c.bytes ∙ ap (◌++◌ w.file.bytes) (sym (take_all c.frame));
                  frontier = c.frontier;
                  same_config = c.same_config;
                  writable = c.writable;
                  poisoned = refl;
                }))
        ]
      ]

  pub encode_log-snoc :
      (lsn : ℕ) (rs : List RecordInput) (r : RecordInput) (log frame : List ℕ)
      → encode_log crc32c lsn rs ≡ ok log
      → encode_frame crc32c (lsn + length rs) r ≡ ok frame
      → encode_log crc32c lsn (rs ++ (r ∷ [])) ≡ ok (log ++ frame)
  unfolding encode_log
  encode_log-snoc lsn [] r log frame e e' =
      rw (sym (add-zero lsn), e') (ap ok (append-nil frame) ∙ ap (λ l. ok (l ++ frame)) (ok_inj e))
  encode_log-snoc lsn (x ∷ rs) r log frame e e' =
      let (f, (head, e₁)) = bind_ok (encode_frame crc32c lsn x) _ e in
      let (bs, (tail, e₂)) = bind_ok (encode_log crc32c (lsn + 1) rs) _ e₁ in
      let rest =
        encode_log-snoc (lsn + 1) rs r bs frame tail
          (subst (λ n. encode_frame crc32c n r ≡ ok frame) (omega arith) e') in
      rw (head, rest)
        (ap ok (sym (append_assoc f bs frame)) ∙ ap (λ l. ok (l ++ frame)) (ok_inj e₂))

  pub All-snoc :
      (max : ℕ) (rs : List RecordInput) (r : RecordInput)
      → All (IsLoggable max) rs
      → IsLoggable max r
      → All (IsLoggable max) (rs ++ (r ∷ []))
  All-snoc max [] r h h' = (h', tt)
  All-snoc max (x ∷ rs) r h h' = (h.0, All-snoc max rs r h.1 h')

  pub last_lsn_of-snoc :
      (rs : List RecordInput) (r : RecordInput)
      → some (length rs + 1) ≡ last_lsn_of (length (rs ++ (r ∷ [])))
  last_lsn_of-snoc rs r =
      let long : suc (length rs) ≡ length (rs ++ (r ∷ [])) =
        omega (arith, length-append rs (r ∷ [])) in
      ap some (omega arith) ∙ ap last_lsn_of long

  -- The frame is in the file, not yet counted.
  pub record Stored (w w' : FileWal) (rs : List RecordInput) (r : RecordInput) (frame : List ℕ)
      : Type 0 where
    pub log : encode_log crc32c 1 rs ≡ ok w.file.bytes
    pub loggable : All (IsLoggable w'.config.max_record_bytes) (rs ++ (r ∷ []))
    pub encoded : encode_frame crc32c (length rs + 1) r ≡ ok frame
    pub bytes : w'.file.bytes ≡ w.file.bytes ++ frame
    pub ends : w'.valid_length ≡ length w.file.bytes
    pub frontier : w'.durable_through ≡ w.durable_through
    pub healthy : w'.poisoned ≡ false
    pub same_config : w'.config ≡ w.config
    pub writable : IsLoggable w.config.max_record_bytes r

  -- The same holds of a writer that has its fields but for the counter.
  pub recounted :
      (w w' : FileWal) (rs : List RecordInput) (r : RecordInput) (n : ℕ)
      → Counted w w' rs r
      → Counted w (record w' { unsynced_records = n }) rs r
  recounted w w' rs r n c = record {
    frame = c.frame;
    encoded = c.encoded;
    bytes = c.bytes;
    frontier = c.frontier;
    same_config = c.same_config;
    writable = c.writable;
    holds = record {
      log = c.holds.log;
      loggable = c.holds.loggable;
      ends = c.holds.ends;
      last = c.holds.last;
      healthy = c.holds.healthy;
    };
    newest = c.newest;
  }

  pub count_record-Appended :
      (w w' : FileWal) (rs : List RecordInput) (r : RecordInput) (o : Option ℕ)
      → Counted w w' rs r
      → Appended w rs r (count_record (length rs + 1) w' o)
  unfolding count_record
  count_record-Appended w w' rs r none c =
      broken (record w' { poisoned = true }) _
        (record {
          frame = c.frame;
          written = length c.frame;
          encoded = c.encoded;
          bytes = c.bytes ∙ ap (◌++◌ w.file.bytes) (sym (take_all c.frame));
          frontier = c.frontier;
          same_config = c.same_config;
          writable = c.writable;
          poisoned = refl;
        })
  count_record-Appended w w' rs r (some n) c =
      apply_policy-Appended w (record w' { unsynced_records = n }) rs r (recounted w w' rs r n c)

  pub count_length-Appended :
      (w w' : FileWal) (rs : List RecordInput) (r : RecordInput) (frame : List ℕ) (o : Option ℕ)
      → Stored w w' rs r frame
      → (o ≡ none) ⊎ (o ≡ some (w'.valid_length + length frame))
      → Appended w rs r (count_length (length rs + 1) w' o)
  unfolding count_length
  count_length-Appended w w' rs r frame none s h =
      broken (record w' { poisoned = true }) _
        (record {
          frame = frame;
          written = length frame;
          encoded = s.encoded;
          bytes = s.bytes ∙ ap (◌++◌ w.file.bytes) (sym (take_all frame));
          frontier = s.frontier;
          same_config = s.same_config;
          writable = s.writable;
          poisoned = refl;
        })
  count_length-Appended w w' rs r frame (some end) s h =
      count_record-Appended w (record w' { valid_length = end; last_lsn = some (length rs + 1) }) rs
        r (checked_add u32_mod w'.unsynced_records 1)
        (record {
          frame = frame;
          encoded = s.encoded;
          bytes = s.bytes;
          frontier = s.frontier;
          same_config = s.same_config;
          writable = s.writable;
          holds = record {
            log =
                encode_log-snoc 1 rs r w.file.bytes frame s.log
                  (subst (λ n. encode_frame crc32c n r ≡ ok frame) (omega arith) s.encoded)
                ∙ ap ok (sym s.bytes);
            loggable = s.loggable;
            ends = ground (arith, ap length s.bytes, length-append w.file.bytes frame);
            last = last_lsn_of-snoc rs r;
            healthy = s.healthy;
          };
          newest = refl;
        })
