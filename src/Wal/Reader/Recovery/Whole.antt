-- ===== src/Wal/Reader/Recovery/Whole.antt =====
-- The scan of crates/iron-wal/src/reader.rs over a whole log file, to its end or to a torn tail.
use iron_consensus.Prelude.{
  ℕ, zero, suc, ◌+◌, ◌-◌, ◌*◌, ◌≤◌, ◌<◌, ◌≡◌, refl, sym, ap, subst, ◌∙◌, List, [], ◌∷◌, ◌++◌,
  Option, none, some, Result, ok, err, lt→ltb, length, length-append, u32_mod, u64_mod, arith, All,
}
use mathlib.Core.List.{append-nil, append_assoc}
use native.Mathlib.Nat.{zero-add, add-zero}
use iron_consensus.Wal.Types.{WalError, RecordInput, TailRepairReport, Replay, TailRepair}
use iron_consensus.Wal.Io.{File, file_len, seek}
use iron_consensus.Wal.Reader.{Scan, replay_of, finish_torn_tail, scan_frame, scan_loop, scan}
use iron_consensus.Wal.Reader.Replayed.{file_at, next_lsn, advance}
use iron_consensus.Wal.Reader.Recovery.{
  IsLoggable, numbered, advance_all, last_lsn_of, encode_log, log_bytes, encode_log-log_bytes,
  length-log_bytes, scan_loop-log,
}

-- What a replay of the records reports.
abbrev pub replay_log : List RecordInput → ℕ → Option TailRepairReport → Replay
replay_log rs durable repair = record {
  records = numbered 1 rs;
  report = record {
    record_count = length rs;
    last_lsn = last_lsn_of (length rs);
    durable_file_length = durable;
    tail_repair = repair;
  };
}

pub ok_inj : {a b : List ℕ} → ◌≡◌ {A = Result WalError (List ℕ)} (ok a) (ok b) → a ≡ b
ok_inj {a} e = ap (λ r. elim r [ ok x ↦ x | err x ↦ a ]) e

abbrev start : Scan
start = record { offset = 0; last_valid_lsn = none; records = []; record_count = 0 }

-- The scan's variables when the records are read.
abbrev pub after : List RecordInput → ℕ → Scan
after rs offset = record {
  offset = offset;
  last_valid_lsn = last_lsn_of (length rs);
  records = numbered 1 rs;
  record_count = length rs;
}

advance_all-records :
    (st : Scan) (rs : List RecordInput)
    → (advance_all st rs).records ≡ st.records ++ numbered (next_lsn st.last_valid_lsn) rs
unfolding advance_all
advance_all-records st [] = rw append-nil
advance_all-records st (r ∷ rs) = advance_all-records (advance st r) rs ∙ simp append_assoc

advance_all-count :
    (st : Scan) (rs : List RecordInput)
    → (advance_all st rs).record_count ≡ st.record_count + length rs
unfolding advance_all
advance_all-count st [] = omega arith
advance_all-count st (r ∷ rs) = omega (arith, advance_all-count (advance st r) rs)

advance_all-last :
    (m : ℕ) (st : Scan) (rs : List RecordInput)
    → st.last_valid_lsn ≡ last_lsn_of m
    → (advance_all st rs).last_valid_lsn ≡ last_lsn_of (m + length rs)
unfolding advance_all
advance_all-last m st [] e = rw add-zero e
advance_all-last m st (r ∷ rs) e =
    advance_all-last (suc m) (advance st r) rs (next m st.last_valid_lsn e)
    ∙ ap last_lsn_of (omega arith)
  where
    next : (k : ℕ) (l : Option ℕ) → l ≡ last_lsn_of k → some (next_lsn l) ≡ last_lsn_of (suc k)
    next zero l h = rw h
    next (suc k) l h = rw h (ap some (omega arith))

module _ (crc32c : List ℕ → ℕ) (crc32c_bound : (bs : List ℕ) → crc32c bs < u32_mod) where
  abbrev pub frames : List RecordInput → List ℕ
  frames = log_bytes crc32c crc32c_bound 1

  advance_all-offset :
      (st : Scan) (rs : List RecordInput)
      → (advance_all st rs).offset
        ≡ st.offset + length (log_bytes crc32c crc32c_bound (next_lsn st.last_valid_lsn) rs)
  unfolding advance_all log_bytes
  advance_all-offset st [] = omega arith
  advance_all-offset st (r ∷ rs) = omega (
    arith,
    advance_all-offset (advance st r) rs,
    length-log_bytes crc32c crc32c_bound (next_lsn st.last_valid_lsn) r rs,
  )

  pub length-le-log_bytes :
      (lsn : ℕ) (rs : List RecordInput)
      → 40 * length rs ≤ length (log_bytes crc32c crc32c_bound lsn rs)
  unfolding log_bytes
  length-le-log_bytes lsn [] = omega arith
  length-le-log_bytes lsn (r ∷ rs) =
      omega (arith, length-log_bytes crc32c crc32c_bound lsn r rs, length-le-log_bytes (lsn + 1) rs)

  advance_all-start :
      (rs : List RecordInput)
      → advance_all start rs ≡ record {
        offset = length (frames rs);
        last_valid_lsn = last_lsn_of (length rs);
        records = numbered 1 rs;
        record_count = length rs;
      }
  advance_all-start rs = λ i. record {
    offset = (advance_all-offset start rs ∙ zero-add (length (frames rs))) i;
    last_valid_lsn = (advance_all-last 0 start rs refl ∙ ap last_lsn_of (zero-add (length rs))) i;
    records = advance_all-records start rs i;
    record_count = (advance_all-count start rs ∙ zero-add (length rs)) i;
  }

  -- Up to the end of the last frame the scan is the loop over what follows it.
  pub scan-frames :
      (max_record_bytes : ℕ) (policy : TailRepair) (rs : List RecordInput) (tail : List ℕ)
      (position : ℕ)
      → All (IsLoggable max_record_bytes) rs
      → length (frames rs ++ tail) < u64_mod
      → (k : ℕ) × (scan crc32c max_record_bytes policy (file_at (frames rs ++ tail) position)
          ≡ scan_loop crc32c
              (suc k)
              max_record_bytes
              (length (frames rs ++ tail))
              policy
              (record {
                offset = length (frames rs);
                last_valid_lsn = last_lsn_of (length rs);
                records = numbered 1 rs;
                record_count = length rs;
              })
              (file_at (frames rs ++ tail) (length (frames rs))))
  unfolding scan file_len seek
  scan-frames max policy rs tail position h sized =
      let bytes = frames rs ++ tail in
      let long : length bytes ≡ length (frames rs) + length tail = length-append (frames rs) tail in
      let enough = length-le-log_bytes 1 rs in
      let k = length bytes - length rs in
      let fuel : suc (length bytes) ≡ length rs + suc k = omega arith in
      let read =
        scan_loop-log crc32c crc32c_bound max (length bytes) policy sized rs start [] tail bytes 0
          (suc k) h (omega arith) (omega arith) refl (omega arith) refl refl in
      (
        k,
        ap (λ n. scan_loop crc32c n max (length bytes) policy start (file_at bytes 0)) fuel
            ∙ read
            ∙ ap
                (λ n.
                  scan_loop crc32c (suc k) max (length bytes) policy (advance_all start rs)
                    (file_at bytes n))
                (zero-add (length (frames rs)))
            ∙ ap
                (λ st.
                  scan_loop crc32c (suc k) max (length bytes) policy st
                    (file_at bytes (length (frames rs))))
                (advance_all-start rs),
      )

  scan_loop_end :
      (max_record_bytes file_length : ℕ) (policy : TailRepair) (st : Scan) (f : File) (k : ℕ)
      → st.offset ≡ file_length
      → scan_loop crc32c (suc k) max_record_bytes file_length policy st f
        ≡ (f, ok (replay_of st file_length none))
  unfolding scan_loop
  scan_loop_end max file_length policy st f k e = ground arith

  pub scan_loop_torn :
      (max_record_bytes file_length : ℕ) (st : Scan) (f f' : File) (k : ℕ)
      → (policy : TailRepair) → st.offset < file_length
      → scan_frame crc32c max_record_bytes file_length st f ≡ (f', ok none)
      → scan_loop crc32c (suc k) max_record_bytes file_length policy st f
        ≡ finish_torn_tail st file_length policy f'
  unfolding scan_loop
  scan_loop_torn max file_length st f f' k policy h e = rw (lt→ltb _ _ h, e)

  -- A log of frames written one after the other from LSN 1, each within the configured maximum,
  -- whose length is a u64, is read back whole, whatever the repair policy, and stays as it is.
  pub scan_recovers :
      (max_record_bytes : ℕ) (policy : TailRepair) (rs : List RecordInput) (log : List ℕ)
      (position : ℕ)
      → encode_log crc32c 1 rs ≡ ok log
      → All (IsLoggable max_record_bytes) rs
      → length log < u64_mod
      → scan crc32c max_record_bytes policy (file_at log position)
        ≡ (file_at log (length log), ok (replay_log rs (length log) none))
  scan_recovers max policy rs log position e h sized =
      let same : frames rs ≡ log =
        ok_inj (sym (encode_log-log_bytes crc32c crc32c_bound max 1 rs h) ∙ e) in
      let whole : frames rs ++ [] ≡ log = append-nil _ ∙ same in
      let (k, read) =
        scan-frames max policy rs [] position h
          (subst (λ x. length x < u64_mod) (sym whole) sized) in
      let ended =
        read
        ∙ scan_loop_end max (length (frames rs ++ [])) policy (after rs (length (frames rs))) _ k
            (ap length (sym (append-nil _))) in
      subst
        (λ x.
          scan crc32c max policy (file_at x position)
          ≡ (file_at x (length log), ok (replay_log rs (length x) none)))
        whole
        (subst
          (λ n.
            scan crc32c max policy (file_at (frames rs ++ []) position)
            ≡ (file_at (frames rs ++ []) n, ok (replay_log rs (length (frames rs ++ [])) none)))
          (ap length same) ended)
