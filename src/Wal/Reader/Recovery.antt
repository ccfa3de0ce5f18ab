-- ===== src/Wal/Reader/Recovery.antt =====
-- Recovery of a whole log by the scan of crates/iron-wal/src/reader.rs, with and without a torn
-- tail.
pub mod Whole
pub mod Torn
use iron_consensus.Prelude.{
  ℕ, zero, suc, ◌+◌, ◌-◌, ◌≤◌, ◌<◌, ◌≡◌, refl, sym, ap, subst, ◌∙◌, Bool, true, false, not, List,
  [], ◌∷◌, ◌++◌, Option, none, some, Result, ok, err, if◌then◌else◌, ltb, leb, lt→ltb, length,
  length-append, take, drop, u16_mod, u32_mod, u64_mod, arith, All, ◌>>=◌,
}
use mathlib.Core.List.{append-nil, append_assoc}
use native.Mathlib.Nat.{add_assoc, suc-add, zero-add, add-zero}
use iron_consensus.Wal.Types.{
  Operation, WalError, RecordInput, WalRecord, TailRepairReport, ReplayReport, Replay, TailRepair,
}
use iron_consensus.Wal.Io.{File, file_len, seek, set_len, sync_data}
use iron_consensus.Wal.Format.{encode_frame, be_u32, header_fields}
use iron_consensus.Wal.Format.RoundTrip.{IsInput, encode_frame_lem, length-header_bytes}
use iron_consensus.Wal.Reader.{Scan, replay_of, finish_torn_tail, scan_frame, scan_loop, scan}
use iron_consensus.Wal.Reader.Replayed.{
  file_at, next_lsn, advance, header_of, scan_frame_complete, take-length-append,
}

-- A record that the writer accepts under the configured maximum.
pub record IsLoggable (max_record_bytes : ℕ) (r : RecordInput) : Type 0 where
  pub input : IsInput r
  pub fits : length r.payload ≤ max_record_bytes
  pub small : 40 + length r.payload < u32_mod

-- The records of a log, with the LSNs that they got.
abbrev pub numbered : ℕ → List RecordInput → List WalRecord
numbered lsn [] = []
numbered lsn (r ∷ rs) =
    record {
      lsn = lsn;
      record_kind = r.record_kind;
      schema_version = r.schema_version;
      payload = r.payload;
    }
    ∷ numbered (lsn + 1) rs

pub advance_all : Scan → List RecordInput → Scan
advance_all st [] = st
advance_all st (r ∷ rs) = advance_all (advance st r) rs

-- The LSN of the last of so many records.
abbrev pub last_lsn_of : ℕ → Option ℕ
last_lsn_of zero = none
last_lsn_of (suc n) = some (suc n)

scan_loop_round :
    (crc32c : List ℕ → ℕ) (max_record_bytes file_length : ℕ) (policy : TailRepair) (st : Scan)
    (f : File) (fuel : ℕ) {st' : Scan} {f' : File}
    → st.offset < file_length
    → scan_frame crc32c max_record_bytes file_length st f ≡ (f', ok (some st'))
    → scan_loop crc32c (suc fuel) max_record_bytes file_length policy st f
      ≡ scan_loop crc32c fuel max_record_bytes file_length policy st' f'
unfolding scan_loop
scan_loop_round crc32c max file_length policy st f fuel h e = rw (lt→ltb _ _ h, e)

module _ (crc32c : List ℕ → ℕ) where
  -- Consecutive frames, from the given LSN on.
  unfoldable pub encode_log : ℕ → List RecordInput → Result WalError (List ℕ)
  encode_log lsn [] = ok []
  encode_log lsn (r ∷ rs) = do
    frame ← encode_frame crc32c lsn r
    rest ← encode_log (lsn + 1) rs
    ok (frame ++ rest)

module _ (crc32c : List ℕ → ℕ) (crc32c_bound : (bs : List ℕ) → crc32c bs < u32_mod) where
  pub log_bytes : ℕ → List RecordInput → List ℕ
  log_bytes lsn [] = []
  log_bytes lsn (r ∷ rs) =
      header_of crc32c crc32c_bound lsn r ++ (r.payload ++ log_bytes (lsn + 1) rs)

  pub encode_log-log_bytes :
      (max_record_bytes lsn : ℕ) (rs : List RecordInput)
      → All (IsLoggable max_record_bytes) rs
      → encode_log crc32c lsn rs ≡ ok (log_bytes lsn rs)
  unfolding encode_log log_bytes
  encode_log-log_bytes max lsn [] h = refl
  encode_log-log_bytes max lsn (r ∷ rs) h =
      rw (encode_frame_lem crc32c lsn r h.0.small, encode_log-log_bytes max (lsn + 1) rs h.1)
        (simp append_assoc)

  pub length-log_bytes :
      (lsn : ℕ) (r : RecordInput) (rs : List RecordInput)
      → length (log_bytes lsn (r ∷ rs)) ≡ 40 + length r.payload + length (log_bytes (lsn + 1) rs)
  unfolding log_bytes
  length-log_bytes lsn r rs = omega (
    arith,
    length-append (header_of crc32c crc32c_bound lsn r) (r.payload ++ log_bytes (lsn + 1) rs),
    length-append r.payload (log_bytes (lsn + 1) rs),
    length-header_bytes (40 + length r.payload) lsn r (length r.payload) (crc32c r.payload) (
        crc32c (header_fields (40 + length r.payload) lsn r (length r.payload) (crc32c r.payload))),
  )

  module _ (max_record_bytes file_length : ℕ) (policy : TailRepair)
      (sized : file_length < u64_mod) where
    -- One round over a complete frame.
    scan_loop-frame :
        (st : Scan) (r : RecordInput) (pre rest bytes : List ℕ) (p fuel : ℕ)
        → IsLoggable max_record_bytes r
        → next_lsn st.last_valid_lsn < u64_mod
        → st.record_count + 1 < u64_mod
        → st.offset ≡ length pre
        → st.offset + (40 + length r.payload) ≤ file_length
        → bytes
          ≡ pre
            ++ (header_of crc32c crc32c_bound (next_lsn st.last_valid_lsn) r ++ (r.payload ++ rest))
        → p ≡ length pre
        → scan_loop crc32c (suc fuel) max_record_bytes file_length policy st (file_at bytes p)
          ≡ scan_loop crc32c fuel max_record_bytes file_length policy
              (advance st r)
              (file_at bytes (p + (40 + length r.payload)))
    scan_loop-frame st r pre rest bytes p fuel h hl hc at_pre inside e q =
        let one =
          scan_frame_complete crc32c crc32c_bound max_record_bytes file_length st r pre rest h.input
            h.small h.fits hl hc at_pre inside sized in
        rw (e, q) (scan_loop_round crc32c max_record_bytes file_length policy st _ fuel inside' one)
      where
        inside' : st.offset < file_length
        inside' = omega arith

    -- The loop reads frame by frame what was written, whatever follows.
    pub scan_loop-log :
        (rs : List RecordInput) (st : Scan) (pre rest bytes : List ℕ) (p fuel : ℕ)
        → All (IsLoggable max_record_bytes) rs
        → next_lsn st.last_valid_lsn + length rs < u64_mod
        → st.record_count + length rs < u64_mod
        → st.offset ≡ length pre
        → st.offset + length (log_bytes (next_lsn st.last_valid_lsn) rs) ≤ file_length
        → bytes ≡ pre ++ (log_bytes (next_lsn st.last_valid_lsn) rs ++ rest)
        → p ≡ length pre
        → scan_loop crc32c
            (length rs + fuel)
            max_record_bytes
            file_length
            policy
            st
            (file_at bytes p)
          ≡ scan_loop crc32c fuel max_record_bytes file_length policy
              (advance_all st rs)
              (file_at bytes (p + length (log_bytes (next_lsn st.last_valid_lsn) rs)))
    unfolding advance_all log_bytes
    scan_loop-log [] st pre rest bytes p fuel h hl hc at_pre inside e q = rw (zero-add, add-zero)
    scan_loop-log (r ∷ rs) st pre rest bytes p fuel h hl hc at_pre inside e q =
        let lsn = next_lsn st.last_valid_lsn in
        let hdr = header_of crc32c crc32c_bound lsn r in
        let len = length-log_bytes lsn r rs in
        let forty =
          length-header_bytes (40 + length r.payload) lsn r (length r.payload) (crc32c r.payload) (
            crc32c (
              header_fields (40 + length r.payload) lsn r (length r.payload) (crc32c r.payload))) in
        let pre' = pre ++ (hdr ++ r.payload) in
        let long : length pre' ≡ length pre + (40 + length r.payload) =
          omega (arith, length-append pre (hdr ++ r.payload), length-append hdr r.payload, forty) in
        let first =
          scan_loop-frame st r pre (log_bytes (lsn + 1) rs ++ rest) bytes p (length rs + fuel) h.0
            (omega arith) (omega arith) at_pre (omega arith) (e ∙ simp append_assoc) q in
        let others =
          scan_loop-log rs (advance st r) pre' rest bytes (p + (40 + length r.payload)) fuel h.1
            (omega arith) (omega arith) (omega arith) (omega arith) (e ∙ simp append_assoc)
            (omega arith) in
        rw suc-add (
          first
          ∙ others
          ∙ ap
              (λ k.
                scan_loop crc32c fuel max_record_bytes file_length policy
                  (advance_all (advance st r) rs) (file_at bytes k))
              (omega (arith, len)))
