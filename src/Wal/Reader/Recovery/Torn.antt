-- ===== src/Wal/Reader/Recovery/Torn.antt =====
-- The scan of crates/iron-wal/src/reader.rs over a log whose last frame is cut off.
use iron_consensus.Prelude.{
  ℕ, zero, suc, ◌+◌, ◌-◌, ◌≤◌, ◌<◌, ◌≡◌, refl, sym, ap, ap₂, subst, ◌∙◌, List, [], ◌∷◌, ◌++◌, none,
  some, ok, err, Bool-cases, inl, inr, ltb, length, length-append, length-take, take, u32_mod,
  u64_mod, arith, All,
}
use native.Mathlib.Nat.{suc-add, zero-add}
use mathlib.Core.List.{append_assoc}
use iron_consensus.Wal.Types.{WalError, RecordInput, TailRepairReport, TailRepair}
use iron_consensus.Wal.Io.{set_len, sync_data}
use iron_consensus.Wal.Format.{encode_frame}
use iron_consensus.Wal.Format.RoundTrip.{encode_frame_lem, length-header_bytes}
use iron_consensus.Wal.Reader.{finish_torn_tail, scan_frame, scan}
use iron_consensus.Wal.Reader.Replayed.{
  file_at, next_lsn, header_of, scan_frame-cut, take-length-append,
}
use iron_consensus.Wal.Reader.Recovery.{IsLoggable, last_lsn_of, encode_log, encode_log-log_bytes}
use iron_consensus.Wal.Reader.Recovery.Whole.{
  ok_inj, replay_log, after, frames, length-le-log_bytes, scan-frames, scan_loop_torn,
}

take-append_past : (a b : List ℕ) (n : ℕ) → take (length a + n) (a ++ b) ≡ a ++ take n b
take-append_past [] b n = rw zero-add
take-append_past (x ∷ a) b n = rw (suc-add (length a) n) (ap (◌∷◌ x) (take-append_past a b n))

next_lsn-last_lsn_of : (m : ℕ) → next_lsn (last_lsn_of m) ≡ m + 1
next_lsn-last_lsn_of zero = refl
next_lsn-last_lsn_of (suc m) = refl

module _ (crc32c : List ℕ → ℕ) (crc32c_bound : (bs : List ℕ) → crc32c bs < u32_mod) where
  scan_stops :
      (max_record_bytes : ℕ) (policy : TailRepair) (rs : List RecordInput) (tail : List ℕ)
      (position p : ℕ)
      → All (IsLoggable max_record_bytes) rs
      → let log = frames crc32c crc32c_bound rs in
        length (log ++ tail) < u64_mod
        → 0 < length tail
        → scan_frame crc32c max_record_bytes
            (length (log ++ tail))
            (after rs (length log))
            (file_at (log ++ tail) (length log))
          ≡ (file_at (log ++ tail) p, ok none)
        → scan crc32c max_record_bytes policy (file_at (log ++ tail) position)
          ≡ finish_torn_tail
              (after rs (length log))
              (length (log ++ tail))
              policy
              (file_at (log ++ tail) p)
  scan_stops max policy rs tail position p h sized some_left stop =
      let log = frames crc32c crc32c_bound rs in
      let (k, read) = scan-frames crc32c crc32c_bound max policy rs tail position h sized in
      read
      ∙ scan_loop_torn crc32c crc32c_bound max (length (log ++ tail)) (after rs (length log)) _ _ k
          policy (omega (arith, length-append log tail)) stop

  -- A proper part of a frame does not count as one.
  scan_frame-part :
      (max_record_bytes : ℕ) (rs : List RecordInput) (r : RecordInput) (log : List ℕ) (n : ℕ)
      → IsLoggable max_record_bytes r
      → let frame =
          header_of crc32c crc32c_bound (next_lsn (last_lsn_of (length rs))) r ++ r.payload in
        n < length frame
        → length (log ++ frame) < u64_mod
        → length rs + 1 < u64_mod
        → (p : ℕ) × (scan_frame crc32c max_record_bytes
              (length (log ++ take n frame))
              (after rs (length log))
              (file_at (log ++ take n frame) (length log))
            ≡ (file_at (log ++ take n frame) p, ok none))
  unfolding scan_frame
  scan_frame-part max rs r log n h short sized few =
      let lsn = next_lsn (last_lsn_of (length rs)) in
      let hdr = header_of crc32c crc32c_bound lsn r in
      let forty : length hdr ≡ 40 = length-header_bytes _ _ _ _ _ _ in
      let long = length-append hdr r.payload in
      let all = length-append log (hdr ++ r.payload) in
      let cut_off = length-append log (take n (hdr ++ r.payload)) in
      let taken = length-take n (hdr ++ r.payload) in
      elim (Bool-cases (ltb n 40)) [
        | inl early ↦ (length log, ground (arith, cut_off, taken))
        | inr late ↦
            let behind : 40 ≤ n = ground arith in
            let part = take (n - 40) r.payload in
            let split : take n (hdr ++ r.payload) ≡ hdr ++ part =
              ap (λ m. take m (hdr ++ r.payload)) (omega arith)
              ∙ take-append_past hdr r.payload (n - 40) in
            (
              length log + 40,
              subst
                  (λ t.
                    scan_frame crc32c max (length (log ++ t)) (after rs (length log))
                      (file_at (log ++ t) (length log))
                    ≡ (file_at (log ++ t) (length log + 40), ok none))
                  (sym split)
                  (scan_frame-cut crc32c crc32c_bound max (length (log ++ (hdr ++ part)))
                    (after rs (length log)) r log part h.input h.small h.fits
                    (omega (arith, next_lsn-last_lsn_of (length rs))) refl
                    (omega (arith, length-append log (hdr ++ part), length-append hdr part))
                    (omega (arith, length-take (n - 40) r.payload)) (omega arith)),
            )
      ]

  -- What is left of a log when the write of its last frame is cut off after `n` bytes.
  scan_cut :
      (max_record_bytes : ℕ) (rs : List RecordInput) (r : RecordInput) (log frame : List ℕ)
      (n position : ℕ)
      → encode_log crc32c 1 rs ≡ ok log
      → encode_frame crc32c (length rs + 1) r ≡ ok frame
      → All (IsLoggable max_record_bytes) rs
      → IsLoggable max_record_bytes r
      → 0 < n
      → n < length frame
      → length (log ++ frame) < u64_mod
      → (p : ℕ) × ((policy : TailRepair)
          → scan crc32c max_record_bytes policy (file_at (log ++ take n frame) position)
            ≡ finish_torn_tail
                (after rs (length log))
                (length log + n)
                policy
                (file_at (log ++ take n frame) p))
  scan_cut max rs r log frame n position e e' h h' some_written not_all sized =
      let lsn = next_lsn-last_lsn_of (length rs) in
      let w = header_of crc32c crc32c_bound (next_lsn (last_lsn_of (length rs))) r ++ r.payload in
      let l = frames crc32c crc32c_bound rs in
      let same : l ≡ log = ok_inj (sym (encode_log-log_bytes crc32c crc32c_bound max 1 rs h) ∙ e) in
      let same' : w ≡ frame = ok_inj (
        (simp append_assoc)
        ∙ sym (encode_frame_lem crc32c (next_lsn (last_lsn_of (length rs))) r h'.small)
        ∙ ap (λ k. encode_frame crc32c k r) lsn
        ∙ e') in
      let all = length-append log frame in
      let all' = length-append l w in
      let taken : length (l ++ take n w) ≡ length l + n =
        omega (arith, length-append l (take n w), length-take n w, ap length same') in
      let part =
        scan_frame-part max rs r l n h' (omega (arith, ap length same'))
          (omega (arith, ap length same, ap length same'))
          (omega (arith, ap length same, length-le-log_bytes crc32c crc32c_bound 1 rs)) in
      let stopped = λ (policy : TailRepair).
        scan_stops max policy rs (take n w) position part.0 h
          (omega (arith, ap length same, ap length same'))
          (omega (arith, length-take n w, ap length same')) part.1 in
      (
        part.0,
        λ policy.
            subst
              (λ f.
                scan crc32c max policy (file_at (log ++ take n f) position)
                ≡ finish_torn_tail (after rs (length log)) (length log + n) policy
                    (file_at (log ++ take n f) part.0))
              same'
              (subst
                (λ x.
                  scan crc32c max policy (file_at (x ++ take n w) position)
                  ≡ finish_torn_tail (after rs (length x)) (length x + n) policy
                      (file_at (x ++ take n w) part.0))
                same
                (subst
                  (λ k.
                    scan crc32c max policy (file_at (l ++ take n w) position)
                    ≡ finish_torn_tail (after rs (length l)) k policy
                        (file_at (l ++ take n w) part.0))
                  taken (stopped policy))),
      )

  -- When the write of a frame was cut off anywhere, the scan with truncation returns the records
  -- before it and cuts the file back to them, and the scan without it changes no byte and fails
  -- with the offset where the torn frame begins.
  pub scan_repairs_tail :
      (max_record_bytes : ℕ) (rs : List RecordInput) (r : RecordInput) (log frame : List ℕ)
      (n position : ℕ)
      → encode_log crc32c 1 rs ≡ ok log
      → encode_frame crc32c (length rs + 1) r ≡ ok frame
      → All (IsLoggable max_record_bytes) rs
      → IsLoggable max_record_bytes r
      → 0 < n
      → n < length frame
      → length (log ++ frame) < u64_mod
      → let torn = file_at (log ++ take n frame) position in
        let repair : TailRepairReport = record {
          offset = length log;
          bytes_removed = n;
          last_valid_lsn = last_lsn_of (length rs);
        } in
        (p : ℕ) × ((scan crc32c max_record_bytes TailRepair.truncate torn
            ≡ (file_at log p, ok (replay_log rs (length log) (some repair))))
          × (scan crc32c max_record_bytes TailRepair.reject torn ≡ (
            file_at (log ++ take n frame) p,
            err (WalError.torn_tail (length log) (length log + n) (last_lsn_of (length rs))),
          )))
  unfolding finish_torn_tail set_len sync_data
  scan_repairs_tail max rs r log frame n position e e' h h' some_written not_all sized =
      let (p, stopped) =
        scan_cut max rs r log frame n position e e' h h' some_written not_all sized in
      (
        p,
        (
          (stopped TailRepair.truncate
              ∙ ap₂
                  (λ x k. (
                    file_at x p,
                    ok (
                        replay_log rs (length log) (
                          some (record {
                            offset = length log;
                            bytes_removed = k;
                            last_valid_lsn = last_lsn_of (length rs);
                          }))),
                  ))
                  (take-length-append log (take n frame)) (omega arith)),
          stopped TailRepair.reject,
        ),
      )
