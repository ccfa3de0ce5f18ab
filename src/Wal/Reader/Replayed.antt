-- ===== src/Wal/Reader/Replayed.antt =====
-- What the scan of crates/iron-wal/src/reader.rs returns on a log that was written frame by frame.
use iron_consensus.Prelude.{
  ℕ, ◌+◌, ◌≤◌, ◌<◌, ◌≡◌, refl, ap, subst, List, [], ◌∷◌, ◌++◌, Option, none, some, ok, length,
  length-append, take, drop, u32_mod, u64_mod, arith,
}
use mathlib.Core.List.{append_assoc}
use native.Mathlib.Nat.{add_assoc}
use iron_consensus.Core.Id.{checked_successor}
use iron_consensus.Wal.Types.{Operation, RecordInput}
use iron_consensus.Wal.Io.{File, read_exact}
use iron_consensus.Wal.Format.{
  header_fields, validate_payload_checksum, validate_lsn, decode_schema_version,
}
use iron_consensus.Wal.Format.RoundTrip.{
  IsInput, header_bytes, decode_header-bytes, length-header_bytes,
}
use iron_consensus.Wal.Reader.{Scan, scan_frame}

pub take-length-append : (m r : List ℕ) → take (length m) (m ++ r) ≡ m
take-length-append [] r = refl
take-length-append (x ∷ m) r = ap (◌∷◌ x) (take-length-append m r)

pub drop-length-append : (p x : List ℕ) → drop (length p) (p ++ x) ≡ x
drop-length-append [] x = refl
drop-length-append (y ∷ p) x = drop-length-append p x

-- A file without pending faults.
abbrev pub file_at : List ℕ → ℕ → File
file_at bytes position = record { bytes = bytes; position = position; faults = [] }

read_exact-mid :
    (op : Operation) (pre mid rest : List ℕ)
    → read_exact op (length mid) (file_at (pre ++ (mid ++ rest)) (length pre))
      ≡ (file_at (pre ++ (mid ++ rest)) (length pre + length mid), ok mid)
unfolding read_exact
read_exact-mid op pre mid rest = ground (
  arith,
  length-append pre (mid ++ rest),
  length-append mid rest,
  drop-length-append pre (mid ++ rest),
  take-length-append mid rest,
)

read_exact-next :
    (op : Operation) (pre hdr mid rest : List ℕ)
    → read_exact op (length mid) (file_at (pre ++ (hdr ++ (mid ++ rest))) (length pre + length hdr))
      ≡ (file_at (pre ++ (hdr ++ (mid ++ rest))) (length pre + (length hdr + length mid)), ok mid)
read_exact-next op pre hdr mid rest =
    simp (append_assoc, length-append, add_assoc) at (read_exact-mid op (pre ++ hdr) mid rest)

-- The LSN that the scan expects after the last valid one.
abbrev pub next_lsn : Option ℕ → ℕ
next_lsn none = 1
next_lsn (some lsn) = lsn + 1

validate_lsn-next :
    (last : Option ℕ) (offset : ℕ)
    → next_lsn last < u64_mod
    → validate_lsn (next_lsn last) last offset ≡ ok (next_lsn last)
unfolding validate_lsn checked_successor
validate_lsn-next none offset h = refl
validate_lsn-next (some lsn) offset h = ground arith

decode_schema_version-nonzero :
    (raw offset : ℕ) (last : Option ℕ) → 0 < raw → decode_schema_version raw offset last ≡ ok raw
unfolding decode_schema_version
decode_schema_version-nonzero raw offset last h = ground arith

-- The scan's variables after one more record.
abbrev pub advance : Scan → RecordInput → Scan
advance st r = record {
  offset = st.offset + (40 + length r.payload);
  last_valid_lsn = some (next_lsn st.last_valid_lsn);
  records =
      st.records
      ++ (record {
        lsn = next_lsn st.last_valid_lsn;
        record_kind = r.record_kind;
        schema_version = r.schema_version;
        payload = r.payload;
      }
          ∷ []);
  record_count = st.record_count + 1;
}

module _ (crc32c : List ℕ → ℕ) (crc32c_bound : (bs : List ℕ) → crc32c bs < u32_mod) where
  -- The header that the writer puts before a record.
  abbrev pub header_of : ℕ → RecordInput → List ℕ
  header_of lsn r =
      let n = length r.payload in
      let pcrc = crc32c r.payload in
      header_bytes (40 + n) lsn r n pcrc (crc32c (header_fields (40 + n) lsn r n pcrc))

  pub scan_frame_complete :
      (max_record_bytes file_length : ℕ) (st : Scan) (r : RecordInput) (pre rest : List ℕ)
      → IsInput r
      → 40 + length r.payload < u32_mod
      → length r.payload ≤ max_record_bytes
      → next_lsn st.last_valid_lsn < u64_mod
      → st.record_count + 1 < u64_mod
      → st.offset ≡ length pre
      → st.offset + (40 + length r.payload) ≤ file_length
      → file_length < u64_mod
      → let bytes = pre ++ (header_of (next_lsn st.last_valid_lsn) r ++ (r.payload ++ rest)) in
        scan_frame crc32c max_record_bytes file_length st (file_at bytes (length pre))
        ≡ (file_at bytes (length pre + (40 + length r.payload)), ok (some (advance st r)))
  unfolding scan_frame validate_payload_checksum
  scan_frame_complete max file_length st r pre rest i small fits hl hc at_pre inside hf =
      let lsn = next_lsn st.last_valid_lsn in
      let n = length r.payload in
      let hdr = header_of lsn r in
      let read_header = read_exact-mid Operation.reading_header pre hdr (r.payload ++ rest) in
      let read_payload = read_exact-next Operation.reading_payload pre hdr r.payload rest in
      let forty : length hdr ≡ 40 = length-header_bytes _ _ _ _ _ _ in
      ground (
        arith,
        subst
            (λ k.
              read_exact Operation.reading_header k
                (file_at (pre ++ (hdr ++ (r.payload ++ rest))) (length pre))
              ≡ (file_at (pre ++ (hdr ++ (r.payload ++ rest))) (length pre + k), ok hdr))
            forty read_header,
        subst
            (λ k.
              read_exact Operation.reading_payload n
                (file_at (pre ++ (hdr ++ (r.payload ++ rest))) (length pre + k))
              ≡ (
                file_at (pre ++ (hdr ++ (r.payload ++ rest))) (length pre + (k + n)),
                ok r.payload,
              ))
            forty read_payload,
        decode_header-bytes crc32c crc32c_bound lsn r n (crc32c r.payload) st.offset
            st.last_valid_lsn i hl small (crc32c_bound r.payload),
        validate_lsn-next st.last_valid_lsn st.offset hl,
        decode_schema_version-nonzero r.schema_version st.offset st.last_valid_lsn
            i.version_nonzero,
      )

  -- A frame that is cut off within its payload.
  pub scan_frame-cut :
      (max_record_bytes file_length : ℕ) (st : Scan) (r : RecordInput) (pre part : List ℕ)
      → IsInput r
      → 40 + length r.payload < u32_mod
      → length r.payload ≤ max_record_bytes
      → next_lsn st.last_valid_lsn < u64_mod
      → st.offset ≡ length pre
      → file_length ≡ st.offset + 40 + length part
      → length part < length r.payload
      → st.offset + (40 + length r.payload) < u64_mod
      → let bytes = pre ++ (header_of (next_lsn st.last_valid_lsn) r ++ part) in
        scan_frame crc32c max_record_bytes file_length st (file_at bytes (length pre))
        ≡ (file_at bytes (length pre + 40), ok none)
  unfolding scan_frame
  scan_frame-cut max file_length st r pre part i small fits hl at_pre ends short hf =
      let lsn = next_lsn st.last_valid_lsn in
      let n = length r.payload in
      let hdr = header_of lsn r in
      let read_header = read_exact-mid Operation.reading_header pre hdr part in
      let forty : length hdr ≡ 40 = length-header_bytes _ _ _ _ _ _ in
      ground (
        arith,
        subst
            (λ k.
              read_exact Operation.reading_header k (file_at (pre ++ (hdr ++ part)) (length pre))
              ≡ (file_at (pre ++ (hdr ++ part)) (length pre + k), ok hdr))
            forty read_header,
        decode_header-bytes crc32c crc32c_bound lsn r n (crc32c r.payload) st.offset
            st.last_valid_lsn i hl small (crc32c_bound r.payload),
      )
