-- ===== src/Wal/Format.antt =====
-- crates/iron-wal/src/format.rs: the v1 frame. The crc32c crate is a parameter: a function of the
-- bytes, a u32 at every input.
pub mod RoundTrip
use iron_consensus.Prelude.{
  ℕ, ◌+◌, ◌-◌, ◌*◌, ◌/◌, ◌%◌, ◌<◌, ◌≡◌, refl, Bool, true, false, ◌&&◌, ◌||◌, not, List, [], ◌∷◌,
  ◌++◌, Option, none, some, Result, ok, err, if◌then◌else◌, ltb, leb, ◌==◌, length, take, drop,
  checked_add, u32_mod, u64_mod,
}
use iron_consensus.Core.Id.{byte_at, checked_successor, lsn_first, nonzero_new}
use iron_consensus.Wal.Types.{
  CorruptionKind, UnsupportedField, WalError, RecordInput, DecodedHeader,
}

abbrev pub magic : List ℕ
magic = b'I' ∷ b'C' ∷ b'W' ∷ b'L' ∷ []

abbrev pub format_version : ℕ
format_version = 1

abbrev pub header_len : ℕ
header_len = 40

abbrev pub flags_v1 : ℕ
flags_v1 = 0

-- `to_be_bytes` of u16, u32 and u64.
abbrev pub be_u16 : ℕ → List ℕ
be_u16 n = (n / 256 % 256) ∷ (n % 256) ∷ []

abbrev pub be_u32 : ℕ → List ℕ
be_u32 n = (n / 16777216 % 256) ∷ (n / 65536 % 256) ∷ (n / 256 % 256) ∷ (n % 256) ∷ []

abbrev pub be_u64 : ℕ → List ℕ
be_u64 n = be_u32 (n / 4294967296) ++ be_u32 (n % 4294967296)

-- `read_u16`, `read_u32` and `read_u64` at an offset of the header.
unfoldable pub read_u16 : List ℕ → ℕ → ℕ
unfolding byte_at
read_u16 bytes offset = byte_at bytes offset * 256 + byte_at bytes (offset + 1)

unfoldable pub read_u32 : List ℕ → ℕ → ℕ
unfolding read_u16
read_u32 bytes offset = read_u16 bytes offset * 65536 + read_u16 bytes (offset + 2)

unfoldable pub read_u64 : List ℕ → ℕ → ℕ
unfolding read_u32
read_u64 bytes offset = read_u32 bytes offset * 4294967296 + read_u32 bytes (offset + 4)

-- `==` on byte slices.
unfoldable pub bytes_eq : List ℕ → List ℕ → Bool
bytes_eq [] [] = true
bytes_eq [] (y ∷ ys) = false
bytes_eq (x ∷ xs) [] = false
bytes_eq (x ∷ xs) (y ∷ ys) = x == y && bytes_eq xs ys

-- Bytes 0 to 35 of a header.
unfoldable pub header_fields : ℕ → ℕ → RecordInput → ℕ → ℕ → List ℕ
header_fields total lsn record' payload_len payload_crc =
    magic
    ++ (be_u16 format_version
        ++ (be_u16 header_len
            ++ (be_u32 total
                ++ (be_u32 flags_v1
                    ++ (be_u64 lsn
                        ++ (be_u16 record'.record_kind
                            ++ (be_u16 record'.schema_version
                                ++ (be_u32 payload_len ++ be_u32 payload_crc))))))))

unfoldable pub validate_lsn : ℕ → Option ℕ → ℕ → Result WalError ℕ
validate_lsn actual last_valid_lsn offset =
    let expected : Result WalError ℕ = elim last_valid_lsn [
      | some previous ↦ elim (checked_successor previous) [
        | some next ↦ ok next
        | none ↦ err WalError.lsn_exhausted
      ]
      | none ↦ ok lsn_first
    ] in
    elim expected [
      | ok lsn ↦
          if actual == lsn
          then ok lsn
          else err
              (WalError.corruption offset last_valid_lsn (CorruptionKind.lsn_sequence lsn actual))
      | err e ↦ err e
    ]

unfoldable pub decode_schema_version : ℕ → ℕ → Option ℕ → Result WalError ℕ
unfolding nonzero_new
decode_schema_version raw offset last_valid_lsn = elim (nonzero_new raw) [
  | some version ↦ ok version
  | none ↦ err (WalError.corruption offset last_valid_lsn CorruptionKind.zero_record_metadata)
]

module _ (crc32c : List ℕ → ℕ) where
  unfoldable pub encode_frame : ℕ → RecordInput → Result WalError (List ℕ)
  unfolding header_fields
  encode_frame lsn record' =
      let n = length record'.payload in
      if leb u32_mod n
      then err (WalError.record_too_large n (u32_mod - 1 - header_len))
      else elim (checked_add u32_mod header_len n) [
        | none ↦ err (WalError.record_too_large n (u32_mod - 1 - header_len))
        | some total ↦
            let fields = header_fields total lsn record' n (crc32c record'.payload) in
            ok (fields ++ (be_u32 (crc32c fields) ++ record'.payload))
      ]

  -- The checks behind the header checksum.
  unfoldable pub decode_fields : List ℕ → ℕ → Option ℕ → Result WalError DecodedHeader
  unfolding read_u64
  decode_fields header offset last_valid_lsn =
      let fail : CorruptionKind → Result WalError DecodedHeader =
        λ kind. err (WalError.corruption offset last_valid_lsn kind) in
      let total = read_u32 header 8 in
      let payload_len = read_u32 header 28 in
      let kind = read_u16 header 24 in
      let schema = read_u16 header 26 in
      if not (read_u16 header 4 == format_version)
      then err
          (WalError.unsupported_format offset UnsupportedField.format_version (read_u16 header 4))
      else if not (read_u16 header 6 == header_len)
      then err
          (WalError.unsupported_format offset UnsupportedField.header_length (read_u16 header 6))
      else if not (read_u32 header 12 == flags_v1)
      then err (WalError.unsupported_format offset UnsupportedField.flags (read_u32 header 12))
      else elim (checked_add u32_mod header_len payload_len) [
        | none ↦ fail CorruptionKind.length_mismatch
        | some expected ↦
            if not (total == expected)
            then fail CorruptionKind.length_mismatch
            else if kind == 0 || schema == 0
            then fail CorruptionKind.zero_record_metadata
            else ok (record {
              total_frame_len = total;
              lsn_raw = read_u64 header 16;
              record_kind = kind;
              schema_version_raw = schema;
              payload_len = payload_len;
              payload_crc32c = read_u32 header 32;
            })
      ]

  unfoldable pub decode_header : List ℕ → ℕ → Option ℕ → Result WalError DecodedHeader
  unfolding decode_fields bytes_eq
  decode_header header offset last_valid_lsn =
      if not (bytes_eq (take 4 header) magic)
      then err (WalError.corruption offset last_valid_lsn CorruptionKind.bad_magic)
      else if not (read_u32 header 36 == crc32c (take 36 header))
      then err (WalError.corruption offset last_valid_lsn CorruptionKind.header_checksum)
      else decode_fields header offset last_valid_lsn

  unfoldable pub validate_payload_checksum : List ℕ → ℕ → ℕ → Option ℕ → Result WalError (Unit {0})
  validate_payload_checksum payload expected offset last_valid_lsn =
      if not (crc32c payload == expected)
      then err (WalError.corruption offset last_valid_lsn CorruptionKind.payload_checksum)
      else ok tt
