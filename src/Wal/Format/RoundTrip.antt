-- ===== src/Wal/Format/RoundTrip.antt =====
-- What `encode_frame` of crates/iron-wal/src/format.rs writes, `decode_header` reads back.
use iron_consensus.Prelude.{
  ℕ, ◌+◌, ◌*◌, ◌/◌, ◌%◌, ◌<◌, ◌≡◌, refl, true, List, ◌++◌, Option, ok, length, take, u16_mod,
  u32_mod, u64_mod, arith,
}
use iron_consensus.Wal.Types.{RecordInput}
use iron_consensus.Wal.Format.{
  magic, be_u32, read_u16, read_u32, read_u64, bytes_eq, header_fields, encode_frame, decode_header,
}

pub u16_value : (n : ℕ) → n < u16_mod → n / 256 % 256 * 256 + n % 256 ≡ n
u16_value n h = omega arith

pub u32_value :
    (n : ℕ)
    → n < u32_mod
    → (n / 16777216 % 256 * 256 + n / 65536 % 256) * 65536 + (n / 256 % 256 * 256 + n % 256) ≡ n
u32_value n h = omega arith

u64_value : (n : ℕ) → n < u64_mod → n / 4294967296 * 4294967296 + n % 4294967296 ≡ n
u64_value n h = omega arith

high_half : (n : ℕ) → n < u64_mod → n / 4294967296 < u32_mod
high_half n h = omega arith

low_half : (n : ℕ) → n % 4294967296 < u32_mod
low_half n = omega arith

abbrev pub header_bytes : ℕ → ℕ → RecordInput → ℕ → ℕ → ℕ → List ℕ
header_bytes total lsn r n pcrc hcrc = header_fields total lsn r n pcrc ++ be_u32 hcrc

-- A record input whose kind and version are nonzero u16 values.
pub record IsInput (r : RecordInput) : Type 0 where
  pub kind_nonzero : 0 < r.record_kind
  pub kind_bound : r.record_kind < u16_mod
  pub version_nonzero : 0 < r.schema_version
  pub version_bound : r.schema_version < u16_mod

module _ (total lsn : ℕ) (r : RecordInput) (n pcrc hcrc : ℕ) where
  abbrev bytes : List ℕ
  bytes = header_bytes total lsn r n pcrc hcrc

  reads_version : read_u16 bytes 4 ≡ 1
  unfolding header_fields read_u16
  reads_version = refl

  reads_header_len : read_u16 bytes 6 ≡ 40
  unfolding header_fields read_u16
  reads_header_len = refl

  reads_flags : read_u32 bytes 12 ≡ 0
  unfolding header_fields read_u32
  reads_flags = refl

  reads_total : total < u32_mod → read_u32 bytes 8 ≡ total
  unfolding header_fields read_u32
  reads_total h = u32_value total h

  reads_payload_len : n < u32_mod → read_u32 bytes 28 ≡ n
  unfolding header_fields read_u32
  reads_payload_len h = u32_value n h

  reads_payload_crc : pcrc < u32_mod → read_u32 bytes 32 ≡ pcrc
  unfolding header_fields read_u32
  reads_payload_crc h = u32_value pcrc h

  reads_header_crc : hcrc < u32_mod → read_u32 bytes 36 ≡ hcrc
  unfolding header_fields read_u32
  reads_header_crc h = u32_value hcrc h

  reads_kind : r.record_kind < u16_mod → read_u16 bytes 24 ≡ r.record_kind
  unfolding header_fields read_u16
  reads_kind h = u16_value r.record_kind h

  reads_schema : r.schema_version < u16_mod → read_u16 bytes 26 ≡ r.schema_version
  unfolding header_fields read_u16
  reads_schema h = u16_value r.schema_version h

  reads_lsn_high : lsn < u64_mod → read_u32 bytes 16 ≡ lsn / 4294967296
  unfolding header_fields read_u32
  reads_lsn_high h = u32_value (lsn / 4294967296) (high_half lsn h)

  reads_lsn_low : read_u32 bytes 20 ≡ lsn % 4294967296
  unfolding header_fields read_u32
  reads_lsn_low = u32_value (lsn % 4294967296) (low_half lsn)

  reads_lsn : lsn < u64_mod → read_u64 bytes 16 ≡ lsn
  unfolding read_u64
  reads_lsn h = rw (reads_lsn_high h, reads_lsn_low) (u64_value lsn h)

  takes_magic : bytes_eq (take 4 bytes) magic ≡ true
  unfolding header_fields bytes_eq
  takes_magic = refl

  pub takes_fields : take 36 bytes ≡ header_fields total lsn r n pcrc
  unfolding header_fields
  takes_fields = refl

module _ (crc32c : List ℕ → ℕ) (crc32c_bound : (bs : List ℕ) → crc32c bs < u32_mod) where
  pub decode_header-bytes :
      (lsn : ℕ) (r : RecordInput) (n pcrc offset : ℕ) (last : Option ℕ)
      → IsInput r
      → lsn < u64_mod
      → 40 + n < u32_mod
      → pcrc < u32_mod
      → decode_header crc32c
          (header_bytes (40 + n) lsn r n pcrc (crc32c (header_fields (40 + n) lsn r n pcrc)))
          offset
          last
        ≡ ok (record {
          total_frame_len = 40 + n;
          lsn_raw = lsn;
          record_kind = r.record_kind;
          schema_version_raw = r.schema_version;
          payload_len = n;
          payload_crc32c = pcrc;
        })
  unfolding decode_header
  decode_header-bytes lsn r n pcrc offset last i hl hn hp =
      let hc = crc32c (header_fields (40 + n) lsn r n pcrc) in
      ground (
        arith,
        takes_magic (40 + n) lsn r n pcrc hc,
        takes_fields (40 + n) lsn r n pcrc hc,
        reads_header_crc (40 + n) lsn r n pcrc hc (crc32c_bound _),
        reads_version (40 + n) lsn r n pcrc hc,
        reads_header_len (40 + n) lsn r n pcrc hc,
        reads_flags (40 + n) lsn r n pcrc hc,
        reads_total (40 + n) lsn r n pcrc hc,
        reads_payload_len (40 + n) lsn r n pcrc hc,
        reads_payload_crc (40 + n) lsn r n pcrc hc,
        reads_kind (40 + n) lsn r n pcrc hc,
        reads_schema (40 + n) lsn r n pcrc hc,
        reads_lsn (40 + n) lsn r n pcrc hc,
      )

pub length-header_bytes :
    (total lsn : ℕ) (r : RecordInput) (n pcrc hcrc : ℕ)
    → length (header_bytes total lsn r n pcrc hcrc) ≡ 40
unfolding header_fields
length-header_bytes total lsn r n pcrc hcrc = refl

-- The frame of a record whose length fits a u32: forty header bytes, then the payload.
pub encode_frame_lem :
    (crc32c : List ℕ → ℕ) (lsn : ℕ) (r : RecordInput)
    → 40 + length r.payload < u32_mod
    → let fields =
        header_fields (40 + length r.payload) lsn r (length r.payload) (crc32c r.payload) in
      encode_frame crc32c lsn r ≡ ok (fields ++ (be_u32 (crc32c fields) ++ r.payload))
unfolding encode_frame
encode_frame_lem crc32c lsn r h = ground arith
