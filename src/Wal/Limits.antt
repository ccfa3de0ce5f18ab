-- ===== src/Wal/Limits.antt =====
-- What the limit on records of crates/iron-core/src/limits.rs gives crates/iron-wal/src/format.rs.
use iron_consensus.Prelude.{ℕ, ◌≤◌, ◌≡◌, List, ok, length, arith}
use iron_consensus.Core.Limits.{new_bounded, max_record_bytes}
use iron_consensus.Wal.Types.{RecordInput}
use iron_consensus.Wal.Format.{encode_frame}
use iron_consensus.Wal.Format.RoundTrip.{encode_frame_lem}

-- A record within a validated maximum always has a frame.
pub encode_frame_within_limit :
    (crc32c : List ℕ → ℕ) (value maximum lsn : ℕ) (r : RecordInput)
    → new_bounded max_record_bytes value ≡ ok maximum
    → length r.payload ≤ maximum
    → (frame : List ℕ) × (encode_frame crc32c lsn r ≡ ok frame)
unfolding new_bounded
encode_frame_within_limit crc32c value maximum lsn r e fits =
    (_, encode_frame_lem crc32c lsn r (ground arith))
