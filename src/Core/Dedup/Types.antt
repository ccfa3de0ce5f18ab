-- ===== src/Core/Dedup/Types.antt =====
-- The data of crates/iron-core/src/dedup.rs. A fingerprint is its 32 bytes, an opaque identifier its
-- 16 bytes; sequence numbers and byte counts are u64.
use iron_consensus.Prelude.{ℕ, ◌≡◌, ◌↔◌, List, Ordering, arith}
use iron_consensus.Order.{
  Ord, opposite, then_cmp, nat_ord, list_ord, cmp_list, cmp_list_iff, cmp_list_flip, cmp_list_trans,
}
use iron_consensus.Core.Id.{NodeId}

pub record DedupKey : Type 0 where
  pub cluster_id : List ℕ
  pub source_node_id : NodeId
  pub message_id : List ℕ

-- The derived order: field by field.
unfoldable pub cmp_key : DedupKey → DedupKey → Ordering
cmp_key a b =
    then_cmp (cmp_list a.cluster_id b.cluster_id)
      (then_cmp (cmp_list a.source_node_id b.source_node_id) (cmp_list a.message_id b.message_id))

pub cmp_key_iff : (a b : DedupKey) → (cmp_key a b ≡ Ordering.eq) ↔ (a ≡ b)
unfolding cmp_key
cmp_key_iff a b = ground (
  arith,
  cmp_list_iff a.cluster_id b.cluster_id,
  cmp_list_iff a.source_node_id b.source_node_id,
  cmp_list_iff a.message_id b.message_id,
)

pub cmp_key_flip : (a b : DedupKey) → cmp_key b a ≡ opposite (cmp_key a b)
unfolding cmp_key
cmp_key_flip a b = ground (
  arith,
  cmp_list_flip a.cluster_id b.cluster_id,
  cmp_list_flip a.source_node_id b.source_node_id,
  cmp_list_flip a.message_id b.message_id,
)

pub cmp_key_trans :
    (a b c : DedupKey)
    → cmp_key a b ≡ Ordering.lt
    → cmp_key b c ≡ Ordering.lt
    → cmp_key a c ≡ Ordering.lt
unfolding cmp_key
cmp_key_trans a b c p q = ground (
  arith,
  cmp_list_iff a.cluster_id b.cluster_id,
  cmp_list_iff b.cluster_id c.cluster_id,
  cmp_list_iff a.cluster_id c.cluster_id,
  cmp_list_trans a.cluster_id b.cluster_id c.cluster_id,
  cmp_list_iff a.source_node_id b.source_node_id,
  cmp_list_iff b.source_node_id c.source_node_id,
  cmp_list_iff a.source_node_id c.source_node_id,
  cmp_list_trans a.source_node_id b.source_node_id c.source_node_id,
  cmp_list_trans a.message_id b.message_id c.message_id,
)

instance unfoldable pub key_ord : Ord DedupKey
key_ord = record {
  cmp = cmp_key;
  cmp_iff = cmp_key_iff;
  cmp_flip = cmp_key_flip;
  cmp_trans = cmp_key_trans;
}

abbrev pub Fingerprint : Type 0
Fingerprint = List ℕ

pub data BeginResult : Type 0 where
  new in_flight conflict full : BeginResult
  replay : List ℕ → BeginResult

pub data CompleteResult : Type 0 where
  completed already_completed not_reserved conflict : CompleteResult

pub data AbortResult : Type 0 where
  aborted already_completed not_reserved conflict : AbortResult

pub data RestoreResult : Type 0 where
  restored already_present in_flight conflict full : RestoreResult

-- The errors of `CoreError` that the table returns; `outcome_too_large` has actual and maximum.
pub data DedupError : Type 0 where
  sequence_exhausted : DedupError
  outcome_too_large : ℕ → ℕ → DedupError

pub data EntryState : Type 0 where
  in_flight : EntryState
  completed : List ℕ → EntryState

pub record Entry : Type 0 where
  pub fingerprint : Fingerprint
  pub insertion_sequence : ℕ
  pub state : EntryState

pub record DedupConfig : Type 0 where
  pub max_entries : ℕ
  pub max_outcome_bytes : ℕ
  pub max_total_outcome_bytes : ℕ

pub record DedupTable : Type 0 where
  pub config : DedupConfig
  pub entries : List (DedupKey × Entry)
  pub insertion_order : List (ℕ × DedupKey)
  pub retained_outcome_bytes : ℕ
  pub last_insertion_sequence : ℕ
