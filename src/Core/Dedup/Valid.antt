-- ===== src/Core/Dedup/Valid.antt =====
-- The invariant of the table of crates/iron-core/src/dedup.rs, and that evictions keep it.
use iron_consensus.Prelude.{
  ℕ, ◌-◌, ◌≤◌, ◌≡◌, ap, subst, List, Option, none, some, arith, length, All,
}
use iron_consensus.Order.{nat_ord}
use iron_consensus.BTreeMap
use iron_consensus.BTreeMap.Laws.{get-remove, remove-IsSorted, length-remove}
use iron_consensus.Core.Dedup.Types.{DedupKey, Entry, DedupTable, key_ord}
use iron_consensus.Core.Dedup.Bytes.{weight, total, total-remove}
use iron_consensus.Core.Dedup.Queue.{
  queued, NoDup, Increasing, whole, without, queued-without, NoDup-without, All-without,
  Increasing-without, length-without,
}

abbrev pub sequence_of : Option Entry → Option ℕ
sequence_of none = none
sequence_of (some e) = some e.insertion_sequence

-- The entries and the queue tell the same story, and the bounds hold.
pub record IsValid (t : DedupTable) : Type 0 where
  pub sorted : BTreeMap.IsSorted t.entries
  pub distinct : NoDup t.insertion_order
  pub increasing : Increasing t.insertion_order
  pub recent : All (λ x. x.0 ≤ t.last_insertion_sequence) t.insertion_order
  pub linked : (k : DedupKey) → queued k t.insertion_order ≡ sequence_of (BTreeMap.get k t.entries)
  pub counted : length t.insertion_order ≡ length t.entries
  pub bytes : t.retained_outcome_bytes ≡ total t.entries
  pub entry_bound : length t.entries ≤ t.config.max_entries
  pub byte_bound : t.retained_outcome_bytes ≤ t.config.max_total_outcome_bytes

-- Taking out an entry with its place in the queue and its bytes.
module _ (t : DedupTable) (v : IsValid t) (before after : List (ℕ × DedupKey)) (s : ℕ)
    (k : DedupKey) (e : Entry) (split : t.insertion_order ≡ whole before after s k)
    (found : BTreeMap.get k t.entries ≡ some e) where
  abbrev pub dropped : DedupTable
  dropped = record t {
    entries = BTreeMap.remove k t.entries;
    insertion_order = without before after s k;
    retained_outcome_bytes = t.retained_outcome_bytes - weight e.state;
  }

  pub dropped-IsValid : IsValid dropped
  dropped-IsValid =
      let distinct = subst NoDup split v.distinct in
      record {
        sorted = remove-IsSorted k t.entries v.sorted;
        distinct = NoDup-without before after s k distinct;
        increasing = Increasing-without before after s k (subst Increasing split v.increasing);
        recent =
            All-without (λ x. x.0 ≤ t.last_insertion_sequence) before after s k
              (subst (All (λ x. x.0 ≤ t.last_insertion_sequence)) split v.recent);
        linked = λ j. ground (
          arith,
          queued-without before after s k j distinct,
          ap (queued j) split,
          v.linked j,
          get-remove j k t.entries v.sorted,
        );
        counted = omega (
          arith,
          length-without before after s k,
          ap length split,
          v.counted,
          length-remove k e t.entries found,
        );
        bytes = omega (arith, v.bytes, total-remove k e t.entries found);
        entry_bound = omega (arith, v.entry_bound, length-remove k e t.entries found);
        byte_bound = omega (arith, v.byte_bound);
      }
