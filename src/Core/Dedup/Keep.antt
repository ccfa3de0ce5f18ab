-- ===== src/Core/Dedup/Keep.antt =====
-- What a call on one key of crates/iron-core/src/dedup.rs may do to the table: the invariant and the
-- reservations under every other key stay.
use iron_consensus.Prelude.{
  ℕ, ◌+◌, ◌≤◌, ◌<◌, ◌≡◌, ◌≢◌, refl, ap, subst, ◌∙◌, true, List, [], ◌∷◌, ◌++◌, Option, none, some,
  arith, length, length-append, All-imp, inl,
}
use iron_consensus.Order.{is_eq_iff, nat_ord}
use iron_consensus.BTreeMap
use iron_consensus.BTreeMap.Laws.{
  get-insert, get-remove, insert-IsSorted, length-insert_absent, length-insert_present,
}
use iron_consensus.Core.Dedup.Types.{DedupKey, Fingerprint, Entry, EntryState, DedupTable, key_ord}
use iron_consensus.Core.Dedup.{total_fits, remove_queued}
use iron_consensus.Core.Dedup.Bytes.{weight, total, total-insert_absent, total-insert_present}
use iron_consensus.Core.Dedup.Queue.{
  queued, queued-snoc, NoDup-snoc, Increasing-snoc, All-snoc, remove_queued-without,
}
use iron_consensus.Core.Dedup.Valid.{IsValid, sequence_of, dropped-IsValid}
use iron_consensus.Core.Dedup.Evict.{Shrinks}

pub record Keeps (key : DedupKey) (t t' : DedupTable) : Type 0 where
  pub valid : IsValid t'
  pub same_config : t'.config ≡ t.config
  pub others :
      (j : DedupKey) (e : Entry)
      → j ≢ key
      → BTreeMap.get j t.entries ≡ some e
      → e.state ≡ EntryState.in_flight
      → BTreeMap.get j t'.entries ≡ some e

pub Keeps-refl : (key : DedupKey) (t : DedupTable) → IsValid t → Keeps key t t
Keeps-refl key t v = record { valid = v; same_config = refl; others = λ j e n g s. g }

pub Keeps-trans :
    (key : DedupKey) (t u w : DedupTable) → Keeps key t u → Keeps key u w → Keeps key t w
Keeps-trans key t u w a b = record {
  valid = b.valid;
  same_config = b.same_config ∙ a.same_config;
  others = λ j e n g s. b.others j e n (a.others j e n g s) s;
}

pub Shrinks-Keeps :
    (x : Option DedupKey) (key : DedupKey) (t u : DedupTable) → Shrinks x t u → Keeps key t u
Shrinks-Keeps x key t u s = record {
  valid = s.valid;
  same_config = s.same_config;
  others = λ j e n g f. s.keeps j e g (inl f);
}

-- A reservation in a table with room.
module _ (key : DedupKey) (fingerprint : Fingerprint) (t : DedupTable) (v : IsValid t)
    (absent : BTreeMap.get key t.entries ≡ none)
    (room : length t.entries < t.config.max_entries) where
  abbrev pub fresh : Entry
  fresh = record {
    fingerprint = fingerprint;
    insertion_sequence = t.last_insertion_sequence + 1;
    state = EntryState.in_flight;
  }

  abbrev pub reserved : DedupTable
  reserved = record t {
    entries = BTreeMap.insert key fresh t.entries;
    insertion_order = t.insertion_order ++ ((t.last_insertion_sequence + 1, key) ∷ []);
    last_insertion_sequence = t.last_insertion_sequence + 1;
  }

  unqueued : queued key t.insertion_order ≡ none
  unqueued = ground (arith, v.linked key)

  reserved-linked :
      (k : DedupKey)
      → queued k reserved.insertion_order ≡ sequence_of (BTreeMap.get k reserved.entries)
  reserved-linked k = ground (
    arith,
    queued-snoc t.insertion_order (t.last_insertion_sequence + 1) key k unqueued,
    v.linked k,
    get-insert k key fresh t.entries,
  )

  pub reserved-IsValid : IsValid reserved
  reserved-IsValid = record {
    sorted = insert-IsSorted key fresh t.entries v.sorted;
    distinct = NoDup-snoc t.insertion_order (t.last_insertion_sequence + 1) key unqueued v.distinct;
    increasing =
        Increasing-snoc t.insertion_order (t.last_insertion_sequence + 1) key v.increasing
          (All-imp (λ x h. omega arith) t.insertion_order v.recent);
    recent =
        All-snoc (λ x. x.0 ≤ t.last_insertion_sequence + 1) t.insertion_order
          (t.last_insertion_sequence + 1) key
          (All-imp (λ x h. omega arith) t.insertion_order v.recent) (omega arith);
    linked = reserved-linked;
    counted = omega (
      arith,
      length-append t.insertion_order ((t.last_insertion_sequence + 1, key) ∷ []),
      length-insert_absent key fresh t.entries absent,
      v.counted,
    );
    bytes = omega (arith, v.bytes, total-insert_absent key fresh t.entries absent);
    entry_bound = omega (arith, length-insert_absent key fresh t.entries absent, room);
    byte_bound = v.byte_bound;
  }

  pub reserved-Keeps : Keeps key t reserved
  reserved-Keeps = record {
    valid = reserved-IsValid;
    same_config = refl;
    others = λ j e n g s. ground (arith, get-insert j key fresh t.entries, is_eq_iff j key);
  }

-- An outcome stored under an in-flight key in a table with the bytes for it.
module _ (key : DedupKey) (outcome : List ℕ) (t : DedupTable) (v : IsValid t) (e : Entry)
    (present : BTreeMap.get key t.entries ≡ some e) (pending : e.state ≡ EntryState.in_flight)
    (room : total_fits t (length outcome) ≡ true) where
  abbrev pub finished : Entry
  finished = record e { state = EntryState.completed outcome }

  abbrev pub stored : DedupTable
  stored = record t {
    entries = BTreeMap.insert key finished t.entries;
    retained_outcome_bytes = t.retained_outcome_bytes + length outcome;
  }

  stored-byte_bound : t.retained_outcome_bytes + length outcome ≤ t.config.max_total_outcome_bytes
  unfolding total_fits
  stored-byte_bound = ground (arith, room)

  stored-bytes : t.retained_outcome_bytes + length outcome ≡ total stored.entries
  stored-bytes = omega (
    arith,
    v.bytes,
    total-insert_present key e finished t.entries v.sorted present,
    ap weight pending,
  )

  pub stored-IsValid : IsValid stored
  stored-IsValid = record {
    sorted = insert-IsSorted key finished t.entries v.sorted;
    distinct = v.distinct;
    increasing = v.increasing;
    recent = v.recent;
    linked = λ k.
        ground (arith, v.linked k, get-insert k key finished t.entries, is_eq_iff k key, present);
    counted =
        omega (arith, v.counted, length-insert_present key finished e t.entries v.sorted present);
    bytes = stored-bytes;
    entry_bound =
        omega
          (arith, v.entry_bound, length-insert_present key finished e t.entries v.sorted present);
    byte_bound = stored-byte_bound;
  }

  pub stored-Keeps : Keeps key t stored
  stored-Keeps = record {
    valid = stored-IsValid;
    same_config = refl;
    others = λ j f n g s. ground (arith, get-insert j key finished t.entries, is_eq_iff j key);
  }

-- An in-flight entry taken out.
module _ (key : DedupKey) (t : DedupTable) (v : IsValid t) (e : Entry)
    (present : BTreeMap.get key t.entries ≡ some e) (pending : e.state ≡ EntryState.in_flight) where
  abbrev pub aborted : DedupTable
  aborted = record t {
    entries = BTreeMap.remove key t.entries;
    insertion_order = remove_queued e.insertion_sequence key t.insertion_order;
  }

  pub aborted-Keeps : Keeps key t aborted
  aborted-Keeps =
      let (before, after, split, left) =
        remove_queued-without t.insertion_order e.insertion_sequence key
          (ground (arith, v.linked key)) in
      record {
        valid =
            subst IsValid (ground (arith, left, pending))
              (dropped-IsValid t v before after e.insertion_sequence key e split present);
        same_config = refl;
        others = λ j f n g s. ground (arith, get-remove j key t.entries v.sorted, is_eq_iff j key);
      }
