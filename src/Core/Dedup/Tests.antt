-- ===== src/Core/Dedup/Tests.antt =====
-- Runs of the table of crates/iron-core/src/dedup.rs, and the theorems at concrete inputs.
use iron_consensus.Prelude.{
  ℕ, ◌≡◌, ◌≢◌, ◌≤◌, refl, List, [], ◌∷◌, none, some, ok, true, length, arith, All,
}
use iron_consensus.Order.{nat_ord, list_ord, cmp_list}
use iron_consensus.BTreeMap
use iron_consensus.Core.Dedup.Types.{
  DedupKey, BeginResult, CompleteResult, RestoreResult, Entry, EntryState, DedupConfig, DedupTable,
  cmp_key, key_ord,
}
use iron_consensus.Core.Dedup.{
  new, begin, begin_present, complete, abort, restore_completed, restore_begun, restore_result,
  reserve, make_room, make_byte_room, total_fits, store_outcome, evict_oldest_completed,
  find_evictable, evictable, completed_outcome, is_excluded, remove_queued,
}
use iron_consensus.Core.Dedup.Valid.{IsValid}
use iron_consensus.Core.Dedup.Calls.{Call, key_of, run, calls-IsValid}
use iron_consensus.Core.Dedup.Once.{IsConfigured, exactly_once}
use iron_consensus.Core.Dedup.Loops.{has_room, has_byte_room, Ends, eviction_loops_end}
use iron_consensus.Core.Dedup.Oldest.{Oldest, evict-Oldest, begin-full}

program : Unit {0}
unfolding key_ord nat_ord list_ord cmp_list cmp_key BTreeMap.get BTreeMap.insert BTreeMap.remove new
    begin begin_present complete abort restore_completed restore_begun restore_result reserve
    make_room make_byte_room total_fits store_outcome evict_oldest_completed find_evictable
    evictable completed_outcome is_excluded remove_queued
program = tt

abbrev key : ℕ → DedupKey
key n = record { cluster_id = 1 ∷ []; source_node_id = b'n' ∷ []; message_id = n ∷ [] }

abbrev small : DedupConfig
small = record { max_entries = 2; max_outcome_bytes = 2; max_total_outcome_bytes = 3 }

-- Two keys in flight.
abbrev two : List Call
two = Call.begins (key 1) (10 ∷ []) ∷ Call.begins (key 2) (20 ∷ []) ∷ []

-- The first of them done.
abbrev one_done : List Call
one_done =
    Call.begins (key 1) (10 ∷ [])
    ∷ Call.begins (key 2) (20 ∷ [])
    ∷ Call.completes (key 1) (10 ∷ []) (7 ∷ [])
    ∷ []

-- A completed key makes room for a third one.
eviction_admits : (begin (key 3) (30 ∷ []) (run one_done (new small))).1 ≡ ok BeginResult.new
unfolding program
eviction_admits = refl

restore_repeats :
    (restore_completed (key 1) (10 ∷ []) (7 ∷ []) (run one_done (new small))).1
    ≡ ok RestoreResult.already_present
unfolding program
restore_repeats = refl

calls-IsValid_example :
    IsValid (run one_done (new small)) × ((run one_done (new small)).config ≡ small)
calls-IsValid_example = calls-IsValid small one_done

two-IsValid : IsValid (run two (new small))
two-IsValid = (calls-IsValid small two).0

one_done-IsValid : IsValid (run one_done (new small))
one_done-IsValid = (calls-IsValid small one_done).0

abbrev waiting : Entry
waiting = record { fingerprint = 20 ∷ []; insertion_sequence = 2; state = EntryState.in_flight }

waiting_here : BTreeMap.get (key 2) (run one_done (new small)).entries ≡ some waiting
unfolding program
waiting_here = refl

others :
    All
      (λ c. key 2 ≢ key_of c)
      (Call.begins (key 3) (30 ∷ []) ∷ Call.completes (key 3) (30 ∷ []) (8 ∷ []) ∷ [])
others = (λ h. grind (arith, h), (λ h. grind (arith, h), tt))

granted : (begin (key 3) (30 ∷ []) (run one_done (new small))).1 ≡ ok BeginResult.new
unfolding program
granted = refl

configured : IsConfigured (run one_done (new small)).config
unfolding program
configured = record { outcome_fits = omega arith; total_is_u64 = omega arith }

bounded : 2 ≤ (run one_done (new small)).config.max_outcome_bytes
unfolding program
bounded = omega arith

exactly_once_example :
    let r = complete (key 3) (30 ∷ []) (8 ∷ 9 ∷ []) (
      run
        (Call.begins (key 2) (20 ∷ []) ∷ Call.completes (key 2) (20 ∷ []) (6 ∷ []) ∷ [])
        (begin (key 3) (30 ∷ []) (run one_done (new small))).0) in
    (r.1 ≡ ok CompleteResult.completed)
    × (begin (key 3) (30 ∷ []) r.0 ≡ (r.0, ok (BeginResult.replay (8 ∷ 9 ∷ []))))
    × (begin (key 3) (31 ∷ []) r.0 ≡ (r.0, ok BeginResult.conflict))
exactly_once_example =
    exactly_once (run one_done (new small)) (key 3) (30 ∷ []) (31 ∷ []) (8 ∷ 9 ∷ [])
      (Call.begins (key 2) (20 ∷ []) ∷ Call.completes (key 2) (20 ∷ []) (6 ∷ []) ∷ [])
      one_done-IsValid configured granted (λ h. grind (arith, h), (λ h. grind (arith, h), tt))
      bounded (λ h. grind (arith, h))

abbrev evicted : DedupTable
evicted = (evict_oldest_completed none (run one_done (new small))).0

evicts : evict_oldest_completed none (run one_done (new small)) ≡ (evicted, true)
unfolding program
evicts = refl

evict-Oldest_example : Oldest none (run one_done (new small)) evicted
evict-Oldest_example = evict-Oldest none (run one_done (new small)) evicted one_done-IsValid evicts

short_queue : length (run one_done (new small)).insertion_order ≤ 5
unfolding program
short_queue = omega arith

eviction_loops_end_example :
    let t = run one_done (new small) in
    Ends has_room none t (make_room 5 t)
    × Ends (has_byte_room 3) (some (key 2)) t (make_byte_room 5 (key 2) 3 t)
eviction_loops_end_example =
    eviction_loops_end (run one_done (new small)) (key 2) 3 5 one_done-IsValid short_queue

full : (begin (key 3) (30 ∷ []) (run two (new small))).1 ≡ ok BeginResult.full
unfolding program
full = refl

begin-full_example :
    ((begin (key 3) (30 ∷ []) (run two (new small))).0 ≡ run two (new small))
    × (BTreeMap.get (key 3) (run two (new small)).entries ≡ none)
    × (length (run two (new small)).entries ≡ (run two (new small)).config.max_entries)
    × ((j : DedupKey) (e : Entry)
        → BTreeMap.get j (run two (new small)).entries ≡ some e
        → e.state ≡ EntryState.in_flight)
begin-full_example = begin-full (key 3) (30 ∷ []) (run two (new small)) two-IsValid full
