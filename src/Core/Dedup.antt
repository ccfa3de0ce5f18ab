-- ===== src/Core/Dedup.antt =====
-- crates/iron-core/src/dedup.rs: the bounded table of deduplicated messages. A method on `&mut self`
-- returns the new table beside its result.
pub mod Types
pub mod Queue
pub mod Bytes
pub mod Valid
pub mod Evict
pub mod Room
pub mod Keep
pub mod Outcomes
pub mod Calls
pub mod Once
pub mod Loops
pub mod Oldest
pub mod Tests
use iron_consensus.Prelude.{
  ℕ, zero, suc, ◌+◌, ◌-◌, Bool, true, false, ◌&&◌, not, List, [], ◌∷◌, ◌++◌, Option, none, some,
  Result, ok, err, if◌then◌else◌, ltb, leb, ◌==◌, length, checked_add, u64_mod,
}
use Types.{
  DedupKey, Fingerprint, BeginResult, CompleteResult, AbortResult, RestoreResult, DedupError,
  EntryState, Entry, DedupConfig, DedupTable, key_ord,
}
use iron_consensus.Order.{is_eq, nat_ord, list_ord}
use iron_consensus.BTreeMap

-- `DedupTable::new`
unfoldable pub new : DedupConfig → DedupTable
new config = record {
  config = config;
  entries = [];
  insertion_order = [];
  retained_outcome_bytes = 0;
  last_insertion_sequence = 0;
}

-- `matches!(self.entries.get(key)…, Some(EntryState::Completed(_)))`, with the outcome.
unfoldable pub completed_outcome : Option Entry → Option (List ℕ)
completed_outcome none = none
completed_outcome (some e) = elim e.state [
  | EntryState.completed outcome ↦ some outcome
  | EntryState.in_flight ↦ none
]

unfoldable pub is_excluded : Option DedupKey → DedupKey → Bool
is_excluded none key = false
is_excluded (some excluded) key = is_eq excluded key

-- The outcome of a key that may be evicted.
unfoldable pub evictable : Option DedupKey → List (DedupKey × Entry) → DedupKey → Option (List ℕ)
unfolding completed_outcome is_excluded
evictable excluded entries key =
    if is_excluded excluded key then none else completed_outcome (BTreeMap.get key entries)

-- `position` and `remove`: the first queued key that may be evicted, its outcome, and the queue
-- without it.
unfoldable pub find_evictable :
    Option DedupKey
    → List (DedupKey × Entry)
    → List (ℕ × DedupKey)
    → Option (DedupKey × List ℕ × List (ℕ × DedupKey))
find_evictable excluded entries [] = none
find_evictable excluded entries ((sequence, key) ∷ order) = elim (evictable excluded entries key) [
  | some outcome ↦ some (key, outcome, order)
  | none ↦ elim (find_evictable excluded entries order) [
    | some (k, outcome, rest) ↦ some (k, outcome, (sequence, key) ∷ rest)
    | none ↦ none
  ]
]

unfoldable pub evict_oldest_completed : Option DedupKey → DedupTable → DedupTable × Bool
unfolding find_evictable
evict_oldest_completed excluded t = elim (find_evictable excluded t.entries t.insertion_order) [
  | none ↦ (t, false)
  | some (key, outcome, order) ↦ (
    record t {
      entries = BTreeMap.remove key t.entries;
      insertion_order = order;
      retained_outcome_bytes = t.retained_outcome_bytes - length outcome;
    },
    true,
  )
]

-- The loop of `begin`: whether the entry bound admits a new key. A round evicts one queued key, so
-- the queue's length is fuel enough: with none left the next eviction fails.
unfoldable pub make_room : ℕ → DedupTable → DedupTable × Bool
make_room zero t = (t, ltb (length t.entries) t.config.max_entries)
make_room (suc fuel) t =
    let (t', evicted) = evict_oldest_completed none t in
    let rest = make_room fuel t' in
    if ltb (length t.entries) t.config.max_entries
    then (t, true)
    else if evicted
    then rest
    else (t', false)

-- `begin` of a missing key, behind its loop.
unfoldable pub reserve :
    DedupKey → Fingerprint → ℕ → DedupTable × Bool → DedupTable × Result DedupError BeginResult
reserve key fingerprint sequence (t, false) = (t, ok BeginResult.full)
reserve key fingerprint sequence (t, true) = (
  record t {
    entries =
        BTreeMap.insert key
          (record {
            fingerprint = fingerprint;
            insertion_sequence = sequence;
            state = EntryState.in_flight;
          })
          t.entries;
    insertion_order = t.insertion_order ++ ((sequence, key) ∷ []);
    last_insertion_sequence = sequence;
  },
  ok BeginResult.new,
)

-- What `begin` returns for a key that the table has.
unfoldable pub begin_present : Entry → Fingerprint → BeginResult
begin_present e fingerprint =
    if not (is_eq e.fingerprint fingerprint) then BeginResult.conflict else elim e.state [
      | EntryState.in_flight ↦ BeginResult.in_flight
      | EntryState.completed outcome ↦ BeginResult.replay outcome
    ]

unfoldable pub begin :
    DedupKey → Fingerprint → DedupTable → DedupTable × Result DedupError BeginResult
unfolding begin_present reserve
begin key fingerprint t = elim (BTreeMap.get key t.entries) [
  | some e ↦ (t, ok (begin_present e fingerprint))
  | none ↦ elim (checked_add u64_mod t.last_insertion_sequence 1) [
    | none ↦ (t, err DedupError.sequence_exhausted)
    | some sequence ↦ reserve key fingerprint sequence (make_room (length t.insertion_order) t)
  ]
]

-- `checked_add(outcome_length).is_none_or(|total| total > total_limit)`, negated.
unfoldable pub total_fits : DedupTable → ℕ → Bool
total_fits t n = elim (checked_add u64_mod t.retained_outcome_bytes n) [
  | none ↦ false
  | some total ↦ leb total t.config.max_total_outcome_bytes
]

-- The loop of `complete`: whether the outcome's bytes fit.
unfoldable pub make_byte_room : ℕ → DedupKey → ℕ → DedupTable → DedupTable × Bool
unfolding total_fits
make_byte_room zero key n t = (t, total_fits t n)
make_byte_room (suc fuel) key n t =
    let (t', evicted) = evict_oldest_completed (some key) t in
    let rest = make_byte_room fuel key n t' in
    if total_fits t n then (t, true) else if evicted then rest else (t', false)

-- `complete` behind its loop.
unfoldable pub store_outcome :
    DedupKey → List ℕ → DedupTable × Bool → DedupTable × Result DedupError CompleteResult
store_outcome key outcome (t, false) =
    (t, err (DedupError.outcome_too_large (length outcome) t.config.max_total_outcome_bytes))
store_outcome key outcome (t, true) = elim (BTreeMap.get key t.entries) [
  | none ↦ (t, ok CompleteResult.not_reserved)
  | some e ↦ (
    record t {
      entries = BTreeMap.insert key (record e { state = EntryState.completed outcome }) t.entries;
      retained_outcome_bytes = t.retained_outcome_bytes + length outcome;
    },
    ok CompleteResult.completed,
  )
]

unfoldable pub complete :
    DedupKey → Fingerprint → List ℕ → DedupTable → DedupTable × Result DedupError CompleteResult
unfolding store_outcome
complete key fingerprint outcome t = elim (BTreeMap.get key t.entries) [
  | none ↦ (t, ok CompleteResult.not_reserved)
  | some e ↦
      if not (is_eq e.fingerprint fingerprint)
      then (t, ok CompleteResult.conflict)
      else elim e.state [
        | EntryState.completed existing ↦ (t, ok CompleteResult.already_completed)
        | EntryState.in_flight ↦
            if ltb t.config.max_outcome_bytes (length outcome)
            then (t, err (DedupError.outcome_too_large (length outcome) t.config.max_outcome_bytes))
            else store_outcome key outcome
                (make_byte_room (length t.insertion_order) key (length outcome) t)
      ]
]

-- `position` and `remove` of a queued sequence number and key, if they are there.
unfoldable pub remove_queued : ℕ → DedupKey → List (ℕ × DedupKey) → List (ℕ × DedupKey)
remove_queued sequence key [] = []
remove_queued sequence key ((s, k) ∷ order) =
    let rest = remove_queued sequence key order in
    if s == sequence && is_eq k key then order else (s, k) ∷ rest

unfoldable pub abort : DedupKey → Fingerprint → DedupTable → DedupTable × AbortResult
unfolding remove_queued
abort key fingerprint t = elim (BTreeMap.get key t.entries) [
  | none ↦ (t, AbortResult.not_reserved)
  | some e ↦
      if not (is_eq e.fingerprint fingerprint) then (t, AbortResult.conflict) else elim e.state [
        | EntryState.completed existing ↦ (t, AbortResult.already_completed)
        | EntryState.in_flight ↦ (
          record t {
            entries = BTreeMap.remove key t.entries;
            insertion_order = remove_queued e.insertion_sequence key t.insertion_order;
          },
          AbortResult.aborted,
        )
      ]
]

-- `restore_completed` behind its `complete`.
unfoldable pub restore_result :
    DedupTable × Result DedupError CompleteResult → DedupTable × Result DedupError RestoreResult
restore_result (t, err e) = (t, err e)
restore_result (t, ok CompleteResult.completed) = (t, ok RestoreResult.restored)
restore_result (t, ok CompleteResult.already_completed) = (t, ok RestoreResult.already_present)
restore_result (t, ok CompleteResult.not_reserved) = (t, ok RestoreResult.conflict)
restore_result (t, ok CompleteResult.conflict) = (t, ok RestoreResult.conflict)

-- `restore_completed` behind its `begin`.
unfoldable pub restore_begun :
    DedupKey
    → Fingerprint
    → List ℕ
    → DedupTable × Result DedupError BeginResult
    → DedupTable × Result DedupError RestoreResult
unfolding restore_result
restore_begun key fingerprint outcome (t, err e) = (t, err e)
restore_begun key fingerprint outcome (t, ok BeginResult.new) =
    restore_result (complete key fingerprint outcome t)
restore_begun key fingerprint outcome (t, ok BeginResult.in_flight) =
    (t, ok RestoreResult.in_flight)
restore_begun key fingerprint outcome (t, ok (BeginResult.replay existing)) = (
  t,
  ok (if is_eq existing outcome then RestoreResult.already_present else RestoreResult.conflict),
)
restore_begun key fingerprint outcome (t, ok BeginResult.conflict) = (t, ok RestoreResult.conflict)
restore_begun key fingerprint outcome (t, ok BeginResult.full) = (t, ok RestoreResult.full)

unfoldable pub restore_completed :
    DedupKey → Fingerprint → List ℕ → DedupTable → DedupTable × Result DedupError RestoreResult
unfolding restore_begun
restore_completed key fingerprint outcome t =
    restore_begun key fingerprint outcome (begin key fingerprint t)
