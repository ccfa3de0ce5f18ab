-- ===== src/Core/Dedup/Calls.antt =====
-- Histories of calls on the table of crates/iron-core/src/dedup.rs.
use iron_consensus.Prelude.{ℕ, ◌≡◌, ◌≢◌, refl, ◌∙◌, List, [], ◌∷◌, some, All, arith}
use iron_consensus.BTreeMap
use iron_consensus.Core.Dedup.Types.{
  DedupKey, Fingerprint, Entry, EntryState, DedupTable, DedupConfig, key_ord,
}
use iron_consensus.Core.Dedup.{new, begin, complete, abort, restore_completed}
use iron_consensus.Core.Dedup.Valid.{IsValid}
use iron_consensus.Core.Dedup.Queue.{queued}
use iron_consensus.Core.Dedup.Keep.{Keeps}
use iron_consensus.Core.Dedup.Outcomes.{
  begin-Begun, Begun-Keeps, complete-Ended, Ended-Keeps, abort-Keeps, restore_completed-Keeps,
}

-- The calls that change a table, with their arguments.
pub data Call : Type 0 where
  begins : DedupKey → Fingerprint → Call
  completes : DedupKey → Fingerprint → List ℕ → Call
  aborts : DedupKey → Fingerprint → Call
  restores : DedupKey → Fingerprint → List ℕ → Call

abbrev pub key_of : Call → DedupKey
key_of (begins key fp) = key
key_of (completes key fp o) = key
key_of (aborts key fp) = key
key_of (restores key fp o) = key

abbrev pub apply : Call → DedupTable → DedupTable
apply (begins key fp) t = (begin key fp t).0
apply (completes key fp o) t = (complete key fp o t).0
apply (aborts key fp) t = (abort key fp t).0
apply (restores key fp o) t = (restore_completed key fp o t).0

-- The table after calls, one after the other.
abbrev pub run : List Call → DedupTable → DedupTable
run [] t = t
run (c ∷ cs) t = run cs (apply c t)

apply-Keeps : (c : Call) (t : DedupTable) → IsValid t → Keeps (key_of c) t (apply c t)
apply-Keeps (begins key fp) t v = Begun-Keeps key fp t (begin key fp t) v (begin-Begun key fp t v)
apply-Keeps (completes key fp o) t v =
    Ended-Keeps key fp o t (complete key fp o t) v (complete-Ended key fp o t v)
apply-Keeps (aborts key fp) t v = abort-Keeps key fp t v
apply-Keeps (restores key fp o) t v = restore_completed-Keeps key fp o t v

run-IsValid : (cs : List Call) (t : DedupTable) → IsValid t → IsValid (run cs t)
run-IsValid [] t v = v
run-IsValid (c ∷ cs) t v = run-IsValid cs (apply c t) (apply-Keeps c t v).valid

run-config : (cs : List Call) (t : DedupTable) → IsValid t → (run cs t).config ≡ t.config
run-config [] t v = refl
run-config (c ∷ cs) t v =
    let step = apply-Keeps c t v in run-config cs (apply c t) step.valid ∙ step.same_config

-- What a reservation needs to survive a history of calls on other keys.
pub record Held (key : DedupKey) (e : Entry) (t : DedupTable) : Type 0 where
  pub valid : IsValid t
  pub here : BTreeMap.get key t.entries ≡ some e
  pub pending : e.state ≡ EntryState.in_flight

pub run-Held :
    (key : DedupKey) (e : Entry) (cs : List Call) (t : DedupTable)
    → All (λ c. key ≢ key_of c) cs
    → Held key e t
    → Held key e (run cs t) × ((run cs t).config ≡ t.config)
run-Held key e [] t others h = (h, refl)
run-Held key e (c ∷ cs) t others h =
    let step = apply-Keeps c t h.valid in
    let (rest, same) = run-Held key e cs (apply c t) others.1 (record {
      valid = step.valid;
      here = step.others key e others.0 h.here h.pending;
      pending = h.pending;
    }) in
    (rest, same ∙ step.same_config)

pub new-IsValid : (config : DedupConfig) → IsValid (new config)
unfolding new BTreeMap.get queued
new-IsValid config = record {
  sorted = tt;
  distinct = tt;
  increasing = tt;
  recent = tt;
  linked = λ k. refl;
  counted = refl;
  bytes = refl;
  entry_bound = omega arith;
  byte_bound = omega arith;
}

-- After any calls on a new table the invariant holds: the entries and the queue tell the same story,
-- the queue is in increasing order of sequence numbers, the byte count is the sum of the retained
-- outcomes, and the table holds at most `max_entries` entries and `max_total_outcome_bytes` bytes of
-- the configuration it was made with.
pub calls-IsValid :
    (config : DedupConfig) (cs : List Call)
    → IsValid (run cs (new config)) × ((run cs (new config)).config ≡ config)
unfolding new
calls-IsValid config cs = (
  run-IsValid cs (new config) (new-IsValid config),
  run-config cs (new config) (new-IsValid config),
)

-- In a table where the invariant holds, an entry that is in flight stays in the table unchanged
-- through any calls on other keys: neither the entry bound nor the byte bound evicts it.
pub in_flight_kept :
    (t : DedupTable) (key : DedupKey) (e : Entry) (cs : List Call)
    → IsValid t
    → BTreeMap.get key t.entries ≡ some e
    → e.state ≡ EntryState.in_flight
    → All (λ c. key ≢ key_of c) cs
    → BTreeMap.get key (run cs t).entries ≡ some e
in_flight_kept t key e cs v here pending others =
    (run-Held key e cs t others (record { valid = v; here = here; pending = pending })).0.here
