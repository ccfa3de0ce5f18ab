-- ===== src/Core/Dedup/Oldest.antt =====
-- Which entry the table of crates/iron-core/src/dedup.rs evicts, and when `begin`
-- refuses.
use iron_consensus.Prelude.{
  ℕ, zero, suc, ◌+◌, ◌≤◌, ◌<◌, ◌≡◌, ◌≢◌, sym, ap, subst, ◌∙◌, Bool, true, false, List, [], ◌∷◌,
  Option, none, some, arith, All, length, ltb, Bool-cases, Option-cases, inl, inr, u64_mod,
  checked_add, ok, if◌then◌else◌,
}
use iron_consensus.Order.{is_eq, is_eq_iff, nat_ord, list_ord}
use iron_consensus.BTreeMap
use iron_consensus.BTreeMap.Laws.{length-remove}
use iron_consensus.Core.Dedup.Types.{
  DedupKey, Fingerprint, BeginResult, Entry, EntryState, DedupTable, key_ord,
}
use iron_consensus.Core.Dedup.{
  begin, begin_present, reserve, make_room, evict_oldest_completed, evictable, completed_outcome,
  is_excluded,
}
use iron_consensus.Core.Dedup.Queue.{queued, NoDup, Increasing, whole, queued-whole}
use iron_consensus.Core.Dedup.Bytes.{weight, total-remove}
use iron_consensus.Core.Dedup.Valid.{IsValid, sequence_of}
use iron_consensus.Core.Dedup.Evict.{Evicts, evict-cases, Evicts-length}
use iron_consensus.Core.Dedup.Room.{none-evictable}
use iron_consensus.Core.Dedup.Outcomes.{AllInFlight, state-cases}

queued-All :
    (P : ℕ → Type 0) (order : List (ℕ × DedupKey)) (j : DedupKey) (n : ℕ)
    → queued j order ≡ some n
    → All (λ x. P x.0) order
    → P n
unfolding queued
queued-All P [] j n q h = absurd (grind (arith, q))
queued-All P ((s, k) ∷ order) j n q h = elim (Bool-cases (is_eq j k)) [
  | inl same ↦ subst P (ground arith) h.0
  | inr other ↦ queued-All P order j n (ground arith) h.1
]

queued-after :
    (x : Option DedupKey) (m : List (DedupKey × Entry)) (before after : List (ℕ × DedupKey)) (s : ℕ)
    (k j : DedupKey) (n : ℕ)
    → queued j (whole before after s k) ≡ some n
    → Increasing (whole before after s k)
    → All (λ y. evictable x m y.1 ≡ none) before
    → evictable x m j ≢ none
    → s ≤ n
unfolding queued
queued-after x m [] after s k j n q up skipped c = elim (Bool-cases (is_eq j k)) [
  | inl same ↦ ground arith
  | inr other ↦
      let later : s < n = queued-All (λ y. s < y) after j n (ground arith) up.0 in omega arith
]
queued-after x m ((t, i) ∷ before) after s k j n q up skipped c = elim (Bool-cases (is_eq j i)) [
  | inl same ↦ absurd (c (ground (arith, is_eq_iff j i, skipped.0)))
  | inr other ↦ queued-after x m before after s k j n (ground arith) up.1 skipped.1 c
]

-- What an eviction took: `key` with its `entry`, the oldest there was.
pub record Oldest (excluded : Option DedupKey) (t t' : DedupTable) : Type 0 where
  pub key : DedupKey
  pub entry : Entry
  pub outcome : List ℕ
  pub found : BTreeMap.get key t.entries ≡ some entry
  pub state : entry.state ≡ EntryState.completed outcome
  pub allowed : is_excluded excluded key ≡ false
  pub gone : t'.entries ≡ BTreeMap.remove key t.entries
  pub released : t'.retained_outcome_bytes + length outcome ≡ t.retained_outcome_bytes
  pub oldest :
      (j : DedupKey) (f : Entry)
      → BTreeMap.get j t.entries ≡ some f
      → f.state ≢ EntryState.in_flight
      → is_excluded excluded j ≡ false
      → entry.insertion_sequence ≤ f.insertion_sequence

evictable_entry :
    (x : Option DedupKey) (m : List (DedupKey × Entry)) (j : DedupKey) (f : Entry)
    → BTreeMap.get j m ≡ some f
    → f.state ≢ EntryState.in_flight
    → is_excluded x j ≡ false
    → evictable x m j ≢ none
unfolding evictable completed_outcome
evictable_entry x m j f h n a q = elim (state-cases f.state) [
  | inl pending ↦ n pending
  | inr (o, finished) ↦ grind (arith, h, a, q, finished)
]

Evicts-Oldest :
    (x : Option DedupKey) (t t' : DedupTable) → IsValid t → Evicts x t t' → Oldest x t t'
Evicts-Oldest x t t' v d =
    let place : queued d.key t.insertion_order ≡ some d.sequence =
      rw d.split
        (queued-whole d.before d.after d.sequence d.key (subst NoDup d.split v.distinct)) in
    let own : d.entry.insertion_sequence ≡ d.sequence =
      ground (arith, place, v.linked d.key, d.found) in
    record {
      key = d.key;
      entry = d.entry;
      outcome = d.outcome;
      found = d.found;
      state = d.state;
      allowed = d.allowed;
      gone = ap (λ u. u.entries) d.left;
      released = omega (
        arith,
        ap (λ u. u.retained_outcome_bytes) d.left,
        v.bytes,
        total-remove d.key d.entry t.entries d.found,
        ap weight d.state,
      );
      oldest = λ j f h n a.
          let after =
            queued-after x t.entries d.before d.after d.sequence d.key j f.insertion_sequence
              (sym (ap (queued j) d.split) ∙ v.linked j ∙ ap sequence_of h)
              (subst Increasing d.split v.increasing) d.skipped
              (evictable_entry x t.entries j f h n a) in
          omega (arith, own);
    }

-- In a table where the invariant holds, an eviction that succeeds removes one completed entry other
-- than the excluded one and releases its bytes, and that entry has the least insertion sequence of
-- all completed entries other than the excluded one.
pub evict-Oldest :
    (excluded : Option DedupKey) (t t' : DedupTable)
    → IsValid t
    → evict_oldest_completed excluded t ≡ (t', true)
    → Oldest excluded t t'
evict-Oldest x t t' v e = elim (evict-cases x t v) [
  | inl (kept, stuck) ↦ absurd (grind (arith, e, kept))
  | inr (u, evicted, d) ↦
      subst (Oldest x t) (ap (λ r. r.0) (sym evicted ∙ e)) (Evicts-Oldest x t u v d)
]

smaller_entries :
    (x : Option DedupKey) (t u : DedupTable)
    → IsValid t
    → Evicts x t u
    → (length u.entries < u.config.max_entries) × (length t.entries ≡ suc (length u.entries))
smaller_entries x t u v d =
    let less = length-remove d.key d.entry t.entries d.found in
    (
      omega (
        arith,
        v.entry_bound,
        less,
        ap (λ w. length w.entries) d.left,
        ap (λ w. w.config.max_entries) d.left,
      ),
      omega (arith, less, ap (λ w. length w.entries) d.left),
    )

room_after :
    (fuel : ℕ) (t u : DedupTable) → IsValid t → Evicts none t u → make_room fuel u ≡ (u, true)
unfolding make_room
room_after zero t u v d = ground (arith, smaller_entries none t u v d)
room_after (suc fuel) t u v d = ground (arith, smaller_entries none t u v d)

once :
    (fuel : ℕ) (t : DedupTable)
    → IsValid t
    → length t.insertion_order ≤ fuel
    → make_room fuel t ≡ (
        if ltb (length t.entries) t.config.max_entries
        then (t, true)
        else evict_oldest_completed none t)
unfolding make_room
once zero t v p = elim (evict-cases none t v) [
  | inl (kept, stuck) ↦ ground arith
  | inr (u, evicted, d) ↦ absurd (omega (arith, Evicts-length none t u d))
]
once (suc fuel) t v p = elim (evict-cases none t v) [
  | inl (kept, stuck) ↦ ground arith
  | inr (u, evicted, d) ↦ ground (arith, room_after fuel t u v d)
]

-- In a table where the invariant holds, the loop of `begin` is one test and at most one eviction: it
-- does nothing when there is room, and otherwise is a single call of `evict_oldest_completed`.
pub make_room_once :
    (t : DedupTable)
    → IsValid t
    → make_room (length t.insertion_order) t ≡ (
        if ltb (length t.entries) t.config.max_entries
        then (t, true)
        else evict_oldest_completed none t)
make_room_once t v = once (length t.insertion_order) t v (omega arith)

begin_present-not_full :
    (e : Entry) (fingerprint : Fingerprint) → begin_present e fingerprint ≢ BeginResult.full
unfolding begin_present
begin_present-not_full e fp h = elim (Bool-cases (is_eq e.fingerprint fp)) [
  | inr other ↦ grind (arith, h, other)
  | inl same ↦ elim (state-cases e.state) [
    | inl pending ↦ grind (arith, h, same, pending)
    | inr (o, done) ↦ grind (arith, h, same, done)
  ]
]

-- What a refusal says of a table.
abbrev Refusal : DedupKey → DedupTable → DedupTable → Type 0
Refusal key t u =
    (u ≡ t)
    × (BTreeMap.get key t.entries ≡ none)
    × (length t.entries ≡ t.config.max_entries)
    × AllInFlight t

full_room :
    (key : DedupKey) (fingerprint : Fingerprint) (sequence : ℕ) (t : DedupTable)
    → IsValid t
    → BTreeMap.get key t.entries ≡ none
    → (r : DedupTable × Bool)
    → r ≡ (
        if ltb (length t.entries) t.config.max_entries
        then (t, true)
        else evict_oldest_completed none t)
    → (reserve key fingerprint sequence r).1 ≡ ok BeginResult.full
    → Refusal key t (reserve key fingerprint sequence r).0
unfolding reserve
full_room key fp n t v absent (u, true) once full = absurd (grind (arith, full))
full_room key fp n t v absent (u, false) once full =
    elim (Bool-cases (ltb (length t.entries) t.config.max_entries)) [
      | inl fits ↦ absurd (ground arith)
      | inr over ↦ elim (evict-cases none t v) [
        | inr (w, evicted, d) ↦ absurd (ground arith)
        | inl (kept, stuck) ↦
            (ground arith, absent, ground (arith, v.entry_bound), none-evictable t stuck)
      ]
    ]

-- When `begin` refuses in a table where the invariant holds, it changed nothing, the key is new, and
-- the table is full of entries that are all in flight.
pub begin-full :
    (key : DedupKey) (fingerprint : Fingerprint) (t : DedupTable)
    → IsValid t
    → (begin key fingerprint t).1 ≡ ok BeginResult.full
    → ((begin key fingerprint t).0 ≡ t)
      × (BTreeMap.get key t.entries ≡ none)
      × (length t.entries ≡ t.config.max_entries)
      × ((j : DedupKey) (e : Entry)
          → BTreeMap.get j t.entries ≡ some e
          → e.state ≡ EntryState.in_flight)
unfolding begin
begin-full key fp t v full = elim (Option-cases (BTreeMap.get key t.entries)) [
  | inr (e, h) ↦ absurd (ground (arith, begin_present-not_full e fp))
  | inl absent ↦ elim (Option-cases (checked_add u64_mod t.last_insertion_sequence 1)) [
    | inl over ↦ absurd (ground arith)
    | inr (s, fits) ↦
        let opened : begin key fp t ≡ reserve key fp s (make_room (length t.insertion_order) t) =
          ground arith in
        subst (Refusal key t) (sym (ap (λ r. r.0) opened)) (
          full_room key fp s t v absent (make_room (length t.insertion_order) t)
            (make_room_once t v) (sym (ap (λ r. r.1) opened) ∙ full))
  ]
]
