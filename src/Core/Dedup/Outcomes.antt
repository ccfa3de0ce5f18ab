-- ===== src/Core/Dedup/Outcomes.antt =====
-- The ways in which `begin` and `complete` of crates/iron-core/src/dedup.rs can end, and what each
-- does to the table.
use iron_consensus.Prelude.{
  ℕ, ◌+◌, ◌≤◌, ◌<◌, ◌≡◌, ◌≢◌, refl, sym, subst, Bool, true, false, List, none, some, arith, ltb,
  length, Bool-cases, Option-cases, inl, inr, ◌⊎◌, u64_mod, checked_add, Result, ok, err,
}
use iron_consensus.Order.{is_eq, is_eq_iff, nat_ord, list_ord}
use iron_consensus.BTreeMap
use iron_consensus.Core.Dedup.Types.{
  DedupKey, Fingerprint, BeginResult, CompleteResult, DedupError, Entry, EntryState, DedupTable,
  key_ord,
}
use iron_consensus.Core.Dedup.{
  begin, begin_present, reserve, make_room, complete, store_outcome, make_byte_room, abort,
  restore_completed, restore_begun, restore_result, total_fits,
}
use iron_consensus.Core.Dedup.Valid.{IsValid}
use iron_consensus.Core.Dedup.Evict.{Shrinks}
use iron_consensus.Core.Dedup.Room.{Room, make_room-Room, ByteRoom, make_byte_room-ByteRoom}
use iron_consensus.Core.Dedup.Keep.{
  Keeps, Keeps-refl, Keeps-trans, Shrinks-Keeps, reserved, reserved-Keeps, stored, stored-Keeps,
  aborted-Keeps,
}

pub state-cases :
    (s : EntryState) → (s ≡ EntryState.in_flight) ⊎ ((o : List ℕ) × (s ≡ EntryState.completed o))
state-cases EntryState.in_flight = inl refl
state-cases (EntryState.completed o) = inr (o, refl)

-- Every entry is a reservation.
abbrev pub AllInFlight : DedupTable → Type 0
AllInFlight u =
    (j : DedupKey) (e : Entry) → BTreeMap.get j u.entries ≡ some e → e.state ≡ EntryState.in_flight

pub data Begun (key : DedupKey) (fingerprint : Fingerprint) (t : DedupTable)
    : DedupTable × Result DedupError BeginResult → Type 0 where
  present :
      (e : Entry)
      → BTreeMap.get key t.entries ≡ some e
      → Begun key fingerprint t (t, ok (begin_present e fingerprint))
  exhausted :
      BTreeMap.get key t.entries ≡ none
      → u64_mod ≤ t.last_insertion_sequence + 1
      → Begun key fingerprint t (t, err DedupError.sequence_exhausted)
  refused :
      (u : DedupTable)
      → BTreeMap.get key t.entries ≡ none
      → Shrinks none t u
      → AllInFlight u
      → Begun key fingerprint t (u, ok BeginResult.full)
  granted :
      (u : DedupTable) (s : Shrinks none t u) (absent : BTreeMap.get key u.entries ≡ none)
      (room : length u.entries < u.config.max_entries)
      → Begun key fingerprint t (reserved key fingerprint u s.valid absent room, ok BeginResult.new)

begun_room :
    (key : DedupKey) (fingerprint : Fingerprint) (t : DedupTable) (r : DedupTable × Bool)
    → BTreeMap.get key t.entries ≡ none
    → Room t r
    → Begun key fingerprint t (reserve key fingerprint (t.last_insertion_sequence + 1) r)
unfolding reserve
begun_room key fp t (u, true) absent r =
    subst (λ n. Begun key fp t (reserve key fp (n + 1) (u, true))) r.shrinks.same_last
      (granted u r.shrinks (r.shrinks.only key absent) (r.room refl))
begun_room key fp t (u, false) absent r = refused u absent r.shrinks (r.stuck refl)

pub begin-Begun :
    (key : DedupKey) (fingerprint : Fingerprint) (t : DedupTable)
    → IsValid t
    → Begun key fingerprint t (begin key fingerprint t)
unfolding begin
begin-Begun key fp t v = elim (Option-cases (BTreeMap.get key t.entries)) [
  | inr (e, h) ↦ rw (begin, h) (present e h)
  | inl absent ↦ elim (Option-cases (checked_add u64_mod t.last_insertion_sequence 1)) [
    | inl over ↦ rw (begin, absent, over) (exhausted absent (ground arith))
    | inr (s, fits) ↦
        let same : s ≡ t.last_insertion_sequence + 1 = ground arith in
        rw (begin, absent, fits, same)
          (begun_room key fp t (make_room (length t.insertion_order) t) absent
            (make_room-Room (length t.insertion_order) t v (omega arith)))
  ]
]

pub Begun-Keeps :
    (key : DedupKey) (fingerprint : Fingerprint) (t : DedupTable)
    (r : DedupTable × Result DedupError BeginResult)
    → IsValid t
    → Begun key fingerprint t r
    → Keeps key t r.0
Begun-Keeps key fp t _ v (present e h) = Keeps-refl key t v
Begun-Keeps key fp t _ v (exhausted h o) = Keeps-refl key t v
Begun-Keeps key fp t _ v (refused u h s a) = Shrinks-Keeps none key t u s
Begun-Keeps key fp t _ v (granted u s absent room) =
    Keeps-trans key t u _ (Shrinks-Keeps none key t u s)
      (reserved-Keeps key fp u s.valid absent room)

pub data Ended (key : DedupKey) (fingerprint : Fingerprint) (outcome : List ℕ) (t : DedupTable)
    : DedupTable × Result DedupError CompleteResult → Type 0 where
  missing :
      BTreeMap.get key t.entries ≡ none
      → Ended key fingerprint outcome t (t, ok CompleteResult.not_reserved)
  differs :
      (e : Entry)
      → BTreeMap.get key t.entries ≡ some e
      → e.fingerprint ≢ fingerprint
      → Ended key fingerprint outcome t (t, ok CompleteResult.conflict)
  repeated :
      (e : Entry) (existing : List ℕ)
      → BTreeMap.get key t.entries ≡ some e
      → e.fingerprint ≡ fingerprint
      → e.state ≡ EntryState.completed existing
      → Ended key fingerprint outcome t (t, ok CompleteResult.already_completed)
  oversized :
      t.config.max_outcome_bytes < length outcome
      → Ended key fingerprint outcome t
          (t, err (DedupError.outcome_too_large (length outcome) t.config.max_outcome_bytes))
  short :
      (u : DedupTable) (e : Entry)
      → length outcome ≤ t.config.max_outcome_bytes
      → Shrinks (some key) t u
      → BTreeMap.get key u.entries ≡ some e
      → e.state ≡ EntryState.in_flight
      → total_fits u (length outcome) ≡ false
      → ((j : DedupKey) (f : Entry)
          → BTreeMap.get j u.entries ≡ some f
          → (j ≡ key) ⊎ (f.state ≡ EntryState.in_flight))
      → Ended key fingerprint outcome t
          (u, err (DedupError.outcome_too_large (length outcome) u.config.max_total_outcome_bytes))
  done :
      (u : DedupTable) (e : Entry) (s : Shrinks (some key) t u)
      (h : BTreeMap.get key u.entries ≡ some e) (pending : e.state ≡ EntryState.in_flight)
      (fits : total_fits u (length outcome) ≡ true)
      → BTreeMap.get key t.entries ≡ some e
      → e.fingerprint ≡ fingerprint
      → Ended key fingerprint outcome t
          (stored key outcome u s.valid e h pending fits, ok CompleteResult.completed)

ended_room :
    (key : DedupKey) (fingerprint : Fingerprint) (outcome : List ℕ) (t : DedupTable) (e : Entry)
    (r : DedupTable × Bool)
    → BTreeMap.get key t.entries ≡ some e
    → e.fingerprint ≡ fingerprint
    → e.state ≡ EntryState.in_flight
    → length outcome ≤ t.config.max_outcome_bytes
    → ByteRoom key (length outcome) t r
    → Ended key fingerprint outcome t (store_outcome key outcome r)
unfolding store_outcome
ended_room key fp o t e (u, true) h same pending small r =
    let kept = r.shrinks.keeps key e h (inl pending) in
    rw (store_outcome, kept) (done u e r.shrinks kept pending (r.room refl) h same)
ended_room key fp o t e (u, false) h same pending small r =
    short u e small r.shrinks (r.shrinks.keeps key e h (inl pending)) pending (r.short refl)
      (r.stuck refl)

pub complete-Ended :
    (key : DedupKey) (fingerprint : Fingerprint) (outcome : List ℕ) (t : DedupTable)
    → IsValid t
    → Ended key fingerprint outcome t (complete key fingerprint outcome t)
unfolding complete
complete-Ended key fp o t v = elim (Option-cases (BTreeMap.get key t.entries)) [
  | inl h ↦ rw (complete, h) (missing h)
  | inr (e, h) ↦ elim (Bool-cases (is_eq e.fingerprint fp)) [
    | inr other ↦ rw (complete, h, other) (differs e h (ground (arith, is_eq_iff e.fingerprint fp)))
    | inl same ↦ elim (state-cases e.state) [
      | inr (old, finished) ↦
          rw (complete, h, same, finished)
            (repeated e old h (ground (arith, is_eq_iff e.fingerprint fp)) finished)
      | inl pending ↦ elim (Bool-cases (ltb t.config.max_outcome_bytes (length o))) [
        | inl over ↦ rw (complete, h, same, pending, over) (oversized (ground arith))
        | inr small ↦
            rw (complete, h, same, pending, small)
              (ended_room key fp o t e (make_byte_room (length t.insertion_order) key (length o) t)
                h (ground (arith, is_eq_iff e.fingerprint fp)) pending (ground arith)
                (make_byte_room-ByteRoom (length t.insertion_order) key (length o) t v
                  (omega arith)))
      ]
    ]
  ]
]

pub Ended-Keeps :
    (key : DedupKey) (fingerprint : Fingerprint) (outcome : List ℕ) (t : DedupTable)
    (r : DedupTable × Result DedupError CompleteResult)
    → IsValid t
    → Ended key fingerprint outcome t r
    → Keeps key t r.0
Ended-Keeps key fp o t _ v (missing h) = Keeps-refl key t v
Ended-Keeps key fp o t _ v (differs e h n) = Keeps-refl key t v
Ended-Keeps key fp o t _ v (repeated e old h n s) = Keeps-refl key t v
Ended-Keeps key fp o t _ v (oversized h) = Keeps-refl key t v
Ended-Keeps key fp o t _ v (short u e small s h p n a) = Shrinks-Keeps (some key) key t u s
Ended-Keeps key fp o t _ v (done u e s h pending fits g same) =
    Keeps-trans key t u _ (Shrinks-Keeps (some key) key t u s)
      (stored-Keeps key o u s.valid e h pending fits)

pub abort-Keeps :
    (key : DedupKey) (fingerprint : Fingerprint) (t : DedupTable)
    → IsValid t
    → Keeps key t (abort key fingerprint t).0
unfolding abort
abort-Keeps key fp t v = elim (Option-cases (BTreeMap.get key t.entries)) [
  | inl h ↦ rw (abort, h) (Keeps-refl key t v)
  | inr (e, h) ↦ elim (Bool-cases (is_eq e.fingerprint fp)) [
    | inr other ↦ rw (abort, h, other) (Keeps-refl key t v)
    | inl same ↦ elim (state-cases e.state) [
      | inr (old, finished) ↦ rw (abort, h, same, finished) (Keeps-refl key t v)
      | inl pending ↦ rw (abort, h, same, pending) (aborted-Keeps key t v e h pending)
    ]
  ]
]

restore_result-table :
    (r : DedupTable × Result DedupError CompleteResult) → (restore_result r).0 ≡ r.0
unfolding restore_result
restore_result-table (t, err e) = refl
restore_result-table (t, ok CompleteResult.completed) = refl
restore_result-table (t, ok CompleteResult.already_completed) = refl
restore_result-table (t, ok CompleteResult.not_reserved) = refl
restore_result-table (t, ok CompleteResult.conflict) = refl

restore_begun-Keeps :
    (key : DedupKey) (fingerprint : Fingerprint) (outcome : List ℕ)
    (r : DedupTable × Result DedupError BeginResult)
    → IsValid r.0
    → Keeps key r.0 (restore_begun key fingerprint outcome r).0
unfolding restore_begun
restore_begun-Keeps key fp o (t, err e) v = Keeps-refl key t v
restore_begun-Keeps key fp o (t, ok BeginResult.new) v =
    subst (Keeps key t) (sym (restore_result-table (complete key fp o t)))
      (Ended-Keeps key fp o t (complete key fp o t) v (complete-Ended key fp o t v))
restore_begun-Keeps key fp o (t, ok BeginResult.in_flight) v = Keeps-refl key t v
restore_begun-Keeps key fp o (t, ok (BeginResult.replay old)) v = Keeps-refl key t v
restore_begun-Keeps key fp o (t, ok BeginResult.conflict) v = Keeps-refl key t v
restore_begun-Keeps key fp o (t, ok BeginResult.full) v = Keeps-refl key t v

pub restore_completed-Keeps :
    (key : DedupKey) (fingerprint : Fingerprint) (outcome : List ℕ) (t : DedupTable)
    → IsValid t
    → Keeps key t (restore_completed key fingerprint outcome t).0
unfolding restore_completed
restore_completed-Keeps key fp o t v =
    let first = Begun-Keeps key fp t (begin key fp t) v (begin-Begun key fp t v) in
    Keeps-trans key t (begin key fp t).0 _ first
      (restore_begun-Keeps key fp o (begin key fp t) first.valid)
