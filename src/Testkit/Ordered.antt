-- ===== src/Testkit/Ordered.antt =====
-- The invariant of the queue of crates/iron-testkit/src/driver.rs, and that scheduling and dropping
-- events keep it.
use iron_consensus.Prelude.{
  ℕ, ◌≤◌, ◌<◌, ◌≡◌, Bool, List, [], ◌∷◌, Option, none, some, arith, All, All-imp, Ordering,
  Bool-cases, Option-cases, inl, inr, checked_add, ltb, u64_mod,
}
use iron_consensus.Order.{nat_ord}
use iron_consensus.BTreeMap
use iron_consensus.BTreeMap.Laws.{insert-IsSorted, All-insert}
use iron_consensus.Testkit.Pairs.{cmp_pair, pair_ord}
use iron_consensus.Testkit.Driver.{
  Driver, schedule_at, schedule_after, tick_add, retain, retain_entries,
}

-- Behind the key popped last.
abbrev pub Follows : Option (ℕ × ℕ) → ℕ × ℕ → Type 0
Follows none k = Unit
Follows (some l) k = cmp_pair l k ≡ Ordering.lt

abbrev pub Reached : Option (ℕ × ℕ) → ℕ → ℕ → Type 0
Reached none now next = Unit
Reached (some l) now next = (l.0 ≤ now) × (l.1 < next)

-- The queue is sorted, its events are not due yet, were given earlier sequence numbers, and come
-- behind the event popped last.
pub record IsValid {T : Type 0} (last : Option (ℕ × ℕ)) (d : Driver T) : Type 0 where
  pub sorted : BTreeMap.IsSorted d.queue
  pub entries :
      All (λ k. (d.now ≤ k.0) × (k.1 < d.next_sequence) × Follows last k) (BTreeMap.keys d.queue)
  pub reached : Reached last d.now d.next_sequence

Follows-fresh :
    (last : Option (ℕ × ℕ)) (now next tick : ℕ)
    → Reached last now next
    → now ≤ tick
    → Follows last (tick, next)
unfolding cmp_pair
Follows-fresh none now next tick r h = tt
Follows-fresh (some (t, s)) now next tick r h = ground arith

Reached-later :
    (last : Option (ℕ × ℕ)) (now next bigger : ℕ)
    → Reached last now next
    → next < bigger
    → Reached last now bigger
Reached-later none now next bigger r h = tt
Reached-later (some l) now next bigger r h = (r.0, omega (arith, r.1))

module _ {T : Type 0} where
  pub schedule_at-IsValid :
      (last : Option (ℕ × ℕ)) (tick : ℕ) (event : T) (d : Driver T)
      → IsValid last d
      → IsValid last (schedule_at tick event d).0
  unfolding schedule_at
  schedule_at-IsValid last tick event d v = elim (Bool-cases (ltb tick d.now)) [
    | inl past ↦ rw (schedule_at, past) v
    | inr fits ↦ elim (Option-cases (checked_add u64_mod d.next_sequence 1)) [
      | inl over ↦ rw (schedule_at, fits, over) v
      | inr (next, sum) ↦
          let due : d.now ≤ tick = ground arith in
          let step : d.next_sequence < next = ground arith in
          rw (schedule_at, fits, sum)
            (record {
              sorted = insert-IsSorted (tick, d.next_sequence) event d.queue v.sorted;
              entries =
                  All-insert (λ k. (d.now ≤ k.0) × (k.1 < next) × Follows last k)
                    (tick, d.next_sequence) event d.queue
                    (due, step, Follows-fresh last d.now d.next_sequence tick v.reached due)
                    (All-imp (λ k h. (h.0, omega (arith, h.1), h.2)) (BTreeMap.keys d.queue)
                      v.entries);
              reached = Reached-later last d.now d.next_sequence next v.reached step;
            })
    ]
  ]

  pub schedule_after-IsValid :
      (last : Option (ℕ × ℕ)) (delay : ℕ) (event : T) (d : Driver T)
      → IsValid last d
      → IsValid last (schedule_after delay event d).0
  unfolding schedule_after tick_add
  schedule_after-IsValid last delay event d v =
      elim (Option-cases (checked_add u64_mod d.now delay)) [
        | inl over ↦ rw (schedule_after, over) v
        | inr (tick, sum) ↦ rw (schedule_after, sum) (schedule_at-IsValid last tick event d v)
      ]

  retain-All :
      (P : ℕ × ℕ → Type 0) (keep : T → Bool) (queue : List ((ℕ × ℕ) × T))
      → All P (BTreeMap.keys queue)
      → All P (BTreeMap.keys (retain_entries keep queue))
  unfolding retain_entries
  retain-All P keep [] h = tt
  retain-All P keep ((k, event) ∷ queue) h = ground (arith, retain-All P keep queue h.1)

  retain-IsSorted :
      (keep : T → Bool) (queue : List ((ℕ × ℕ) × T))
      → BTreeMap.IsSorted queue
      → BTreeMap.IsSorted (retain_entries keep queue)
  unfolding retain_entries cmp_pair pair_ord
  retain-IsSorted keep [] h = tt
  retain-IsSorted keep ((k, event) ∷ queue) h = ground (
    arith,
    retain-IsSorted keep queue h.1,
    retain-All (λ j. cmp_pair k j ≡ Ordering.lt) keep queue h.0,
  )

  pub retain-IsValid :
      (last : Option (ℕ × ℕ)) (keep : T → Bool) (d : Driver T)
      → IsValid last d
      → IsValid last (retain keep d)
  unfolding retain
  retain-IsValid last keep d v = record {
    sorted = retain-IsSorted keep d.queue v.sorted;
    entries =
        retain-All (λ k. (d.now ≤ k.0) × (k.1 < d.next_sequence) × Follows last k) keep d.queue
          v.entries;
    reached = v.reached;
  }
