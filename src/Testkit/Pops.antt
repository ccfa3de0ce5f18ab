-- ===== src/Testkit/Pops.antt =====
-- Histories of calls on the queue of crates/iron-testkit/src/driver.rs, and the order in which events
-- come out of it.
use iron_consensus.Prelude.{
  ℕ, ◌≤◌, ◌<◌, ◌≡◌, refl, sym, ap, ap₂, subst, ◌∙◌, Bool, List, [], ◌∷◌, ◌++◌, Option, none, some,
  Result, ok, err, arith, All, All-imp, Ordering, inl, inr, ◌⊎◌,
}
use iron_consensus.Order.{nat_ord}
use iron_consensus.BTreeMap
use iron_consensus.Testkit.Pairs.{cmp_pair, pair_ord}
use iron_consensus.Testkit.Driver.{
  Driver, DriverError, Scheduled, new_driver, schedule_at, schedule_after, pop_next, pop_from,
  popped, advance_to, retain,
}
use iron_consensus.Testkit.Ordered.{
  Follows, IsValid, schedule_at-IsValid, schedule_after-IsValid, retain-IsValid,
}

-- The calls of a driver.
pub data Op (T : Type 0) : Type 0 where
  at : ℕ → T → Op T
  later : ℕ → T → Op T
  pops : Op T
  retains : (T → Bool) → Op T

-- The key of a popped event, if one was popped.
abbrev pub key_of_pop :
    {T : Type 0} → Result DriverError (Option (Scheduled T)) → List (Result DriverError (ℕ × ℕ))
key_of_pop (err e) = err e ∷ []
key_of_pop (ok none) = []
key_of_pop (ok (some s)) = ok (s.tick, s.insertion_sequence) ∷ []

-- A call's driver and what it popped.
abbrev pub apply : {T : Type 0} → Op T → Driver T → Driver T × List (Result DriverError (ℕ × ℕ))
apply (at tick event) d = ((schedule_at tick event d).0, [])
apply (later delay event) d = ((schedule_after delay event d).0, [])
apply pops d = ((pop_next d).0, key_of_pop (pop_next d).1)
apply (retains keep) d = (retain keep d, [])

-- What the calls of a history pop.
abbrev pub trace : {T : Type 0} → List (Op T) → Driver T → List (Result DriverError (ℕ × ℕ))
trace [] d = []
trace (op ∷ ops) d = (apply op d).1 ++ trace ops (apply op d).0

-- Every key is behind the one before it.
abbrev pub IsOrdered : Option (ℕ × ℕ) → List (ℕ × ℕ) → Type 0
IsOrdered last [] = Unit
IsOrdered last (k ∷ ks) = Follows last k × IsOrdered (some k) ks

abbrev pub latest : Option (ℕ × ℕ) → List (ℕ × ℕ) → Option (ℕ × ℕ)
latest last [] = last
latest last (k ∷ ks) = latest (some k) ks

IsOrdered-append :
    (last : Option (ℕ × ℕ)) (xs ys : List (ℕ × ℕ))
    → IsOrdered last xs
    → IsOrdered (latest last xs) ys
    → IsOrdered last (xs ++ ys)
IsOrdered-append last [] ys p q = q
IsOrdered-append last (x ∷ xs) ys p q = (p.0, IsOrdered-append (some x) xs ys p.1 q)

-- Pops that succeeded.
abbrev pub all_ok : List (ℕ × ℕ) → List (Result DriverError (ℕ × ℕ))
all_ok [] = []
all_ok (k ∷ ks) = ok k ∷ all_ok ks

all_ok-append : (xs ys : List (ℕ × ℕ)) → all_ok (xs ++ ys) ≡ all_ok xs ++ all_ok ys
all_ok-append [] ys = refl
all_ok-append (x ∷ xs) ys = ap (◌∷◌ (ok x)) (all_ok-append xs ys)

later_tick : (t s u v : ℕ) → cmp_pair (t, s) (u, v) ≡ Ordering.lt → t ≤ u
unfolding cmp_pair
later_tick t s u v h = ground arith

both-All :
    (key : ℕ × ℕ) (next : ℕ) (keys : List (ℕ × ℕ))
    → All (λ k. cmp_pair key k ≡ Ordering.lt) keys
    → All (λ k. k.1 < next) keys
    → All (λ k. (key.0 ≤ k.0) × (k.1 < next) × (cmp_pair key k ≡ Ordering.lt)) keys
both-All key next [] a b = tt
both-All (t, s) next ((u, v) ∷ keys) a b =
    ((later_tick t s u v a.0, b.0, a.0), both-All (t, s) next keys a.1 b.1)

module _ {T : Type 0} where
  -- A pop of an event.
  abbrev pub behind : ℕ × ℕ → List ((ℕ × ℕ) × T) → Driver T → Driver T
  behind key rest d = record d { now = key.0; queue = rest }

  pop_from-due :
      (key : ℕ × ℕ) (event : T) (rest : List ((ℕ × ℕ) × T)) (d : Driver T)
      → d.now ≤ key.0
      → pop_from ((key, event) ∷ rest) d ≡ (
        behind key rest d,
        ok (some (record { tick = key.0; insertion_sequence = key.1; event = event })),
      )
  unfolding pop_from popped advance_to
  pop_from-due (tick, sequence) event rest d h = ground arith

  behind-IsValid :
      (last : Option (ℕ × ℕ)) (key : ℕ × ℕ) (event : T) (rest : List ((ℕ × ℕ) × T)) (d : Driver T)
      → d.queue ≡ (key, event) ∷ rest
      → IsValid last d
      → IsValid (some key) (behind key rest d)
  unfolding cmp_pair pair_ord
  behind-IsValid last key event rest d q v =
      let sorted = subst BTreeMap.IsSorted q v.sorted in
      let entries =
        subst
          (λ m.
            All (λ k. (d.now ≤ k.0) × (k.1 < d.next_sequence) × Follows last k) (BTreeMap.keys m))
          q v.entries in
      record {
        sorted = sorted.1;
        entries =
            both-All key d.next_sequence (BTreeMap.keys rest) sorted.0
              (All-imp (λ k h. h.1) (BTreeMap.keys rest) entries.1);
        reached = (omega arith, entries.0.1);
      }

  pub pop_empty : (d : Driver T) → d.queue ≡ [] → pop_next d ≡ (d, ok none)
  unfolding pop_next pop_from
  pop_empty d q = ap (λ m. pop_from m d) q

  pub pop_full :
      (last : Option (ℕ × ℕ)) (d : Driver T) (key : ℕ × ℕ) (event : T) (rest : List ((ℕ × ℕ) × T))
      → d.queue ≡ (key, event) ∷ rest
      → IsValid last d
      → (pop_next d ≡ (
        behind key rest d,
        ok (some (record { tick = key.0; insertion_sequence = key.1; event = event })),
      ))
        × Follows last key
        × IsValid (some key) (behind key rest d)
  unfolding pop_next pop_from
  pop_full last d key event rest q v =
      let first =
        subst
          (λ m.
            All (λ k. (d.now ≤ k.0) × (k.1 < d.next_sequence) × Follows last k) (BTreeMap.keys m))
          q v.entries in
      (
        ap (λ m. pop_from m d) q ∙ pop_from-due key event rest d first.0.0,
        first.0.2,
        behind-IsValid last key event rest d q v,
      )

  pub pop_cases :
      (last : Option (ℕ × ℕ)) (d : Driver T) (queue : List ((ℕ × ℕ) × T))
      → d.queue ≡ queue
      → IsValid last d
      → (pop_next d ≡ (d, ok none))
        ⊎ ((key : ℕ × ℕ) × (event : T) × (rest : List ((ℕ × ℕ) × T)) × (pop_next d ≡ (
          behind key rest d,
          ok (some (record { tick = key.0; insertion_sequence = key.1; event = event })),
        ))
            × Follows last key
            × IsValid (some key) (behind key rest d))
  pop_cases last d [] q v = inl (pop_empty d q)
  pop_cases last d ((key, event) ∷ rest) q v =
      let (popped, follows, valid) = pop_full last d key event rest q v in
      inr (key, event, rest, popped, follows, valid)

  pub op-IsValid :
      (last : Option (ℕ × ℕ)) (op : Op T) (d : Driver T)
      → IsValid last d
      → (keys : List (ℕ × ℕ)) × ((apply op d).1 ≡ all_ok keys)
        × IsOrdered last keys
        × IsValid (latest last keys) (apply op d).0
  op-IsValid last (at tick event) d v = ([], refl, tt, schedule_at-IsValid last tick event d v)
  op-IsValid last (later delay event) d v =
      ([], refl, tt, schedule_after-IsValid last delay event d v)
  op-IsValid last (retains keep) d v = ([], refl, tt, retain-IsValid last keep d v)
  op-IsValid last pops d v = elim (pop_cases last d d.queue refl v) [
    | inl e ↦ ([], rw (e) refl, tt, rw (e) v)
    | inr (key, event, rest, e, follows, valid) ↦
        (key ∷ [], rw (e) refl, (follows, tt), rw (e) valid)
  ]

  trace-IsOrdered :
      (last : Option (ℕ × ℕ)) (ops : List (Op T)) (d : Driver T)
      → IsValid last d
      → (keys : List (ℕ × ℕ)) × (trace ops d ≡ all_ok keys) × IsOrdered last keys
  trace-IsOrdered last [] d v = ([], refl, tt)
  trace-IsOrdered last (op ∷ ops) d v =
      let (first, same, ordered, valid) = op-IsValid last op d v in
      let (rest, also, later_ones) = trace-IsOrdered (latest last first) ops (apply op d).0 valid in
      (
        first ++ rest,
        ap₂ ◌++◌ same also ∙ sym (all_ok-append first rest),
        IsOrdered-append last first rest ordered later_ones,
      )

  -- Whatever is scheduled, popped and dropped on a new driver, in whatever order, no pop fails, and
  -- the events come out in strictly increasing order of their ticks and, at one tick, of their
  -- insertion sequences: time never runs backwards, and events of one tick come first in, first out.
  pub pops_increase :
      (ops : List (Op T))
      → (keys : List (ℕ × ℕ)) × (trace ops new_driver ≡ all_ok keys) × IsOrdered none keys
  unfolding new_driver
  pops_increase ops =
      trace-IsOrdered none ops new_driver (record { sorted = tt; entries = tt; reached = tt })
