-- ===== src/Core/Dedup/Loops.antt =====
-- The loops of `begin` and `complete` in crates/iron-core/src/dedup.rs, without fuel, and their end.
use iron_consensus.Prelude.{
  ℕ, zero, suc, ◌≤◌, ◌≡◌, Bool, true, false, Option, none, some, arith, length, ltb, Bool-cases,
  inl, inr,
}
use iron_consensus.Order.{nat_ord, list_ord}
use iron_consensus.Core.Dedup.Types.{DedupKey, DedupTable, key_ord}
use iron_consensus.Core.Dedup.{make_room, make_byte_room, evict_oldest_completed, total_fits}
use iron_consensus.Core.Dedup.Valid.{IsValid}
use iron_consensus.Core.Dedup.Evict.{Evicts, evict-cases, Evicts-Shrinks, Evicts-length}

-- A loop that evicts until the table fits, as the source has it, without fuel: it leaves with `true`
-- when the table fits and with `false` when nothing was evicted, and else goes round again. The number
-- counts its rounds with an eviction.
pub data EvictionLoop (fits : DedupTable → Bool) (excluded : Option DedupKey)
    : ℕ → DedupTable → DedupTable × Bool → Type 0 where
  fitting : (t : DedupTable) → fits t ≡ true → EvictionLoop fits excluded 0 t (t, true)
  stuck :
      (t u : DedupTable)
      → fits t ≡ false
      → evict_oldest_completed excluded t ≡ (u, false)
      → EvictionLoop fits excluded 0 t (u, false)
  again :
      (rounds : ℕ) (t u : DedupTable) (r : DedupTable × Bool)
      → fits t ≡ false
      → evict_oldest_completed excluded t ≡ (u, true)
      → EvictionLoop fits excluded rounds u r
      → EvictionLoop fits excluded (suc rounds) t r

-- The conditions of the two loops.
abbrev pub has_room : DedupTable → Bool
has_room t = ltb (length t.entries) t.config.max_entries

abbrev pub has_byte_room : ℕ → DedupTable → Bool
has_byte_room n t = total_fits t n

-- A run of the source's loop that ends after at most as many rounds as the queue is long.
abbrev pub Ends : (DedupTable → Bool) → Option DedupKey → DedupTable → DedupTable × Bool → Type 0
Ends fits excluded t r =
    (rounds : ℕ) × (rounds ≤ length t.insertion_order) × EvictionLoop fits excluded rounds t r

again-Ends :
    (fits : DedupTable → Bool) (x : Option DedupKey) (t u : DedupTable) (r : DedupTable × Bool)
    → fits t ≡ false
    → evict_oldest_completed x t ≡ (u, true)
    → Evicts x t u
    → Ends fits x u r
    → Ends fits x t r
again-Ends fits x t u r over evicted d (rounds, few, ends) =
    (suc rounds, omega (arith, Evicts-length x t u d), again rounds t u r over evicted ends)

make_room-Ends :
    (fuel : ℕ) (t : DedupTable)
    → IsValid t
    → length t.insertion_order ≤ fuel
    → Ends has_room none t (make_room fuel t)
unfolding make_room
make_room-Ends zero t v p = elim (Bool-cases (has_room t)) [
  | inl room ↦ rw room (0, omega arith, fitting t room)
  | inr over ↦ elim (evict-cases none t v) [
    | inl (kept, nothing) ↦ rw over (0, omega arith, stuck t t over kept)
    | inr (u, evicted, d) ↦ absurd (omega (arith, Evicts-length none t u d))
  ]
]
make_room-Ends (suc fuel) t v p = elim (Bool-cases (has_room t)) [
  | inl room ↦ rw room (0, omega arith, fitting t room)
  | inr over ↦ elim (evict-cases none t v) [
    | inl (kept, nothing) ↦ rw (over, kept) (0, omega arith, stuck t t over kept)
    | inr (u, evicted, d) ↦
        let smaller = Evicts-length none t u d in
        rw (over, evicted)
          (again-Ends has_room none t u (make_room fuel u) over evicted d
            (make_room-Ends fuel u (Evicts-Shrinks none t u v d).valid (omega arith)))
  ]
]

make_byte_room-Ends :
    (fuel : ℕ) (key : DedupKey) (n : ℕ) (t : DedupTable)
    → IsValid t
    → length t.insertion_order ≤ fuel
    → Ends (has_byte_room n) (some key) t (make_byte_room fuel key n t)
unfolding make_byte_room
make_byte_room-Ends zero key n t v p = elim (Bool-cases (total_fits t n)) [
  | inl room ↦ rw room (0, omega arith, fitting t room)
  | inr over ↦ elim (evict-cases (some key) t v) [
    | inl (kept, nothing) ↦ rw over (0, omega arith, stuck t t over kept)
    | inr (u, evicted, d) ↦ absurd (omega (arith, Evicts-length (some key) t u d))
  ]
]
make_byte_room-Ends (suc fuel) key n t v p = elim (Bool-cases (total_fits t n)) [
  | inl room ↦ rw room (0, omega arith, fitting t room)
  | inr over ↦ elim (evict-cases (some key) t v) [
    | inl (kept, nothing) ↦ rw (over, kept) (0, omega arith, stuck t t over kept)
    | inr (u, evicted, d) ↦
        let smaller = Evicts-length (some key) t u d in
        rw (over, evicted)
          (again-Ends (has_byte_room n) (some key) t u (make_byte_room fuel key n u) over evicted d
            (make_byte_room-Ends fuel key n u (Evicts-Shrinks (some key) t u v d).valid
              (omega arith)))
  ]
]

-- In a table where the invariant holds, both eviction loops of the source, which have no fuel, end
-- after at most as many evictions as the queue is long, and with the result that the functions with
-- any fuel of at least that return.
pub eviction_loops_end :
    (t : DedupTable) (key : DedupKey) (n fuel : ℕ)
    → IsValid t
    → length t.insertion_order ≤ fuel
    → Ends has_room none t (make_room fuel t)
      × Ends (has_byte_room n) (some key) t (make_byte_room fuel key n t)
eviction_loops_end t key n fuel v h =
    (make_room-Ends fuel t v h, make_byte_room-Ends fuel key n t v h)
