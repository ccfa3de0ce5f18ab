-- ===== src/Core/Dedup/Room.antt =====
-- The two eviction loops of crates/iron-core/src/dedup.rs: that of `begin`, which makes room for an
-- entry, and that of `complete`, which makes room for an outcome's bytes.
use iron_consensus.Prelude.{
  ℕ, zero, suc, ◌≤◌, ◌<◌, ◌≡◌, ◌≢◌, refl, Bool, true, false, List, [], ◌∷◌, none, some, arith, ltb,
  length, Bool-cases, inl, inr, ◌⊎◌,
}
use iron_consensus.Order.{is_eq_iff, nat_ord}
use iron_consensus.BTreeMap
use iron_consensus.Core.Dedup.Types.{DedupKey, Entry, EntryState, DedupTable, key_ord}
use iron_consensus.Core.Dedup.{
  evictable, completed_outcome, is_excluded, make_room, make_byte_room, total_fits,
}
use iron_consensus.Core.Dedup.Queue.{queued}
use iron_consensus.Core.Dedup.Valid.{IsValid}
use iron_consensus.Core.Dedup.Evict.{
  evict-cases, Shrinks, Shrinks-refl, Shrinks-trans, Evicts-Shrinks, Evicts-length,
}

-- The loop of `begin`.
pub record Room (t : DedupTable) (r : DedupTable × Bool) : Type 0 where
  pub shrinks : Shrinks none t r.0
  pub room : r.1 ≡ true → length r.0.entries < r.0.config.max_entries
  pub stuck :
      r.1 ≡ false
      → (j : DedupKey) (e : Entry) → BTreeMap.get j r.0.entries ≡ some e
      → e.state ≡ EntryState.in_flight

empty_queue :
    (order : List (ℕ × DedupKey)) (j : DedupKey) → length order ≤ 0 → queued j order ≡ none
unfolding queued
empty_queue [] j h = refl
empty_queue (x ∷ order) j h = absurd (omega arith)

-- Without a queue there are no entries.
empty_entries :
    (t : DedupTable)
    → IsValid t
    → length t.insertion_order ≤ 0
    → (j : DedupKey) (e : Entry) → BTreeMap.get j t.entries ≢ some e
empty_entries t v h j e g = ground (arith, v.linked j, empty_queue t.insertion_order j h)

pub none-evictable :
    (t : DedupTable)
    → ((j : DedupKey) (e : Entry)
        → BTreeMap.get j t.entries ≡ some e
        → evictable none t.entries j ≡ none)
    → (j : DedupKey) (e : Entry) → BTreeMap.get j t.entries ≡ some e
    → e.state ≡ EntryState.in_flight
unfolding evictable completed_outcome
none-evictable t h j e g = ground (arith, h j e g)

pub make_room-Room :
    (fuel : ℕ) (t : DedupTable)
    → IsValid t
    → length t.insertion_order ≤ fuel
    → Room t (make_room fuel t)
unfolding make_room
make_room-Room zero t v f = record {
  shrinks = Shrinks-refl none t v;
  room = λ h. ground arith;
  stuck = λ h j e g. absurd (empty_entries t v (omega arith) j e g);
}
make_room-Room (suc fuel) t v f = elim (Bool-cases (ltb (length t.entries) t.config.max_entries)) [
  | inl fits ↦ rw fits (record {
    shrinks = Shrinks-refl none t v;
    room = λ h. ground arith;
    stuck = λ h. absurd (ground arith);
  })
  | inr over ↦ elim (evict-cases none t v) [
    | inl (kept, stuck) ↦
        rw (over, kept)
          (record {
            shrinks = Shrinks-refl none t v;
            room = λ h. absurd (ground arith);
            stuck = λ h. none-evictable t stuck;
          })
    | inr (t', evicted, d) ↦
        let smaller = Evicts-Shrinks none t t' v d in
        let ih = make_room-Room fuel t' smaller.valid (omega (arith, Evicts-length none t t' d)) in
        rw (over, evicted)
          (record {
            shrinks = Shrinks-trans none t t' _ smaller ih.shrinks;
            room = ih.room;
            stuck = ih.stuck;
          })
  ]
]

-- The loop of `complete`.
pub record ByteRoom (key : DedupKey) (n : ℕ) (t : DedupTable) (r : DedupTable × Bool) : Type 0 where
  pub shrinks : Shrinks (some key) t r.0
  pub room : r.1 ≡ true → total_fits r.0 n ≡ true
  pub short : r.1 ≡ false → total_fits r.0 n ≡ false
  pub stuck :
      r.1 ≡ false
      → (j : DedupKey) (e : Entry) → BTreeMap.get j r.0.entries ≡ some e
      → (j ≡ key) ⊎ (e.state ≡ EntryState.in_flight)

none-evictable_but :
    (key : DedupKey) (t : DedupTable)
    → ((j : DedupKey) (e : Entry)
        → BTreeMap.get j t.entries ≡ some e
        → evictable (some key) t.entries j ≡ none)
    → (j : DedupKey) (e : Entry) → BTreeMap.get j t.entries ≡ some e
    → (j ≡ key) ⊎ (e.state ≡ EntryState.in_flight)
unfolding evictable completed_outcome is_excluded
none-evictable_but key t h j e g = ground (arith, h j e g, is_eq_iff key j)

pub make_byte_room-ByteRoom :
    (fuel : ℕ) (key : DedupKey) (n : ℕ) (t : DedupTable)
    → IsValid t
    → length t.insertion_order ≤ fuel
    → ByteRoom key n t (make_byte_room fuel key n t)
unfolding make_byte_room
make_byte_room-ByteRoom zero key n t v f = record {
  shrinks = Shrinks-refl (some key) t v;
  room = λ h. h;
  short = λ h. h;
  stuck = λ h j e g. absurd (empty_entries t v (omega arith) j e g);
}
make_byte_room-ByteRoom (suc fuel) key n t v f = elim (Bool-cases (total_fits t n)) [
  | inl fits ↦ rw fits (record {
    shrinks = Shrinks-refl (some key) t v;
    room = λ h. fits;
    short = λ h. absurd (ground arith);
    stuck = λ h. absurd (ground arith);
  })
  | inr over ↦ elim (evict-cases (some key) t v) [
    | inl (kept, stuck) ↦
        rw (over, kept)
          (record {
            shrinks = Shrinks-refl (some key) t v;
            room = λ h. absurd (ground arith);
            short = λ h. over;
            stuck = λ h. none-evictable_but key t stuck;
          })
    | inr (t', evicted, d) ↦
        let smaller = Evicts-Shrinks (some key) t t' v d in
        let ih =
          make_byte_room-ByteRoom fuel key n t' smaller.valid
            (omega (arith, Evicts-length (some key) t t' d)) in
        rw (over, evicted)
          (record {
            shrinks = Shrinks-trans (some key) t t' _ smaller ih.shrinks;
            room = ih.room;
            short = ih.short;
            stuck = ih.stuck;
          })
  ]
]
