-- ===== src/Core/Dedup/Bytes.antt =====
-- The outcome bytes that the entries of crates/iron-core/src/dedup.rs retain.
use iron_consensus.Prelude.{
  ℕ, ◌+◌, ◌≡◌, refl, List, [], ◌∷◌, none, some, arith, length, Ordering, inl, inr, Bool-cases,
}
use iron_consensus.Order.{is_eq, cmp_refl}
use iron_consensus.BTreeMap
use iron_consensus.BTreeMap.Laws.{All-get, get-above}
use iron_consensus.Core.Dedup.Types.{DedupKey, Entry, EntryState, key_ord}

abbrev pub weight : EntryState → ℕ
weight EntryState.in_flight = 0
weight (EntryState.completed outcome) = length outcome

abbrev pub total : List (DedupKey × Entry) → ℕ
total [] = 0
total ((k, e) ∷ m) = weight e.state + total m

pub total-remove :
    (k : DedupKey) (e : Entry) (m : List (DedupKey × Entry))
    → BTreeMap.get k m ≡ some e
    → total (BTreeMap.remove k m) + weight e.state ≡ total m
unfolding BTreeMap.get BTreeMap.remove
total-remove k e [] h = absurd (grind (arith, h))
total-remove k e ((j, f) ∷ m) h = ground (arith, total-remove k e m)

pub total-insert_absent :
    (k : DedupKey) (e : Entry) (m : List (DedupKey × Entry))
    → BTreeMap.get k m ≡ none
    → total (BTreeMap.insert k e m) ≡ total m + weight e.state
unfolding BTreeMap.get BTreeMap.insert
total-insert_absent k e [] h = omega arith
total-insert_absent k e ((j, f) ∷ m) h = ground (arith, total-insert_absent k e m)

pub total-insert_present :
    (k : DedupKey) (e f : Entry) (m : List (DedupKey × Entry))
    → BTreeMap.IsSorted m
    → BTreeMap.get k m ≡ some e
    → total (BTreeMap.insert k f m) + weight e.state ≡ total m + weight f.state
unfolding BTreeMap.get BTreeMap.insert
total-insert_present k e f [] s h = absurd (grind (arith, h))
total-insert_present k e f ((j, g) ∷ m) s h = elim (Bool-cases (is_eq k j)) [
  | inl same ↦ ground arith
  | inr other ↦
      let above = All-get (λ y. key_ord.cmp j y ≡ Ordering.lt) k e m s.0 (ground arith) in
      ground (arith, key_ord.cmp_flip k j, key_ord.cmp_iff k j, total-insert_present k e f m s.1)
]

-- No completed entry retains nothing.
pub total-none :
    (m : List (DedupKey × Entry))
    → BTreeMap.IsSorted m
    → ((j : DedupKey) (e : Entry) → BTreeMap.get j m ≡ some e → weight e.state ≡ 0)
    → total m ≡ 0
unfolding BTreeMap.get
total-none [] s h = refl
total-none ((k, e) ∷ m) s h =
    let here : weight e.state ≡ 0 = h k e (ground (arith, cmp_refl k)) in
    let there : total m ≡ 0 =
      total-none m s.1 (λ j f g. h j f (ground (arith, get-above k m s.0, key_ord.cmp_iff j k))) in
    omega arith
