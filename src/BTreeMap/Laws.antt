-- ===== src/BTreeMap/Laws.antt =====
-- Lookup after each operation on a map, and the order of its keys.
use iron_consensus.Prelude.{
  suc, ◌≡◌, refl, List, [], ◌∷◌, arith, Ordering, All, length, Bool-cases, none, some, inl, inr,
  if◌then◌else◌,
}
use iron_consensus.Order.{Ord, is_eq}
use iron_consensus.BTreeSet.Laws.{above_trans}
use iron_consensus.BTreeMap.{get, insert, remove, keys, IsSorted}

module _ {ℓ κ} {K : Type ℓ} {V : Type κ} ⦃o : Ord K⦄ where
  pub get-insert :
      (j k : K) (v : V) (m : List (K × V))
      → get j (insert k v m) ≡ (if is_eq j k then some v else get j m)
  unfolding get insert
  get-insert j k v [] = ground arith
  get-insert j k v ((i, w) ∷ m) =
      ground (arith, o.cmp_iff k i, o.cmp_iff j i, o.cmp_iff j k, get-insert j k v m)

  pub All-get {μ} :
      (P : K → Type μ) (k : K) (v : V) (m : List (K × V)) → All P (keys m) → get k m ≡ some v → P k
  unfolding get
  All-get P k v [] h c = cc
  All-get P k v ((j, w) ∷ m) h c = elim (Bool-cases (is_eq k j)) [
    | inl same ↦ back (ground (arith, o.cmp_iff k j)) h.0
    | inr other ↦ All-get P k v m h.1 (ground arith)
  ]
    where
      back : k ≡ j → P j → P k
      back e p = rw e p

  pub get-above :
      (k : K) (m : List (K × V)) → All (λ j. o.cmp k j ≡ Ordering.lt) (keys m) → get k m ≡ none
  unfolding get
  get-above k [] h = refl
  get-above k ((j, w) ∷ m) h = ground (arith, get-above k m h.1)

  pub get-remove :
      (j k : K) (m : List (K × V))
      → IsSorted m
      → get j (remove k m) ≡ (if is_eq j k then none else get j m)
  unfolding get remove
  get-remove j k [] s = ground arith
  get-remove j k ((i, w) ∷ m) s =
      ground (
        arith,
        o.cmp_iff k i,
        o.cmp_iff j i,
        o.cmp_iff j k,
        get-remove j k m s.1,
        get-above i m s.0,
      )

  pub All-insert {μ} :
      (P : K → Type μ) (k : K) (v : V) (m : List (K × V))
      → P k
      → All P (keys m)
      → All P (keys (insert k v m))
  unfolding insert
  All-insert P k v [] p h = (p, h)
  All-insert P k v ((j, w) ∷ m) p h = ground (arith, All-insert P k v m p)

  All-remove {μ} :
      (P : K → Type μ) (k : K) (m : List (K × V)) → All P (keys m) → All P (keys (remove k m))
  unfolding remove
  All-remove P k [] h = h
  All-remove P k ((j, w) ∷ m) h = ground (arith, All-remove P k m)

  pub insert-IsSorted : (k : K) (v : V) (m : List (K × V)) → IsSorted m → IsSorted (insert k v m)
  unfolding insert
  insert-IsSorted k v [] s = (tt, tt)
  insert-IsSorted k v ((j, w) ∷ m) s = ground (
    arith,
    above_trans k j (keys m),
    o.cmp_flip k j,
    o.cmp_iff k j,
    insert-IsSorted k v m,
    All-insert (λ y. o.cmp j y ≡ Ordering.lt) k v m,
  )

  pub remove-IsSorted : (k : K) (m : List (K × V)) → IsSorted m → IsSorted (remove k m)
  unfolding remove
  remove-IsSorted k [] s = s
  remove-IsSorted k ((j, w) ∷ m) s =
      ground (arith, remove-IsSorted k m, All-remove (λ y. o.cmp j y ≡ Ordering.lt) k m)

  pub length-insert_absent :
      (k : K) (v : V) (m : List (K × V)) → get k m ≡ none → length (insert k v m) ≡ suc (length m)
  unfolding get insert
  length-insert_absent k v [] h = refl
  length-insert_absent k v ((j, w) ∷ m) h = ground (arith, length-insert_absent k v m)

  pub length-insert_present :
      (k : K) (v w : V) (m : List (K × V))
      → IsSorted m
      → get k m ≡ some w
      → length (insert k v m) ≡ length m
  unfolding get insert
  length-insert_present k v w [] s h = cc
  length-insert_present k v w ((j, u) ∷ m) s h = elim (Bool-cases (is_eq k j)) [
    | inl same ↦ ground arith
    | inr other ↦
        let above = All-get (λ y. o.cmp j y ≡ Ordering.lt) k w m s.0 (ground arith) in
        ground (arith, o.cmp_flip k j, o.cmp_iff k j, length-insert_present k v w m s.1)
  ]

  pub length-remove :
      (k : K) (v : V) (m : List (K × V)) → get k m ≡ some v → suc (length (remove k m)) ≡ length m
  unfolding get remove
  length-remove k v [] h = cc
  length-remove k v ((j, w) ∷ m) h = ground (arith, length-remove k v m)
