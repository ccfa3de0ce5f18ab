-- ===== src/BTreeMap.antt =====
-- `std::collections::BTreeMap` as the program uses it: entries in strictly increasing key order.
pub mod Laws
use iron_consensus.Prelude.{
  Bool, true, false, List, [], ◌∷◌, ◌≡◌, All, Ordering, Option, none, some, map,
}
use iron_consensus.Order.{Ord}

module _ {ℓ κ} {K : Type ℓ} {V : Type κ} ⦃o : Ord K⦄ where
  unfoldable pub get : K → List (K × V) → Option V
  get k [] = none
  get k ((j, v) ∷ m) = elim (o.cmp k j) [ Ordering.eq ↦ some v | _ ↦ get k m ]

  unfoldable pub insert : K → V → List (K × V) → List (K × V)
  insert k v [] = (k, v) ∷ []
  insert k v ((j, w) ∷ m) = elim (o.cmp k j) [
    | Ordering.lt ↦ (k, v) ∷ (j, w) ∷ m
    | Ordering.eq ↦ (k, v) ∷ m
    | Ordering.gt ↦ (j, w) ∷ insert k v m
  ]

  unfoldable pub remove : K → List (K × V) → List (K × V)
  remove k [] = []
  remove k ((j, w) ∷ m) = elim (o.cmp k j) [ Ordering.eq ↦ m | _ ↦ (j, w) ∷ remove k m ]

  -- `collect` from entries in iteration order: a later entry replaces an earlier one.
  unfoldable pub insert_all : List (K × V) → List (K × V) → List (K × V)
  insert_all [] m = m
  insert_all ((k, v) ∷ es) m = insert_all es (insert k v m)

  abbrev pub keys : List (K × V) → List K
  keys [] = []
  keys ((k, v) ∷ m) = k ∷ keys m

  abbrev pub values : List (K × V) → List V
  values [] = []
  values ((k, v) ∷ m) = v ∷ values m

  -- The representation's invariant.
  abbrev pub IsSorted : List (K × V) → Type 0
  IsSorted [] = Unit
  IsSorted ((k, v) ∷ m) = All (λ j. o.cmp k j ≡ Ordering.lt) (keys m) × IsSorted m
