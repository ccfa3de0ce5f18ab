-- ===== src/BTreeSet.antt =====
-- `std::collections::BTreeSet` as the program uses it: a strictly increasing list of keys, so that
-- iteration is in key order and `==` is equality of lists.
pub mod Laws
pub mod Quorum
use iron_consensus.Prelude.{Bool, true, false, List, [], ◌∷◌, ◌≡◌, All, Ordering}
use iron_consensus.Order.{Ord}

module _ {ℓ} {K : Type ℓ} ⦃o : Ord K⦄ where
  unfoldable pub contains : K → List K → Bool
  contains k [] = false
  contains k (x ∷ xs) = elim (o.cmp k x) [ Ordering.eq ↦ true | _ ↦ contains k xs ]

  unfoldable pub insert : K → List K → List K
  insert k [] = k ∷ []
  insert k (x ∷ xs) = elim (o.cmp k x) [
    | Ordering.lt ↦ k ∷ x ∷ xs
    | Ordering.eq ↦ x ∷ xs
    | Ordering.gt ↦ x ∷ insert k xs
  ]

  unfoldable pub remove : K → List K → List K
  remove k [] = []
  remove k (x ∷ xs) = elim (o.cmp k x) [ Ordering.eq ↦ xs | _ ↦ x ∷ remove k xs ]

  -- `collect` into a set.
  unfoldable pub from_list : List K → List K
  from_list [] = []
  from_list (x ∷ xs) = insert x (from_list xs)

  -- `==` on sets.
  unfoldable pub set_eq : List K → List K → Bool
  set_eq [] [] = true
  set_eq [] (y ∷ ys) = false
  set_eq (x ∷ xs) [] = false
  set_eq (x ∷ xs) (y ∷ ys) = elim (o.cmp x y) [ Ordering.eq ↦ set_eq xs ys | _ ↦ false ]

  -- The representation's invariant: strictly increasing keys.
  abbrev pub IsSorted : List K → Type 0
  IsSorted [] = Unit
  IsSorted (x ∷ xs) = All (λ y. o.cmp x y ≡ Ordering.lt) xs × IsSorted xs

  abbrev pub Subset : List K → List K → Type ℓ
  Subset a b = (k : K) → contains k a ≡ true → contains k b ≡ true
