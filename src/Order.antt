-- ===== src/Order.antt =====
-- Rust's `Ord` as an interface with the laws that the trait asks for, and the instances that the
-- program's keys need: integers, byte strings and pairs.
use iron_consensus.Prelude.{
  ℕ, ◌≡◌, refl, ◌↔◌, Bool, true, false, List, [], ◌∷◌, arith, Ordering, compare,
}

abbrev pub opposite : Ordering → Ordering
opposite Ordering.lt = Ordering.gt
opposite Ordering.eq = Ordering.eq
opposite Ordering.gt = Ordering.lt

-- `Ordering::then`
abbrev pub then_cmp : Ordering → Ordering → Ordering
then_cmp Ordering.eq second = second
then_cmp first _ = first

pub record Ord {ℓ} (K : Type ℓ) : Type ℓ where
  pub cmp : K → K → Ordering
  pub cmp_iff : (a b : K) → (cmp a b ≡ Ordering.eq) ↔ (a ≡ b)
  pub cmp_flip : (a b : K) → cmp b a ≡ opposite (cmp a b)
  pub cmp_trans :
      (a b c : K) → cmp a b ≡ Ordering.lt → cmp b c ≡ Ordering.lt → cmp a c ≡ Ordering.lt

module _ {ℓ} {K : Type ℓ} ⦃o : Ord K⦄ where
  abbrev pub is_eq : K → K → Bool
  is_eq a b = elim (o.cmp a b) [ Ordering.eq ↦ true | _ ↦ false ]

  abbrev pub is_lt : K → K → Bool
  is_lt a b = elim (o.cmp a b) [ Ordering.lt ↦ true | _ ↦ false ]

  pub is_eq_iff : (a b : K) → (is_eq a b ≡ true) ↔ (a ≡ b)
  is_eq_iff a b = ground (arith, o.cmp_iff a b)

  pub cmp_refl : (a : K) → o.cmp a a ≡ Ordering.eq
  cmp_refl a = (o.cmp_iff a a).1 refl

pub nat_cmp_iff : (a b : ℕ) → (compare a b ≡ Ordering.eq) ↔ (a ≡ b)
nat_cmp_iff a b = ground arith

pub nat_cmp_flip : (a b : ℕ) → compare b a ≡ opposite (compare a b)
nat_cmp_flip a b = ground arith

pub nat_cmp_trans :
    (a b c : ℕ) → compare a b ≡ Ordering.lt → compare b c ≡ Ordering.lt → compare a c ≡ Ordering.lt
nat_cmp_trans a b c p q = ground arith

instance abbrev pub nat_ord : Ord ℕ
nat_ord = record {
  cmp = compare;
  cmp_iff = nat_cmp_iff;
  cmp_flip = nat_cmp_flip;
  cmp_trans = nat_cmp_trans;
}

module _ {ℓ} {K : Type ℓ} ⦃o : Ord K⦄ where
  -- Slices and strings compare lexicographically.
  unfoldable pub cmp_list : List K → List K → Ordering
  cmp_list [] [] = Ordering.eq
  cmp_list [] (b ∷ bs) = Ordering.lt
  cmp_list (a ∷ as') [] = Ordering.gt
  cmp_list (a ∷ as') (b ∷ bs) = then_cmp (o.cmp a b) (cmp_list as' bs)

  pub cmp_list_iff : (a b : List K) → (cmp_list a b ≡ Ordering.eq) ↔ (a ≡ b)
  unfolding cmp_list
  cmp_list_iff [] [] = ground arith
  cmp_list_iff [] (b ∷ bs) = ground arith
  cmp_list_iff (a ∷ as') [] = ground arith
  cmp_list_iff (a ∷ as') (b ∷ bs) = ground (arith, o.cmp_iff a b, cmp_list_iff as' bs)

  pub cmp_list_flip : (a b : List K) → cmp_list b a ≡ opposite (cmp_list a b)
  unfolding cmp_list
  cmp_list_flip [] [] = refl
  cmp_list_flip [] (b ∷ bs) = refl
  cmp_list_flip (a ∷ as') [] = refl
  cmp_list_flip (a ∷ as') (b ∷ bs) = ground (arith, o.cmp_flip a b, cmp_list_flip as' bs)

  pub cmp_list_trans :
      (a b c : List K)
      → cmp_list a b ≡ Ordering.lt
      → cmp_list b c ≡ Ordering.lt
      → cmp_list a c ≡ Ordering.lt
  unfolding cmp_list
  cmp_list_trans [] b [] p q = ground arith
  cmp_list_trans [] b (c ∷ cs) p q = refl
  cmp_list_trans (a ∷ as') [] c p q = ground arith
  cmp_list_trans (a ∷ as') (b ∷ bs) [] p q = ground arith
  cmp_list_trans (a ∷ as') (b ∷ bs) (c ∷ cs) p q = ground (
    arith,
    o.cmp_iff a b,
    o.cmp_iff b c,
    o.cmp_iff a c,
    o.cmp_trans a b c,
    cmp_list_trans as' bs cs,
  )

  instance unfoldable pub list_ord : Ord (List K)
  list_ord = record {
    cmp = cmp_list;
    cmp_iff = cmp_list_iff;
    cmp_flip = cmp_list_flip;
    cmp_trans = cmp_list_trans;
  }
