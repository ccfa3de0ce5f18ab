-- ===== src/BTreeSet/Laws.antt =====
-- Membership, order and extensionality of sets.
use iron_consensus.Prelude.{
  suc, ◌≤◌, ◌≡◌, refl, sym, ap, subst, ◌⊎◌, inl, inr, true, false, ◌||◌, List, [], ◌∷◌, arith,
  Ordering, All, length, Bool-cases, All-imp, ◌≢◌,
}
use iron_consensus.Order.{Ord, is_eq, cmp_refl}
use iron_consensus.BTreeSet.{contains, insert, from_list, set_eq, IsSorted, Subset}

module _ {ℓ} {K : Type ℓ} ⦃o : Ord K⦄ where
  -- A set holds what was inserted and what it held before.
  pub contains-insert :
      (j k : K) (xs : List K) → contains j (insert k xs) ≡ (is_eq j k || contains j xs)
  unfolding contains insert
  contains-insert j k [] = ground arith
  contains-insert j k (x ∷ xs) =
      ground (arith, o.cmp_iff k x, o.cmp_iff j x, o.cmp_iff j k, contains-insert j k xs)

  pub contains-insert_self : (k : K) (xs : List K) → contains k (insert k xs) ≡ true
  contains-insert_self k xs = ground (arith, contains-insert k k xs, cmp_refl k)

  pub contains-insert_mono :
      (j k : K) (xs : List K) → contains j xs ≡ true → contains j (insert k xs) ≡ true
  contains-insert_mono j k xs h = ground (arith, contains-insert j k xs)

  pub insert-cases :
      (j k : K) (xs : List K) → contains j (insert k xs) ≡ true → (j ≡ k) ⊎ (contains j xs ≡ true)
  insert-cases j k xs h = ground (arith, contains-insert j k xs, o.cmp_iff j k)

  All-insert {κ} : (P : K → Type κ) (k : K) (xs : List K) → P k → All P xs → All P (insert k xs)
  unfolding insert
  All-insert P k [] p h = (p, h)
  All-insert P k (x ∷ xs) p h = ground (arith, All-insert P k xs p)

  pub above_trans :
      (a b : K) (xs : List K)
      → o.cmp a b ≡ Ordering.lt
      → All (λ y. o.cmp b y ≡ Ordering.lt) xs
      → All (λ y. o.cmp a y ≡ Ordering.lt) xs
  above_trans a b xs p h = All-imp (λ y q. o.cmp_trans a b y p q) xs h

  pub insert-IsSorted : (k : K) (xs : List K) → IsSorted xs → IsSorted (insert k xs)
  unfolding insert
  insert-IsSorted k [] s = (tt, tt)
  insert-IsSorted k (x ∷ xs) s = ground (
    arith,
    above_trans k x xs,
    o.cmp_flip k x,
    insert-IsSorted k xs,
    All-insert (λ y. o.cmp x y ≡ Ordering.lt) k xs,
  )

  pub from_list-IsSorted : (xs : List K) → IsSorted (from_list xs)
  unfolding from_list
  from_list-IsSorted [] = tt
  from_list-IsSorted (x ∷ xs) = insert-IsSorted x (from_list xs) (from_list-IsSorted xs)

  pub contains-from_list : (j : K) (xs : List K) → contains j (from_list xs) ≡ contains j xs
  unfolding from_list contains
  contains-from_list j [] = refl
  contains-from_list j (x ∷ xs) =
      ground (arith, contains-insert j x (from_list xs), contains-from_list j xs)

  All-contains {κ} : (P : K → Type κ) (k : K) (xs : List K) → All P xs → contains k xs ≡ true → P k
  unfolding contains
  All-contains P k [] h c = cc
  All-contains P k (x ∷ xs) h c = elim (Bool-cases (is_eq k x)) [
    | inl same ↦ subst-back (ground (arith, o.cmp_iff k x)) h.0
    | inr other ↦ All-contains P k xs h.1 (ground arith)
  ]
    where
      subst-back : k ≡ x → P x → P k
      subst-back e p = rw e p

  -- Members of the tail of a sorted set are above its head.
  pub cmp-tail :
      (x k : K) (xs : List K) → IsSorted (x ∷ xs) → contains k xs ≡ true → o.cmp x k ≡ Ordering.lt
  cmp-tail x k xs s c = All-contains (λ y. o.cmp x y ≡ Ordering.lt) k xs s.0 c

  pub not-contains-tail : (x : K) (xs : List K) → IsSorted (x ∷ xs) → contains x xs ≡ false
  not-contains-tail x xs s = elim (Bool-cases (contains x xs)) [
    | inl c ↦ ground (arith, cmp-tail x x xs s c, cmp_refl x)
    | inr c ↦ c
  ]

  -- Inserting a key that is there changes nothing; a new key adds one.
  pub insert_present : (k : K) (xs : List K) → IsSorted xs → contains k xs ≡ true → insert k xs ≡ xs
  unfolding insert contains
  insert_present k [] s c = cc
  insert_present k (x ∷ xs) s c =
      ground (arith, o.cmp_flip k x, cmp-tail x k xs s, insert_present k xs s.1)

  pub length-insert_absent :
      (k : K) (xs : List K) → contains k xs ≡ false → length (insert k xs) ≡ suc (length xs)
  unfolding insert contains
  length-insert_absent k [] c = refl
  length-insert_absent k (x ∷ xs) c = ground (arith, length-insert_absent k xs)

  pub length-insert-ge : (k : K) (xs : List K) → length xs ≤ length (insert k xs)
  unfolding insert
  length-insert-ge k [] = omega arith
  length-insert-ge k (x ∷ xs) = ground (arith, length-insert-ge k xs)

  pub set_eq_sound : (xs ys : List K) → set_eq xs ys ≡ true → xs ≡ ys
  unfolding set_eq
  set_eq_sound [] [] h = refl
  set_eq_sound [] (y ∷ ys) h = cc
  set_eq_sound (x ∷ xs) [] h = cc
  set_eq_sound (x ∷ xs) (y ∷ ys) h = ground (arith, o.cmp_iff x y, set_eq_sound xs ys)

  pub set_eq_refl : (xs : List K) → set_eq xs xs ≡ true
  unfolding set_eq
  set_eq_refl [] = refl
  set_eq_refl (x ∷ xs) = ground (arith, cmp_refl x, set_eq_refl xs)

  -- Dropping the common least key of two sets keeps inclusion.
  pub Subset-tail :
      (x : K) (as' ms : List K) → IsSorted (x ∷ as') → Subset (x ∷ as') (x ∷ ms) → Subset as' ms
  unfolding contains
  Subset-tail x as' ms s h k c =
      ground (arith, h k, cmp-tail x k as' s c, o.cmp_flip x k, o.cmp_iff k x)

  -- A set with another least key is included in the rest.
  pub Subset-skip :
      (x y : K) (as' ms : List K)
      → IsSorted (y ∷ as')
      → IsSorted (x ∷ ms)
      → y ≢ x
      → Subset (y ∷ as') (x ∷ ms)
      → Subset (y ∷ as') ms
  unfolding contains
  Subset-skip x y as' ms s t ne h k c = ground (
    arith,
    h k,
    h y,
    cmp_refl y,
    o.cmp_iff k x,
    o.cmp_iff y x,
    o.cmp_iff x y,
    o.cmp_iff k y,
    cmp-tail x y ms t,
    cmp-tail y k as' s,
    o.cmp_flip x y,
    o.cmp_flip y k,
  )

  -- Two sets with the same members are equal.
  pub set_ext :
      (as' bs : List K) → IsSorted as' → IsSorted bs → Subset as' bs → Subset bs as' → as' ≡ bs
  unfolding contains
  set_ext [] [] s t h g = refl
  set_ext [] (b ∷ bs) s t h g = ground (arith, g b, cmp_refl b)
  set_ext (a ∷ as') [] s t h g = ground (arith, h a, cmp_refl a)
  set_ext (a ∷ as') (b ∷ bs) s t h g = elim (Bool-cases (is_eq a b)) [
    | inl same ↦
        let e : b ≡ a = ground (arith, o.cmp_iff a b) in
        let t' = subst (λ z. IsSorted (z ∷ bs)) e t in
        let h' = subst (λ z. Subset (a ∷ as') (z ∷ bs)) e h in
        let g' = subst (λ z. Subset (z ∷ bs) (a ∷ as')) e g in
        subst (λ z. a ∷ as' ≡ z ∷ bs) (sym e)
          (ap (◌∷◌ a)
            (set_ext as' bs s.1 t.1 (Subset-tail a as' bs s h') (Subset-tail a bs as' t' g')))
    | inr other ↦ ground (
      arith,
      h a,
      g b,
      cmp_refl a,
      cmp_refl b,
      o.cmp_iff a b,
      o.cmp_flip a b,
      cmp-tail a b as' s,
      cmp-tail b a bs t,
    )
  ]
