-- ===== src/BTreeSet/Quorum.antt =====
-- Counting in sets: inclusion bounds the size, and two majorities of one set meet.
use iron_consensus.Prelude.{
  ◌+◌, ◌/◌, ◌≤◌, ◌<◌, ◌≡◌, sym, subst, ◌⊎◌, inl, inr, true, List, [], ◌∷◌, arith, length,
  Bool-cases,
}
use iron_consensus.Order.{Ord, is_eq, cmp_refl}
use iron_consensus.BTreeSet.{contains, IsSorted, Subset}
use iron_consensus.BTreeSet.Laws.{Subset-tail, Subset-skip}

module _ {ℓ} {K : Type ℓ} ⦃o : Ord K⦄ where
  -- The head of a set is the head of a set that includes it, or is found further on.
  head-cases :
      (a x : K) (as' ms : List K)
      → IsSorted (a ∷ as')
      → IsSorted (x ∷ ms)
      → Subset (a ∷ as') (x ∷ ms)
      → ((a ≡ x) × Subset as' ms) ⊎ Subset (a ∷ as') ms
  head-cases a x as' ms s t h = elim (Bool-cases (is_eq a x)) [
    | inl same ↦
        let e : a ≡ x = ground (arith, o.cmp_iff a x) in
        inl (e, Subset-tail a as' ms s (subst (λ z. Subset (a ∷ as') (z ∷ ms)) (sym e) h))
    | inr other ↦ inr (Subset-skip x a as' ms s t (λ e. ground (arith, o.cmp_iff a x)) h)
  ]

  not-Subset-nil : (a : K) (as' : List K) → ¬ Subset (a ∷ as') []
  unfolding contains
  not-Subset-nil a as' h = ground (arith, h a, cmp_refl a)

  pub length-Subset-le :
      (as' ms : List K) → IsSorted as' → IsSorted ms → Subset as' ms → length as' ≤ length ms
  length-Subset-le [] ms s t h = omega arith
  length-Subset-le (a ∷ as') [] s t h = absurd (not-Subset-nil a as' h)
  length-Subset-le (a ∷ as') (x ∷ ms) s t h = elim (head-cases a x as' ms s t h) [
    | inl (_, h') ↦ omega (arith, length-Subset-le as' ms s.1 t.1 h')
    | inr h' ↦ omega (arith, length-Subset-le (a ∷ as') ms s t.1 h')
  ]

  abbrev Common : List K → List K → Type ℓ
  Common a b = (k : K) × (contains k a ≡ true) × (contains k b ≡ true)

  Common-tails : (x y : K) (a b : List K) → Common a b → Common (x ∷ a) (y ∷ b)
  unfolding contains
  Common-tails x y a b (k, p, q) = (k, ground arith, ground arith)

  Common-heads : (x y : K) (a b : List K) → x ≡ y → Common (x ∷ a) (y ∷ b)
  unfolding contains
  Common-heads x y a b e = (x, ground (arith, cmp_refl x), ground (arith, o.cmp_iff x y))

  Common-left : (x : K) (a b : List K) → Common a b → Common (x ∷ a) b
  unfolding contains
  Common-left x a b (k, p, q) = (k, ground arith, q)

  Common-right : (y : K) (a b : List K) → Common a b → Common a (y ∷ b)
  unfolding contains
  Common-right y a b (k, p, q) = (k, p, ground arith)

  -- Two sets of members that together outnumber the membership have a member in common.
  pub overlap :
      (ms as' bs : List K)
      → IsSorted ms
      → IsSorted as'
      → IsSorted bs
      → Subset as' ms
      → Subset bs ms
      → length ms < length as' + length bs
      → Common as' bs
  overlap [] [] [] u s t h g lt = absurd (omega arith)
  overlap [] (a ∷ as') bs u s t h g lt = absurd (not-Subset-nil a as' h)
  overlap [] [] (b ∷ bs) u s t h g lt = absurd (not-Subset-nil b bs g)
  overlap (x ∷ ms) [] bs u s t h g lt = absurd (omega (arith, length-Subset-le bs (x ∷ ms) t u g))
  overlap (x ∷ ms) (a ∷ as') [] u s t h g lt =
      absurd (omega (arith, length-Subset-le (a ∷ as') (x ∷ ms) s u h))
  overlap (x ∷ ms) (a ∷ as') (b ∷ bs) u s t h g lt = elim (head-cases a x as' ms s u h) [
    | inl (p, h') ↦ elim (head-cases b x bs ms t u g) [
      | inl (q, g') ↦ Common-heads a b as' bs (rw (p, q))
      | inr g' ↦ Common-left a as' (b ∷ bs) (overlap ms as' (b ∷ bs) u.1 s.1 t h' g' (omega arith))
    ]
    | inr h' ↦ elim (head-cases b x bs ms t u g) [
      | inl (q, g') ↦
          Common-right b (a ∷ as') bs (overlap ms (a ∷ as') bs u.1 s t.1 h' g' (omega arith))
      | inr g' ↦ overlap ms (a ∷ as') (b ∷ bs) u.1 s t h' g' (omega arith)
    ]
  ]

  -- Two majorities, of `len / 2 + 1` members each, meet.
  pub majorities_meet :
      (ms as' bs : List K)
      → IsSorted ms
      → IsSorted as'
      → IsSorted bs
      → Subset as' ms
      → Subset bs ms
      → length ms / 2 + 1 ≤ length as'
      → length ms / 2 + 1 ≤ length bs
      → (k : K) × (contains k as' ≡ true) × (contains k bs ≡ true)
  majorities_meet ms as' bs u s t h g p q = overlap ms as' bs u s t h g (omega arith)
