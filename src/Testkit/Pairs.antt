-- ===== src/Testkit/Pairs.antt =====
-- Rust's order on pairs, which the queue and the partitions of crates/iron-testkit are sorted by.
use iron_consensus.Prelude.{◌≡◌, ◌↔◌, Ordering, arith}
use iron_consensus.Order.{Ord, opposite, then_cmp}

module _ {A B : Type 0} ⦃o : Ord A⦄ ⦃p : Ord B⦄ where
  unfoldable pub cmp_pair : A × B → A × B → Ordering
  cmp_pair a b = then_cmp (o.cmp a.0 b.0) (p.cmp a.1 b.1)

  pub cmp_pair_iff : (a b : A × B) → (cmp_pair a b ≡ Ordering.eq) ↔ (a ≡ b)
  unfolding cmp_pair
  cmp_pair_iff (a, b) (c, d) = ground (arith, o.cmp_iff a c, p.cmp_iff b d)

  pub cmp_pair_flip : (a b : A × B) → cmp_pair b a ≡ opposite (cmp_pair a b)
  unfolding cmp_pair
  cmp_pair_flip (a, b) (c, d) = ground (arith, o.cmp_flip a c, p.cmp_flip b d)

  pub cmp_pair_trans :
      (a b c : A × B)
      → cmp_pair a b ≡ Ordering.lt
      → cmp_pair b c ≡ Ordering.lt
      → cmp_pair a c ≡ Ordering.lt
  unfolding cmp_pair
  cmp_pair_trans (a, x) (b, y) (c, z) h k =
      ground
        (arith, o.cmp_iff a b, o.cmp_iff b c, o.cmp_iff a c, o.cmp_trans a b c, p.cmp_trans x y z)

  instance unfoldable pub pair_ord : Ord (A × B)
  pair_ord = record {
    cmp = cmp_pair;
    cmp_iff = cmp_pair_iff;
    cmp_flip = cmp_pair_flip;
    cmp_trans = cmp_pair_trans;
  }
