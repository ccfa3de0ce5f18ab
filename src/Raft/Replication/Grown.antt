-- ===== src/Raft/Replication/Grown.antt =====
-- A proposal of a leader in the cluster of Raft/Replication.antt leaves its logs matched.
use iron_consensus.Prelude.{
  ℕ, suc, ◌+◌, ◌≡◌, refl, sym, ap, subst, ◌∙◌, ◌⊎◌, inl, inr, true, false, List, [], ◌∷◌, ◌++◌,
  some, length, length-append, take, get_elem?, arith, Bool-cases,
}
use iron_consensus.Order.{is_eq, is_eq_iff}
use iron_consensus.Core.Id.{NodeId, node_ord}
use iron_consensus.BTreeSet.{contains}
use iron_consensus.Raft.Types.{Role, LogEntry, RaftNode}
use iron_consensus.Raft.Steps.{Event, step}
use iron_consensus.Raft.Matching.{Match, Match-sym, get_elem?-snoc, get_elem?-length, take-snoc}
use iron_consensus.Raft.Logs.{entry_of, Proposed}
use iron_consensus.Raft.Sends.{In}
use iron_consensus.Raft.Election.{Heard}
use iron_consensus.Raft.Replication.{Network, office, Delivered, move}
use iron_consensus.Raft.Replication.Offices.{led-old, move-IsLed}
use iron_consensus.Raft.Replication.Matched.{
  Known, Owns, IsMatched, Known-cases, whole_now, logs_before, at, still,
}

-- A log that owns its term's entries, one of that term longer, matches what the shorter one matched.
Match-snoc :
    (own xs : List LogEntry) (z : LogEntry)
    → Match xs own
    → Owns own z.term xs
    → Match xs (own ++ (z ∷ []))
Match-snoc own xs z h owns i x y hx hy same = elim (get_elem?-snoc own z i y hy) [
  | inl before ↦
      h i x y hx before same ∙ sym (take-snoc own z (suc i) (get_elem?-length own i y before))
  | inr (last, newest) ↦
      absurd (omega (arith, last, (owns i x hx (same ∙ ap (λ e. e.term) newest)).0))
]

Match-refl : (xs : List LogEntry) → Match xs xs
Match-refl xs i x y hx hy same = refl

length-snoc : (own : List LogEntry) (z : LogEntry) → length (own ++ (z ∷ [])) ≡ length own + 1
length-snoc own z = length-append own (z ∷ [])

-- It owns what it owned.
Owns-snoc :
    (own xs : List LogEntry) (z : LogEntry) (term : ℕ)
    → Owns own term xs
    → Owns (own ++ (z ∷ [])) term xs
Owns-snoc own xs z term owns i x hx same =
    let (short, agree) = owns i x hx same in
    (omega (arith, short, length-snoc own z), agree ∙ sym (take-snoc own z (suc i) short))

module _ (members : List NodeId) (n : Network) (k : NodeId) (e : Event)
    (m : contains k members ≡ true) (heard : Heard n.cluster.grants k e)
    (delivered : Delivered n.sent k e) (v : IsMatched members n) where
  abbrev q : Network
  q = move n k e

  abbrev s : RaftNode
  s = n.cluster.node k

  abbrev t : RaftNode
  t = step s e

  module _ (p : Proposed s t) where
    abbrev z : LogEntry
    z = entry_of s.current_term p.command

    abbrev grown : List LogEntry
    grown = s.log ++ (z ∷ [])

    cases : (xs : List LogEntry) → Known members q xs → Known members n xs ⊎ (xs ≡ grown)
    cases xs h = elim (Known-cases members n k e m heard delivered v xs h) [
      | inl known ↦ inl known
      | inr same ↦ inr (same ∙ p.log)
    ]

    here' : Known members n s.log
    here' = logs_before members n k e m heard delivered v

    old_grown : (xs : List LogEntry) → Known members n xs → Match xs grown
    old_grown xs h = Match-snoc s.log xs z (v.matching xs s.log h here') (v.owned k m p.leads xs h)

    matching_grown : (xs ys : List LogEntry) → Known members q xs → Known members q ys → Match xs ys
    matching_grown xs ys hx hy = elim (cases xs hx) [
      | inl x_old ↦ elim (cases ys hy) [
        | inl y_old ↦ v.matching xs ys x_old y_old
        | inr y_new ↦ subst (Match xs) (sym y_new) (old_grown xs x_old)
      ]
      | inr x_new ↦ elim (cases ys hy) [
        | inl y_old ↦ subst (λ l. Match l ys) (sym x_new) (Match-sym ys grown (old_grown ys y_old))
        | inr y_new ↦ subst (Match xs) (x_new ∙ sym y_new) (Match-refl xs)
      ]
    ]

    created_grown :
        (xs : List LogEntry)
        → Known members q xs
        → (i : ℕ) (x : LogEntry) → get_elem? xs i ≡ some x
        → (l : NodeId) × In (office x.term l) q.led
    created_grown xs h i x g = elim (cases xs h) [
      | inl known ↦ before xs known g
      | inr same ↦ elim (get_elem?-snoc s.log z i x (ap (λ l. get_elem? l i) (sym same) ∙ g)) [
        | inl known ↦ before s.log here' known
        | inr (last, newest) ↦ (
          k,
          subst (λ a. In (office a k) q.led) (sym (ap (λ y. y.term) newest))
              (led-old members n k e m heard v.offices _ (v.offices.current k m p.leads)),
        )
      ]
    ]
      where
        before :
            (ys : List LogEntry)
            → Known members n ys
            → get_elem? ys i ≡ some x
            → (l : NodeId) × In (office x.term l) q.led
        before ys known g' =
            let (l, led') = v.created ys known i x g' in
            (l, led-old members n k e m heard v.offices _ led')

    -- What the actor, and another leader, own of the log with the new entry.
    owned_self : (xs : List LogEntry) → Known members q xs → Owns grown s.current_term xs
    owned_self xs h = elim (cases xs h) [
      | inl known ↦ Owns-snoc s.log xs z s.current_term (v.owned k m p.leads xs known)
      | inr same ↦ λ i x g term. (
        get_elem?-length grown i x (ap (λ l. get_elem? l i) (sym same) ∙ g),
        ap (take (suc i)) same,
      )
    ]

    other_grown :
        (j : NodeId)
        → contains j members ≡ true
        → is_eq j k ≡ false
        → (n.cluster.node j).role ≡ Role.leader
        → Owns (n.cluster.node j).log (n.cluster.node j).current_term grown
    other_grown j mj other leads i x g term = elim (get_elem?-snoc s.log z i x g) [
      | inl before ↦
          let (short, agree) = v.owned j mj leads s.log here' i x before term in
          (short, take-snoc s.log z (suc i) (get_elem?-length s.log i x before) ∙ agree)
      | inr (last, newest) ↦
          let self : j ≡ k =
            v.offices.unique _ _ (v.offices.current j mj leads) (v.offices.current k m p.leads)
              (sym term ∙ ap (λ y. y.term) newest) in
          absurd (differ other self)
    ]
      where
        differ : is_eq j k ≡ false → j ≡ k → ⊥
        differ a b = ground (arith, is_eq_iff j k)

    owned_grown :
        (j : NodeId)
        → contains j members ≡ true
        → (q.cluster.node j).role ≡ Role.leader
        → (xs : List LogEntry) → Known members q xs
        → Owns (q.cluster.node j).log (q.cluster.node j).current_term xs
    owned_grown j mj leads xs h = elim (Bool-cases (is_eq j k)) [
      | inl self ↦
          let same : q.cluster.node j ≡ t =
            ap (λ a. q.cluster.node a) ((is_eq_iff j k).0 self)
            ∙ at members n k e m heard delivered v in
          subst (λ a. Owns a.log a.current_term xs) (sym same)
            (subst (λ l. Owns l t.current_term xs) (sym p.log)
              (subst (λ a. Owns grown a xs) (sym p.same_term) (owned_self xs h)))
      | inr other ↦
          let same = still members n k e m heard delivered v j other in
          let leads' = ap (λ a. a.role) (sym same) ∙ leads in
          subst (λ a. Owns a.log a.current_term xs) (sym same)
            (elim (cases xs h) [
              | inl known ↦ v.owned j mj leads' xs known
              | inr new' ↦
                  subst (Owns (n.cluster.node j).log (n.cluster.node j).current_term) (sym new')
                    (other_grown j mj other leads')
            ])
    ]

    pub move_grown : IsMatched members q
    move_grown = record {
      offices = move-IsLed members n k e m heard v.offices;
      whole = whole_now members n k e m heard delivered v;
      matching = matching_grown;
      created = created_grown;
      owned = owned_grown;
    }
