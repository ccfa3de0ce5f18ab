-- ===== src/Raft/Replication/Offices.antt =====
-- Every leadership of the cluster of Raft/Replication.antt is backed by a majority that votes for no
-- other candidate in its term, so that a term has one leader over the whole history.
use iron_consensus.Prelude.{
  ℕ, ◌+◌, ◌/◌, ◌≤◌, ◌<◌, ◌≡◌, ◌≢◌, refl, sym, ap, subst, ◌∙◌, ◌⊎◌, inl, inr, Bool, true, false,
  ◌&&◌, not, List, [], ◌∷◌, some, if◌then◌else◌, length, arith, Bool-cases,
}
use iron_consensus.Order.{is_eq, is_eq_iff}
use iron_consensus.Core.Id.{NodeId, node_ord}
use iron_consensus.BTreeSet.{contains, IsSorted}
use iron_consensus.BTreeSet.Quorum.{majorities_meet}
use iron_consensus.Raft.Types.{Role, RaftNode}
use iron_consensus.Raft.{is_leader, majority}
use iron_consensus.Raft.Steps.{Event, step, VoteKept, step-VoteKept, step-fixed}
use iron_consensus.Raft.Grants.{Grant}
use iron_consensus.Raft.Logs.{step-Leads}
use iron_consensus.Raft.Sends.{In, In-append, In-append_left, In-append_right}
use iron_consensus.Raft.Election.{Cluster, Heard, act, Inv, In-act, vote_of}
use iron_consensus.Raft.Election.Safety.{act-Inv, counted-member}
use iron_consensus.Raft.Replication.{
  Office, Network, office, taken_office, move, Pledged, Elected, IsLed,
}

-- The majority that a leader has counted is pledged to it.
module _ (members : List NodeId) (c : Cluster) (k : NodeId) (v : Inv members c)
    (m : contains k members ≡ true) (leads : (c.node k).role ≡ Role.leader) where
  own_voted : (c.node k).voted_for ≡ some k
  own_voted = ((v.valid k m).self_vote (λ e. cc)).0 ∙ ap some (v.named k m)

  self-Pledged : Pledged c k (c.node k).current_term k
  self-Pledged = record {
    bound = inr (refl, own_voted);
    granted = λ g h voter term.
        let kept =
          v.sent_kept g h (subst (λ j. g.term ≡ (c.node j).current_term) (sym voter) term) in
        let mine = subst (λ j. (c.node j).voted_for ≡ some g.candidate) voter kept in
        let own = own_voted in cc;
  }

  sender-Pledged :
      (j : NodeId)
      → iron_consensus.Raft.Election.In (vote_of j (c.node k).current_term k) c.grants
      → Pledged c j (c.node k).current_term k
  sender-Pledged j sent = record {
    bound = ground (arith, v.sent_before _ sent, v.sent_kept _ sent);
    granted = λ g h voter term. v.sent_once g _ h sent voter term;
  }

  own_quorum : length members / 2 + 1 ≤ length (c.node k).votes
  unfolding majority
  own_quorum =
      subst (λ z. length z / 2 + 1 ≤ length (c.node k).votes) (v.joined k m)
        ((v.valid k m).leader_quorum leads)

  pub leader-Elected : Elected members c (office (c.node k).current_term k)
  leader-Elected = record {
    votes = (c.node k).votes;
    sorted = (v.valid k m).votes_sorted;
    voters = counted-member v k m leads;
    quorum = own_quorum;
    pledged = λ j counted. elim (v.counted k m (λ e. cc) j counted) [
      | inl self ↦ subst (λ z. Pledged c z (c.node k).current_term k) (sym self) self-Pledged
      | inr sent ↦ sender-Pledged j sent
    ];
  }

  -- No other node has a majority of pledges in the leader's term.
  pub backed_same :
      (o : Office) → Elected members c o → o.term ≡ (c.node k).current_term → o.leader ≡ k
  backed_same o el term =
      let (j, ca, cb) =
        majorities_meet members (c.node k).votes el.votes
          (subst IsSorted (v.joined k m) (v.valid k m).members_sorted) (v.valid k m).votes_sorted
          el.sorted (counted-member v k m leads) el.voters own_quorum el.quorum in
      elim (v.counted k m (λ e. cc) j ca) [
        | inr sent ↦ sym ((el.pledged j cb).granted _ sent refl (sym term))
        | inl self ↦ own (subst (λ z. Pledged c z o.term o.leader) self (el.pledged j cb))
      ]
    where
      own : Pledged c k o.term o.leader → o.leader ≡ k
      own p = elim p.bound [
        | inl later ↦ absurd (omega (arith, term))
        | inr (same, voted) ↦ let mine = own_voted in cc
      ]

module _ (members : List NodeId) (c : Cluster) (k : NodeId) (e : Event)
    (m : contains k members ≡ true) (heard : Heard c.grants k e) (v : Inv members c) where
  abbrev d : Cluster
  d = act c k e

  pub at_actor : d.node k ≡ step (c.node k) e
  unfolding act
  at_actor = ground (arith, is_eq_iff k k)

  pub elsewhere : (j : NodeId) → is_eq j k ≡ false → d.node j ≡ c.node j
  unfolding act
  elsewhere j h = rw h

  -- A pledge of the actor, by its state before and after.
  bound_kept :
      (s t : RaftNode) (term : ℕ) (leader : NodeId)
      → VoteKept s t
      → (term < s.current_term) ⊎ ((s.current_term ≡ term) × (s.voted_for ≡ some leader))
      → (term < t.current_term) ⊎ ((t.current_term ≡ term) × (t.voted_for ≡ some leader))
  bound_kept s t term leader kept b = ground arith

  bound_act :
      (j : NodeId) (term : ℕ) (leader : NodeId)
      → Pledged c j term leader
      → (term < (d.node j).current_term)
        ⊎ (((d.node j).current_term ≡ term) × ((d.node j).voted_for ≡ some leader))
  bound_act j term leader p = elim (Bool-cases (is_eq j k)) [
    | inr other ↦
        subst
          (λ s. (term < s.current_term) ⊎ ((s.current_term ≡ term) × (s.voted_for ≡ some leader)))
          (sym (elsewhere j other)) p.bound
    | inl same ↦
        let self = (is_eq_iff j k).0 same in
        subst
          (λ z.
            (term < (d.node z).current_term)
            ⊎ (((d.node z).current_term ≡ term) × ((d.node z).voted_for ≡ some leader)))
          (sym self)
          (subst
            (λ s. (term < s.current_term) ⊎ ((s.current_term ≡ term) × (s.voted_for ≡ some leader)))
            (sym at_actor)
            (bound_kept (c.node k) (step (c.node k) e) term leader (step-VoteKept (c.node k) e) (
              subst
                (λ z.
                  (term < (c.node z).current_term)
                  ⊎ (((c.node z).current_term ≡ term) × ((c.node z).voted_for ≡ some leader)))
                self p.bound)))
  ]

  -- A vote that is granted now agrees with the pledge.
  granted_now :
      (t : RaftNode) (g : Grant) (term : ℕ) (leader : NodeId)
      → (term < t.current_term) ⊎ ((t.current_term ≡ term) × (t.voted_for ≡ some leader))
      → g.term ≡ t.current_term
      → g.term ≡ term
      → t.voted_for ≡ some g.candidate
      → g.candidate ≡ leader
  granted_now t g term leader b now same voted = ground arith

  pub act-Pledged :
      (j : NodeId) (term : ℕ) (leader : NodeId) → Pledged c j term leader → Pledged d j term leader
  act-Pledged j term leader p = record {
    bound = bound_act j term leader p;
    granted = λ g h voter same. elim (In-act c k e g h) [
      | inl old ↦ p.granted g old voter same
      | inr (actor, now, voted) ↦
          let self : j ≡ k = sym voter ∙ actor ∙ v.named k m in
          granted_now (step (c.node k) e) g term leader
            (subst
              (λ s.
                (term < s.current_term) ⊎ ((s.current_term ≡ term) × (s.voted_for ≡ some leader)))
              (ap (λ z. d.node z) self ∙ at_actor) (bound_act j term leader p))
            now same voted
    ];
  }

  pub act-Elected : (o : Office) → Elected members c o → Elected members d o
  act-Elected o el = record {
    votes = el.votes;
    sorted = el.sorted;
    voters = el.voters;
    quorum = el.quorum;
    pledged = λ j counted. act-Pledged j o.term o.leader (el.pledged j counted);
  }

In-if : (b : Bool) (o p : Office) → In o (if b then p ∷ [] else []) → (b ≡ true) × (o ≡ p)
In-if true o p (inl same) = (refl, same)
In-if true o p (inr rest) = absurd rest
In-if false o p h = absurd h

taken_office-cases :
    (s t : RaftNode) (o : Office)
    → In o (taken_office s t)
    → (o ≡ office t.current_term t.id) × ((t.role ≡ Role.leader) × (is_leader s.role ≡ false))
taken_office-cases s t o h =
    let (taken, same) = In-if (is_leader t.role && not (is_leader s.role)) o _ h in
    (same, (leads t.role (ground arith), ground arith))
  where
    leads : (r : Role) → is_leader r ≡ true → r ≡ Role.leader
    leads Role.leader h' = refl
    leads Role.follower h' = ground arith
    leads Role.candidate h' = ground arith

taken_office-taken :
    (s t : RaftNode)
    → t.role ≡ Role.leader
    → s.role ≡ Role.candidate
    → In (office t.current_term t.id) (taken_office s t)
taken_office-taken s t leads ran =
    let o = office t.current_term t.id in
    let taken : is_leader t.role && not (is_leader s.role) ≡ true = ground arith in
    subst (λ b. In o (if b then o ∷ [] else [])) (sym taken) (inl refl)

module _ (members : List NodeId) (n : Network) (k : NodeId) (e : Event)
    (m : contains k members ≡ true) (heard : Heard n.cluster.grants k e) (v : IsLed members n) where
  abbrev q : Network
  q = move n k e

  abbrev s : RaftNode
  s = n.cluster.node k

  abbrev t : RaftNode
  t = step s e

  after : Inv members (act n.cluster k e)
  after = act-Inv members n.cluster k e m heard v.base

  pub now : q.cluster.node k ≡ t
  unfolding move
  now = at_actor members n.cluster k e m heard v.base

  named : t.id ≡ k
  named = ground (arith, step-fixed s e, v.base.named k m)

  -- A leadership in the history is old, or the actor has just taken it.
  pub led-cases :
      (o : Office)
      → In o q.led
      → In o n.led
        ⊎ ((o ≡ office t.current_term k) × ((t.role ≡ Role.leader) × (is_leader s.role ≡ false)))
  unfolding move
  led-cases o h = elim (In-append o (taken_office s t) n.led h) [
    | inr old ↦ inl old
    | inl fresh ↦
        let (same, (leads, waited)) = taken_office-cases s t o fresh in
        inr (same ∙ ap (office t.current_term) named, (leads, waited))
  ]

  pub led-old : (o : Office) → In o n.led → In o q.led
  unfolding move
  led-old o h = In-append_right o (taken_office s t) n.led h

  -- A node that has just become a leader: its term had no leader before.
  pub new_office :
      (o : Office)
      → In o n.led
      → t.role ≡ Role.leader
      → is_leader s.role ≡ false
      → o.term ≢ t.current_term
  new_office o old leads waited same =
      let el = act-Elected members n.cluster k e m heard v.base o (v.elected o old) in
      let at = at_actor members n.cluster k e m heard v.base in
      let self : o.leader ≡ k =
        backed_same members (act n.cluster k e) k after m (ap (λ x. x.role) at ∙ leads) o el
          (same ∙ ap (λ x. x.current_term) (sym at)) in
      let held =
        subst
          (λ z.
            (o.term < (n.cluster.node z).current_term)
            ⊎ (((n.cluster.node z).current_term ≡ o.term)
                × ((n.cluster.node z).role ≡ Role.leader)))
          self (v.remains o old).1 in
      let ran = (step-Leads s e).0 leads in ground arith

  pub unmoved : (j : NodeId) → is_eq j k ≡ false → q.cluster.node j ≡ n.cluster.node j
  unfolding move
  unmoved = elsewhere members n.cluster k e m heard v.base

  -- The newest leadership, at the actor.
  led_now : t.role ≡ Role.leader → (q.cluster.node k).role ≡ Role.leader
  led_now leads = ap (λ x. x.role) now ∙ leads

  move-Elected : (o : Office) → In o q.led → Elected members q.cluster o
  unfolding move
  move-Elected o h = elim (led-cases o h) [
    | inl old ↦ act-Elected members n.cluster k e m heard v.base o (v.elected o old)
    | inr (same, (leads, waited)) ↦
        subst (Elected members (act n.cluster k e))
          (ap (λ x. office x.current_term k) now ∙ sym same)
          (leader-Elected members (act n.cluster k e) k after m (led_now leads))
  ]

  abbrev HeldBy : ℕ → RaftNode → Type 0
  HeldBy term x = (term < x.current_term) ⊎ ((x.current_term ≡ term) × (x.role ≡ Role.leader))

  held_actor : (term : ℕ) → HeldBy term s → HeldBy term t
  held_actor term h = ground (arith, (step-Leads s e).1, step-VoteKept s e)

  held-move :
      (term : ℕ) (j : NodeId) → HeldBy term (n.cluster.node j) → HeldBy term (q.cluster.node j)
  held-move term j h = elim (Bool-cases (is_eq j k)) [
    | inr other ↦ subst (HeldBy term) (sym (unmoved j other)) h
    | inl same ↦
        let self = (is_eq_iff j k).0 same in
        subst (HeldBy term) (sym (ap (λ z. q.cluster.node z) self ∙ now))
          (held_actor term (subst (λ z. HeldBy term (n.cluster.node z)) self h))
  ]

  move_remains :
      (o : Office)
      → In o q.led
      → (contains o.leader members ≡ true) × HeldBy o.term (q.cluster.node o.leader)
  move_remains o h = elim (led-cases o h) [
    | inl old ↦ ((v.remains o old).0, held-move o.term o.leader (v.remains o old).1)
    | inr (same, (leads, waited)) ↦
        subst (λ p. (contains p.leader members ≡ true) × HeldBy p.term (q.cluster.node p.leader))
          (sym same) (m, inr (ap (λ x. x.current_term) now, led_now leads))
  ]

  current_actor : t.role ≡ Role.leader → In (office t.current_term k) q.led
  unfolding move
  current_actor leads = elim ((step-Leads s e).0 leads) [
    | inl (led', same) ↦
        led-old _ (subst (λ z. In (office z k) n.led) (sym same) (v.current k m led'))
    | inr (ran, _, _) ↦
        subst (λ z. In (office t.current_term z) q.led) named
          (In-append_left _ (taken_office s t) n.led (taken_office-taken s t leads ran))
  ]

  move_current :
      (j : NodeId)
      → contains j members ≡ true
      → (q.cluster.node j).role ≡ Role.leader
      → In (office (q.cluster.node j).current_term j) q.led
  move_current j mj leads = elim (Bool-cases (is_eq j k)) [
    | inr other ↦
        let same : q.cluster.node j ≡ n.cluster.node j = unmoved j other in
        led-old _ (
          subst (λ x. In (office x.current_term j) n.led) (sym same)
            (v.current j mj (ap (λ x. x.role) (sym same) ∙ leads)))
    | inl same ↦
        let self = (is_eq_iff j k).0 same in
        subst (λ z. In (office (q.cluster.node z).current_term z) q.led) (sym self)
          (subst (λ x. In (office x.current_term k) q.led) (sym now)
            (current_actor
              (ap (λ x. x.role) (sym (ap (λ z. q.cluster.node z) self ∙ now)) ∙ leads)))
  ]

  move_unique : (o p : Office) → In o q.led → In p q.led → o.term ≡ p.term → o.leader ≡ p.leader
  move_unique o p ho hp terms = elim (led-cases o ho) [
    | inl o_old ↦ elim (led-cases p hp) [
      | inl p_old ↦ v.unique o p o_old p_old terms
      | inr (p_new, (leads, waited)) ↦
          absurd (new_office o o_old leads waited (terms ∙ ap (λ x. x.term) p_new))
    ]
    | inr (o_new, (leads, waited)) ↦ elim (led-cases p hp) [
      | inl p_old ↦ absurd (new_office p p_old leads waited (sym terms ∙ ap (λ x. x.term) o_new))
      | inr (p_new, _) ↦ ap (λ x. x.leader) (o_new ∙ sym p_new)
    ]
  ]

  pub move-IsLed : IsLed members q
  unfolding move
  move-IsLed = record {
    base = after;
    elected = move-Elected;
    remains = move_remains;
    current = move_current;
    unique = move_unique;
  }
