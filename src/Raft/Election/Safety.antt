-- ===== src/Raft/Election/Safety.antt =====
-- The invariant of a Raft cluster is kept, and so no term has two leaders.
use iron_consensus.Prelude.{
  ℕ, ◌+◌, ◌≤◌, ◌/◌, ◌≡◌, ◌≢◌, refl, sym, ◌∙◌, subst, ◌⊎◌, inl, inr, true, false, List, [], some, ok,
  arith, Bool-cases, length,
}
use iron_consensus.Order.{is_eq, is_eq_iff}
use iron_consensus.Core.Id.{NodeId, node_ord}
use iron_consensus.BTreeSet.{contains, from_list, IsSorted, Subset}
use iron_consensus.BTreeSet.Quorum.{majorities_meet}
use iron_consensus.Raft.Types.{Role, RaftNode}
use iron_consensus.Raft.{new, majority}
use iron_consensus.Raft.Steps.{
  Event, handle, step, step-VoteKept, IsValid, step-IsValid, new-IsValid, step-fixed,
}
use iron_consensus.Raft.Grants.{Grant, grants_of, step-votes}
use iron_consensus.Raft.Election.{
  Cluster, In, Heard, act, Step, acts, Reach, here, next, vote_of, Inv, In-append, In-act,
}

module _ (members : List NodeId) (s : Cluster) (k : NodeId) (e : Event)
    (m : contains k members ≡ true) (heard : Heard s.grants k e) (v : Inv members s) where
  abbrev t : Cluster
  t = act s k e

  act-IsValid : (j : NodeId) → contains j members ≡ true → IsValid (t.node j)
  unfolding act
  act-IsValid j mj = elim (Bool-cases (is_eq j k)) [
    | inl same ↦ rw same (step-IsValid (s.node k) e (v.valid k m))
    | inr other ↦ rw other (v.valid j mj)
  ]

  act-named : (j : NodeId) → contains j members ≡ true → (t.node j).id ≡ j
  unfolding act
  act-named j mj = ground (arith, step-fixed (s.node k) e, v.named k m, v.named j mj, is_eq_iff j k)

  act-joined : (j : NodeId) → contains j members ≡ true → (t.node j).members ≡ members
  unfolding act
  act-joined j mj = ground (arith, step-fixed (s.node k) e, v.joined k m, v.joined j mj)

  act-sent_by_members : (g : Grant) → In g t.grants → contains g.voter members ≡ true
  act-sent_by_members g h = ground (arith, In-act s k e g h, v.sent_by_members g, v.named k m)

  act-sent_before : (g : Grant) → In g t.grants → g.term ≤ (t.node g.voter).current_term
  unfolding act
  act-sent_before g h = ground (
    arith,
    In-act s k e g h,
    v.sent_before g,
    v.named k m,
    is_eq_iff g.voter k,
    step-VoteKept (s.node k) e,
  )

  act-sent_kept :
      (g : Grant)
      → In g t.grants
      → g.term ≡ (t.node g.voter).current_term
      → (t.node g.voter).voted_for ≡ some g.candidate
  unfolding act
  act-sent_kept g h same = ground (
    arith,
    In-act s k e g h,
    v.sent_before g,
    v.sent_kept g,
    v.named k m,
    is_eq_iff g.voter k,
    step-VoteKept (s.node k) e,
  )

  new-current :
      (g : Grant)
      → g.voter ≡ (s.node k).id
      → g.term ≡ (step (s.node k) e).current_term
      → g.term ≡ (t.node g.voter).current_term
  unfolding act
  new-current g p q = ground (arith, v.named k m, is_eq_iff g.voter k)

  kept_same :
      (g h : Grant)
      → In g t.grants
      → In h t.grants
      → g.voter ≡ h.voter
      → g.term ≡ h.term
      → g.term ≡ (t.node g.voter).current_term
      → g.candidate ≡ h.candidate
  kept_same g h p q voters terms now =
      let later : h.term ≡ (t.node h.voter).current_term =
        subst (λ w. h.term ≡ (t.node w).current_term) voters (sym terms ∙ now) in
      let a = act-sent_kept g p now in
      let b = act-sent_kept h q later in
      let c = subst (λ w. (t.node w).voted_for ≡ some g.candidate) voters a in cc

  act-sent_once :
      (g h : Grant)
      → In g t.grants
      → In h t.grants
      → g.voter ≡ h.voter
      → g.term ≡ h.term
      → g.candidate ≡ h.candidate
  act-sent_once g h p q voters terms = elim (In-act s k e g p) [
    | inr (w, n, _) ↦ kept_same g h p q voters terms (new-current g w n)
    | inl g_old ↦ elim (In-act s k e h q) [
      | inr (w, n, _) ↦ sym (kept_same h g q p (sym voters) (sym terms) (new-current h w n))
      | inl h_old ↦ v.sent_once g h g_old h_old voters terms
    ]
  ]

  -- A grant that was in the list still is.
  still : (g : Grant) → In g s.grants → In g t.grants
  unfolding act
  still g h = In-append g (grants_of (handle (s.node k) e)) s.grants h

  counted_self :
      (i : NodeId)
      → (step (s.node k) e).role ≢ Role.follower
      → contains i (step (s.node k) e).votes ≡ true
      → (i ≡ k) ⊎ In (vote_of i (step (s.node k) e).current_term k) t.grants
  counted_self i r c = elim (step-votes (s.node k) e i r c) [
    | inl self ↦ inl (self ∙ v.named k m)
    | inr (inl (was, same, held)) ↦ elim (v.counted k m was i held) [
      | inl self ↦ inl self
      | inr sent ↦ inr (rw same (still _ sent))
    ]
    | inr (inr event) ↦ inr (still _ (subst (Heard s.grants k) event heard))
  ]

  at_actor : t.node k ≡ step (s.node k) e
  unfolding act
  at_actor = ground (arith, is_eq_iff k k)

  elsewhere : (j : NodeId) → is_eq j k ≡ false → t.node j ≡ s.node j
  unfolding act
  elsewhere j h = rw h

  -- The claim about the counted votes, of one node in the state that it is in.
  abbrev Counted : NodeId → RaftNode → Type 0
  Counted j n =
      n.role ≢ Role.follower
      → (i : NodeId) → contains i n.votes ≡ true
      → (i ≡ j) ⊎ In (vote_of i n.current_term j) t.grants

  act-Counted : (j : NodeId) → contains j members ≡ true → Counted j (t.node j)
  act-Counted j mj = elim (Bool-cases (is_eq j k)) [
    | inl same ↦
        subst (λ z. Counted z (t.node z)) (sym ((is_eq_iff j k).0 same))
          (subst (Counted k) (sym at_actor) (λ r i c. counted_self i r c))
    | inr other ↦ subst (Counted j) (sym (elsewhere j other)) (before j mj)
  ]
    where
      before : (z : NodeId) → contains z members ≡ true → Counted z (s.node z)
      before z mz r i c = elim (v.counted z mz r i c) [
        | inl self ↦ inl self
        | inr sent ↦ inr (still _ sent)
      ]

  pub act-Inv : Inv members t
  act-Inv = record {
    valid = act-IsValid;
    named = act-named;
    joined = act-joined;
    sent_by_members = act-sent_by_members;
    sent_before = act-sent_before;
    sent_kept = act-sent_kept;
    sent_once = act-sent_once;
    counted = act-Counted;
  }

Step-Inv :
    {members : List NodeId} {s t : Cluster} → Step members s t → Inv members s → Inv members t
Step-Inv {members} {s} (acts k e m heard) v = act-Inv members s k e m heard v

pub Reach-Inv :
    {members : List NodeId} {s t : Cluster} → Inv members s → Reach members s t → Inv members t
Reach-Inv v here = v
Reach-Inv v (next r st) = Step-Inv st (Reach-Inv v r)

-- Every member starts as `RaftNode::new` makes it, from one list of nodes.
abbrev pub Starts : List NodeId → (NodeId → ℕ) → Cluster → Type 0
Starts nodes timeout s =
    (s.grants ≡ [])
    × ((k : NodeId) → contains k (from_list nodes) ≡ true → new k nodes (timeout k) ≡ ok (s.node k))

pub new-fresh :
    (id : NodeId) (nodes : List NodeId) (timeout : ℕ) {n : RaftNode}
    → new id nodes timeout ≡ ok n
    → (n.id ≡ id) × (n.members ≡ from_list nodes) × (n.role ≡ Role.follower)
unfolding new
new-fresh id nodes timeout {n} e = ground arith

not-In : (g : Grant) {gs : List Grant} → gs ≡ [] → ¬ In g gs
not-In g e h = subst (In g) e h

pub Starts-Inv :
    (nodes : List NodeId) (timeout : NodeId → ℕ) (s : Cluster)
    → Starts nodes timeout s
    → Inv (from_list nodes) s
Starts-Inv nodes timeout s (silent, fresh) = record {
  valid = λ k m. new-IsValid k nodes (timeout k) (fresh k m);
  named = λ k m. (new-fresh k nodes (timeout k) (fresh k m)).0;
  joined = λ k m. (new-fresh k nodes (timeout k) (fresh k m)).1;
  sent_by_members = λ g h. absurd (not-In g silent h);
  sent_before = λ g h. absurd (not-In g silent h);
  sent_kept = λ g h. absurd (not-In g silent h);
  sent_once = λ g h p. absurd (not-In g silent p);
  counted = λ k m r. absurd (r (new-fresh k nodes (timeout k) (fresh k m)).2);
}

-- A counted vote is a member's.
pub counted-member :
    {members : List NodeId} {s : Cluster}
    → Inv members s
    → (k : NodeId) → contains k members ≡ true
    → (s.node k).role ≡ Role.leader
    → Subset (s.node k).votes members
counted-member {members} {s} v k m lead j c = elim (v.counted k m (λ e. cc) j c) [
  | inl self ↦ rw self m
  | inr sent ↦ v.sent_by_members _ sent
]

-- A leader that has voted for a node in its current term is that node.
own_vote :
    {members : List NodeId} {s : Cluster}
    → Inv members s
    → (a b k : NodeId) (term : ℕ) → contains a members ≡ true
    → (s.node a).role ≡ Role.leader
    → k ≡ a
    → term ≡ (s.node a).current_term
    → In (vote_of k term b) s.grants
    → a ≡ b
own_vote {members} {s} v a b k term ma la self now sent =
    let sent' = subst (λ z. In (vote_of z term b) s.grants) self sent in
    let kept = v.sent_kept (vote_of a term b) sent' now in
    let own = ((v.valid a ma).self_vote (λ e. cc)).0 in let name = v.named a ma in cc

-- One node that both leaders have counted makes them the same node.
shared_vote :
    {members : List NodeId} {s : Cluster}
    → Inv members s
    → (a b k : NodeId) → contains a members ≡ true
    → contains b members ≡ true
    → (s.node a).role ≡ Role.leader
    → (s.node b).role ≡ Role.leader
    → (s.node a).current_term ≡ (s.node b).current_term
    → contains k (s.node a).votes ≡ true
    → contains k (s.node b).votes ≡ true
    → a ≡ b
shared_vote {members} {s} v a b k ma mb la lb terms ca cb = elim (v.counted a ma (λ e. cc) k ca) [
  | inl k_a ↦ elim (v.counted b mb (λ e. cc) k cb) [
    | inl k_b ↦ sym k_a ∙ k_b
    | inr sent ↦ own_vote v a b k (s.node b).current_term ma la k_a (sym terms) sent
  ]
  | inr sent_a ↦ elim (v.counted b mb (λ e. cc) k cb) [
    | inl k_b ↦ sym (own_vote v b a k (s.node a).current_term mb lb k_b terms sent_a)
    | inr sent_b ↦ v.sent_once _ _ sent_a sent_b refl terms
  ]
]

-- Election safety: in every state that a cluster of new nodes reaches, two leaders of the same term
-- are the same node.
pub one_leader_per_term :
    (nodes : List NodeId) (timeout : NodeId → ℕ) (start s : Cluster) (a b : NodeId)
    → Starts nodes timeout start
    → Reach (from_list nodes) start s
    → contains a (from_list nodes) ≡ true
    → contains b (from_list nodes) ≡ true
    → (s.node a).role ≡ Role.leader
    → (s.node b).role ≡ Role.leader
    → (s.node a).current_term ≡ (s.node b).current_term
    → a ≡ b
unfolding majority
one_leader_per_term nodes timeout start s a b init r ma mb la lb terms =
    let v = Reach-Inv (Starts-Inv nodes timeout start init) r in
    let va = v.valid a ma in
    let vb = v.valid b mb in
    let ja = v.joined a ma in
    let jb = v.joined b mb in
    let (k, ca, cb) =
      majorities_meet (from_list nodes) (s.node a).votes (s.node b).votes
        (subst IsSorted ja va.members_sorted) va.votes_sorted vb.votes_sorted
        (counted-member v a ma la) (counted-member v b mb lb)
        (subst (λ z. length z / 2 + 1 ≤ length (s.node a).votes) ja (va.leader_quorum la))
        (subst (λ z. length z / 2 + 1 ≤ length (s.node b).votes) jb (vb.leader_quorum lb)) in
    shared_vote v a b k ma mb la lb terms ca cb
