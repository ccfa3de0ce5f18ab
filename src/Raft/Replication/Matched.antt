-- ===== src/Raft/Replication/Matched.antt =====
-- The logs of the cluster of Raft/Replication.antt: those of the nodes and those in its messages.
use iron_consensus.Prelude.{
  ℕ, suc, ◌<◌, ◌≡◌, ◌≢◌, refl, sym, ap, subst, ◌∙◌, ◌⊎◌, inl, inr, true, false, List, [], some,
  length, take, get_elem?, arith, Bool-cases,
}
use iron_consensus.Order.{is_eq, is_eq_iff}
use iron_consensus.Core.Id.{NodeId, node_ord}
use iron_consensus.BTreeSet.{contains}
use iron_consensus.Raft.Types.{Role, LogEntry, Message, Outbound, RaftNode}
use iron_consensus.Raft.{is_leader, append_loop}
use iron_consensus.Raft.Steps.{Event, handle, step, step-fixed}
use iron_consensus.Raft.Matching.{Match, append_loop-cases}
use iron_consensus.Raft.Logs.{Took, step-Leads}
use iron_consensus.Raft.Sends.{
  In, In-append, outbox, is_append, IsReplica, Sends-IsReplica, handle-Sends,
}
use iron_consensus.Raft.Election.{Heard}
use iron_consensus.Raft.Replication.{Office, Network, office, Delivered, move, IsLed}
use iron_consensus.Raft.Replication.Offices.{now, unmoved, led-old, new_office, move-IsLed}

abbrev pub entries_of : Message → List LogEntry
entries_of (Message.append_entries _ _ _ _ entries _) = entries
entries_of (Message.request_vote _ _ _ _) = []
entries_of (Message.vote _ _ _) = []
entries_of (Message.append_response _ _ _ _) = []

-- The fields of a message with entries.
abbrev prev_of : Message → ℕ
prev_of (Message.append_entries _ _ prev _ _ _) = prev
prev_of (Message.request_vote _ _ _ _) = 0
prev_of (Message.vote _ _ _) = 0
prev_of (Message.append_response _ _ _ _) = 0

abbrev office_of : Message → Office
office_of (Message.append_entries term leader _ _ _ _) = office term leader
office_of (Message.request_vote _ _ _ _) = office 0 []
office_of (Message.vote _ _ _) = office 0 []
office_of (Message.append_response _ _ _ _) = office 0 []

-- A log of a member or of a message that was sent.
abbrev pub Known : List NodeId → Network → List LogEntry → Type 0
Known members n log =
    ((k : NodeId) × ((contains k members ≡ true) × (log ≡ (n.cluster.node k).log)))
    ⊎ ((o : Outbound) × (In o n.sent
          × ((is_append o.message ≡ true) × (log ≡ entries_of o.message))))

-- A message with entries has a whole log, is from a leader and to another node.
pub record IsWhole (n : Network) (o : Outbound) : Type 0 where
  pub term : ℕ
  pub leader : NodeId
  pub entries : List LogEntry
  pub commit : ℕ
  pub message : o.message ≡ Message.append_entries term leader 0 0 entries commit
  pub from_leader : In (office term leader) n.led
  pub other : o.to ≢ leader

-- Every entry of the term is in the log, at its index, behind what precedes it.
abbrev pub Owns : List LogEntry → ℕ → List LogEntry → Type 0
Owns own term log =
    (i : ℕ) (x : LogEntry)
    → get_elem? log i ≡ some x
    → x.term ≡ term
    → (i < length own) × (take (suc i) log ≡ take (suc i) own)

pub record IsMatched (members : List NodeId) (n : Network) : Type 0 where
  pub offices : IsLed members n
  pub whole : (o : Outbound) → In o n.sent → is_append o.message ≡ true → IsWhole n o
  pub matching : (xs ys : List LogEntry) → Known members n xs → Known members n ys → Match xs ys
  pub created :
      (xs : List LogEntry)
      → Known members n xs
      → (i : ℕ) (x : LogEntry) → get_elem? xs i ≡ some x
      → (l : NodeId) × In (office x.term l) n.led
  pub owned :
      (k : NodeId)
      → contains k members ≡ true
      → (n.cluster.node k).role ≡ Role.leader
      → (xs : List LogEntry) → Known members n xs
      → Owns (n.cluster.node k).log (n.cluster.node k).current_term xs

module _ (members : List NodeId) (n : Network) (k : NodeId) (e : Event)
    (m : contains k members ≡ true) (heard : Heard n.cluster.grants k e)
    (delivered : Delivered n.sent k e) (v : IsMatched members n) where
  abbrev q : Network
  q = move n k e

  abbrev s : RaftNode
  s = n.cluster.node k

  abbrev t : RaftNode
  t = step s e

  pub at : q.cluster.node k ≡ t
  at = now members n k e m heard v.offices

  pub still : (j : NodeId) → is_eq j k ≡ false → q.cluster.node j ≡ n.cluster.node j
  still = unmoved members n k e m heard v.offices

  sent-cases :
      (o : Outbound) → In o q.sent → is_append o.message ≡ true → In o n.sent ⊎ IsReplica t o
  unfolding move
  sent-cases o h a = elim (In-append o (outbox (handle s e).1) n.sent h) [
    | inr old ↦ inl old
    | inl fresh ↦ inr (Sends-IsReplica (handle s e) o (handle-Sends s e) fresh a)
  ]

  pub Known-cases : (xs : List LogEntry) → Known members q xs → Known members n xs ⊎ (xs ≡ t.log)
  Known-cases xs (inl (j, (mj, same))) = elim (Bool-cases (is_eq j k)) [
    | inr other ↦ inl (inl (j, (mj, same ∙ ap (λ x. x.log) (still j other))))
    | inl self ↦
        inr (same ∙ ap (λ z. (q.cluster.node z).log) ((is_eq_iff j k).0 self) ∙ ap (λ x. x.log) at)
  ]
  Known-cases xs (inr (o, (h, (a, same)))) = elim (sent-cases o h a) [
    | inl old ↦ inl (inr (o, (old, (a, same))))
    | inr replica ↦ inr (same ∙ ap entries_of replica.message)
  ]

  pub logs_before : Known members n s.log
  logs_before = inl (k, (m, refl))

  -- The message whose entries the actor has taken.
  taken_whole :
      (p : Took s t e)
      → (o : Outbound) × (In o n.sent
          × (o ≡ record {
            to = k;
            message = Message.append_entries p.term p.leader p.prev p.prev_term p.entries p.commit;
          }))
  taken_whole p = (_, (subst (Delivered n.sent k) p.event delivered, refl))

  -- Without a proposal the actor's log is one that was there.
  log-Known : (t.log ≡ s.log) ⊎ Took s t e → Known members n t.log
  log-Known (inl same) = subst (Known members n) (sym same) logs_before
  log-Known (inr p) =
      let (o, (h, same)) = taken_whole p in
      let a : is_append o.message ≡ true = ap (λ x. is_append x.message) same in
      let w = v.whole o h a in
      let known : Known members n p.entries =
        inr (o, (h, (a, ap (λ x. entries_of x.message) (sym same)))) in
      let start : p.prev ≡ 0 = ap prev_of (ap (λ x. x.message) (sym same) ∙ w.message) in
      let log : t.log ≡ append_loop s.log 0 p.entries =
        p.log ∙ ap (λ i. append_loop s.log i p.entries) start in
      elim (append_loop-cases s.log p.entries (v.matching s.log p.entries logs_before known)) [
        | inl kept ↦ subst (Known members n) (sym (log ∙ kept)) logs_before
        | inr taken ↦ subst (Known members n) (sym (log ∙ taken)) known
      ]

  -- A leader that stays one takes no entries.
  leader_keeps :
      s.role ≡ Role.leader
      → t.current_term ≡ s.current_term
      → (t.log ≡ s.log) ⊎ Took s t e
      → t.log ≡ s.log
  leader_keeps leads same_term (inl same) = same
  leader_keeps leads same_term (inr p) =
      let (o, (h, same)) = taken_whole p in
      let w = v.whole o h (ap (λ x. is_append x.message) same) in
      let from : office w.term w.leader ≡ office p.term p.leader =
        ap office_of (sym w.message ∙ ap (λ x. x.message) same) in
      let term : w.term ≡ s.current_term = ap (λ x. x.term) from ∙ sym p.same_term ∙ same_term in
      let self : w.leader ≡ k =
        v.offices.unique _ _ w.from_leader (v.offices.current k m leads) term in
      absurd (w.other (ap (λ x. x.to) same ∙ sym self))

  -- A log that was there, as the new state owns it.
  owned_actor :
      (xs : List LogEntry)
      → t.role ≡ Role.leader
      → (t.log ≡ s.log) ⊎ Took s t e
      → Known members n xs
      → Owns t.log t.current_term xs
  owned_actor xs leads kept known i x h same = elim ((step-Leads s e).0 leads) [
    | inl (led', term) ↦
        subst (λ own. (i < length own) × (take (suc i) xs ≡ take (suc i) own))
          (sym (leader_keeps led' term kept)) (v.owned k m led' xs known i x h (same ∙ term))
    | inr (ran, term, _) ↦
        let (l, office') = v.created xs known i x h in
        absurd (
          new_office members n k e m heard v.offices (office x.term l) office' leads
            (ap is_leader ran) same)
  ]

  -- The state after a step without a proposal.
  module _ (kept : (t.log ≡ s.log) ⊎ Took s t e) where
    old : (xs : List LogEntry) → Known members q xs → Known members n xs
    old xs h = elim (Known-cases xs h) [
      | inl known ↦ known
      | inr same ↦ subst (Known members n) (sym same) (log-Known kept)
    ]

    owned_kept :
        (j : NodeId)
        → contains j members ≡ true
        → (q.cluster.node j).role ≡ Role.leader
        → (xs : List LogEntry) → Known members q xs
        → Owns (q.cluster.node j).log (q.cluster.node j).current_term xs
    owned_kept j mj leads xs h = elim (Bool-cases (is_eq j k)) [
      | inr other ↦
          let same = still j other in
          subst (λ z. Owns z.log z.current_term xs) (sym same)
            (v.owned j mj (ap (λ x. x.role) (sym same) ∙ leads) xs (old xs h))
      | inl self ↦
          let same : q.cluster.node j ≡ t =
            ap (λ z. q.cluster.node z) ((is_eq_iff j k).0 self) ∙ at in
          subst (λ z. Owns z.log z.current_term xs) (sym same)
            (owned_actor xs (ap (λ x. x.role) (sym same) ∙ leads) kept (old xs h))
    ]

  -- The messages of the new state.
  pub whole_now : (o : Outbound) → In o q.sent → is_append o.message ≡ true → IsWhole q o
  whole_now o h a = elim (sent-cases o h a) [
    | inl before ↦
        let w = v.whole o before a in
        record {
          term = w.term;
          leader = w.leader;
          entries = w.entries;
          commit = w.commit;
          message = w.message;
          from_leader = led-old members n k e m heard v.offices _ w.from_leader;
          other = w.other;
        }
    | inr r ↦
        let after = move-IsLed members n k e m heard v.offices in
        let named : t.id ≡ k = ground (arith, step-fixed s e, v.offices.base.named k m) in
        record {
          term = t.current_term;
          leader = t.id;
          entries = t.log;
          commit = r.commit;
          message = r.message;
          from_leader =
              subst (λ z. In (office t.current_term z) q.led) (sym named)
                (subst (λ z. In (office z.current_term k) q.led) at
                  (after.current k m (ap (λ x. x.role) at ∙ r.leads)));
          other = r.other;
        }
  ]

  pub move_kept : (t.log ≡ s.log) ⊎ Took s t e → IsMatched members q
  move_kept kept = record {
    offices = move-IsLed members n k e m heard v.offices;
    whole = whole_now;
    matching = λ xs ys hx hy. v.matching xs ys (old kept xs hx) (old kept ys hy);
    created = λ xs h i x g.
        let (l, led') = v.created xs (old kept xs h) i x g in
        (l, led-old members n k e m heard v.offices _ led');
    owned = owned_kept kept;
  }
