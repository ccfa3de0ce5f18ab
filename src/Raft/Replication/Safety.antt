-- ===== src/Raft/Replication/Safety.antt =====
-- The logs of the cluster of Raft/Replication.antt match in every state that it reaches.
use iron_consensus.Prelude.{
  ℕ, suc, ◌≡◌, refl, ap, subst, ◌∙◌, inl, inr, true, List, [], some, ok, take, get_elem?, arith,
}
use iron_consensus.Core.Id.{NodeId, node_ord}
use iron_consensus.BTreeSet.{contains, from_list}
use iron_consensus.Raft.Types.{LogEntry, RaftNode}
use iron_consensus.Raft.{new}
use iron_consensus.Raft.Logs.{step-log}
use iron_consensus.Raft.Sends.{In}
use iron_consensus.Raft.Election.Safety.{Starts, Starts-Inv, new-fresh}
use iron_consensus.Raft.Replication.{Network, Moves, moves, Runs, stays, goes}
use iron_consensus.Raft.Replication.Matched.{Known, IsMatched, move_kept}
use iron_consensus.Raft.Replication.Grown.{move_grown}

-- New nodes, before any message and any leadership.
pub record Begins (nodes : List NodeId) (timeout : NodeId → ℕ) (n : Network) : Type 0 where
  pub fresh : Starts nodes timeout n.cluster
  pub silent : n.sent ≡ []
  pub leaderless : n.led ≡ []

new-log :
    (id : NodeId) (nodes : List NodeId) (timeout : ℕ) {n : RaftNode}
    → new id nodes timeout ≡ ok n
    → n.log ≡ []
unfolding new
new-log id nodes timeout {n} e = ground arith

nothing : {A : Type 0} (x : A) {xs : List A} → xs ≡ [] → ¬ In x xs
nothing x e h = subst (In x) e h

Begins-empty :
    (nodes : List NodeId) (timeout : NodeId → ℕ) (n : Network) (xs : List LogEntry)
    → Begins nodes timeout n
    → Known (from_list nodes) n xs
    → xs ≡ []
Begins-empty nodes timeout n xs b (inl (k, (m, same))) =
    same ∙ new-log k nodes (timeout k) (b.fresh.1 k m)
Begins-empty nodes timeout n xs b (inr (o, (h, rest))) = absurd (nothing o b.silent h)

none_there : (xs : List LogEntry) (i : ℕ) (x : LogEntry) → xs ≡ [] → get_elem? xs i ≡ some x → ⊥
none_there xs i x e h = ground (arith, ap (λ l. get_elem? l i) e)

Begins-IsMatched :
    (nodes : List NodeId) (timeout : NodeId → ℕ) (n : Network)
    → Begins nodes timeout n
    → IsMatched (from_list nodes) n
Begins-IsMatched nodes timeout n b = record {
  offices = record {
    base = Starts-Inv nodes timeout n.cluster b.fresh;
    elected = λ o h. absurd (nothing o b.leaderless h);
    remains = λ o h. absurd (nothing o b.leaderless h);
    current = λ k m leads.
        let follows = (new-fresh k nodes (timeout k) (b.fresh.1 k m)).2 in ground arith;
    unique = λ o p h. absurd (nothing o b.leaderless h);
  };
  whole = λ o h. absurd (nothing o b.silent h);
  matching =
      λ xs ys hx hy i x y gx. absurd (none_there xs i x (Begins-empty nodes timeout n xs b hx) gx);
  created = λ xs h i x g. absurd (none_there xs i x (Begins-empty nodes timeout n xs b h) g);
  owned =
      λ k m leads xs h i x g. absurd (none_there xs i x (Begins-empty nodes timeout n xs b h) g);
}

Moves-IsMatched :
    {members : List NodeId} {n q : Network}
    → Moves members n q
    → IsMatched members n
    → IsMatched members q
Moves-IsMatched {members} {n} (moves k e m heard delivered) v =
    elim (step-log (n.cluster.node k) e) [
      | inl same ↦ move_kept members n k e m heard delivered v (inl same)
      | inr (inl p) ↦ move_grown members n k e m heard delivered v p
      | inr (inr taken) ↦ move_kept members n k e m heard delivered v (inr taken)
    ]

Runs-IsMatched :
    {members : List NodeId} {n q : Network}
    → IsMatched members n
    → Runs members n q
    → IsMatched members q
Runs-IsMatched v stays = v
Runs-IsMatched v (goes r step') = Moves-IsMatched step' (Runs-IsMatched v r)

-- Log matching: in every state that a cluster of new nodes reaches, in which votes and entries are
-- heard only as they were sent, and any message may be lost, repeated or delayed, two members whose
-- logs have entries of one term at one index have the same entries up to that index.
pub log_matching :
    (nodes : List NodeId) (timeout : NodeId → ℕ) (start n : Network) (a b : NodeId)
    → Begins nodes timeout start
    → Runs (from_list nodes) start n
    → contains a (from_list nodes) ≡ true
    → contains b (from_list nodes) ≡ true
    → (i : ℕ) (x y : LogEntry) → get_elem? (n.cluster.node a).log i ≡ some x
    → get_elem? (n.cluster.node b).log i ≡ some y
    → x.term ≡ y.term
    → take (suc i) (n.cluster.node a).log ≡ take (suc i) (n.cluster.node b).log
log_matching nodes timeout start n a b begins r ma mb =
    let v = Runs-IsMatched (Begins-IsMatched nodes timeout start begins) r in
    v.matching _ _ (inl (a, (ma, refl))) (inl (b, (mb, refl)))
