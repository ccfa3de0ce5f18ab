-- ===== src/Raft/Election.antt =====
-- Election safety: a cluster of the nodes of crates/iron-raft/src/lib.rs, in which any message may
-- be lost, repeated, delayed or made up, except that a granted vote was sent by its voter.
pub mod Safety
use iron_consensus.Prelude.{
  ℕ, zero, suc, ◌+◌, ◌≤◌, ◌<◌, ◌/◌, ◌≡◌, ◌≢◌, refl, sym, ◌∙◌, ap, subst, ◌⊎◌, inl, inr, Bool, true,
  false, not, List, [], ◌∷◌, ◌++◌, map, Option, none, some, Result, ok, err, arith, Bool-cases,
  if◌then◌else◌, length,
}
use iron_consensus.Order.{is_eq, is_eq_iff}
use iron_consensus.Core.Id.{NodeId, node_ord}
use iron_consensus.BTreeSet.{contains, from_list, IsSorted, Subset}
use iron_consensus.BTreeSet.Quorum.{majorities_meet}
use iron_consensus.Raft.Types.{Role, RaftNode, Message}
use iron_consensus.Raft.{new, majority}
use iron_consensus.Raft.Steps.{
  Event, ticks, proposes, receives, handle, step, VoteKept, step-VoteKept, IsValid, step-IsValid,
  new-IsValid, step-fixed,
}
use iron_consensus.Raft.Grants.{Grant, grants_of, Honest, handle-Honest, VoteSource, step-votes}

-- The nodes by their identity, and every granted vote that was ever sent.
pub record Cluster : Type 0 where
  pub node : NodeId → RaftNode
  pub grants : List Grant

abbrev pub In : Grant → List Grant → Type 0
In g [] = ⊥
In g (h ∷ hs) = (g ≡ h) ⊎ In g hs

-- A granted vote is heard only if its voter sent it to this node; all else is unconstrained.
abbrev pub Heard : List Grant → NodeId → Event → Type 0
Heard gs k (receives (Message.vote term voter true)) =
    In (record { voter = voter; term = term; candidate = k }) gs
Heard gs k (receives (Message.vote term voter false)) = Unit {0}
Heard gs k (receives (Message.request_vote _ _ _ _)) = Unit {0}
Heard gs k (receives (Message.append_entries _ _ _ _ _ _)) = Unit {0}
Heard gs k (receives (Message.append_response _ _ _ _)) = Unit {0}
Heard gs k ticks = Unit {0}
Heard gs k (proposes _) = Unit {0}

abbrev pub update : (NodeId → RaftNode) → NodeId → RaftNode → NodeId → RaftNode
update f k a j = if is_eq j k then a else f j

unfoldable pub act : Cluster → NodeId → Event → Cluster
act s k e = record {
  node = update s.node k (step (s.node k) e);
  grants = grants_of (handle (s.node k) e) ++ s.grants;
}

-- A member's step.
pub data Step (members : List NodeId) (s : Cluster) : Cluster → Type 0 where
  acts :
      (k : NodeId) (e : Event)
      → contains k members ≡ true
      → Heard s.grants k e
      → Step members s (act s k e)

pub data Reach (members : List NodeId) (s : Cluster) : Cluster → Type 0 where
  here : Reach members s s
  next : {t u : Cluster} → Reach members s t → Step members t u → Reach members s u

abbrev pub vote_of : NodeId → ℕ → NodeId → Grant
vote_of voter term candidate = record { voter = voter; term = term; candidate = candidate }

pub record Inv (members : List NodeId) (s : Cluster) : Type 0 where
  pub valid : (k : NodeId) → contains k members ≡ true → IsValid (s.node k)
  pub named : (k : NodeId) → contains k members ≡ true → (s.node k).id ≡ k
  pub joined : (k : NodeId) → contains k members ≡ true → (s.node k).members ≡ members
  pub sent_by_members : (g : Grant) → In g s.grants → contains g.voter members ≡ true
  pub sent_before : (g : Grant) → In g s.grants → g.term ≤ (s.node g.voter).current_term
  pub sent_kept :
      (g : Grant)
      → In g s.grants
      → g.term ≡ (s.node g.voter).current_term
      → (s.node g.voter).voted_for ≡ some g.candidate
  pub sent_once :
      (g h : Grant)
      → In g s.grants
      → In h s.grants
      → g.voter ≡ h.voter
      → g.term ≡ h.term
      → g.candidate ≡ h.candidate
  pub counted :
      (k : NodeId)
      → contains k members ≡ true
      → (s.node k).role ≢ Role.follower
      → (j : NodeId) → contains j (s.node k).votes ≡ true
      → (j ≡ k) ⊎ In (vote_of j (s.node k).current_term k) s.grants

In-append : (g : Grant) (gs hs : List Grant) → In g hs → In g (gs ++ hs)
In-append g [] hs h = h
In-append g (x ∷ gs) hs h = inr (In-append g gs hs h)

-- What the new list of grants holds: the old ones, and at most the actor's vote as it now stands.
pub In-act :
    (s : Cluster) (k : NodeId) (e : Event) (g : Grant)
    → In g (act s k e).grants
    → In g s.grants
      ⊎ ((g.voter ≡ (s.node k).id)
          × (g.term ≡ (step (s.node k) e).current_term)
          × ((step (s.node k) e).voted_for ≡ some g.candidate))
unfolding act
In-act s k e g h = elim (handle-Honest (s.node k) e) [
  | inl silent ↦ inl (rw silent at h)
  | inr (c, one, kept) ↦ go (rw one at h) kept
]
  where
    go :
        {c : NodeId}
        → In g (vote_of (s.node k).id (step (s.node k) e).current_term c ∷ s.grants)
        → (step (s.node k) e).voted_for ≡ some c
        → In g s.grants
          ⊎ ((g.voter ≡ (s.node k).id)
              × (g.term ≡ (step (s.node k) e).current_term)
              × ((step (s.node k) e).voted_for ≡ some g.candidate))
    go (inl new') kept = inr (ground arith)
    go (inr old) kept = inl old
