-- ===== src/Raft/Replication.antt =====
-- A cluster of the nodes of crates/iron-raft/src/lib.rs in which entries are heard only from the
-- nodes that sent them. It extends the one of Raft/Election.antt by all messages ever sent and, for
-- the proofs, by every leadership that was ever taken.
pub mod Offices
pub mod Matched
pub mod Grown
pub mod Safety
use iron_consensus.Prelude.{
  ℕ, ◌+◌, ◌/◌, ◌≤◌, ◌<◌, ◌≡◌, ◌≢◌, ◌⊎◌, Bool, true, false, ◌&&◌, not, List, [], ◌∷◌, ◌++◌, some,
  if◌then◌else◌, length,
}
use iron_consensus.Core.Id.{NodeId, node_ord}
use iron_consensus.BTreeSet.{contains, IsSorted, Subset}
use iron_consensus.Raft.Types.{Role, Message, Outbound, RaftNode}
use iron_consensus.Raft.{is_leader}
use iron_consensus.Raft.Steps.{Event, ticks, proposes, receives, handle, step}
use iron_consensus.Raft.Grants.{Grant}
use iron_consensus.Raft.Sends.{In, outbox}
use iron_consensus.Raft.Election.{Cluster, Heard, act, Inv}

-- A leadership: its term and its leader.
pub record Office : Type 0 where
  pub term : ℕ
  pub leader : NodeId

pub record Network : Type 0 where
  pub cluster : Cluster
  pub sent : List Outbound
  pub led : List Office

abbrev pub office : ℕ → NodeId → Office
office term leader = record { term = term; leader = leader }

-- The leadership that a step takes, if it makes a leader.
abbrev pub taken_office : RaftNode → RaftNode → List Office
taken_office s t =
    if is_leader t.role && not (is_leader s.role) then office t.current_term t.id ∷ [] else []

-- Entries are heard only if they were sent to this node.
abbrev pub Delivered : List Outbound → NodeId → Event → Type 0
Delivered sent k (receives (Message.append_entries term leader prev prev_term entries commit)) =
    In
      (record {
        to = k;
        message = Message.append_entries term leader prev prev_term entries commit;
      })
      sent
Delivered sent k (receives (Message.request_vote _ _ _ _)) = Unit {0}
Delivered sent k (receives (Message.vote _ _ _)) = Unit {0}
Delivered sent k (receives (Message.append_response _ _ _ _)) = Unit {0}
Delivered sent k ticks = Unit {0}
Delivered sent k (proposes _) = Unit {0}

unfoldable pub move : Network → NodeId → Event → Network
move n k e = record {
  cluster = act n.cluster k e;
  sent = outbox (handle (n.cluster.node k) e).1 ++ n.sent;
  led = taken_office (n.cluster.node k) (step (n.cluster.node k) e) ++ n.led;
}

-- A member's step.
pub data Moves (members : List NodeId) (n : Network) : Network → Type 0 where
  moves :
      (k : NodeId) (e : Event)
      → contains k members ≡ true
      → Heard n.cluster.grants k e
      → Delivered n.sent k e
      → Moves members n (move n k e)

pub data Runs (members : List NodeId) (n : Network) : Network → Type 0 where
  stays : Runs members n n
  goes : {p q : Network} → Runs members n p → Moves members p q → Runs members n q

-- A node that votes for no other candidate in the term, now or later.
pub record Pledged (c : Cluster) (j : NodeId) (term : ℕ) (leader : NodeId) : Type 0 where
  pub bound :
      (term < (c.node j).current_term)
      ⊎ (((c.node j).current_term ≡ term) × ((c.node j).voted_for ≡ some leader))
  pub granted :
      (g : Grant)
      → iron_consensus.Raft.Election.In g c.grants
      → g.voter ≡ j
      → g.term ≡ term
      → g.candidate ≡ leader

-- A majority is pledged to the leader.
pub record Elected (members : List NodeId) (c : Cluster) (o : Office) : Type 0 where
  pub votes : List NodeId
  pub sorted : IsSorted votes
  pub voters : Subset votes members
  pub quorum : length members / 2 + 1 ≤ length votes
  pub pledged : (j : NodeId) → contains j votes ≡ true → Pledged c j o.term o.leader

-- What holds of the leaderships.
pub record IsLed (members : List NodeId) (n : Network) : Type 0 where
  pub base : Inv members n.cluster
  pub elected : (o : Office) → In o n.led → Elected members n.cluster o
  pub remains :
      (o : Office)
      → In o n.led
      → (contains o.leader members ≡ true)
        × ((o.term < (n.cluster.node o.leader).current_term)
            ⊎ (((n.cluster.node o.leader).current_term ≡ o.term)
                × ((n.cluster.node o.leader).role ≡ Role.leader)))
  pub current :
      (k : NodeId)
      → contains k members ≡ true
      → (n.cluster.node k).role ≡ Role.leader
      → In (office (n.cluster.node k).current_term k) n.led
  pub unique : (o p : Office) → In o n.led → In p n.led → o.term ≡ p.term → o.leader ≡ p.leader
