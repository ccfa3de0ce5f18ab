-- ===== src/MultiPaxos/Types.antt =====
-- The data of crates/iron-multipaxos/src/lib.rs. Rounds and slots are u64; a command is its bytes.
use iron_consensus.Prelude.{ℕ, List, Option, ◌≡◌, ◌↔◌, arith, Ordering, compare}
use iron_consensus.Order.{Ord, opposite, then_cmp, nat_ord, list_ord}
use iron_consensus.Core.Id.{NodeId, node_ord}

pub record Ballot : Type 0 where
  pub round : ℕ
  pub proposer : NodeId

pub record Value : Type 0 where
  pub slot : ℕ
  pub command : List ℕ

pub data Message : Type 0 where
  prepare : Ballot → Message
  -- ballot, accepted
  promise : Ballot → List (Ballot × Value) → Message
  accept : Ballot → Value → Message
  -- ballot, acceptor, value
  accepted : Ballot → NodeId → Value → Message
  decision : Ballot → Value → Message

pub record Outbound : Type 0 where
  pub to : NodeId
  pub message : Message

pub data PaxosError : Type 0 where
  invalid_membership ballot_overflow not_proposer invalid_slot : PaxosError

pub record Node : Type 0 where
  pub id : NodeId
  pub members : List NodeId
  pub ballot : Ballot
  pub promised : Option Ballot
  pub accepted : List (ℕ × (Ballot × Value))
  pub promises : List NodeId
  pub accepted_votes : List (ℕ × List NodeId)

-- The derived order: by round, then by proposer.
unfoldable pub cmp_ballot : Ballot → Ballot → Ordering
cmp_ballot a b = then_cmp (compare a.round b.round) (node_ord.cmp a.proposer b.proposer)

pub cmp_ballot_iff : (a b : Ballot) → (cmp_ballot a b ≡ Ordering.eq) ↔ (a ≡ b)
unfolding cmp_ballot
cmp_ballot_iff a b = ground (arith, node_ord.cmp_iff a.proposer b.proposer)

pub cmp_ballot_flip : (a b : Ballot) → cmp_ballot b a ≡ opposite (cmp_ballot a b)
unfolding cmp_ballot
cmp_ballot_flip a b = ground (arith, node_ord.cmp_flip a.proposer b.proposer)

pub cmp_ballot_trans :
    (a b c : Ballot)
    → cmp_ballot a b ≡ Ordering.lt
    → cmp_ballot b c ≡ Ordering.lt
    → cmp_ballot a c ≡ Ordering.lt
unfolding cmp_ballot
cmp_ballot_trans a b c p q = ground (
  arith,
  node_ord.cmp_iff a.proposer b.proposer,
  node_ord.cmp_iff b.proposer c.proposer,
  node_ord.cmp_iff a.proposer c.proposer,
  node_ord.cmp_trans a.proposer b.proposer c.proposer,
)

instance unfoldable pub ballot_ord : Ord Ballot
ballot_ord = record {
  cmp = cmp_ballot;
  cmp_iff = cmp_ballot_iff;
  cmp_flip = cmp_ballot_flip;
  cmp_trans = cmp_ballot_trans;
}
