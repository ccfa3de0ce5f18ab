-- ===== src/MultiPaxos/Tests.antt =====
-- Runs of Multi-Paxos, and the theorems at concrete inputs.
use iron_consensus.Prelude.{ℕ, ◌≡◌, refl, true, All, List, [], ◌∷◌, none, some, ok, err}
use iron_consensus.Order.{is_lt, nat_ord}
use iron_consensus.Core.Id.{NodeId, node_ord}
use iron_consensus.BTreeSet
use iron_consensus.BTreeMap
use iron_consensus.MultiPaxos.Types.{
  Ballot, Value, Message, PaxosError, Node, ballot_ord, cmp_ballot,
}
use iron_consensus.MultiPaxos.{new, start_round, propose, restore_accepted, receive}
use iron_consensus.MultiPaxos.Promise.{Call, starts_round, receives, step, run, promise_kept}
use iron_consensus.MultiPaxos.Newest.{Holds, IsNewer, Comes, promise-Holds}

program : Unit {0}
unfolding node_ord ballot_ord cmp_ballot BTreeSet.contains BTreeSet.insert BTreeSet.from_list
    BTreeMap.get BTreeMap.insert new start_round propose restore_accepted receive step run
program = tt

abbrev a : NodeId
a = 97 ∷ []

abbrev b : NodeId
b = 98 ∷ []

abbrev c : NodeId
c = 99 ∷ []

abbrev ballot : ℕ → NodeId → Ballot
ballot n p = record { round = n; proposer = p }

abbrev value : Value
value = record { slot = 1; command = 120 ∷ [] }

abbrev other : Value
other = record { slot = 1; command = 121 ∷ [] }

abbrev node : Node
node = record {
  id = a;
  members = a ∷ b ∷ c ∷ [];
  ballot = ballot 0 a;
  promised = none;
  accepted = [];
  promises = [];
  accepted_votes = [];
}

node-new : new a (c ∷ a ∷ b ∷ []) ≡ ok node
unfolding program
node-new = refl

-- `proposer_forms_a_quorum_and_acceptors_learn`
quorum :
    (propose (run node (starts_round ∷ receives b (Message.promise (ballot 1 a) []) ∷ [])) value).1
    ≡ ok (
        record { to = a; message = Message.accept (ballot 1 a) value }
        ∷ record { to = b; message = Message.accept (ballot 1 a) value }
        ∷ record { to = c; message = Message.accept (ballot 1 a) value }
        ∷ [])
unfolding program
quorum = refl

-- Without a majority of promises nothing is proposed.
no_quorum : (propose (run node (starts_round ∷ [])) value).1 ≡ err PaxosError.not_proposer
unfolding program
no_quorum = refl

abbrev promised : Node
promised = record node { promised = some (ballot 2 b) }

abbrev calls : List Call
calls = starts_round ∷ receives c (Message.accept (ballot 3 c) value) ∷ []

promise_kept_example :
    let s' = run promised calls in
    (receive s' b (Message.prepare (ballot 1 c)) ≡ (s', ok []))
    × (receive s' b (Message.accept (ballot 1 c) other) ≡ (s', ok []))
unfolding program
promise_kept_example = promise_kept promised calls (ballot 2 b) (ballot 1 c) b other refl below
  where
    below : is_lt (ballot 1 c) (ballot 2 b) ≡ true
    below = refl

abbrev accepted : Node
accepted = record node { accepted = (1, (ballot 0 b, value)) ∷ [] }

promise-Holds_example :
    let reports : List (Ballot × Value) = (ballot 0 c, other) ∷ [] in
    let s' = (receive accepted b (Message.promise (ballot 0 a) reports)).0 in
    All (λ (r : Ballot × Value). Holds s'.accepted r.1.slot r.0) reports
    × IsNewer (BTreeMap.get 1 accepted.accepted) (BTreeMap.get 1 s'.accepted)
    × Comes reports 1 (BTreeMap.get 1 accepted.accepted) (BTreeMap.get 1 s'.accepted)
unfolding program
promise-Holds_example = promise-Holds accepted b ((ballot 0 c, other) ∷ []) 1
