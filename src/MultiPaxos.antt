-- ===== src/MultiPaxos.antt =====
-- crates/iron-multipaxos/src/lib.rs: the Multi-Paxos node. A method on `&mut self` returns the new
-- state beside its result.
pub mod Types
pub mod Promise
mod Tests
pub mod Newest
use iron_consensus.Prelude.{
  ℕ, ◌+◌, ◌/◌, Bool, true, false, ◌||◌, not, List, [], ◌∷◌, Option, none, some, map, Result, ok,
  err, if◌then◌else◌, ltb, leb, ◌==◌, length, filter_by, checked_add, u64_mod,
}
use Types.{Ballot, Value, Message, Outbound, PaxosError, Node, ballot_ord}
use iron_consensus.Order.{is_eq, is_lt, nat_ord}
use iron_consensus.Core.Id.{NodeId, node_ord}
use iron_consensus.BTreeSet
use iron_consensus.BTreeMap

-- Messages to send beside the state that the method leaves.
abbrev pub Output : Type 0
Output = Node × Result PaxosError (List Outbound)

-- `Node::new`
unfoldable pub new : NodeId → List NodeId → Result PaxosError Node
new id nodes =
    let members = BTreeSet.from_list nodes in
    if (length members == 0) || not (BTreeSet.contains id members)
    then err PaxosError.invalid_membership
    else ok (record {
      id = id;
      members = members;
      ballot = record { round = 0; proposer = id };
      promised = none;
      accepted = [];
      promises = [];
      accepted_votes = [];
    })

unfoldable pub majority : Node → ℕ
majority s = length s.members / 2 + 1

unfoldable pub start_round : Node → Output
start_round s = elim (checked_add u64_mod s.ballot.round 1) [
  | none ↦ (s, err PaxosError.ballot_overflow)
  | some round ↦
      let ballot : Ballot = record s.ballot { round = round } in
      (
        record s { ballot = ballot; promises = BTreeSet.insert s.id [] },
        ok (
            map (λ peer. record { to = peer; message = Message.prepare ballot })
              (filter_by (λ peer. not (is_eq peer s.id)) s.members)),
      )
]

unfoldable pub propose : Node → Value → Output
unfolding majority
propose s value =
    if value.slot == 0
    then (s, err PaxosError.invalid_slot)
    else if ltb (length s.promises) (majority s)
    then (s, err PaxosError.not_proposer)
    else (
      s,
      ok (map (λ peer. record { to = peer; message = Message.accept s.ballot value }) s.members),
    )

-- `is_none_or(|(current, _)| ballot > *current)`
unfoldable pub replaces : Ballot → Option (Ballot × Value) → Bool
replaces ballot none = true
replaces ballot (some (current, value)) = is_lt current ballot

-- The map with a value that an older ballot does not replace.
unfoldable pub keep_newest :
    Ballot → Value → List (ℕ × (Ballot × Value)) → List (ℕ × (Ballot × Value))
unfolding replaces
keep_newest ballot value entries =
    if replaces ballot (BTreeMap.get value.slot entries)
    then BTreeMap.insert value.slot (ballot, value) entries
    else entries

unfoldable pub restore_accepted : Node → Ballot → Value → Node × Result PaxosError (Unit {0})
unfolding keep_newest
restore_accepted s ballot value =
    if value.slot == 0
    then (s, err PaxosError.invalid_slot)
    else (record s { accepted = keep_newest ballot value s.accepted }, ok tt)

-- `is_some_and(|current| current > &ballot)`
unfoldable pub promised_above : Option Ballot → Ballot → Bool
promised_above none ballot = false
promised_above (some current) ballot = is_lt ballot current

unfoldable pub prepare : Node → NodeId → Ballot → Output
unfolding promised_above
prepare s proposer ballot = if promised_above s.promised ballot then (s, ok []) else (
  record s { promised = some ballot },
  ok (record { to = proposer; message = Message.promise ballot (BTreeMap.values s.accepted) } ∷ []),
)

-- The loop over the values that a promise reports.
unfoldable pub merge_accepted :
    List (Ballot × Value) → List (ℕ × (Ballot × Value)) → List (ℕ × (Ballot × Value))
unfolding keep_newest
merge_accepted [] entries = entries
merge_accepted ((old_ballot, value) ∷ rest) entries =
    merge_accepted rest (keep_newest old_ballot value entries)

unfoldable pub promise : Node → NodeId → Ballot → List (Ballot × Value) → Output
unfolding merge_accepted
promise s from ballot accepted = if not (is_eq ballot s.ballot) then (s, ok []) else (
  record s {
    promises = BTreeSet.insert from s.promises;
    accepted = merge_accepted accepted s.accepted;
  },
  ok [],
)

unfoldable pub accept : Node → Ballot → Value → Output
unfolding promised_above
accept s ballot value = if promised_above s.promised ballot then (s, ok []) else (
  record s {
    promised = some ballot;
    accepted = BTreeMap.insert value.slot (ballot, value) s.accepted;
  },
  ok (record { to = ballot.proposer; message = Message.accepted ballot s.id value } ∷ []),
)

-- `entry(slot).or_default()` and the insertion into it.
unfoldable pub votes_with : NodeId → Option (List NodeId) → List NodeId
votes_with acceptor none = BTreeSet.insert acceptor []
votes_with acceptor (some votes) = BTreeSet.insert acceptor votes

unfoldable pub accepted_vote : Node → Ballot → NodeId → Value → Output
unfolding votes_with majority
accepted_vote s ballot acceptor value =
    if not (is_eq ballot s.ballot)
    then (s, ok [])
    else (let votes = votes_with acceptor (BTreeMap.get value.slot s.accepted_votes) in
        let s' = record s { accepted_votes = BTreeMap.insert value.slot votes s.accepted_votes } in
        if leb (majority s) (length votes)
        then (
          s',
          ok (
              map (λ peer. record { to = peer; message = Message.decision ballot value })
                s.members),
        )
        else (s', ok []))

unfoldable pub receive : Node → NodeId → Message → Output
unfolding prepare promise accept accepted_vote
receive s from (Message.prepare ballot) = prepare s from ballot
receive s from (Message.promise ballot accepted) = promise s from ballot accepted
receive s from (Message.accept ballot value) = accept s ballot value
receive s from (Message.accepted ballot acceptor value) = accepted_vote s ballot acceptor value
receive s from (Message.decision ballot value) =
    (record s { accepted = BTreeMap.insert value.slot (ballot, value) s.accepted }, ok [])
