-- ===== src/Raft.antt =====
-- crates/iron-raft/src/lib.rs: the Raft node. A method on `&mut self` returns the new state beside
-- its result; `log.len() as u64` and `as usize` keep the value on a 64-bit target.
pub mod Types
mod Tests
pub mod Grants
pub mod Election
pub mod Steps
pub mod Append
pub mod Log
pub mod Matching
pub mod Sends
pub mod Logs
pub mod Replication
use Types.{Role, LogEntry, Message, Outbound, RaftError, RaftNode}
use iron_consensus.Prelude.{
  ℕ, zero, suc, ◌+◌, ◌-◌, ◌/◌, min, Bool, true, false, ◌&&◌, ◌||◌, not, List, [], ◌∷◌, ◌++◌, Option,
  none, some, map, Result, ok, err, if◌then◌else◌, ltb, leb, ◌==◌, length, take, get_elem?,
  filter_by, checked_add, u64_mod,
}
use iron_consensus.Order.{is_eq}
use iron_consensus.Core.Id.{NodeId, node_ord}
use iron_consensus.BTreeSet
use iron_consensus.BTreeMap

-- A reply list beside the state that the method leaves.
abbrev pub Output : Type 0
Output = RaftNode × Result RaftError (List Outbound)

-- `RaftNode::new`
unfoldable pub new : NodeId → List NodeId → ℕ → Result RaftError RaftNode
new id nodes election_timeout =
    let members = BTreeSet.from_list nodes in
    if not (BTreeSet.contains id members) || election_timeout == 0
    then err RaftError.empty_membership
    else ok (record {
      id = id;
      members = members;
      role = Role.follower;
      current_term = 0;
      voted_for = none;
      votes = [];
      log = [];
      commit_index = 0;
      election_elapsed = 0;
      election_timeout = election_timeout;
      next_index = [];
      replication_acks = [];
    })

unfoldable pub majority : RaftNode → ℕ
majority s = length s.members / 2 + 1

unfoldable pub last_term : List LogEntry → ℕ
last_term [] = 0
last_term (e ∷ []) = e.term
last_term (e ∷ f ∷ log) = last_term (f ∷ log)

unfoldable pub is_up_to_date : RaftNode → ℕ → ℕ → Bool
is_up_to_date s index term =
    ltb (last_term s.log) term || (term == last_term s.log && leb (length s.log) index)

-- `members.iter().filter(…).map(…)`: one message to every other member, in key order.
unfoldable pub peers : RaftNode → List NodeId
peers s = filter_by (λ peer. not (is_eq peer s.id)) s.members

unfoldable pub heartbeats : RaftNode → List Outbound
heartbeats s =
    map
      (λ peer. record {
        to = peer;
        message = Message.append_entries s.current_term s.id 0 0 s.log s.commit_index;
      })
      (peers s)

-- What a new candidate sends, from its state after the change.
unfoldable pub vote_requests : RaftNode → List Outbound
vote_requests s =
    map
      (λ peer. record {
        to = peer;
        message = Message.request_vote s.current_term s.id (length s.log) (last_term s.log);
      })
      (peers s)

unfoldable pub become_follower : RaftNode → ℕ → RaftNode
become_follower s term = record s {
  current_term = term;
  role = Role.follower;
  voted_for = none;
  votes = [];
  election_elapsed = 0;
}

unfoldable pub become_leader : RaftNode → RaftNode
become_leader s = record s {
  role = Role.leader;
  next_index = BTreeMap.insert_all (map (λ peer. (peer, length s.log)) s.members) [];
  election_elapsed = 0;
}

unfoldable pub start_election : RaftNode → Output
start_election s = elim (checked_add u64_mod s.current_term 1) [
  | none ↦ (s, err RaftError.index_overflow)
  | some term ↦
      let t = record s {
        current_term = term;
        role = Role.candidate;
        voted_for = some s.id;
        votes = BTreeSet.insert s.id [];
        election_elapsed = 0;
      } in
      (t, ok (vote_requests t))
]

unfoldable pub tick : RaftNode → Output
unfolding start_election
tick s = elim (checked_add u64_mod s.election_elapsed 1) [
  | none ↦ (s, err RaftError.index_overflow)
  | some elapsed ↦
      let t = record s { election_elapsed = elapsed } in
      elim s.role [
        | Role.leader ↦ (t, ok (heartbeats t))
        | _ ↦ if ltb elapsed s.election_timeout then (t, ok []) else start_election t
      ]
]

unfoldable pub propose : RaftNode → List ℕ → Output
propose s command = elim s.role [
  | Role.leader ↦
      let t = record s {
        log = s.log ++ (record { term = s.current_term; command = command } ∷ []);
        replication_acks = BTreeSet.insert s.id [];
      } in
      (t, ok (heartbeats t))
  | _ ↦ (s, err RaftError.not_leader)
]

-- `if term > self.current_term { self.become_follower(term) }`
unfoldable pub observe_term : RaftNode → ℕ → RaftNode
unfolding become_follower
observe_term s term = if ltb s.current_term term then become_follower s term else s

unfoldable pub may_vote_for : Option NodeId → NodeId → Bool
may_vote_for none candidate = true
may_vote_for (some v) candidate = is_eq v candidate

unfoldable pub grants : RaftNode → ℕ → NodeId → ℕ → ℕ → Bool
unfolding may_vote_for is_up_to_date
grants s term candidate index log_term =
    term == s.current_term && (may_vote_for s.voted_for candidate && is_up_to_date s index log_term)

unfoldable pub request_vote : RaftNode → ℕ → NodeId → ℕ → ℕ → Output
unfolding observe_term
request_vote s term candidate index log_term =
    let t = observe_term s term in
    let granted = grants t term candidate index log_term in
    (
      if granted then record t { voted_for = some candidate; election_elapsed = 0 } else t,
      ok (record { to = candidate; message = Message.vote t.current_term t.id granted } ∷ []),
    )

abbrev pub is_candidate : Role → Bool
is_candidate Role.candidate = true
is_candidate _ = false

abbrev pub is_leader : Role → Bool
is_leader Role.leader = true
is_leader _ = false

unfoldable pub count_vote : RaftNode → NodeId → Output
unfolding become_leader majority
count_vote s voter =
    let t = record s { votes = BTreeSet.insert voter s.votes } in
    if leb (majority t) (length t.votes)
    then (become_leader t, ok (heartbeats (become_leader t)))
    else (t, ok [])

unfoldable pub vote : RaftNode → ℕ → NodeId → Bool → Output
unfolding become_follower count_vote
vote s term voter granted =
    if ltb s.current_term term
    then (become_follower s term, ok [])
    else if not (is_candidate s.role) || (not (term == s.current_term) || not granted)
    then (s, ok [])
    else count_vote s voter

-- `self.log[i].term` behind its bound check.
unfoldable pub has_term : List LogEntry → ℕ → ℕ → Bool
has_term log i term = elim (get_elem? log i) [ none ↦ false | some e ↦ e.term == term ]

-- The body of the loop over the entries, at `index = prev + offset`.
unfoldable pub place : List LogEntry → ℕ → LogEntry → List LogEntry
unfolding has_term
place log index entry =
    let kept =
      if ltb index (length log) && not (has_term log index entry.term)
      then take index log
      else log in
    if leb (length kept) index then kept ++ (entry ∷ []) else kept

unfoldable pub append_loop : List LogEntry → ℕ → List LogEntry → List LogEntry
append_loop log index [] = log
append_loop log index (entry ∷ entries) = append_loop (place log index entry) (suc index) entries

-- The consistency check at `prev`.
unfoldable pub matches_prev : List LogEntry → ℕ → ℕ → Bool
unfolding has_term
matches_prev log prev prev_term =
    not (ltb (length log) prev || (ltb 0 prev && not (has_term log (prev - 1) prev_term)))

unfoldable pub append : RaftNode → ℕ → NodeId → ℕ → ℕ → List LogEntry → ℕ → Output
unfolding observe_term
append s term leader prev prev_term entries leader_commit =
    let t = observe_term s term in
    let success = term == t.current_term && matches_prev t.log prev prev_term in
    let log = append_loop t.log prev entries in
    let u =
      if success
      then record t {
        log = log;
        commit_index = min leader_commit (length log);
        election_elapsed = 0;
      }
      else t in
    (
      u,
      ok (
          record {
            to = leader;
            message =
                Message.append_response u.current_term u.id success
                  (if success then length u.log else 0);
          }
          ∷ []),
    )

unfoldable pub append_response : RaftNode → ℕ → NodeId → Bool → ℕ → Output
unfolding become_follower majority
append_response s term follower success match_index =
    if ltb s.current_term term
    then (become_follower s term, ok [])
    else if is_leader s.role && success
    then (let acks = BTreeSet.insert follower s.replication_acks in
        (
          record s {
            next_index = BTreeMap.insert follower match_index s.next_index;
            replication_acks = acks;
            commit_index =
                (if leb (majority s) (length acks)
                  then min match_index (length s.log)
                  else s.commit_index);
          },
          ok [],
        ))
    else (s, ok [])

unfoldable pub receive : RaftNode → Message → Output
receive s (Message.request_vote term candidate index log_term) =
    request_vote s term candidate index log_term
receive s (Message.vote term voter granted) = vote s term voter granted
receive s (Message.append_entries term leader prev prev_term entries leader_commit) =
    append s term leader prev prev_term entries leader_commit
receive s (Message.append_response term follower success match_index) =
    append_response s term follower success match_index
