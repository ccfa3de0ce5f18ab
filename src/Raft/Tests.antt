-- ===== src/Raft/Tests.antt =====
-- Runs of Raft nodes, and the theorems at concrete inputs.
use iron_consensus.Prelude.{
  ◌≡◌, refl, inl, true, List, [], ◌∷◌, ◌++◌, none, ok, take, drop, arith, filter_by,
}
use iron_consensus.Core.Id.{NodeId, node_ord}
use iron_consensus.BTreeSet
use iron_consensus.BTreeSet.{contains, from_list}
use iron_consensus.BTreeMap
use iron_consensus.Raft.Types.{Role, LogEntry, RaftNode, Message}
use iron_consensus.Raft.{
  new, majority, tick, start_election, propose, receive, request_vote, vote, count_vote, append,
  append_response, become_follower, become_leader, observe_term, grants, heartbeats, peers,
  vote_requests, last_term, is_up_to_date, may_vote_for, has_term, place, append_loop, matches_prev,
}
use iron_consensus.Raft.Log.{merge}
use iron_consensus.Raft.Append.{append_accepted, append_idem}
use iron_consensus.Raft.Steps.{
  Event, ticks, proposes, receives, handle, step, run, VoteKept, run-VoteKept, IsValid, new-IsValid,
  run-IsValid,
}
use iron_consensus.Raft.Grants.{grants_sent, grants_of}
use iron_consensus.Raft.Election.{Cluster, act, acts, Reach, here, next}
use iron_consensus.Raft.Election.Safety.{Starts, one_leader_per_term}
use iron_consensus.Raft.Replication.{Network, move, moves, Runs, stays, goes}
use iron_consensus.Raft.Replication.Safety.{Begins, log_matching}

program : Unit {0}
unfolding node_ord BTreeSet.contains BTreeSet.insert BTreeSet.from_list BTreeMap.insert
    BTreeMap.insert_all new majority tick start_election propose receive request_vote vote
    count_vote append append_response become_follower become_leader observe_term grants heartbeats
    peers vote_requests last_term is_up_to_date may_vote_for has_term place append_loop matches_prev
    handle run grants_sent grants_of act move merge filter_by
program = tt

abbrev a : NodeId
a = 97 ∷ []

abbrev b : NodeId
b = 98 ∷ []

abbrev c : NodeId
c = 99 ∷ []

abbrev abc : List NodeId
abc = a ∷ b ∷ c ∷ []

abbrev fresh : NodeId → RaftNode
fresh k = record {
  id = k;
  members = abc;
  role = Role.follower;
  current_term = 0;
  voted_for = none;
  votes = [];
  log = [];
  commit_index = 0;
  election_elapsed = 0;
  election_timeout = 1;
  next_index = [];
  replication_acks = [];
}

-- `election_requires_a_majority_and_leader_accepts_commands`
elected : (step (step (fresh a) ticks) (receives (Message.vote 1 b true))).role ≡ Role.leader
unfolding program
elected = refl

abbrev entry : LogEntry
entry = record { term = 1; command = 7 ∷ [] }

-- `follower_rejects_conflicting_previous_log`
refused : (append (fresh a) 1 b 1 1 [] 0).0.log ≡ []
unfolding program
refused = refl

abbrev start : Cluster
start = record { node = fresh; grants = [] }

abbrev asked : Event
asked = receives (Message.request_vote 1 a 0 0)

abbrev won : Event
won = receives (Message.vote 1 b true)

abbrev led : Cluster
led = act (act (act start a ticks) b asked) a won

members_abc : from_list abc ≡ abc
unfolding program
members_abc = refl

fresh-new : (k : NodeId) → contains k (from_list abc) ≡ true → new k abc 1 ≡ ok (fresh k)
unfolding new
fresh-new k m = rw (m, members_abc)

start-Starts : Starts abc (λ k. 1) start
start-Starts = (refl, fresh-new)

led-Reach : Reach (from_list abc) start led
unfolding program
led-Reach =
    next (next (next here (acts a ticks refl tt)) (acts b asked refl tt))
      (acts a won refl (inl refl))

led-leader : (led.node a).role ≡ Role.leader
unfolding program
led-leader = refl

one_leader_per_term_example : ◌≡◌ {A = NodeId} a a
unfolding program
one_leader_per_term_example =
    one_leader_per_term abc (λ k. 1) start led a a start-Starts led-Reach refl refl led-leader
      led-leader refl

append_accepted_example :
    (append (fresh a) 1 b 0 0 (entry ∷ []) 1).0.log ≡ take 0 [] ++ merge (drop 0 []) (entry ∷ [])
unfolding program
append_accepted_example = (append_accepted (fresh a) 1 b 0 0 (entry ∷ []) 1 (omega arith) refl).0

append_idem_example :
    append (append (fresh a) 1 b 0 0 (entry ∷ []) 1).0 1 b 0 0 (entry ∷ []) 1
    ≡ append (fresh a) 1 b 0 0 (entry ∷ []) 1
append_idem_example = append_idem (fresh a) 1 b 0 0 (entry ∷ []) 1

run-VoteKept_example : VoteKept (fresh a) (run (fresh a) (ticks ∷ won ∷ proposes (7 ∷ []) ∷ []))
run-VoteKept_example = run-VoteKept (fresh a) (ticks ∷ won ∷ proposes (7 ∷ []) ∷ [])

fresh-IsValid : IsValid (fresh a)
unfolding program
fresh-IsValid = new-IsValid a abc 1 refl

run-IsValid_example : IsValid (run (fresh a) (ticks ∷ won ∷ proposes (7 ∷ []) ∷ []))
run-IsValid_example = run-IsValid (fresh a) (ticks ∷ won ∷ proposes (7 ∷ []) ∷ []) fresh-IsValid

-- The leader proposes, and one follower takes the entry.
abbrev begin : Network
begin = record { cluster = start; sent = []; led = [] }

abbrev offered : Event
offered = receives (Message.append_entries 1 a 0 0 (entry ∷ []) 0)

abbrev replicated : Network
replicated =
    move (move (move (move (move begin a ticks) b asked) a won) a (proposes (7 ∷ []))) b offered

begin-Begins : Begins abc (λ k. 1) begin
begin-Begins = record { fresh = start-Starts; silent = refl; leaderless = refl }

replicated-Runs : Runs (from_list abc) begin replicated
unfolding program
replicated-Runs =
    goes
      (goes
        (goes (goes (goes stays (moves a ticks refl tt tt)) (moves b asked refl tt tt))
          (moves a won refl (inl refl) tt))
        (moves a (proposes (7 ∷ [])) refl tt tt))
      (moves b offered refl tt (inl refl))

replicated_log : (replicated.cluster.node b).log ≡ entry ∷ []
unfolding program
replicated_log = refl

log_matching_example :
    take 1 (replicated.cluster.node a).log ≡ take 1 (replicated.cluster.node b).log
unfolding program
log_matching_example =
    log_matching abc (λ k. 1) begin replicated a b begin-Begins replicated-Runs refl refl 0 entry
      entry refl refl refl
