-- ===== src/Raft/Steps.antt =====
-- One step of a Raft node of crates/iron-raft/src/lib.rs for each call of its interface: what every
-- step keeps of the term, the vote and the node's own invariant.
use iron_consensus.Prelude.{
  ℕ, ◌≤◌, ◌<◌, ◌≡◌, ◌≢◌, refl, ◌⊎◌, inl, inr, Bool, true, List, [], ◌∷◌, Option, none, some, ok,
  arith, length, length-append,
}
use iron_consensus.Order.{is_eq_iff}
use iron_consensus.Core.Id.{NodeId, node_ord}
use iron_consensus.BTreeSet.{contains, IsSorted}
use iron_consensus.BTreeSet.Laws.{
  insert-IsSorted, contains-insert, contains-insert_self, from_list-IsSorted,
}
use iron_consensus.Raft.Types.{Role, LogEntry, RaftNode, Message}
use iron_consensus.Raft.{
  Output, new, majority, tick, propose, receive, request_vote, vote, append, append_response,
  become_follower, observe_term, grants, may_vote_for,
}

pub data Event : Type 0 where
  ticks : Event
  proposes : List ℕ → Event
  receives : Message → Event

unfoldable pub handle : RaftNode → Event → Output
handle s ticks = tick s
handle s (proposes command) = propose s command
handle s (receives message) = receive s message

-- The state that a call leaves, also where it returns an error.
abbrev pub step : RaftNode → Event → RaftNode
step s e = (handle s e).0

unfoldable pub run : RaftNode → List Event → RaftNode
run s [] = s
run s (e ∷ es) = run (step s e) es

-- From one state to a later one: the term has grown, or it is the same and a vote given is kept.
abbrev pub VoteKept : RaftNode → RaftNode → Type 0
VoteKept s t =
    (s.current_term < t.current_term)
    ⊎ ((t.current_term ≡ s.current_term) × ((s.voted_for ≡ none) ⊎ (t.voted_for ≡ s.voted_for)))

tick-VoteKept : (s : RaftNode) → VoteKept s (tick s).0
unfolding tick
tick-VoteKept s = ground arith

may_vote_for-cases :
    (v : Option NodeId) (candidate : NodeId)
    → may_vote_for v candidate ≡ true
    → (v ≡ none) ⊎ (v ≡ some candidate)
unfolding may_vote_for
may_vote_for-cases none candidate h = inl refl
may_vote_for-cases (some v) candidate h = inr (ground (arith, is_eq_iff v candidate))

-- A vote is granted only in the current term, and only if none was given or to the same candidate.
pub grants-free :
    (s : RaftNode) (term : ℕ) (candidate : NodeId) (index log_term : ℕ)
    → grants s term candidate index log_term ≡ true
    → (term ≡ s.current_term) × ((s.voted_for ≡ none) ⊎ (s.voted_for ≡ some candidate))
unfolding grants
grants-free s term candidate index log_term h =
    (ground arith, may_vote_for-cases s.voted_for candidate (ground arith))

request_vote-VoteKept :
    (s : RaftNode) (term : ℕ) (candidate : NodeId) (index log_term : ℕ)
    → VoteKept s (request_vote s term candidate index log_term).0
unfolding request_vote observe_term become_follower
request_vote-VoteKept s term candidate index log_term =
    ground (arith, grants-free (observe_term s term) term candidate index log_term)

vote-VoteKept :
    (s : RaftNode) (term : ℕ) (voter : NodeId) (granted : Bool)
    → VoteKept s (vote s term voter granted).0
unfolding vote
vote-VoteKept s term voter granted = ground arith

append-VoteKept :
    (s : RaftNode) (term : ℕ) (leader : NodeId) (prev prev_term : ℕ) (es : List LogEntry) (c : ℕ)
    → VoteKept s (append s term leader prev prev_term es c).0
unfolding append become_follower
append-VoteKept s term leader prev prev_term es c = ground arith

append_response-VoteKept :
    (s : RaftNode) (term : ℕ) (follower : NodeId) (success : Bool) (m : ℕ)
    → VoteKept s (append_response s term follower success m).0
unfolding append_response
append_response-VoteKept s term follower success m = ground arith

propose-VoteKept : (s : RaftNode) (command : List ℕ) → VoteKept s (propose s command).0
unfolding propose
propose-VoteKept s command = ground arith

pub step-VoteKept : (s : RaftNode) (e : Event) → VoteKept s (step s e)
unfolding handle receive
step-VoteKept s ticks = tick-VoteKept s
step-VoteKept s (proposes command) = propose-VoteKept s command
step-VoteKept s (receives (Message.request_vote t c i l)) = request_vote-VoteKept s t c i l
step-VoteKept s (receives (Message.vote t v g)) = vote-VoteKept s t v g
step-VoteKept s (receives (Message.append_entries t l p q es c)) = append-VoteKept s t l p q es c
step-VoteKept s (receives (Message.append_response t f ok' m)) =
    append_response-VoteKept s t f ok' m

-- Over any calls a node's term never falls, and within one term it never revises its vote.
pub run-VoteKept : (s : RaftNode) (es : List Event) → VoteKept s (run s es)
unfolding run
run-VoteKept s [] = inr (refl, inr refl)
run-VoteKept s (e ∷ es) = ground (arith, step-VoteKept s e, run-VoteKept (step s e) es)

-- What holds of a node between calls.
pub record IsValid (s : RaftNode) : Type 0 where
  pub members_sorted : IsSorted s.members
  pub is_member : contains s.id s.members ≡ true
  pub votes_sorted : IsSorted s.votes
  pub commit_bound : s.commit_index ≤ length s.log
  pub leader_quorum : s.role ≡ Role.leader → majority s ≤ length s.votes
  pub self_vote :
      s.role ≢ Role.follower → (s.voted_for ≡ some s.id) × (contains s.id s.votes ≡ true)

pub new-IsValid :
    (id : NodeId) (nodes : List NodeId) (timeout : ℕ) {s : RaftNode}
    → new id nodes timeout ≡ ok s
    → IsValid s
unfolding new
new-IsValid id nodes timeout {s} e = ground (arith, from_list-IsSorted nodes)

tick-IsValid : (s : RaftNode) → IsValid s → IsValid (tick s).0
unfolding tick majority
tick-IsValid s v = ground (arith, insert-IsSorted s.id [], contains-insert_self s.id [])

propose-IsValid : (s : RaftNode) (command : List ℕ) → IsValid s → IsValid (propose s command).0
unfolding propose majority
propose-IsValid s command v =
    let entry : LogEntry = record { term = s.current_term; command = command } in
    ground (arith, length-append s.log (entry ∷ []))

become_follower-IsValid : (s : RaftNode) (term : ℕ) → IsValid s → IsValid (become_follower s term)
unfolding become_follower majority
become_follower-IsValid s term v = ground arith

request_vote-IsValid :
    (s : RaftNode) (term : ℕ) (candidate : NodeId) (index log_term : ℕ)
    → IsValid s
    → IsValid (request_vote s term candidate index log_term).0
unfolding request_vote observe_term become_follower majority
request_vote-IsValid s term candidate index log_term v =
    ground (arith, grants-free (observe_term s term) term candidate index log_term)

vote-IsValid :
    (s : RaftNode) (term : ℕ) (voter : NodeId) (granted : Bool)
    → IsValid s
    → IsValid (vote s term voter granted).0
unfolding vote majority
vote-IsValid s term voter granted v =
    ground (arith, insert-IsSorted voter s.votes, contains-insert s.id voter s.votes)

append-IsValid :
    (s : RaftNode) (term : ℕ) (leader : NodeId) (prev prev_term : ℕ) (es : List LogEntry) (c : ℕ)
    → IsValid s
    → IsValid (append s term leader prev prev_term es c).0
unfolding append become_follower majority
append-IsValid s term leader prev prev_term es c v = ground arith

append_response-IsValid :
    (s : RaftNode) (term : ℕ) (follower : NodeId) (success : Bool) (m : ℕ)
    → IsValid s
    → IsValid (append_response s term follower success m).0
unfolding append_response majority
append_response-IsValid s term follower success m v = ground arith

pub step-IsValid : (s : RaftNode) (e : Event) → IsValid s → IsValid (step s e)
unfolding handle receive
step-IsValid s ticks v = tick-IsValid s v
step-IsValid s (proposes command) v = propose-IsValid s command v
step-IsValid s (receives (Message.request_vote t c i l)) v = request_vote-IsValid s t c i l v
step-IsValid s (receives (Message.vote t w g)) v = vote-IsValid s t w g v
step-IsValid s (receives (Message.append_entries t l p q es c)) v = append-IsValid s t l p q es c v
step-IsValid s (receives (Message.append_response t f ok' m)) v =
    append_response-IsValid s t f ok' m v

-- Whatever calls a new node gets: its commit index stays within its log, a leader holds the
-- recorded votes of a majority, and a candidate or leader has voted for itself.
pub run-IsValid : (s : RaftNode) (es : List Event) → IsValid s → IsValid (run s es)
unfolding run
run-IsValid s [] v = v
run-IsValid s (e ∷ es) v = run-IsValid (step s e) es (step-IsValid s e v)

-- No call changes a node's identity, its membership or its election timeout.
pub step-fixed :
    (s : RaftNode) (e : Event)
    → ((step s e).id ≡ s.id)
      × ((step s e).members ≡ s.members)
      × ((step s e).election_timeout ≡ s.election_timeout)
unfolding handle receive tick propose request_vote vote append append_response observe_term
    become_follower
step-fixed s ticks = ground arith
step-fixed s (proposes command) = ground arith
step-fixed s (receives (Message.request_vote t c i l)) = ground arith
step-fixed s (receives (Message.vote t w g)) = ground arith
step-fixed s (receives (Message.append_entries t l p q es c)) = ground arith
step-fixed s (receives (Message.append_response t f ok' m)) = ground arith
