-- ===== src/Raft/Grants.antt =====
-- The votes that a Raft node of crates/iron-raft/src/lib.rs sends and counts.
use iron_consensus.Prelude.{
  ℕ, ◌≡◌, ◌≢◌, refl, ◌⊎◌, inl, inr, Bool, true, false, List, [], ◌∷◌, ◌++◌, map, some, ok, err,
  arith, Bool-cases, length,
}
use iron_consensus.Order.{is_eq_iff}
use iron_consensus.Core.Id.{NodeId, node_ord}
use iron_consensus.BTreeSet.{contains}
use iron_consensus.BTreeSet.Laws.{contains-insert}
use iron_consensus.Raft.Types.{Role, LogEntry, RaftNode, Message, Outbound}
use iron_consensus.Raft.{
  Output, tick, propose, receive, request_vote, vote, append, append_response, become_follower,
  observe_term, grants, heartbeats, peers, vote_requests, last_term,
}
use iron_consensus.Raft.Steps.{Event, ticks, proposes, receives, handle, step}

-- A granted vote that a voter has sent.
pub record Grant : Type 0 where
  pub voter : NodeId
  pub term : ℕ
  pub candidate : NodeId

abbrev grant_in : NodeId → Message → List Grant
grant_in to (Message.vote term voter true) =
    record { voter = voter; term = term; candidate = to } ∷ []
grant_in to (Message.vote term voter false) = []
grant_in to (Message.request_vote _ _ _ _) = []
grant_in to (Message.append_entries _ _ _ _ _ _) = []
grant_in to (Message.append_response _ _ _ _) = []

-- The granted votes among the messages that a call returns.
unfoldable pub grants_sent : List Outbound → List Grant
grants_sent [] = []
grants_sent (o ∷ os) = grant_in o.to o.message ++ grants_sent os

unfoldable pub grants_of : Output → List Grant
grants_of r = elim r.1 [ ok os ↦ grants_sent os | err e ↦ [] ]

map-silent :
    (t c : ℕ) (id : NodeId) (log : List LogEntry) (ps : List NodeId)
    → grants_sent
        (map (λ peer. record { to = peer; message = Message.append_entries t id 0 0 log c }) ps)
      ≡ []
unfolding grants_sent
map-silent t c id log [] = refl
map-silent t c id log (p ∷ ps) = map-silent t c id log ps

heartbeats-silent : (s : RaftNode) → grants_sent (heartbeats s) ≡ []
unfolding heartbeats
heartbeats-silent s = map-silent s.current_term s.commit_index s.id s.log (peers s)

map_requests-silent :
    (a b c : ℕ) (id : NodeId) (ps : List NodeId)
    → grants_sent (map (λ peer. record { to = peer; message = Message.request_vote a id b c }) ps)
      ≡ []
unfolding grants_sent
map_requests-silent a b c id [] = refl
map_requests-silent a b c id (p ∷ ps) = map_requests-silent a b c id ps

requests-silent : (s : RaftNode) → grants_sent (vote_requests s) ≡ []
unfolding vote_requests
requests-silent s =
    map_requests-silent s.current_term (length s.log) (last_term s.log) s.id (peers s)

-- What a call sends by way of granted votes: nothing, or its own vote as its state then records it.
abbrev pub Honest : RaftNode → Output → Type 0
Honest s r =
    (grants_of r ≡ [])
    ⊎ ((c : NodeId) × (grants_of r
          ≡ record { voter = s.id; term = r.0.current_term; candidate = c } ∷ [])
        × (r.0.voted_for ≡ some c))

tick-silent : (s : RaftNode) → grants_of (tick s) ≡ []
unfolding grants_of tick grants_sent
tick-silent s = grind (arith, heartbeats-silent, requests-silent)

propose-silent : (s : RaftNode) (command : List ℕ) → grants_of (propose s command) ≡ []
unfolding grants_of propose
propose-silent s command = grind (arith, heartbeats-silent)

vote-silent :
    (s : RaftNode) (term : ℕ) (voter : NodeId) (granted : Bool)
    → grants_of (vote s term voter granted) ≡ []
unfolding grants_of vote grants_sent
vote-silent s term voter granted = grind (arith, heartbeats-silent)

append-silent :
    (s : RaftNode) (term : ℕ) (leader : NodeId) (prev prev_term : ℕ) (es : List LogEntry) (c : ℕ)
    → grants_of (append s term leader prev prev_term es c) ≡ []
unfolding grants_of append grants_sent
append-silent s term leader prev prev_term es c = refl

append_response-silent :
    (s : RaftNode) (term : ℕ) (follower : NodeId) (success : Bool) (m : ℕ)
    → grants_of (append_response s term follower success m) ≡ []
unfolding grants_of append_response grants_sent
append_response-silent s term follower success m = ground arith

request_vote-Honest :
    (s : RaftNode) (term : ℕ) (candidate : NodeId) (index log_term : ℕ)
    → Honest s (request_vote s term candidate index log_term)
unfolding grants_of request_vote grants_sent observe_term become_follower
request_vote-Honest s term candidate index log_term =
    elim (Bool-cases (grants (observe_term s term) term candidate index log_term)) [
      | inl yes' ↦ inr (candidate, ground arith, ground arith)
      | inr no' ↦ inl (ground arith)
    ]

-- Every call sends at most one granted vote, in its own name, for its term and its recorded choice.
pub handle-Honest : (s : RaftNode) (e : Event) → Honest s (handle s e)
unfolding handle receive
handle-Honest s ticks = inl (tick-silent s)
handle-Honest s (proposes command) = inl (propose-silent s command)
handle-Honest s (receives (Message.request_vote t c i l)) = request_vote-Honest s t c i l
handle-Honest s (receives (Message.vote t w g)) = inl (vote-silent s t w g)
handle-Honest s (receives (Message.append_entries t l p q es c)) =
    inl (append-silent s t l p q es c)
handle-Honest s (receives (Message.append_response t f ok' m)) =
    inl (append_response-silent s t f ok' m)

-- Where a recorded vote of a candidate or leader comes from: itself, its earlier state in the same
-- term, or a granted vote that it has just heard.
abbrev pub VoteSource : RaftNode → Event → NodeId → Type 0
VoteSource s e j =
    (j ≡ s.id)
    ⊎ ((s.role ≢ Role.follower)
        × ((step s e).current_term ≡ s.current_term)
        × (contains j s.votes ≡ true))
    ⊎ (e ≡ receives (Message.vote (step s e).current_term j true))

tick-votes :
    (s : RaftNode) (j : NodeId)
    → (tick s).0.role ≢ Role.follower
    → contains j (tick s).0.votes ≡ true
    → VoteSource s ticks j
unfolding handle tick contains
tick-votes s j r h = ground (arith, contains-insert j s.id [], is_eq_iff j s.id)

propose-votes :
    (s : RaftNode) (command : List ℕ) (j : NodeId)
    → (propose s command).0.role ≢ Role.follower
    → contains j (propose s command).0.votes ≡ true
    → VoteSource s (proposes command) j
unfolding handle propose
propose-votes s command j r h = ground arith

request_vote-votes :
    (s : RaftNode) (t : ℕ) (c : NodeId) (i l : ℕ) (j : NodeId)
    → (request_vote s t c i l).0.role ≢ Role.follower
    → contains j (request_vote s t c i l).0.votes ≡ true
    → VoteSource s (receives (Message.request_vote t c i l)) j
unfolding handle receive request_vote observe_term become_follower
request_vote-votes s t c i l j r h = ground arith

vote-votes :
    (s : RaftNode) (t : ℕ) (w : NodeId) (g : Bool) (j : NodeId)
    → (vote s t w g).0.role ≢ Role.follower
    → contains j (vote s t w g).0.votes ≡ true
    → VoteSource s (receives (Message.vote t w g)) j
unfolding handle receive vote
vote-votes s t w g j r h = ground (arith, contains-insert j w s.votes, is_eq_iff j w)

append-votes :
    (s : RaftNode) (t : ℕ) (l : NodeId) (p q : ℕ) (es : List LogEntry) (c : ℕ) (j : NodeId)
    → (append s t l p q es c).0.role ≢ Role.follower
    → contains j (append s t l p q es c).0.votes ≡ true
    → VoteSource s (receives (Message.append_entries t l p q es c)) j
unfolding handle receive append observe_term become_follower
append-votes s t l p q es c j r h = ground arith

append_response-votes :
    (s : RaftNode) (t : ℕ) (f : NodeId) (success : Bool) (m : ℕ) (j : NodeId)
    → (append_response s t f success m).0.role ≢ Role.follower
    → contains j (append_response s t f success m).0.votes ≡ true
    → VoteSource s (receives (Message.append_response t f success m)) j
unfolding handle receive append_response
append_response-votes s t f success m j r h = ground arith

pub step-votes :
    (s : RaftNode) (e : Event) (j : NodeId)
    → (step s e).role ≢ Role.follower
    → contains j (step s e).votes ≡ true
    → VoteSource s e j
unfolding handle receive
step-votes s ticks j r h = tick-votes s j r h
step-votes s (proposes command) j r h = propose-votes s command j r h
step-votes s (receives (Message.request_vote t c i l)) j r h = request_vote-votes s t c i l j r h
step-votes s (receives (Message.vote t w g)) j r h = vote-votes s t w g j r h
step-votes s (receives (Message.append_entries t l p q es c)) j r h =
    append-votes s t l p q es c j r h
step-votes s (receives (Message.append_response t f ok' m)) j r h =
    append_response-votes s t f ok' m j r h
