-- ===== src/Raft/Logs.antt =====
-- What a step of a node of crates/iron-raft/src/lib.rs does to its log and to a leader.
use iron_consensus.Prelude.{
  ℕ, ◌≤◌, ◌<◌, ◌≡◌, refl, ◌⊎◌, inl, inr, Bool, List, [], ◌∷◌, ◌++◌, arith, Bool-cases,
}
use iron_consensus.Core.Id.{NodeId}
use iron_consensus.Raft.Types.{Role, LogEntry, Message, RaftNode}
use iron_consensus.Raft.{
  is_leader, become_follower, become_leader, start_election, tick, propose, observe_term,
  request_vote, count_vote, vote, append_loop, append, append_response, receive,
}
use iron_consensus.Raft.Steps.{Event, ticks, proposes, receives, handle, step}

abbrev pub entry_of : ℕ → List ℕ → LogEntry
entry_of term command = record { term = term; command = command }

-- A leader that has appended an entry of its term.
pub record Proposed (s t : RaftNode) : Type 0 where
  pub command : List ℕ
  pub leads : s.role ≡ Role.leader
  pub still : t.role ≡ Role.leader
  pub same_term : t.current_term ≡ s.current_term
  pub log : t.log ≡ s.log ++ (entry_of s.current_term command ∷ [])

-- A node that has taken entries of a message of its term.
pub record Took (s t : RaftNode) (e : Event) : Type 0 where
  pub term : ℕ
  pub leader : NodeId
  pub prev : ℕ
  pub prev_term : ℕ
  pub entries : List LogEntry
  pub commit : ℕ
  pub event : e ≡ receives (Message.append_entries term leader prev prev_term entries commit)
  pub same_term : t.current_term ≡ term
  pub later : s.current_term ≤ term
  pub log : t.log ≡ append_loop s.log prev entries

tick-log : (s : RaftNode) → (tick s).0.log ≡ s.log
unfolding tick start_election
tick-log s = ground arith

propose-log :
    (s : RaftNode) (command : List ℕ)
    → ((propose s command).0.log ≡ s.log) ⊎ Proposed s (propose s command).0
unfolding propose
propose-log s command = elim (Bool-cases (is_leader s.role)) [
  | inl leads ↦ inr (record {
    command = command;
    leads = ground arith;
    still = ground arith;
    same_term = ground arith;
    log = ground arith;
  })
  | inr waits ↦ inl (ground arith)
]

request_vote-log :
    (s : RaftNode) (term : ℕ) (candidate : NodeId) (index log_term : ℕ)
    → (request_vote s term candidate index log_term).0.log ≡ s.log
unfolding request_vote observe_term become_follower
request_vote-log s term candidate index log_term = ground arith

vote-log :
    (s : RaftNode) (term : ℕ) (voter : NodeId) (granted : Bool)
    → (vote s term voter granted).0.log ≡ s.log
unfolding vote count_vote become_leader become_follower
vote-log s term voter granted = ground arith

append_response-log :
    (s : RaftNode) (term : ℕ) (follower : NodeId) (success : Bool) (m : ℕ)
    → (append_response s term follower success m).0.log ≡ s.log
unfolding append_response become_follower
append_response-log s term follower success m = ground arith

append-log :
    (s : RaftNode) (term : ℕ) (leader : NodeId) (prev prev_term : ℕ) (es : List LogEntry) (c : ℕ)
    → let t = (append s term leader prev prev_term es c).0 in
      (t.log ≡ s.log)
      ⊎ ((t.current_term ≡ term) × (s.current_term ≤ term) × (t.log ≡ append_loop s.log prev es))
unfolding append observe_term become_follower
append-log s term leader prev prev_term es c = ground arith

-- A node becomes a leader only as a candidate of the term, with its log as it is.
abbrev Leads : RaftNode → RaftNode → Type 0
Leads s t =
    t.role ≡ Role.leader
    → ((s.role ≡ Role.leader) × (t.current_term ≡ s.current_term))
      ⊎ ((s.role ≡ Role.candidate) × (t.current_term ≡ s.current_term) × (t.log ≡ s.log))

-- A leader stays one for as long as its term.
abbrev Resigns : RaftNode → RaftNode → Type 0
Resigns s t =
    s.role ≡ Role.leader
    → ((t.role ≡ Role.leader) × (t.current_term ≡ s.current_term))
      ⊎ (s.current_term < t.current_term)

tick-Leads : (s : RaftNode) → Leads s (tick s).0 × Resigns s (tick s).0
unfolding tick start_election
tick-Leads s = (λ h. ground arith, λ h. ground arith)

propose-Leads :
    (s : RaftNode) (command : List ℕ)
    → Leads s (propose s command).0 × Resigns s (propose s command).0
unfolding propose
propose-Leads s command = (λ h. ground arith, λ h. ground arith)

request_vote-Leads :
    (s : RaftNode) (term : ℕ) (candidate : NodeId) (index log_term : ℕ)
    → let t = (request_vote s term candidate index log_term).0 in Leads s t × Resigns s t
unfolding request_vote observe_term become_follower
request_vote-Leads s term candidate index log_term = (λ h. ground arith, λ h. ground arith)

vote-Leads :
    (s : RaftNode) (term : ℕ) (voter : NodeId) (granted : Bool)
    → let t = (vote s term voter granted).0 in Leads s t × Resigns s t
unfolding vote count_vote become_leader become_follower
vote-Leads s term voter granted = (λ h. ground arith, λ h. ground arith)

append-Leads :
    (s : RaftNode) (term : ℕ) (leader : NodeId) (prev prev_term : ℕ) (es : List LogEntry) (c : ℕ)
    → let t = (append s term leader prev prev_term es c).0 in Leads s t × Resigns s t
unfolding append observe_term become_follower
append-Leads s term leader prev prev_term es c = (λ h. ground arith, λ h. ground arith)

append_response-Leads :
    (s : RaftNode) (term : ℕ) (follower : NodeId) (success : Bool) (m : ℕ)
    → let t = (append_response s term follower success m).0 in Leads s t × Resigns s t
unfolding append_response become_follower
append_response-Leads s term follower success m = (λ h. ground arith, λ h. ground arith)

pub step-Leads : (s : RaftNode) (e : Event) → Leads s (step s e) × Resigns s (step s e)
unfolding handle receive
step-Leads s ticks = tick-Leads s
step-Leads s (proposes command) = propose-Leads s command
step-Leads s (receives (Message.request_vote t c i l)) = request_vote-Leads s t c i l
step-Leads s (receives (Message.vote t v g)) = vote-Leads s t v g
step-Leads s (receives (Message.append_entries t l p q es c)) = append-Leads s t l p q es c
step-Leads s (receives (Message.append_response t f ok' m)) = append_response-Leads s t f ok' m

-- A step keeps the log, proposes, or takes the entries of a message.
pub step-log :
    (s : RaftNode) (e : Event)
    → ((step s e).log ≡ s.log) ⊎ (Proposed s (step s e) ⊎ Took s (step s e) e)
unfolding handle receive
step-log s ticks = inl (tick-log s)
step-log s (proposes command) = elim (propose-log s command) [
  | inl kept ↦ inl kept
  | inr proposed ↦ inr (inl proposed)
]
step-log s (receives (Message.request_vote t c i l)) = inl (request_vote-log s t c i l)
step-log s (receives (Message.vote t v g)) = inl (vote-log s t v g)
step-log s (receives (Message.append_entries t l p q es c)) = elim (append-log s t l p q es c) [
  | inl kept ↦ inl kept
  | inr (same, later, log) ↦ inr (
      inr (record {
        term = t;
        leader = l;
        prev = p;
        prev_term = q;
        entries = es;
        commit = c;
        event = refl;
        same_term = same;
        later = later;
        log = log;
      }))
]
step-log s (receives (Message.append_response t f ok' m)) = inl (append_response-log s t f ok' m)
