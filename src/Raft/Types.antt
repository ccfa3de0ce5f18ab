-- ===== src/Raft/Types.antt =====
-- The data of crates/iron-raft/src/lib.rs. Terms, indices and ticks are u64; a command is its bytes.
use iron_consensus.Prelude.{ℕ, Bool, List, Option}
use iron_consensus.Core.Id.{NodeId}

pub data Role : Type 0 where
  follower candidate leader : Role

pub record LogEntry : Type 0 where
  pub term : ℕ
  pub command : List ℕ

pub data Message : Type 0 where
  -- term, candidate, last_log_index, last_log_term
  request_vote : ℕ → NodeId → ℕ → ℕ → Message
  -- term, voter, granted
  vote : ℕ → NodeId → Bool → Message
  -- term, leader, prev_log_index, prev_log_term, entries, leader_commit
  append_entries : ℕ → NodeId → ℕ → ℕ → List LogEntry → ℕ → Message
  -- term, follower, success, match_index
  append_response : ℕ → NodeId → Bool → ℕ → Message

pub record Outbound : Type 0 where
  pub to : NodeId
  pub message : Message

pub data RaftError : Type 0 where
  empty_membership not_leader index_overflow : RaftError

pub record RaftNode : Type 0 where
  pub id : NodeId
  pub members : List NodeId
  pub role : Role
  pub current_term : ℕ
  pub voted_for : Option NodeId
  pub votes : List NodeId
  pub log : List LogEntry
  pub commit_index : ℕ
  pub election_elapsed : ℕ
  pub election_timeout : ℕ
  pub next_index : List (NodeId × ℕ)
  pub replication_acks : List NodeId
