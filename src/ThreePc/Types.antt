-- ===== src/ThreePc/Types.antt =====
-- The data of crates/iron-3pc/src/lib.rs.
use iron_consensus.Prelude.{List}
use iron_consensus.Core.Id.{NodeId}

pub data Phase : Type 0 where
  idle preparing pre_commit committed aborted : Phase

pub data Action : Type 0 where
  prepare pre_commit commit abort : Action

pub data ThreePcError : Type 0 where
  invalid_phase unknown_participant partition_may_block : ThreePcError

pub record Coordinator : Type 0 where
  pub participants : List NodeId
  pub prepared : List NodeId
  pub precommitted : List NodeId
  pub phase : Phase

pub record Participant : Type 0 where
  pub phase : Phase
