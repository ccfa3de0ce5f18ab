-- ===== src/TwoPc/Types.antt =====
-- The phases, actions, errors and states of crates/iron-2pc/src/lib.rs.
use iron_consensus.Prelude.{Bool, List}
use iron_consensus.Core.Id.{NodeId}

pub data Decision : Type 0 where
  commit abort : Decision

pub data CoordinatorPhase : Type 0 where
  idle preparing : CoordinatorPhase
  decided : Decision → CoordinatorPhase

pub data ParticipantPhase : Type 0 where
  working prepared committed aborted : ParticipantPhase

pub data CoordinatorAction : Type 0 where
  prepare commit abort : CoordinatorAction

pub data ParticipantAction : Type 0 where
  prepared vote_abort committed aborted : ParticipantAction

pub data TwoPcError : Type 0 where
  already_decided unknown_participant conflicting_vote invalid_transition : TwoPcError

pub record Coordinator : Type 0 where
  pub participants : List NodeId
  pub prepared : List NodeId
  pub aborted : Bool
  pub phase : CoordinatorPhase

pub record Participant : Type 0 where
  pub phase : ParticipantPhase
