-- ===== src/TwoPc.antt =====
-- crates/iron-2pc/src/lib.rs: the coordinator and the participant of two-phase commit. A method on
-- `&mut self` returns the new state beside its result.
pub mod Types
pub mod Safety
pub mod Progress
pub mod Cluster
mod Tests
use iron_consensus.Prelude.{
  Bool, true, false, not, List, [], ◌∷◌, Option, none, some, Result, ok, err, if◌then◌else◌,
}
use Types.{
  Decision, CoordinatorPhase, ParticipantPhase, CoordinatorAction, ParticipantAction, TwoPcError,
  Coordinator, Participant,
}
use iron_consensus.Core.Id.{NodeId, node_ord}
use iron_consensus.BTreeSet.{contains, insert, from_list, set_eq}

-- `Coordinator::new`
unfoldable pub new : List NodeId → Result TwoPcError Coordinator
new nodes =
    let participants = from_list nodes in
    elim participants [
      | [] ↦ err TwoPcError.invalid_transition
      | p ∷ ps ↦ ok (record {
        participants = p ∷ ps;
        prepared = [];
        aborted = false;
        phase = CoordinatorPhase.idle;
      })
    ]

unfoldable pub begin : Coordinator → Coordinator × Result TwoPcError CoordinatorAction
begin c = elim c.phase [
  | CoordinatorPhase.idle ↦
      (record c { phase = CoordinatorPhase.preparing }, ok CoordinatorAction.prepare)
  | _ ↦ (c, err TwoPcError.already_decided)
]

-- The vote of a member while the coordinator is preparing.
unfoldable pub record_prepared :
    Coordinator → NodeId → Coordinator × Result TwoPcError (Option CoordinatorAction)
record_prepared c participant =
    let votes = insert participant c.prepared in
    if set_eq votes c.participants
    then (
      record c { prepared = votes; phase = CoordinatorPhase.decided Decision.commit },
      ok (some CoordinatorAction.commit),
    )
    else (record c { prepared = votes }, ok none)

unfoldable pub vote_prepared :
    Coordinator → NodeId → Coordinator × Result TwoPcError (Option CoordinatorAction)
unfolding record_prepared
vote_prepared c participant =
    if not (contains participant c.participants)
    then (c, err TwoPcError.unknown_participant)
    else elim c.phase [
      | CoordinatorPhase.preparing ↦ record_prepared c participant
      | _ ↦ (c, err TwoPcError.already_decided)
    ]

unfoldable pub vote_abort : Coordinator → NodeId → Coordinator × Result TwoPcError CoordinatorAction
vote_abort c participant =
    if not (contains participant c.participants)
    then (c, err TwoPcError.unknown_participant)
    else elim c.phase [
      | CoordinatorPhase.preparing ↦ (
        record c { aborted = true; phase = CoordinatorPhase.decided Decision.abort },
        ok CoordinatorAction.abort,
      )
      | _ ↦ (c, err TwoPcError.already_decided)
    ]

unfoldable pub decision : Coordinator → Option Decision
decision c = elim c.phase [ CoordinatorPhase.decided d ↦ some d | _ ↦ none ]

-- `Participant::new`
abbrev pub new_participant : Participant
new_participant = record { phase = ParticipantPhase.working }

unfoldable pub participant_prepare : Participant → Bool → Participant × ParticipantAction
participant_prepare p can_commit = elim p.phase [
  | ParticipantPhase.prepared ↦ (p, ParticipantAction.prepared)
  | ParticipantPhase.committed ↦ (p, ParticipantAction.committed)
  | ParticipantPhase.aborted ↦ (p, ParticipantAction.aborted)
  | ParticipantPhase.working ↦
      if can_commit
      then (record p { phase = ParticipantPhase.prepared }, ParticipantAction.prepared)
      else (record p { phase = ParticipantPhase.aborted }, ParticipantAction.vote_abort)
]

unfoldable pub participant_commit : Participant → Participant × Result TwoPcError ParticipantAction
participant_commit p = elim p.phase [
  | ParticipantPhase.prepared ↦
      (record p { phase = ParticipantPhase.committed }, ok ParticipantAction.committed)
  | _ ↦ (p, err TwoPcError.invalid_transition)
]

unfoldable pub participant_abort : Participant → Participant × Result TwoPcError ParticipantAction
participant_abort p = elim p.phase [
  | ParticipantPhase.committed ↦ (p, err TwoPcError.invalid_transition)
  | _ ↦ (record p { phase = ParticipantPhase.aborted }, ok ParticipantAction.aborted)
]
