-- ===== src/ThreePc.antt =====
-- crates/iron-3pc/src/lib.rs: three-phase commit. A method on `&mut self` returns the new state
-- beside its result.
pub mod Types
pub mod Safety
mod Tests
use iron_consensus.Prelude.{
  Bool, true, false, not, List, [], ◌∷◌, Option, none, some, Result, ok, err, if◌then◌else◌,
}
use Types.{Phase, Action, ThreePcError, Coordinator, Participant}
use iron_consensus.Core.Id.{NodeId, node_ord}
use iron_consensus.BTreeSet.{contains, insert, from_list, set_eq}

-- `Coordinator::new`
unfoldable pub new : List NodeId → Result ThreePcError Coordinator
new nodes =
    let participants = from_list nodes in
    elim participants [
      | [] ↦ err ThreePcError.invalid_phase
      | p ∷ ps ↦
          ok
            (record { participants = p ∷ ps; prepared = []; precommitted = []; phase = Phase.idle })
    ]

unfoldable pub begin : Coordinator → Coordinator × Result ThreePcError Action
begin c = elim c.phase [
  | Phase.idle ↦ (record c { phase = Phase.preparing }, ok Action.prepare)
  | _ ↦ (c, err ThreePcError.invalid_phase)
]

-- The vote of a member while the coordinator is preparing.
unfoldable pub record_prepared :
    Coordinator → NodeId → Coordinator × Result ThreePcError (Option Action)
record_prepared c participant =
    let votes = insert participant c.prepared in
    if set_eq votes c.participants
    then (record c { prepared = votes; phase = Phase.pre_commit }, ok (some Action.pre_commit))
    else (record c { prepared = votes }, ok none)

unfoldable pub prepared : Coordinator → NodeId → Coordinator × Result ThreePcError (Option Action)
unfolding record_prepared
prepared c participant =
    if not (contains participant c.participants)
    then (c, err ThreePcError.unknown_participant)
    else elim c.phase [
      | Phase.preparing ↦ record_prepared c participant
      | _ ↦ (c, err ThreePcError.invalid_phase)
    ]

-- The acknowledgement of a member in the phase `PreCommit`.
unfoldable pub record_precommitted :
    Coordinator → NodeId → Coordinator × Result ThreePcError (Option Action)
record_precommitted c participant =
    let acks = insert participant c.precommitted in
    if set_eq acks c.participants
    then (record c { precommitted = acks; phase = Phase.committed }, ok (some Action.commit))
    else (record c { precommitted = acks }, ok none)

unfoldable pub precommitted :
    Coordinator → NodeId → Coordinator × Result ThreePcError (Option Action)
unfolding record_precommitted
precommitted c participant =
    if not (contains participant c.participants)
    then (c, err ThreePcError.unknown_participant)
    else elim c.phase [
      | Phase.pre_commit ↦ record_precommitted c participant
      | _ ↦ (c, err ThreePcError.invalid_phase)
    ]

unfoldable pub timeout : Coordinator → Coordinator × Result ThreePcError Action
timeout c = elim c.phase [
  | Phase.preparing ↦ (record c { phase = Phase.aborted }, ok Action.abort)
  | Phase.pre_commit ↦ (c, err ThreePcError.partition_may_block)
  | _ ↦ (c, err ThreePcError.invalid_phase)
]

-- `Participant::new`
abbrev pub new_participant : Participant
new_participant = record { phase = Phase.idle }

-- `Participant::prepare`, `precommit`, `commit` and `timeout`.
unfoldable pub participant_prepare : Participant → Bool → Participant × Result ThreePcError Action
participant_prepare p can_commit = elim p.phase [
  | Phase.idle ↦
      if can_commit
      then (record p { phase = Phase.preparing }, ok Action.prepare)
      else (record p { phase = Phase.aborted }, ok Action.abort)
  | _ ↦ (p, err ThreePcError.invalid_phase)
]

unfoldable pub participant_precommit : Participant → Participant × Result ThreePcError Action
participant_precommit p = elim p.phase [
  | Phase.preparing ↦ (record p { phase = Phase.pre_commit }, ok Action.pre_commit)
  | _ ↦ (p, err ThreePcError.invalid_phase)
]

unfoldable pub participant_commit : Participant → Participant × Result ThreePcError Action
participant_commit p = elim p.phase [
  | Phase.pre_commit ↦ (record p { phase = Phase.committed }, ok Action.commit)
  | _ ↦ (p, err ThreePcError.invalid_phase)
]

unfoldable pub participant_timeout : Participant → Participant × Result ThreePcError Action
participant_timeout p = elim p.phase [
  | Phase.preparing ↦ (record p { phase = Phase.aborted }, ok Action.abort)
  | Phase.pre_commit ↦ (p, err ThreePcError.partition_may_block)
  | _ ↦ (p, err ThreePcError.invalid_phase)
]
