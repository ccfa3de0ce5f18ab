-- ===== src/ThreePc/Tests.antt =====
-- Runs of three-phase commit, and the theorems at concrete inputs.
use iron_consensus.Prelude.{◌≡◌, refl, ◌⊎◌, inl, true, List, [], ◌∷◌, err}
use iron_consensus.Core.Id.{NodeId, node_ord}
use iron_consensus.BTreeSet
use iron_consensus.ThreePc.Types.{Phase, ThreePcError, Coordinator}
use iron_consensus.ThreePc.{new, begin, prepared, precommitted, timeout}
use iron_consensus.ThreePc.Safety.{
  Call, begins, times_out, prepares, acknowledges, step, run, has_prepared, has_acknowledged,
  commit_both_rounds, precommit_stays,
}

program : Unit {0}
unfolding node_ord BTreeSet.contains BTreeSet.insert BTreeSet.from_list BTreeSet.set_eq new begin
    prepared precommitted timeout step run has_prepared has_acknowledged
program = tt

abbrev a : NodeId
a = 97 ∷ []

abbrev b : NodeId
b = 98 ∷ []

abbrev c : Coordinator
c = record { participants = a ∷ b ∷ []; prepared = []; precommitted = []; phase = Phase.idle }

abbrev first_round : List Call
first_round = begins ∷ prepares a ∷ prepares b ∷ []

abbrev both_rounds : List Call
both_rounds = begins ∷ prepares a ∷ prepares b ∷ acknowledges b ∷ times_out ∷ acknowledges a ∷ []

-- `precommit_requires_all_votes_and_partition_is_explicit`
partition_blocks : (timeout (run c first_round)).1 ≡ err ThreePcError.partition_may_block
unfolding program
partition_blocks = refl

commit_both_rounds_example :
    (has_prepared b both_rounds ≡ true) × (has_acknowledged b both_rounds ≡ true)
unfolding program
commit_both_rounds_example = commit_both_rounds (b ∷ a ∷ []) both_rounds b refl refl refl

precommit_stays_example :
    ((run (run c first_round) (times_out ∷ acknowledges a ∷ [])).phase ≡ Phase.pre_commit)
    ⊎ ((run (run c first_round) (times_out ∷ acknowledges a ∷ [])).phase ≡ Phase.committed)
unfolding program
precommit_stays_example =
    precommit_stays (run c first_round) (times_out ∷ acknowledges a ∷ []) (inl refl)
