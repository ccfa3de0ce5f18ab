-- ===== src/TwoPc/Tests.antt =====
-- Runs of two-phase commit, and the theorems at concrete inputs.
use iron_consensus.Prelude.{◌≡◌, ◌≢◌, refl, true, false, List, [], ◌∷◌, none, some, ok, err, arith}
use iron_consensus.Core.Id.{NodeId, node_ord}
use iron_consensus.BTreeSet
use iron_consensus.BTreeSet.{contains}
use iron_consensus.TwoPc.Types.{
  Decision, CoordinatorPhase, ParticipantPhase, Coordinator, TwoPcError,
}
use iron_consensus.TwoPc.{
  new, begin, record_prepared, vote_prepared, vote_abort, decision, new_participant,
  participant_prepare, participant_commit, participant_abort,
}
use iron_consensus.TwoPc.Safety.{
  Call, begins, votes_prepared, votes_abort, step, run, has_vote, run-decision, commit_unanimous,
}
use iron_consensus.TwoPc.Progress.{commit_reached}
use iron_consensus.TwoPc.Cluster
use iron_consensus.TwoPc.Cluster.{Cluster, answer, start, Reach, here, next, commit_abort_exclusive}

program : Unit {0}
unfolding node_ord BTreeSet.contains BTreeSet.insert BTreeSet.from_list BTreeSet.set_eq new begin
    record_prepared vote_prepared vote_abort decision participant_prepare participant_commit
    participant_abort step run has_vote answer
program = tt

abbrev a : NodeId
a = 97 ∷ []

abbrev b : NodeId
b = 98 ∷ []

abbrev c : Coordinator
c = record {
  participants = a ∷ b ∷ [];
  prepared = [];
  aborted = false;
  phase = CoordinatorPhase.idle;
}

c-new : new (b ∷ a ∷ b ∷ []) ≡ ok c
unfolding program
c-new = refl

abbrev votes : List Call
votes = votes_prepared b ∷ votes_prepared a ∷ []

-- `coordinator_commits_only_after_all_prepared`
half_voted : decision (run c (begins ∷ votes_prepared a ∷ [])) ≡ none
unfolding program
half_voted = refl

-- `participant_recovery_actions_are_idempotent_at_the_boundary`
commit_twice :
    (participant_commit (participant_commit (participant_prepare new_participant true).0).0).1
    ≡ err TwoPcError.invalid_transition
unfolding program
commit_twice = refl

commit_unanimous_example : has_vote b (begins ∷ votes) ≡ true
unfolding program
commit_unanimous_example = commit_unanimous (b ∷ a ∷ b ∷ []) (begins ∷ votes) b c-new refl refl

run-decision_example :
    decision (run (run c (begins ∷ votes)) (votes_abort a ∷ [])) ≡ some Decision.commit
unfolding program
run-decision_example = run-decision (run c (begins ∷ votes)) (votes_abort a ∷ []) refl

all_vote : (k : NodeId) → contains k (a ∷ b ∷ []) ≡ true → has_vote k votes ≡ true
unfolding program
all_vote k m = ground arith

commit_reached_example : decision (run c (begins ∷ votes)) ≡ some Decision.commit
commit_reached_example = commit_reached (b ∷ a ∷ b ∷ []) votes c-new tt all_vote

abbrev voted : Cluster
voted = answer (answer (record (start c) { coordinator = (begin c).0 }) a true) b true

abbrev heard : Cluster
heard = record voted { coordinator = (vote_prepared (vote_prepared voted.coordinator a).0 b).0 }

abbrev done : Cluster
done = record heard {
  participant = Cluster.update heard.participant a (participant_commit (heard.participant a)).0;
}

done-Reach : Reach (start c) done
unfolding program
done-Reach =
    next
      (next
        (next
          (next (next (next here Cluster.begins) (Cluster.answers a true)) (Cluster.answers b true))
          (Cluster.hears_vote a refl))
        (Cluster.hears_vote b refl))
      (Cluster.commits a refl)

commit_abort_exclusive_example :
    ((done.participant b).phase ≢ ParticipantPhase.aborted) × (done.votes b ≡ true)
unfolding program
commit_abort_exclusive_example =
    commit_abort_exclusive (b ∷ a ∷ b ∷ []) a b c-new done-Reach refl refl
