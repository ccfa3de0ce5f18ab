-- ===== src/TwoPc/Progress.antt =====
-- The coordinator's invariant, and that the votes of all members reach a commit.
use iron_consensus.Prelude.{
  ◌≡◌, ◌≢◌, ◌⊎◌, ◌↔◌, inl, inr, true, List, [], ◌∷◌, some, ok, arith, Bool-cases,
}
use iron_consensus.Order.{is_eq_iff}
use iron_consensus.Core.Id.{NodeId, node_ord}
use iron_consensus.BTreeSet.{contains, insert, set_eq, IsSorted, Subset}
use iron_consensus.BTreeSet.Laws.{
  insert-cases, insert-IsSorted, from_list-IsSorted, set_eq_sound, set_eq_refl, set_ext,
  contains-insert,
}
use iron_consensus.TwoPc.Types.{Decision, CoordinatorPhase, Coordinator}
use iron_consensus.TwoPc.{new, begin, record_prepared, vote_prepared, vote_abort, decision}
use iron_consensus.TwoPc.Safety.{
  Call, begins, votes_prepared, votes_abort, step, run, has_vote, step-participants,
}

-- What holds of a coordinator between calls.
pub record IsValid (c : Coordinator) : Type 0 where
  pub members_sorted : IsSorted c.participants
  pub members_present : c.participants ≢ []
  pub votes_sorted : IsSorted c.prepared
  pub votes_of_members : Subset c.prepared c.participants
  pub waiting : c.phase ≡ CoordinatorPhase.preparing → c.prepared ≢ c.participants
  pub idle_empty : c.phase ≡ CoordinatorPhase.idle → c.prepared ≡ []
  pub commit_full : c.phase ≡ CoordinatorPhase.decided Decision.commit → c.prepared ≡ c.participants
  pub abort_flag : (c.aborted ≡ true) ↔ (c.phase ≡ CoordinatorPhase.decided Decision.abort)

insert-Subset :
    (p : NodeId) (xs ms : List NodeId)
    → contains p ms ≡ true
    → Subset xs ms
    → Subset (insert p xs) ms
insert-Subset p xs ms m h k c = elim (insert-cases k p xs c) [ inl e ↦ rw e m | inr old ↦ h k old ]

new-IsValid : (nodes : List NodeId) {c : Coordinator} → new nodes ≡ ok c → IsValid c
unfolding new contains
new-IsValid nodes {c} e = ground (arith, from_list-IsSorted nodes)

vote-IsValid :
    (c : Coordinator) (p : NodeId)
    → IsValid c
    → contains p c.participants ≡ true
    → c.phase ≡ CoordinatorPhase.preparing
    → IsValid (record_prepared c p).0
unfolding record_prepared
vote-IsValid c p v m w = elim (Bool-cases (set_eq (insert p c.prepared) c.participants)) [
  | inl all ↦ rw all (record {
    members_sorted = v.members_sorted;
    members_present = v.members_present;
    votes_sorted = insert-IsSorted p c.prepared v.votes_sorted;
    votes_of_members = insert-Subset p c.prepared c.participants m v.votes_of_members;
    waiting = λ q. absurd (ground arith);
    idle_empty = λ q. absurd (ground arith);
    commit_full = λ q. set_eq_sound _ _ all;
    abort_flag = ground (arith, v.abort_flag);
  })
  | inr more ↦ rw more (record {
    members_sorted = v.members_sorted;
    members_present = v.members_present;
    votes_sorted = insert-IsSorted p c.prepared v.votes_sorted;
    votes_of_members = insert-Subset p c.prepared c.participants m v.votes_of_members;
    waiting = λ q e. ground (arith, set_eq_refl c.participants);
    idle_empty = λ q. absurd (ground arith);
    commit_full = λ q. absurd (ground arith);
    abort_flag = v.abort_flag;
  })
]

-- Every call keeps the invariant.
pub step-IsValid : (c : Coordinator) (x : Call) → IsValid c → IsValid (step c x)
unfolding step begin vote_prepared vote_abort
step-IsValid c begins v = ground arith
step-IsValid c (votes_prepared p) v = ground (arith, vote-IsValid c p v)
step-IsValid c (votes_abort p) v = ground arith

pub run-IsValid : (c : Coordinator) (xs : List Call) → IsValid c → IsValid (run c xs)
unfolding run
run-IsValid c [] v = v
run-IsValid c (x ∷ xs) v = run-IsValid (step c x) xs (step-IsValid c x v)

-- After any calls on a new coordinator the invariant holds: the recorded votes are distinct votes
-- of members, they are not all there while it is preparing and all there once it commits, and the
-- abort flag is set exactly in the aborted phase.
pub run-new-IsValid :
    (nodes : List NodeId) (xs : List Call) {c : Coordinator} → new nodes ≡ ok c → IsValid (run c xs)
run-new-IsValid nodes xs {c} e = run-IsValid c xs (new-IsValid nodes e)

-- A history of prepared votes only.
abbrev pub VotesOnly : List Call → Type 0
VotesOnly [] = Unit {0}
VotesOnly (votes_prepared p ∷ xs) = VotesOnly xs
VotesOnly (begins ∷ xs) = ⊥
VotesOnly (votes_abort p ∷ xs) = ⊥

-- Every member is recorded already, or votes in the history.
abbrev pub Covered : Coordinator → List Call → Type 0
Covered c xs =
    (k : NodeId)
    → contains k c.participants ≡ true
    → (contains k c.prepared ≡ true) ⊎ (has_vote k xs ≡ true)

abbrev Open : Coordinator → Type 0
Open c =
    (c.phase ≡ CoordinatorPhase.preparing) ⊎ (c.phase ≡ CoordinatorPhase.decided Decision.commit)

vote-Open : (c : Coordinator) (p : NodeId) → Open c → Open (step c (votes_prepared p))
unfolding step vote_prepared
vote-Open c p h = ground arith

vote-Covered :
    (c : Coordinator) (p : NodeId) (xs : List Call)
    → IsValid c
    → Open c
    → Covered c (votes_prepared p ∷ xs)
    → Covered (step c (votes_prepared p)) xs
unfolding step vote_prepared has_vote
vote-Covered c p xs v o h k m =
    ground (arith, h k, v.commit_full, contains-insert k p c.prepared, is_eq_iff k p)

reach :
    (c : Coordinator) (xs : List Call)
    → IsValid c
    → Open c
    → VotesOnly xs
    → Covered c xs
    → decision (run c xs) ≡ some Decision.commit
unfolding run decision has_vote
reach c [] v (inl w) only h = absurd (
    v.waiting w (
      set_ext c.prepared c.participants v.votes_sorted v.members_sorted v.votes_of_members
        (λ k m. ground (arith, h k m))))
reach c [] v (inr d) only h = ground arith
reach c (votes_prepared p ∷ xs) v o only h =
    reach (step c (votes_prepared p)) xs (step-IsValid c (votes_prepared p) v) (vote-Open c p o)
      only (vote-Covered c p xs v o h)
reach c (begins ∷ xs) v o only h = absurd only
reach c (votes_abort p ∷ xs) v o only h = absurd only

new-begins :
    (nodes : List NodeId) {c : Coordinator}
    → new nodes ≡ ok c
    → (step c begins).phase ≡ CoordinatorPhase.preparing
unfolding new step begin
new-begins nodes {c} e = ground arith

-- A new coordinator that begins, and then gets prepared votes in any order, repeated votes and
-- votes of strangers among them, has decided to commit once every participant is among the voters.
pub commit_reached :
    (nodes : List NodeId) (xs : List Call) {c : Coordinator}
    → new nodes ≡ ok c
    → VotesOnly xs
    → ((k : NodeId) → contains k c.participants ≡ true → has_vote k xs ≡ true)
    → decision (run c (begins ∷ xs)) ≡ some Decision.commit
unfolding run
commit_reached nodes xs {c} e only h =
    reach (step c begins) xs (step-IsValid c begins (new-IsValid nodes e))
      (inl (new-begins nodes e)) only
      (λ k m. inr (h k (ground (arith, step-participants c begins))))
