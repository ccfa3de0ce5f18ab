-- ===== src/TwoPc/Safety.antt =====
-- The coordinator over histories of calls: a commit needs every vote, and decisions stay.
use iron_consensus.Prelude.{
  ◌≡◌, refl, ◌⊎◌, inl, Bool, true, false, ◌||◌, List, [], ◌∷◌, none, some, ok, arith,
}
use iron_consensus.Order.{is_eq}
use iron_consensus.Core.Id.{NodeId, node_ord}
use iron_consensus.BTreeSet.{contains, insert}
use iron_consensus.BTreeSet.Laws.{contains-insert, set_eq_sound}
use iron_consensus.TwoPc.Types.{Decision, Coordinator}
use iron_consensus.TwoPc.{new, begin, record_prepared, vote_prepared, vote_abort, decision}

pub data Call : Type 0 where
  begins : Call
  votes_prepared : NodeId → Call
  votes_abort : NodeId → Call

-- The state that a call leaves, whatever it returns.
unfoldable pub step : Coordinator → Call → Coordinator
step c begins = (begin c).0
step c (votes_prepared p) = (vote_prepared c p).0
step c (votes_abort p) = (vote_abort c p).0

unfoldable pub run : Coordinator → List Call → Coordinator
run c [] = c
run c (x ∷ xs) = run (step c x) xs

-- The history has a prepared vote of the node.
unfoldable pub has_vote : NodeId → List Call → Bool
has_vote k [] = false
has_vote k (votes_prepared p ∷ xs) = is_eq k p || has_vote k xs
has_vote k (begins ∷ xs) = has_vote k xs
has_vote k (votes_abort p ∷ xs) = has_vote k xs

pub step-participants : (c : Coordinator) (x : Call) → (step c x).participants ≡ c.participants
unfolding step begin vote_prepared vote_abort
step-participants c begins = ground arith
step-participants c (votes_prepared p) = ground arith
step-participants c (votes_abort p) = ground arith

pub step-decision :
    (c : Coordinator) (x : Call) {d : Decision} → decision c ≡ some d → decision (step c x) ≡ some d
unfolding step begin vote_prepared vote_abort decision
step-decision c begins h = ground arith
step-decision c (votes_prepared p) h = ground arith
step-decision c (votes_abort p) h = ground arith

-- Whatever calls follow, a decision is never revised.
pub run-decision :
    (c : Coordinator) (xs : List Call) {d : Decision}
    → decision c ≡ some d
    → decision (run c xs) ≡ some d
unfolding run
run-decision c [] h = h
run-decision c (x ∷ xs) h = run-decision (step c x) xs (step-decision c x h)

-- A decided commit has every member among the recorded votes.
abbrev pub Unanimous : Coordinator → Type 0
Unanimous c = decision c ≡ some Decision.commit → c.prepared ≡ c.participants

record_prepared-Unanimous :
    (c : Coordinator) (p : NodeId) → decision c ≡ none → Unanimous (record_prepared c p).0
unfolding record_prepared decision
record_prepared-Unanimous c p d h =
    ground (arith, set_eq_sound (insert p c.prepared) c.participants)

step-Unanimous : (c : Coordinator) (x : Call) → Unanimous c → Unanimous (step c x)
unfolding step begin vote_prepared vote_abort decision
step-Unanimous c begins u h = ground arith
step-Unanimous c (votes_prepared p) u h =
    ground (arith, set_eq_sound (insert p c.prepared) c.participants)
step-Unanimous c (votes_abort p) u h = ground arith

step-prepared :
    (k : NodeId) (c : Coordinator) (x : Call)
    → contains k (step c x).prepared ≡ true
    → (contains k c.prepared ≡ true) ⊎ (has_vote k (x ∷ []) ≡ true)
unfolding step begin vote_prepared vote_abort has_vote
step-prepared k c begins h = ground arith
step-prepared k c (votes_prepared p) h = ground (arith, contains-insert k p c.prepared)
step-prepared k c (votes_abort p) h = ground arith

has_vote-cons :
    (k : NodeId) (x : Call) (xs : List Call)
    → has_vote k (x ∷ xs) ≡ (has_vote k (x ∷ []) || has_vote k xs)
unfolding has_vote
has_vote-cons k begins xs = refl
has_vote-cons k (votes_prepared p) xs = ground arith
has_vote-cons k (votes_abort p) xs = refl

run-votes :
    (k : NodeId) (c : Coordinator) (xs : List Call)
    → Unanimous c
    → decision (run c xs) ≡ some Decision.commit
    → contains k c.participants ≡ true
    → (contains k c.prepared ≡ true) ⊎ (has_vote k xs ≡ true)
unfolding run
run-votes k c [] u h m = inl (ground (arith, u h))
run-votes k c (x ∷ xs) u h m = ground (
  arith,
  run-votes k (step c x) xs (step-Unanimous c x u) h,
  step-participants c x,
  step-prepared k c x,
  has_vote-cons k x xs,
)

-- A new coordinator that has come to commit, by whatever calls, has had a prepared vote of every
-- participant.
pub commit_unanimous :
    (nodes : List NodeId) (xs : List Call) (k : NodeId) {c : Coordinator}
    → new nodes ≡ ok c
    → decision (run c xs) ≡ some Decision.commit
    → contains k c.participants ≡ true
    → has_vote k xs ≡ true
unfolding new decision contains
commit_unanimous nodes xs k {c} e h m = ground (arith, run-votes k c xs (λ d. ground arith) h m)
