-- ===== src/ThreePc/Safety.antt =====
-- Three-phase commit over histories of calls: a commit needs both rounds of every member, and
-- behind the first round nothing aborts.
use iron_consensus.Prelude.{◌≡◌, ◌⊎◌, inl, Bool, true, false, ◌||◌, List, [], ◌∷◌, ok, arith}
use iron_consensus.Order.{is_eq}
use iron_consensus.Core.Id.{NodeId, node_ord}
use iron_consensus.BTreeSet.{contains, insert}
use iron_consensus.BTreeSet.Laws.{contains-insert, set_eq_sound}
use iron_consensus.ThreePc.Types.{Phase, Coordinator}
use iron_consensus.ThreePc.{new, begin, prepared, precommitted, timeout}

pub data Call : Type 0 where
  begins times_out : Call
  prepares acknowledges : NodeId → Call

-- The state that a call leaves, whatever it returns.
unfoldable pub step : Coordinator → Call → Coordinator
step c begins = (begin c).0
step c times_out = (timeout c).0
step c (prepares p) = (prepared c p).0
step c (acknowledges p) = (precommitted c p).0

unfoldable pub run : Coordinator → List Call → Coordinator
run c [] = c
run c (x ∷ xs) = run (step c x) xs

-- The history has a prepared vote of the node, or its acknowledgement of the second round.
unfoldable pub has_prepared : NodeId → List Call → Bool
has_prepared k [] = false
has_prepared k (prepares p ∷ xs) = is_eq k p || has_prepared k xs
has_prepared k (begins ∷ xs) = has_prepared k xs
has_prepared k (times_out ∷ xs) = has_prepared k xs
has_prepared k (acknowledges p ∷ xs) = has_prepared k xs

unfoldable pub has_acknowledged : NodeId → List Call → Bool
has_acknowledged k [] = false
has_acknowledged k (acknowledges p ∷ xs) = is_eq k p || has_acknowledged k xs
has_acknowledged k (begins ∷ xs) = has_acknowledged k xs
has_acknowledged k (times_out ∷ xs) = has_acknowledged k xs
has_acknowledged k (prepares p ∷ xs) = has_acknowledged k xs

-- Behind the first round every vote is there, and at the end every acknowledgement.
record IsValid (c : Coordinator) : Type 0 where
  second_round : c.phase ≡ Phase.pre_commit → c.prepared ≡ c.participants
  commit_prepared : c.phase ≡ Phase.committed → c.prepared ≡ c.participants
  commit_acknowledged : c.phase ≡ Phase.committed → c.precommitted ≡ c.participants

step-IsValid : (c : Coordinator) (x : Call) → IsValid c → IsValid (step c x)
unfolding step begin prepared precommitted timeout
step-IsValid c begins v = record {
  second_round = λ h. ground (arith, v);
  commit_prepared = λ h. ground (arith, v);
  commit_acknowledged = λ h. ground (arith, v);
}
step-IsValid c times_out v = record {
  second_round = λ h. ground (arith, v);
  commit_prepared = λ h. ground (arith, v);
  commit_acknowledged = λ h. ground (arith, v);
}
step-IsValid c (prepares p) v = record {
  second_round = λ h. ground (arith, v, set_eq_sound (insert p c.prepared) c.participants);
  commit_prepared = λ h. ground (arith, v);
  commit_acknowledged = λ h. ground (arith, v);
}
step-IsValid c (acknowledges p) v = record {
  second_round = λ h. ground (arith, v);
  commit_prepared = λ h. ground (arith, v);
  commit_acknowledged =
      λ h. ground (arith, v, set_eq_sound (insert p c.precommitted) c.participants);
}

step-participants : (c : Coordinator) (x : Call) → (step c x).participants ≡ c.participants
unfolding step begin prepared precommitted timeout
step-participants c begins = ground arith
step-participants c times_out = ground arith
step-participants c (prepares p) = ground arith
step-participants c (acknowledges p) = ground arith

step-prepared :
    (k : NodeId) (c : Coordinator) (x : Call) (xs : List Call)
    → (contains k (step c x).prepared ≡ true) ⊎ (has_prepared k xs ≡ true)
    → (contains k c.prepared ≡ true) ⊎ (has_prepared k (x ∷ xs) ≡ true)
unfolding step begin prepared precommitted timeout has_prepared
step-prepared k c begins xs h = ground arith
step-prepared k c times_out xs h = ground arith
step-prepared k c (prepares p) xs h = ground (arith, contains-insert k p c.prepared)
step-prepared k c (acknowledges p) xs h = ground arith

step-acknowledged :
    (k : NodeId) (c : Coordinator) (x : Call) (xs : List Call)
    → (contains k (step c x).precommitted ≡ true) ⊎ (has_acknowledged k xs ≡ true)
    → (contains k c.precommitted ≡ true) ⊎ (has_acknowledged k (x ∷ xs) ≡ true)
unfolding step begin prepared precommitted timeout has_acknowledged
step-acknowledged k c begins xs h = ground arith
step-acknowledged k c times_out xs h = ground arith
step-acknowledged k c (prepares p) xs h = ground arith
step-acknowledged k c (acknowledges p) xs h = ground (arith, contains-insert k p c.precommitted)

run-prepared :
    (k : NodeId) (c : Coordinator) (xs : List Call)
    → IsValid c
    → (run c xs).phase ≡ Phase.committed
    → contains k c.participants ≡ true
    → (contains k c.prepared ≡ true) ⊎ (has_prepared k xs ≡ true)
unfolding run
run-prepared k c [] v h m = inl (ground (arith, v.commit_prepared h))
run-prepared k c (x ∷ xs) v h m =
    step-prepared k c x xs
      (run-prepared k (step c x) xs (step-IsValid c x v) h (ground (arith, step-participants c x)))

run-acknowledged :
    (k : NodeId) (c : Coordinator) (xs : List Call)
    → IsValid c
    → (run c xs).phase ≡ Phase.committed
    → contains k c.participants ≡ true
    → (contains k c.precommitted ≡ true) ⊎ (has_acknowledged k xs ≡ true)
unfolding run
run-acknowledged k c [] v h m = inl (ground (arith, v.commit_acknowledged h))
run-acknowledged k c (x ∷ xs) v h m = step-acknowledged k c x xs (
    run-acknowledged k (step c x) xs (step-IsValid c x v) h (ground (arith, step-participants c x)))

-- A new coordinator that has come to commit, by whatever calls, has had of every participant a
-- prepared vote and an acknowledgement of the second round.
pub commit_both_rounds :
    (nodes : List NodeId) (xs : List Call) (k : NodeId) {c : Coordinator}
    → new nodes ≡ ok c
    → (run c xs).phase ≡ Phase.committed
    → contains k c.participants ≡ true
    → (has_prepared k xs ≡ true) × (has_acknowledged k xs ≡ true)
unfolding new contains
commit_both_rounds nodes xs k {c} e h m =
    (ground (arith, run-prepared k c xs v h m), ground (arith, run-acknowledged k c xs v h m))
  where
    v : IsValid c
    v = record {
      second_round = λ q. ground arith;
      commit_prepared = λ q. ground arith;
      commit_acknowledged = λ q. ground arith;
    }

step_kept :
    (c : Coordinator) (x : Call)
    → (c.phase ≡ Phase.pre_commit) ⊎ (c.phase ≡ Phase.committed)
    → ((step c x).phase ≡ Phase.pre_commit) ⊎ ((step c x).phase ≡ Phase.committed)
unfolding step begin prepared precommitted timeout
step_kept c begins h = ground arith
step_kept c times_out h = ground arith
step_kept c (prepares p) h = ground arith
step_kept c (acknowledges p) h = ground arith

-- Behind the first round no calls abort the transaction: it waits in the second or is committed.
pub precommit_stays :
    (c : Coordinator) (xs : List Call)
    → (c.phase ≡ Phase.pre_commit) ⊎ (c.phase ≡ Phase.committed)
    → ((run c xs).phase ≡ Phase.pre_commit) ⊎ ((run c xs).phase ≡ Phase.committed)
unfolding run
precommit_stays c [] h = h
precommit_stays c (x ∷ xs) h = precommit_stays (step c x) xs (step_kept c x h)
