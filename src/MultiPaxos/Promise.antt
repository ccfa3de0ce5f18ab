-- ===== src/MultiPaxos/Promise.antt =====
-- The acceptor's promise over histories of calls.
use iron_consensus.Prelude.{
  ◌≡◌, refl, true, false, List, [], ◌∷◌, some, ok, arith, Bool-cases, ◌∙◌, inl, inr,
}
use iron_consensus.Order.{is_lt}
use iron_consensus.Core.Id.{NodeId, node_ord}
use iron_consensus.MultiPaxos.Types.{Ballot, Value, Message, Node, ballot_ord}
use iron_consensus.MultiPaxos.{
  start_round, propose, restore_accepted, prepare, promise, accept, accepted_vote, receive,
  promised_above,
}

pub data Call : Type 0 where
  starts_round : Call
  proposes : Value → Call
  restores : Ballot → Value → Call
  receives : NodeId → Message → Call

-- The state that a call leaves, whatever it returns.
unfoldable pub step : Node → Call → Node
step s starts_round = (start_round s).0
step s (proposes v) = (propose s v).0
step s (restores b v) = (restore_accepted s b v).0
step s (receives from m) = (receive s from m).0

unfoldable pub run : Node → List Call → Node
run s [] = s
run s (x ∷ xs) = run (step s x) xs

-- The node has promised the ballot or a greater one.
abbrev pub Promised : Node → Ballot → Type 0
Promised s b = (p : Ballot) × ((s.promised ≡ some p) × (is_lt p b ≡ false))

pub not_lt_trans : (p q b : Ballot) → is_lt q p ≡ false → is_lt p b ≡ false → is_lt q b ≡ false
not_lt_trans p q b h g = ground (
  arith,
  ballot_ord.cmp_trans q b p,
  ballot_ord.cmp_flip p b,
  ballot_ord.cmp_flip q p,
  ballot_ord.cmp_flip q b,
  ballot_ord.cmp_iff p b,
  ballot_ord.cmp_iff q b,
  ballot_ord.cmp_iff q p,
)

lt_not_lt_trans : (q b p : Ballot) → is_lt q b ≡ true → is_lt p b ≡ false → is_lt q p ≡ true
lt_not_lt_trans q b p h g =
    ground (arith, ballot_ord.cmp_trans q b p, ballot_ord.cmp_flip p b, ballot_ord.cmp_iff p b)

unchanged-Promised :
    (s s' : Node) (b : Ballot) → s'.promised ≡ s.promised → Promised s b → Promised s' b
unchanged-Promised s s' b same (p, (e, h)) = (p, (same ∙ e, h))

prepare-Promised :
    (s : Node) (from : NodeId) (new b : Ballot) → Promised s b → Promised (prepare s from new).0 b
unfolding prepare promised_above
prepare-Promised s from new b (p, (e, h)) = elim (Bool-cases (promised_above s.promised new)) [
  | inl above ↦ rw above (p, (e, h))
  | inr below ↦ rw below (new, (refl, not_lt_trans p new b (ground arith) h))
]

accept-Promised :
    (s : Node) (new : Ballot) (v : Value) (b : Ballot)
    → Promised s b
    → Promised (accept s new v).0 b
unfolding accept promised_above
accept-Promised s new v b (p, (e, h)) = elim (Bool-cases (promised_above s.promised new)) [
  | inl above ↦ rw above (p, (e, h))
  | inr below ↦ rw below (new, (refl, not_lt_trans p new b (ground arith) h))
]

step-Promised : (s : Node) (x : Call) (b : Ballot) → Promised s b → Promised (step s x) b
unfolding step start_round propose restore_accepted receive promise accepted_vote
step-Promised s starts_round b h = unchanged-Promised s (step s starts_round) b (ground arith) h
step-Promised s (proposes v) b h = unchanged-Promised s (step s (proposes v)) b (ground arith) h
step-Promised s (restores c v) b h = unchanged-Promised s (step s (restores c v)) b (ground arith) h
step-Promised s (receives from (Message.prepare c)) b h = prepare-Promised s from c b h
step-Promised s (receives from (Message.promise c l)) b h =
    unchanged-Promised s (step s (receives from (Message.promise c l))) b (ground arith) h
step-Promised s (receives from (Message.accept c v)) b h = accept-Promised s c v b h
step-Promised s (receives from (Message.accepted c a v)) b h =
    unchanged-Promised s (step s (receives from (Message.accepted c a v))) b (ground arith) h
step-Promised s (receives from (Message.decision c v)) b h =
    unchanged-Promised s (step s (receives from (Message.decision c v))) b refl h

run-Promised : (s : Node) (xs : List Call) (b : Ballot) → Promised s b → Promised (run s xs) b
unfolding run
run-Promised s [] b h = h
run-Promised s (x ∷ xs) b h = run-Promised (step s x) xs b (step-Promised s x b h)

-- Once a ballot is promised, then after any calls the node ignores every prepare and every accept
-- of a smaller ballot.
pub promise_kept :
    (s : Node) (xs : List Call) (promised' smaller : Ballot) (from : NodeId) (value : Value)
    → s.promised ≡ some promised'
    → is_lt smaller promised' ≡ true
    → let s' = run s xs in
      (receive s' from (Message.prepare smaller) ≡ (s', ok []))
      × (receive s' from (Message.accept smaller value) ≡ (s', ok []))
unfolding receive prepare accept promised_above
promise_kept s xs b q from v e h =
    let (p, (e', g)) = run-Promised s xs b (b, (e, ground (arith, ballot_ord.cmp_iff b b))) in
    let above : promised_above (run s xs).promised q ≡ true =
      ground (arith, lt_not_lt_trans q b p h g) in
    (simp above, simp above)
