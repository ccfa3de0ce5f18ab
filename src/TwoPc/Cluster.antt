-- ===== src/TwoPc/Cluster.antt =====
-- One coordinator and its participants, joined by messages that may be lost, repeated and
-- reordered: a step relation over the methods of crates/iron-2pc/src/lib.rs.
use iron_consensus.Prelude.{
  ◌≡◌, ◌≢◌, Bool, true, false, ◌||◌, List, Option, some, ok, arith, if◌then◌else◌,
}
use iron_consensus.Order.{is_eq, is_eq_iff}
use iron_consensus.Core.Id.{NodeId, node_ord}
use iron_consensus.BTreeSet.{contains, insert}
use iron_consensus.BTreeSet.Laws.{contains-insert, set_eq_sound}
use iron_consensus.TwoPc.Types.{
  Decision, ParticipantPhase, ParticipantAction, Coordinator, Participant,
}
use iron_consensus.TwoPc.{
  new, begin, vote_prepared, vote_abort, decision, new_participant, participant_prepare,
  participant_commit, participant_abort,
}

-- `votes` has every node that ever answered `Prepared`; a message once sent stays deliverable.
pub record Cluster : Type 0 where
  pub coordinator : Coordinator
  pub participant : NodeId → Participant
  pub votes : NodeId → Bool

abbrev pub update {ℓ} : {A : Type ℓ} → (NodeId → A) → NodeId → A → NodeId → A
update f k a j = if is_eq j k then a else f j

abbrev pub is_prepared_answer : ParticipantAction → Bool
is_prepared_answer ParticipantAction.prepared = true
is_prepared_answer _ = false

-- A node answers a prepare message.
unfoldable pub answer : Cluster → NodeId → Bool → Cluster
unfolding participant_prepare
answer s k can_commit =
    let r = participant_prepare (s.participant k) can_commit in
    record s {
      participant = update s.participant k r.0;
      votes = update s.votes k (is_prepared_answer r.1 || s.votes k);
    }

pub data Step (s : Cluster) : Cluster → Type 0 where
  begins : Step s (record s { coordinator = (begin s.coordinator).0 })
  answers : (k : NodeId) (can_commit : Bool) → Step s (answer s k can_commit)
  hears_vote :
      (k : NodeId)
      → s.votes k ≡ true
      → Step s (record s { coordinator = (vote_prepared s.coordinator k).0 })
  -- An abort vote, or the caller's choice to give a participant up.
  hears_abort : (k : NodeId) → Step s (record s { coordinator = (vote_abort s.coordinator k).0 })
  commits :
      (k : NodeId)
      → decision s.coordinator ≡ some Decision.commit
      → Step s (record s {
        participant = update s.participant k (participant_commit (s.participant k)).0;
      })
  aborts :
      (k : NodeId)
      → decision s.coordinator ≡ some Decision.abort
      → Step s (record s {
        participant = update s.participant k (participant_abort (s.participant k)).0;
      })

pub data Reach (s : Cluster) : Cluster → Type 0 where
  here : Reach s s
  next : {t u : Cluster} → Reach s t → Step t u → Reach s u

abbrev pub start : Coordinator → Cluster
start c = record { coordinator = c; participant = λ k. new_participant; votes = λ k. false }

-- What a node's vote binds it to, by its phase and the decision.
abbrev pub Bound : Option Decision → ParticipantPhase → Type 0
Bound d ParticipantPhase.working = ⊥
Bound d ParticipantPhase.prepared = Unit {0}
Bound d ParticipantPhase.committed = d ≡ some Decision.commit
Bound d ParticipantPhase.aborted = d ≡ some Decision.abort

pub record Inv (s : Cluster) : Type 0 where
  pub committed_ok :
      (k : NodeId)
      → (s.participant k).phase ≡ ParticipantPhase.committed
      → decision s.coordinator ≡ some Decision.commit
  pub voted_ok :
      (k : NodeId) → s.votes k ≡ true → Bound (decision s.coordinator) (s.participant k).phase
  pub heard_ok : (k : NodeId) → contains k s.coordinator.prepared ≡ true → s.votes k ≡ true
  pub full_ok :
      decision s.coordinator ≡ some Decision.commit
      → s.coordinator.prepared ≡ s.coordinator.participants

Step-Inv : {s t : Cluster} → Step s t → Inv s → Inv t
unfolding begin decision vote_prepared vote_abort participant_commit participant_abort answer
Step-Inv {s} begins v = record {
  committed_ok = λ k h. ground (arith, v.committed_ok k);
  voted_ok = λ k h. ground (arith, v.voted_ok k);
  heard_ok = λ k h. ground (arith, v.heard_ok k);
  full_ok = λ h. ground (arith, v.full_ok);
}
Step-Inv {s} (answers j can) v = record {
  committed_ok = λ k h. ground (arith, v.committed_ok k, is_eq_iff k j, v.committed_ok j);
  voted_ok = λ k h. ground (arith, v.voted_ok k, v.voted_ok j, is_eq_iff k j, v.committed_ok j);
  heard_ok = λ k h. ground (arith, v.heard_ok k, is_eq_iff k j);
  full_ok = v.full_ok;
}
Step-Inv {s} (hears_vote j sent) v = record {
  committed_ok = λ k h. ground (arith, v.committed_ok k);
  voted_ok = λ k h. ground (arith, v.voted_ok k);
  heard_ok = λ k h.
      ground (arith, v.heard_ok k, contains-insert k j s.coordinator.prepared, is_eq_iff k j);
  full_ok = λ h.
      ground (
        arith,
        v.full_ok,
        set_eq_sound (insert j s.coordinator.prepared) s.coordinator.participants,
      );
}
Step-Inv {s} (hears_abort j) v = record {
  committed_ok = λ k h. ground (arith, v.committed_ok k);
  voted_ok = λ k h. ground (arith, v.voted_ok k);
  heard_ok = λ k h. ground (arith, v.heard_ok k);
  full_ok = λ h. ground (arith, v.full_ok);
}
Step-Inv {s} (commits j d) v = record {
  committed_ok = λ k h. ground (arith, v.committed_ok k);
  voted_ok = λ k h. ground (arith, v.voted_ok k, v.voted_ok j, is_eq_iff k j);
  heard_ok = v.heard_ok;
  full_ok = v.full_ok;
}
Step-Inv {s} (aborts j d) v = record {
  committed_ok = λ k h. ground (arith, v.committed_ok k, v.committed_ok j, is_eq_iff k j);
  voted_ok = λ k h. ground (arith, v.voted_ok k, v.voted_ok j, v.committed_ok j, is_eq_iff k j);
  heard_ok = v.heard_ok;
  full_ok = v.full_ok;
}

start-Inv : (nodes : List NodeId) {c : Coordinator} → new nodes ≡ ok c → Inv (start c)
unfolding new decision contains
start-Inv nodes {c} e = record {
  committed_ok = λ k h. ground arith;
  voted_ok = λ k h. ground arith;
  heard_ok = λ k h. ground arith;
  full_ok = λ h. ground arith;
}

Reach-Inv : {s t : Cluster} → Inv s → Reach s t → Inv t
Reach-Inv v here = v
Reach-Inv v (next r st) = Step-Inv st (Reach-Inv v r)

-- Atomicity: in every state that a cluster of a new coordinator reaches, if any node has
-- committed, then no participant of the transaction has aborted, and each has voted to commit.
pub commit_abort_exclusive :
    (nodes : List NodeId) {c : Coordinator} {s : Cluster} (j k : NodeId)
    → new nodes ≡ ok c
    → Reach (start c) s
    → (s.participant j).phase ≡ ParticipantPhase.committed
    → contains k s.coordinator.participants ≡ true
    → ((s.participant k).phase ≢ ParticipantPhase.aborted) × (s.votes k ≡ true)
commit_abort_exclusive nodes {c} {s} j k e r h m =
    let v = Reach-Inv (start-Inv nodes e) r in
    ground (arith, v.committed_ok j h, v.full_ok, v.heard_ok k, v.voted_ok k)
