-- ===== src/Raft/Sends.antt =====
-- What a step of a node of crates/iron-raft/src/lib.rs sends, and what it does to the log and to a
-- leader.
use iron_consensus.Prelude.{
  ℕ, ◌+◌, ◌==◌, ◌&&◌, ◌||◌, ltb, leb, u64_mod, ◌≡◌, ◌≢◌, refl, sym, ap, subst, ◌∙◌, Bool, true,
  false, not, ◌⊎◌, inl, inr, List, [], ◌∷◌, ◌++◌, map, Result, ok, err, arith, if◌then◌else◌,
  Bool-cases, length, filter_by,
}
use iron_consensus.Order.{is_eq, is_eq_iff}
use iron_consensus.Core.Id.{NodeId, node_ord}
use iron_consensus.BTreeSet.{insert}
use iron_consensus.Raft.Types.{Role, Message, Outbound, RaftError, RaftNode}
use iron_consensus.Raft.{
  is_candidate, is_leader, majority, peers, heartbeats, vote_requests, become_leader,
  start_election, tick, propose, request_vote, count_vote, vote, append, append_response, receive,
}
use iron_consensus.Raft.Steps.{Event, ticks, proposes, receives, handle}

abbrev pub In : {A : Type 0} → A → List A → Type 0
In x [] = ⊥
In x (y ∷ ys) = (x ≡ y) ⊎ In x ys

pub In-append : {A : Type 0} (x : A) (xs ys : List A) → In x (xs ++ ys) → In x xs ⊎ In x ys
In-append x [] ys h = inr h
In-append x (y ∷ xs) ys (inl same) = inl (inl same)
In-append x (y ∷ xs) ys (inr h) = elim (In-append x xs ys h) [ inl l ↦ inl (inr l) | inr r ↦ inr r ]

pub In-append_left : {A : Type 0} (x : A) (xs ys : List A) → In x xs → In x (xs ++ ys)
In-append_left x [] ys h = absurd h
In-append_left x (y ∷ xs) ys (inl same) = inl same
In-append_left x (y ∷ xs) ys (inr h) = inr (In-append_left x xs ys h)

pub In-append_right : {A : Type 0} (x : A) (xs ys : List A) → In x ys → In x (xs ++ ys)
In-append_right x [] ys h = h
In-append_right x (y ∷ xs) ys h = inr (In-append_right x xs ys h)

abbrev pub outbox : Result RaftError (List Outbound) → List Outbound
outbox (ok out) = out
outbox (err e) = []

abbrev pub is_append : Message → Bool
is_append (Message.append_entries _ _ _ _ _ _) = true
is_append (Message.request_vote _ _ _ _) = false
is_append (Message.vote _ _ _) = false
is_append (Message.append_response _ _ _ _) = false

-- A message that gives the whole log of a leader to another node.
pub record IsReplica (s : RaftNode) (o : Outbound) : Type 0 where
  pub commit : ℕ
  pub message : o.message ≡ Message.append_entries s.current_term s.id 0 0 s.log commit
  pub other : o.to ≢ s.id
  pub leads : s.role ≡ Role.leader

In-map :
    {A B : Type 0} (f : A → B) (xs : List A) (y : B)
    → In y (map f xs)
    → (x : A) × ((y ≡ f x) × In x xs)
In-map f [] y h = absurd h
In-map f (x ∷ xs) y (inl same) = (x, (same, inl refl))
In-map f (x ∷ xs) y (inr h) = let (z, (same, w)) = In-map f xs y h in (z, (same, inr w))

abbrev chosen : {A : Type 0} → (A → Bool) → List A → A → Bool → List A
chosen p xs y b = elim b [ true ↦ y ∷ filter_by p xs | false ↦ filter_by p xs ]

passed :
    {A : Type 0} (p : A → Bool) (xs : List A) (x y : A)
    → In x (chosen p xs y (p y))
    → (p x ≡ true) ⊎ In x (filter_by p xs)
passed p xs x y h = elim (Bool-cases (p y)) [
  | inl keeps ↦ first (subst (λ b. In x (chosen p xs y b)) keeps h) keeps
  | inr drops ↦ inr (subst (λ b. In x (chosen p xs y b)) drops h)
]
  where
    first : In x (y ∷ filter_by p xs) → p y ≡ true → (p x ≡ true) ⊎ In x (filter_by p xs)
    first (inl same) keeps = inl (ap p same ∙ keeps)
    first (inr rest) keeps = inr rest

filter_by-chosen :
    {A : Type 0} (p : A → Bool) (xs : List A) (y : A) → filter_by p (y ∷ xs) ≡ chosen p xs y (p y)
unfolding filter_by
filter_by-chosen p xs y = ground arith

In-filter_by :
    {A : Type 0} (p : A → Bool) (xs : List A) (x : A) → In x (filter_by p xs) → p x ≡ true
unfolding filter_by
In-filter_by p [] x h = absurd h
In-filter_by p (y ∷ xs) x h = elim (passed p xs x y (subst (In x) (filter_by-chosen p xs y) h)) [
  | inl found ↦ found
  | inr rest ↦ In-filter_by p xs x rest
]

heartbeats-IsReplica :
    (s : RaftNode) (o : Outbound) → s.role ≡ Role.leader → In o (heartbeats s) → IsReplica s o
unfolding heartbeats peers
heartbeats-IsReplica s o leads h =
    let (peer, (same, among)) = In-map _ (peers s) o h in
    let differs = In-filter_by (λ p. not (is_eq p s.id)) s.members peer among in
    record {
      commit = s.commit_index;
      message = ap (λ x. x.message) same;
      other = λ e. differ peer s.id differs (sym (ap (λ x. x.to) same) ∙ e);
      leads = leads;
    }
  where
    differ : (a b : NodeId) → not (is_eq a b) ≡ true → a ≢ b
    differ a b h' e = ground (arith, is_eq_iff a b)

vote_requests-silent :
    (s : RaftNode) (o : Outbound) → In o (vote_requests s) → is_append o.message ≡ false
unfolding vote_requests
vote_requests-silent s o h =
    let (peer, (same, among)) = In-map _ (peers s) o h in ap (λ x. is_append x.message) same

-- The ways a call can answer.
pub data Sends : RaftNode × Result RaftError (List Outbound) → Type 0 where
  fails : (t : RaftNode) (e : RaftError) → Sends (t, err e)
  quiet : (t : RaftNode) → Sends (t, ok [])
  beats : (t : RaftNode) → t.role ≡ Role.leader → Sends (t, ok (heartbeats t))
  requests : (t : RaftNode) → Sends (t, ok (vote_requests t))
  answers :
      (t : RaftNode) (to : NodeId) (m : Message)
      → is_append m ≡ false
      → Sends (t, ok (record { to = to; message = m } ∷ []))

pub Sends-IsReplica :
    (r : RaftNode × Result RaftError (List Outbound)) (o : Outbound)
    → Sends r
    → In o (outbox r.1)
    → is_append o.message ≡ true
    → IsReplica r.0 o
Sends-IsReplica r o (fails t e) h a = absurd h
Sends-IsReplica r o (quiet t) h a = absurd h
Sends-IsReplica r o (beats t leads) h a = heartbeats-IsReplica t o leads h
Sends-IsReplica r o (requests t) h a = ground (arith, vote_requests-silent t o h)
Sends-IsReplica r o (answers t to m no_append) (inl same) a =
    ground (arith, ap (λ x. is_append x.message) same)
Sends-IsReplica r o (answers t to m no_append) (inr rest) a = absurd rest

start_election-Sends : (s : RaftNode) → Sends (start_election s)
unfolding start_election
start_election-Sends s = elim (Bool-cases (ltb (s.current_term + 1) u64_mod)) [
  | inl fits ↦ rw (start_election, fits) (requests _)
  | inr over ↦ rw (start_election, over) (fails _ _)
]

is_leader-role : (r : Role) → is_leader r ≡ true → r ≡ Role.leader
is_leader-role Role.leader h = refl
is_leader-role Role.follower h = ground (arith, h)
is_leader-role Role.candidate h = ground (arith, h)

-- A tick of a node that does not lead.
tick_other :
    (s : RaftNode)
    → is_leader s.role ≡ false
    → tick s ≡ (
        if ltb (s.election_elapsed + 1) u64_mod
        then (if ltb (s.election_elapsed + 1) s.election_timeout
            then (record s { election_elapsed = s.election_elapsed + 1 }, ok [])
            else start_election (record s { election_elapsed = s.election_elapsed + 1 }))
        else (s, err RaftError.index_overflow))
unfolding tick
tick_other s h = ground arith

propose_other :
    (s : RaftNode) (command : List ℕ)
    → is_leader s.role ≡ false
    → propose s command ≡ (s, err RaftError.not_leader)
unfolding propose
propose_other s command h = ground arith

tick-Sends : (s : RaftNode) → Sends (tick s)
unfolding tick
tick-Sends s = elim (Bool-cases (ltb (s.election_elapsed + 1) u64_mod)) [
  | inl fits ↦ elim (Bool-cases (is_leader s.role)) [
    | inl leads ↦
        rw (tick, fits, is_leader-role s.role leads) (beats _ (is_leader-role s.role leads))
    | inr waits ↦ elim (Bool-cases (ltb (s.election_elapsed + 1) s.election_timeout)) [
      | inl early ↦ rw (tick_other s waits, fits, early) (quiet _)
      | inr due ↦ rw (tick_other s waits, fits, due) (start_election-Sends _)
    ]
  ]
  | inr over ↦ rw (tick, over) (fails _ _)
]

propose-Sends : (s : RaftNode) (command : List ℕ) → Sends (propose s command)
unfolding propose
propose-Sends s command = elim (Bool-cases (is_leader s.role)) [
  | inl leads ↦ rw (propose, is_leader-role s.role leads) (beats _ (is_leader-role s.role leads))
  | inr waits ↦ rw (propose_other s command waits) (fails _ _)
]

count_vote-Sends : (s : RaftNode) (voter : NodeId) → Sends (count_vote s voter)
unfolding count_vote become_leader
count_vote-Sends s voter =
    let t = record s { votes = insert voter s.votes } in
    elim (Bool-cases (leb (majority t) (length t.votes))) [
      | inl won ↦ rw won (beats _ refl)
      | inr not_yet ↦ rw not_yet (quiet _)
    ]

vote-Sends :
    (s : RaftNode) (term : ℕ) (voter : NodeId) (granted : Bool) → Sends (vote s term voter granted)
unfolding vote
vote-Sends s term voter granted = elim (Bool-cases (ltb s.current_term term)) [
  | inl later ↦ rw later (quiet _)
  | inr now ↦
      elim (Bool-cases
        (not (is_candidate s.role) || (not (term == s.current_term) || not granted))) [
          | inl ignored ↦ rw (now, ignored) (quiet _)
          | inr counted ↦ rw (now, counted) (count_vote-Sends s voter)
        ]
]

append_response-Sends :
    (s : RaftNode) (term : ℕ) (follower : NodeId) (success : Bool) (m : ℕ)
    → Sends (append_response s term follower success m)
unfolding append_response
append_response-Sends s term follower success m = elim (Bool-cases (ltb s.current_term term)) [
  | inl later ↦ rw later (quiet _)
  | inr now ↦ elim (Bool-cases (is_leader s.role && success)) [
    | inl counted ↦ rw (now, counted) (quiet _)
    | inr ignored ↦ rw (now, ignored) (quiet _)
  ]
]

pub handle-Sends : (s : RaftNode) (e : Event) → Sends (handle s e)
unfolding handle receive request_vote append
handle-Sends s ticks = tick-Sends s
handle-Sends s (proposes command) = propose-Sends s command
handle-Sends s (receives (Message.request_vote t c i l)) = answers _ _ _ refl
handle-Sends s (receives (Message.vote t v g)) = vote-Sends s t v g
handle-Sends s (receives (Message.append_entries t l p q es c)) = answers _ _ _ refl
handle-Sends s (receives (Message.append_response t f ok' m)) = append_response-Sends s t f ok' m
