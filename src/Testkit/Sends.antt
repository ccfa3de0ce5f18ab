-- ===== src/Testkit/Sends.antt =====
-- What `send` of crates/iron-testkit/src/network.rs puts into the queue.
use iron_consensus.Prelude.{
  ℕ, zero, suc, ◌+◌, ◌≤◌, ◌<◌, ◌≡◌, ◌≢◌, refl, sym, ap, subst, ◌∙◌, false, Option, none, some,
  Result, ok, err, arith, Bool-cases, Option-cases, inl, inr, ◌⊎◌, checked_add, length, ltb,
  u64_mod, u32_mod,
}
use iron_consensus.Order.{nat_ord}
use iron_consensus.BTreeMap
use iron_consensus.BTreeMap.Laws.{length-insert_absent, All-get}
use iron_consensus.Core.Envelope.Types.{Envelope}
use iron_consensus.Testkit.Pairs.{pair_ord}
use iron_consensus.Testkit.Driver.{Driver, DriverError, schedule_at, schedule_after, tick_add}
use iron_consensus.Testkit.Ordered.{IsValid, Follows, schedule_at-IsValid}
use iron_consensus.Testkit.Network.{
  FaultAction, AcceptedAttempt, SimulatedNetwork, NetworkError, is_blocked, find_action,
  schedule_copies, one_copy, apply_action, accepted, send_as, send,
}

-- A driver that has so many events more.
pub record Grown {T : Type 0} (last : Option (ℕ × ℕ)) (n : ℕ) (d d' : Driver T) : Type 0 where
  pub valid : IsValid last d'
  pub count : length d'.queue ≡ length d.queue + n
  pub same_now : d'.now ≡ d.now

Grown-refl : {T : Type 0} (last : Option (ℕ × ℕ)) (d : Driver T) → IsValid last d → Grown last 0 d d
Grown-refl last d v = record { valid = v; count = omega arith; same_now = refl }

-- What a call gives that ends well: so many events more.
abbrev pub Grows : {T A E : Type 0} → Option (ℕ × ℕ) → ℕ → Driver T → Driver T × Result E A → Type 0
Grows last n d (d', err e) = Unit
Grows last n d (d', ok x) = Grown last n d d'

fresh_key :
    {T : Type 0} (last : Option (ℕ × ℕ)) (tick : ℕ) (d : Driver T)
    → IsValid last d
    → BTreeMap.get (tick, d.next_sequence) d.queue ≡ none
fresh_key last tick d v = elim (Option-cases (BTreeMap.get (tick, d.next_sequence) d.queue)) [
  | inl absent ↦ absent
  | inr (event, found) ↦
      let old =
        All-get (λ k. (d.now ≤ k.0) × (k.1 < d.next_sequence) × Follows last k)
          (tick, d.next_sequence) event d.queue v.entries found in
      absurd (omega (arith, old.1))
]

abbrev enqueued : {T : Type 0} → ℕ → ℕ → T → Driver T → Driver T
enqueued tick next event d = record d {
  next_sequence = next;
  queue = BTreeMap.insert (tick, d.next_sequence) event d.queue;
}

schedule_at-Grows :
    {T : Type 0} (last : Option (ℕ × ℕ)) (tick : ℕ) (event : T) (d : Driver T)
    → IsValid last d
    → Grows last 1 d (schedule_at tick event d)
unfolding schedule_at
schedule_at-Grows last tick event d v = elim (Bool-cases (ltb tick d.now)) [
  | inl past ↦ rw (schedule_at, past) tt
  | inr fits ↦ elim (Option-cases (checked_add u64_mod d.next_sequence 1)) [
    | inl over ↦ rw (schedule_at, fits, over) tt
    | inr (next, sum) ↦
        let opened : schedule_at tick event d ≡ (enqueued tick next event d, ok d.next_sequence) =
          rw (schedule_at, fits, sum) refl in
        subst (Grows last 1 d) (sym opened) (record {
          valid =
              subst (IsValid last) (ap (λ r. r.0) opened) (schedule_at-IsValid last tick event d v);
          count = omega (
            arith,
            length-insert_absent (tick, d.next_sequence) event d.queue (fresh_key last tick d v),
          );
          same_now = refl;
        })
  ]
]

schedule_after-Grows :
    {T : Type 0} (last : Option (ℕ × ℕ)) (delay : ℕ) (event : T) (d : Driver T)
    → IsValid last d
    → Grows last 1 d (schedule_after delay event d)
unfolding schedule_after tick_add
schedule_after-Grows last delay event d v = elim (Option-cases (checked_add u64_mod d.now delay)) [
  | inl over ↦ rw (schedule_after, over) tt
  | inr (tick, sum) ↦ rw (schedule_after, sum) (schedule_at-Grows last tick event d v)
]

-- One call behind another, `?` between them.
copies_behind :
    (last : Option (ℕ × ℕ)) (copies : ℕ) (envelope : Envelope) (d : Driver Envelope)
    (first : Driver Envelope × Result DriverError ℕ)
    → Grows last 1 d first
    → ((b : Driver Envelope)
        → IsValid last b
        → Grows last copies b (schedule_copies copies envelope b))
    → Grows {A = Unit {0}} {E = DriverError} last
        (suc copies)
        d
        (elim first.1 [ err e ↦ (first.0, err e) | ok _ ↦ schedule_copies copies envelope first.0 ])
copies_behind last copies envelope d (b, err e) g h = tt
copies_behind last copies envelope d (b, ok s) g h =
    behind (schedule_copies copies envelope b) (h b g.valid)
  where
    behind :
        (r : Driver Envelope × Result DriverError (Unit {0}))
        → Grows last copies b r
        → Grows last (suc copies) d r
    behind (c, err e) k = tt
    behind (c, ok x) k = record {
      valid = k.valid;
      count = omega (arith, g.count, k.count);
      same_now = k.same_now ∙ g.same_now;
    }

schedule_copies-Grows :
    (last : Option (ℕ × ℕ)) (copies : ℕ) (envelope : Envelope) (d : Driver Envelope)
    → IsValid last d
    → Grows last copies d (schedule_copies copies envelope d)
unfolding schedule_copies
schedule_copies-Grows last zero envelope d v = Grown-refl last d v
schedule_copies-Grows last (suc copies) envelope d v =
    copies_behind last copies envelope d (schedule_after 0 envelope d)
      (schedule_after-Grows last 0 envelope d v)
      (λ b w. schedule_copies-Grows last copies envelope b w)

-- A network whose deliveries grew by what it reports, the connections as they were.
pub record Delivers (last : Option (ℕ × ℕ)) (copies : ℕ) (n n' : SimulatedNetwork) : Type 0 where
  pub grown : Grown last copies n.deliveries n'.deliveries
  pub same_partitions : n'.partitions ≡ n.partitions
  pub same_crashed : n'.crashed ≡ n.crashed
  pub same_ordinal : n'.last_ordinal ≡ n.last_ordinal

abbrev Reports :
    Option (ℕ × ℕ) → SimulatedNetwork → SimulatedNetwork × Result NetworkError ℕ → Type 0
Reports last n (n', err e) = Unit
Reports last n (n', ok copies) = Delivers last copies n n'

one_copy-Reports :
    {A : Type 0} (last : Option (ℕ × ℕ)) (n : SimulatedNetwork) (copies : ℕ)
    (r : Driver Envelope × Result DriverError A)
    → Grows last copies n.deliveries r
    → Reports last n (one_copy n r copies)
unfolding one_copy
one_copy-Reports last n copies (d, err e) g = tt
one_copy-Reports last n copies (d, ok x) g = record {
  grown = g;
  same_partitions = refl;
  same_crashed = refl;
  same_ordinal = refl;
}

none_delivered :
    (last : Option (ℕ × ℕ)) (n : SimulatedNetwork) → IsValid last n.deliveries → Delivers last 0 n n
none_delivered last n v = record {
  grown = Grown-refl last n.deliveries v;
  same_partitions = refl;
  same_crashed = refl;
  same_ordinal = refl;
}

apply_action-Reports :
    (last : Option (ℕ × ℕ)) (action : Option FaultAction) (envelope : Envelope)
    (n : SimulatedNetwork)
    → IsValid last n.deliveries
    → Reports last n (apply_action action envelope n)
unfolding apply_action
apply_action-Reports last none envelope n v =
    one_copy-Reports last n 1 _ (schedule_after-Grows last 0 envelope n.deliveries v)
apply_action-Reports last (some FaultAction.dropped) envelope n v = none_delivered last n v
apply_action-Reports last (some (FaultAction.delay ticks)) envelope n v =
    one_copy-Reports last n 1 _ (schedule_after-Grows last ticks envelope n.deliveries v)
apply_action-Reports last (some (FaultAction.duplicate additional)) envelope n v =
    elim (Option-cases (checked_add u32_mod additional 1)) [
      | inl over ↦ rw (apply_action, over) tt
      | inr (copies, sum) ↦
          rw (apply_action, sum)
            (one_copy-Reports last n copies _
              (schedule_copies-Grows last copies envelope n.deliveries v))
    ]
apply_action-Reports last (some (FaultAction.reorder_at_tick tick)) envelope n v =
    elim (Bool-cases (ltb tick n.deliveries.now)) [
      | inl past ↦ rw (apply_action, past) tt
      | inr fits ↦
          rw (apply_action, fits)
            (record {
              grown = Grown-refl last n.deliveries v;
              same_partitions = refl;
              same_crashed = refl;
              same_ordinal = refl;
            })
    ]

one_attempt :
    (r : Result NetworkError AcceptedAttempt) (a b : AcceptedAttempt) → r ≡ ok a → r ≡ ok b → a ≡ b
one_attempt r a b h k = grind (arith, h, k)

no_attempt :
    (r : Result NetworkError AcceptedAttempt) (a : AcceptedAttempt) (e : NetworkError)
    → r ≡ err e
    → r ≢ ok a
no_attempt r a e h k = grind (arith, h, k)

next_ordinal : (last ordinal : ℕ) → checked_add u64_mod last 1 ≡ some ordinal → ordinal ≡ last + 1
next_ordinal last ordinal h = ground arith

accepted-Delivers :
    (last : Option (ℕ × ℕ)) (ordinal : ℕ) (n : SimulatedNetwork)
    (r : SimulatedNetwork × Result NetworkError ℕ)
    → Reports last n r
    → (n' : SimulatedNetwork) (a : AcceptedAttempt) → accepted ordinal r ≡ (n', ok a)
    → Delivers last a.enqueued_copies n n' × (a.ordinal ≡ ordinal)
unfolding accepted
accepted-Delivers last ordinal n (m, err e) h n' a s = absurd (grind (arith, ap (λ r. r.1) s))
accepted-Delivers last ordinal n (m, ok copies) h n' a s =
    let same : m ≡ n' = ap (λ r. r.0) s in
    let reported : record { ordinal = ordinal; enqueued_copies = copies } ≡ a =
      one_attempt (ok (record { ordinal = ordinal; enqueued_copies = copies })) _ a refl
        (ap (λ r. r.1) s) in
    (
      subst (λ m'. Delivers last a.enqueued_copies n m') same
          (subst (λ c. Delivers last c n m) (ap (λ b. b.enqueued_copies) reported) h),
      sym (ap (λ b. b.ordinal) reported),
    )

accepted-copies :
    (ordinal copies : ℕ) (n n' : SimulatedNetwork) (a : AcceptedAttempt)
    → accepted ordinal (n, ok copies) ≡ (n', ok a)
    → a.enqueued_copies ≡ copies
unfolding accepted
accepted-copies ordinal copies n n' a s = sym (
    ap (λ b. b.enqueued_copies)
      (one_attempt (ok (record { ordinal = ordinal; enqueued_copies = copies })) _ a refl
        (ap (λ r. r.1) s)))

-- What an accepted attempt says of the network.
pub record Sent (last : Option (ℕ × ℕ)) (envelope : Envelope) (n n' : SimulatedNetwork)
    (a : AcceptedAttempt) : Type 0 where
  pub grown : Grown last a.enqueued_copies n.deliveries n'.deliveries
  pub same_partitions : n'.partitions ≡ n.partitions
  pub same_crashed : n'.crashed ≡ n.crashed
  pub ordinal : a.ordinal ≡ n.last_ordinal + 1
  pub counted : n'.last_ordinal ≡ a.ordinal
  pub connected : (is_blocked n envelope ≡ false) ⊎ (a.enqueued_copies ≡ 0)

send_as-Delivers :
    (last : Option (ℕ × ℕ)) (ordinal : ℕ) (envelope : Envelope) (n n' : SimulatedNetwork)
    (a : AcceptedAttempt)
    → IsValid last n.deliveries
    → send_as ordinal envelope n ≡ (n', ok a)
    → Delivers last a.enqueued_copies n n'
      × (a.ordinal ≡ ordinal)
      × ((is_blocked n envelope ≡ false) ⊎ (a.enqueued_copies ≡ 0))
unfolding send_as accepted
send_as-Delivers last ordinal envelope n n' a v s = elim (Bool-cases (is_blocked n envelope)) [
  | inl blocked ↦
      let opened : send_as ordinal envelope n ≡ accepted ordinal (n, ok 0) =
        rw (send_as, blocked) refl in
      let (delivers, number) =
        accepted-Delivers last ordinal n (n, ok 0) (none_delivered last n v) n' a
          (sym opened ∙ s) in
      (delivers, number, inr (accepted-copies ordinal 0 n n' a (sym opened ∙ s)))
  | inr free ↦
      let ruled : SimulatedNetwork = record n {
        rules = (find_action ordinal envelope n.rules).0;
      } in
      let action = (find_action ordinal envelope n.rules).1 in
      let opened : send_as ordinal envelope n
          ≡ accepted ordinal (apply_action action envelope ruled) =
        rw (send_as, free) refl in
      let (delivers, number) =
        accepted-Delivers last ordinal ruled (apply_action action envelope ruled)
          (apply_action-Reports last action envelope ruled v) n' a (sym opened ∙ s) in
      (
        record {
          grown = delivers.grown;
          same_partitions = delivers.same_partitions;
          same_crashed = delivers.same_crashed;
          same_ordinal = delivers.same_ordinal;
        },
        number,
        inl free,
      )
]

-- If the driver's invariant holds and a send is accepted, then the attempt has the next ordinal, the
-- queue grew by exactly the copies that the attempt reports, the invariant still holds, the
-- connections are as they were, and between nodes that are cut off no copy was enqueued.
pub send-Sent :
    (last : Option (ℕ × ℕ)) (envelope : Envelope) (n n' : SimulatedNetwork) (a : AcceptedAttempt)
    → IsValid last n.deliveries
    → send envelope n ≡ (n', ok a)
    → Sent last envelope n n' a
unfolding send is_blocked
send-Sent last envelope n n' a v s = elim (Option-cases (checked_add u64_mod n.last_ordinal 1)) [
  | inl over ↦
      let opened : send envelope n ≡ (n, err NetworkError.attempt_overflow) =
        rw (send, over) refl in
      absurd (
        no_attempt (send envelope n).1 a NetworkError.attempt_overflow (ap (λ r. r.1) opened)
          (ap (λ r. r.1) s))
  | inr (ordinal, sum) ↦
      let numbered : SimulatedNetwork = record n { last_ordinal = ordinal } in
      let opened : send envelope n ≡ send_as ordinal envelope numbered = rw (send, sum) refl in
      let (delivers, number, connected) =
        send_as-Delivers last ordinal envelope numbered n' a v (sym opened ∙ s) in
      let next : ordinal ≡ n.last_ordinal + 1 = next_ordinal n.last_ordinal ordinal sum in
      record {
        grown = delivers.grown;
        same_partitions = delivers.same_partitions;
        same_crashed = delivers.same_crashed;
        ordinal = number ∙ next;
        counted = delivers.same_ordinal ∙ sym number;
        connected = connected;
      }
]
