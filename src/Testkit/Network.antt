-- ===== src/Testkit/Network.antt =====
-- crates/iron-testkit/src/fault.rs and network.rs: scripted faults and the simulated network. The
-- adapter that shares a network behind a mutex is left out.
use iron_consensus.Prelude.{
  ℕ, zero, suc, Bool, true, false, ◌&&◌, ◌||◌, not, List, [], ◌∷◌, ◌++◌, Option, none, some, Result,
  ok, err, if◌then◌else◌, ltb, ◌==◌, length, filter_by, checked_add, u32_mod, u64_mod,
}
use iron_consensus.Order.{Ord, is_eq, nat_ord, list_ord}
use iron_consensus.BTreeSet
use iron_consensus.Core.Id.{NodeId}
use iron_consensus.Core.Envelope.Types.{Envelope}
use iron_consensus.Core.Envelope.{as_v1}
use iron_consensus.Testkit.Pairs.{pair_ord}
use iron_consensus.Testkit.Driver.{
  Driver, DriverError, Scheduled, new_driver, schedule_at, schedule_after, pop_next,
}

pub record FaultPredicate : Type 0 where
  pub ordinal : Option ℕ
  pub source : Option NodeId
  pub destination : Option NodeId
  pub protocol : Option (List ℕ)
  pub message_type : Option (List ℕ)

-- `is_none_or` of an equality.
unfoldable pub none_or_eq : {A : Type 0} ⦃o : Ord A⦄ → Option A → A → Bool
none_or_eq none x = true
none_or_eq (some expected) x = is_eq expected x

unfoldable pub matches : FaultPredicate → ℕ → Envelope → Bool
unfolding none_or_eq as_v1
matches p ordinal envelope =
    none_or_eq p.ordinal ordinal
    && (none_or_eq p.source (as_v1 envelope).source
        && (none_or_eq p.destination (as_v1 envelope).destination
            && (none_or_eq p.protocol (as_v1 envelope).protocol
                && none_or_eq p.message_type (as_v1 envelope).message_type)))

pub data FaultAction : Type 0 where
  dropped : FaultAction
  duplicate delay reorder_at_tick : ℕ → FaultAction

pub record FaultRule : Type 0 where
  pub predicate : FaultPredicate
  pub action : FaultAction
  pub consuming : Bool
  pub consumed : Bool

-- `FaultRule::new`
unfoldable pub new_rule : FaultPredicate → FaultAction → Bool → FaultRule
new_rule predicate action consuming = record {
  predicate = predicate;
  action = action;
  consuming = consuming;
  consumed = false;
}

unfoldable pub try_match : ℕ → Envelope → FaultRule → FaultRule × Option FaultAction
unfolding matches
try_match ordinal envelope rule =
    if rule.consumed || not (matches rule.predicate ordinal envelope)
    then (rule, none)
    else if rule.consuming
    then (record rule { consumed = true }, some rule.action)
    else (rule, some rule.action)

-- `iter_mut().find_map(…)` over the rules.
unfoldable pub find_action : ℕ → Envelope → List FaultRule → List FaultRule × Option FaultAction
unfolding try_match
find_action ordinal envelope [] = ([], none)
find_action ordinal envelope (rule ∷ rules) =
    let rest = find_action ordinal envelope rules in
    elim (try_match ordinal envelope rule).1 [
      | some action ↦ ((try_match ordinal envelope rule).0 ∷ rules, some action)
      | none ↦ ((try_match ordinal envelope rule).0 ∷ rest.0, rest.1)
    ]

pub record HeldDelivery : Type 0 where
  pub tick : ℕ
  pub envelope : Envelope

pub record AcceptedAttempt : Type 0 where
  pub ordinal : ℕ
  pub enqueued_copies : ℕ

pub record SimulatedNetwork : Type 0 where
  pub deliveries : Driver Envelope
  pub held : List HeldDelivery
  pub rules : List FaultRule
  pub partitions : List (NodeId × NodeId)
  pub crashed : List NodeId
  pub last_ordinal : ℕ

-- `NetworkError`; `reorder_in_past` has now and the requested tick.
pub data NetworkError : Type 0 where
  attempt_overflow duplicate_count_overflow : NetworkError
  reorder_in_past : ℕ → ℕ → NetworkError
  driver : DriverError → NetworkError

-- `SimulatedNetwork::new`
unfoldable pub new_network : SimulatedNetwork
unfolding new_driver
new_network = record {
  deliveries = new_driver;
  held = [];
  rules = [];
  partitions = [];
  crashed = [];
  last_ordinal = 0;
}

unfoldable pub add_fault : FaultRule → SimulatedNetwork → SimulatedNetwork
add_fault rule n = record n { rules = n.rules ++ (rule ∷ []) }

unfoldable pub partition : NodeId → NodeId → SimulatedNetwork → SimulatedNetwork
partition source destination n = record n {
  partitions = BTreeSet.insert (source, destination) n.partitions;
}

-- `heal`, with whether there was a partition.
unfoldable pub heal : NodeId → NodeId → SimulatedNetwork → SimulatedNetwork × Bool
heal source destination n = (
  record n { partitions = BTreeSet.remove (source, destination) n.partitions },
  BTreeSet.contains (source, destination) n.partitions,
)

unfoldable pub crash : NodeId → SimulatedNetwork → SimulatedNetwork
crash node n = record n { crashed = BTreeSet.insert node n.crashed }

-- `restart`, with whether the node had crashed.
unfoldable pub restart : NodeId → SimulatedNetwork → SimulatedNetwork × Bool
restart node n =
    (record n { crashed = BTreeSet.remove node n.crashed }, BTreeSet.contains node n.crashed)

unfoldable pub is_blocked : SimulatedNetwork → Envelope → Bool
unfolding as_v1
is_blocked n envelope =
    BTreeSet.contains (as_v1 envelope).destination n.crashed
    || BTreeSet.contains ((as_v1 envelope).source, (as_v1 envelope).destination) n.partitions

-- The loop of `Duplicate`: so many copies, until one fails.
unfoldable pub schedule_copies :
    ℕ → Envelope → Driver Envelope → Driver Envelope × Result DriverError (Unit {0})
unfolding schedule_after
schedule_copies zero envelope d = (d, ok tt)
schedule_copies (suc copies) envelope d = elim (schedule_after 0 envelope d).1 [
  | err e ↦ ((schedule_after 0 envelope d).0, err e)
  | ok _ ↦ schedule_copies copies envelope (schedule_after 0 envelope d).0
]

-- One scheduled copy, with `?` on its result.
unfoldable pub one_copy :
    {A : Type 0}
    → SimulatedNetwork
    → Driver Envelope × Result DriverError A
    → ℕ
    → SimulatedNetwork × Result NetworkError ℕ
one_copy n (d, err e) copies = (record n { deliveries = d }, err (NetworkError.driver e))
one_copy n (d, ok _) copies = (record n { deliveries = d }, ok copies)

-- The `match action` of `send`: the number of copies enqueued.
unfoldable pub apply_action :
    Option FaultAction → Envelope → SimulatedNetwork → SimulatedNetwork × Result NetworkError ℕ
unfolding schedule_after schedule_copies one_copy
apply_action none envelope n = one_copy n (schedule_after 0 envelope n.deliveries) 1
apply_action (some FaultAction.dropped) envelope n = (n, ok 0)
apply_action (some (FaultAction.duplicate additional)) envelope n =
    elim (checked_add u32_mod additional 1) [
      | none ↦ (n, err NetworkError.duplicate_count_overflow)
      | some copies ↦ one_copy n (schedule_copies copies envelope n.deliveries) copies
    ]
apply_action (some (FaultAction.delay ticks)) envelope n =
    one_copy n (schedule_after ticks envelope n.deliveries) 1
apply_action (some (FaultAction.reorder_at_tick tick)) envelope n =
    if ltb tick n.deliveries.now
    then (n, err (NetworkError.reorder_in_past n.deliveries.now tick))
    else (record n { held = n.held ++ (record { tick = tick; envelope = envelope } ∷ []) }, ok 0)

unfoldable pub accepted :
    ℕ
    → SimulatedNetwork × Result NetworkError ℕ
    → SimulatedNetwork × Result NetworkError AcceptedAttempt
accepted ordinal (n, err e) = (n, err e)
accepted ordinal (n, ok copies) = (n, ok (record { ordinal = ordinal; enqueued_copies = copies }))

-- `send` behind the ordinal.
unfoldable pub send_as :
    ℕ → Envelope → SimulatedNetwork → SimulatedNetwork × Result NetworkError AcceptedAttempt
unfolding is_blocked find_action apply_action accepted
send_as ordinal envelope n =
    if is_blocked n envelope
    then (n, ok (record { ordinal = ordinal; enqueued_copies = 0 }))
    else accepted ordinal (
        apply_action (find_action ordinal envelope n.rules).1 envelope
          (record n { rules = (find_action ordinal envelope n.rules).0 }))

unfoldable pub send :
    Envelope → SimulatedNetwork → SimulatedNetwork × Result NetworkError AcceptedAttempt
unfolding send_as
send envelope n = elim (checked_add u64_mod n.last_ordinal 1) [
  | none ↦ (n, err NetworkError.attempt_overflow)
  | some ordinal ↦ send_as ordinal envelope (record n { last_ordinal = ordinal })
]

-- The loop of `release_reordered_at`, until one fails.
unfoldable pub schedule_each :
    ℕ → List HeldDelivery → Driver Envelope → Driver Envelope × Result DriverError (Unit {0})
unfolding schedule_at
schedule_each tick [] d = (d, ok tt)
schedule_each tick (delivery ∷ releasing) d = elim (schedule_at tick delivery.envelope d).1 [
  | err e ↦ ((schedule_at tick delivery.envelope d).0, err e)
  | ok _ ↦ schedule_each tick releasing (schedule_at tick delivery.envelope d).0
]

unfoldable pub reversed : List HeldDelivery → List HeldDelivery
reversed [] = []
reversed (delivery ∷ held) = reversed held ++ (delivery ∷ [])

unfoldable pub release_reordered_at :
    ℕ → SimulatedNetwork → SimulatedNetwork × Result NetworkError ℕ
unfolding filter_by schedule_each reversed one_copy
release_reordered_at tick n =
    let releasing = filter_by (λ delivery. delivery.tick == tick) n.held in
    one_copy (record n { held = filter_by (λ delivery. not (delivery.tick == tick)) n.held })
      (schedule_each tick (reversed releasing) n.deliveries) (length releasing)

-- A round of `pop_delivery` behind `pop_next`, with what the next rounds do.
unfoldable pub pop_round :
    (SimulatedNetwork → SimulatedNetwork × Result NetworkError (Option (Scheduled Envelope)))
    → SimulatedNetwork
    → Driver Envelope × Result DriverError (Option (Scheduled Envelope))
    → SimulatedNetwork × Result NetworkError (Option (Scheduled Envelope))
unfolding is_blocked
pop_round next n (d, err e) = (record n { deliveries = d }, err (NetworkError.driver e))
pop_round next n (d, ok none) = (record n { deliveries = d }, ok none)
pop_round next n (d, ok (some delivery)) =
    if not (is_blocked n delivery.event)
    then (record n { deliveries = d }, ok (some delivery))
    else next (record n { deliveries = d })

-- The loop of `pop_delivery`. A round takes one entry from the queue, so one round more than the
-- queue is long ends it.
unfoldable pub pop_loop :
    ℕ → SimulatedNetwork → SimulatedNetwork × Result NetworkError (Option (Scheduled Envelope))
unfolding pop_next pop_round
pop_loop zero n = (n, ok none)
pop_loop (suc fuel) n = pop_round (pop_loop fuel) n (pop_next n.deliveries)

unfoldable pub pop_delivery :
    SimulatedNetwork → SimulatedNetwork × Result NetworkError (Option (Scheduled Envelope))
unfolding pop_loop
pop_delivery n = pop_loop (suc (length n.deliveries.queue)) n
