-- ===== src/Testkit/Tests.antt =====
-- Runs of the event queue and of the simulated network of crates/iron-testkit, and the theorems at
-- concrete inputs.
use iron_consensus.Prelude.{ℕ, arith, ◌≡◌, refl, false, List, [], ◌∷◌, none, some, ok}
use iron_consensus.Order.{nat_ord, list_ord, cmp_list}
use iron_consensus.BTreeMap
use iron_consensus.BTreeSet
use iron_consensus.Core.Envelope.Types.{Envelope}
use iron_consensus.Core.Envelope.{as_v1}
use iron_consensus.Testkit.Pairs.{cmp_pair, pair_ord}
use iron_consensus.Testkit.Driver.{
  new_driver, tick_add, schedule_at, schedule_after, pop_next, pop_from, popped, advance_to, retain,
  retain_entries,
}
use iron_consensus.Testkit.Ordered.{IsValid}
use iron_consensus.Testkit.Pops.{Op, trace, all_ok, IsOrdered, pops_increase}
use iron_consensus.Testkit.Network.{
  FaultAction, FaultRule, AcceptedAttempt, SimulatedNetwork, none_or_eq, matches, new_rule,
  try_match, find_action, new_network, add_fault, partition, crash, is_blocked, schedule_copies,
  one_copy, apply_action, accepted, send_as, send, pop_round, pop_loop, pop_delivery,
}
use iron_consensus.Testkit.Sends.{Sent, send-Sent}
use iron_consensus.Testkit.Deliver.{Pops, first_free, pop_delivery_first}

program : Unit {0}
unfolding list_ord cmp_list cmp_pair pair_ord BTreeMap.insert BTreeSet.insert BTreeSet.contains
    as_v1 new_driver tick_add schedule_at schedule_after pop_next pop_from popped advance_to retain
    retain_entries none_or_eq matches new_rule try_match find_action new_network add_fault partition
    crash is_blocked schedule_copies one_copy apply_action accepted send_as send pop_round pop_loop
    pop_delivery
program = tt

-- `queue_orders_by_tick_then_insertion`
abbrev calls : List (Op ℕ)
calls =
    Op.at 2 30
    ∷ Op.at 1 10
    ∷ Op.at 1 20
    ∷ Op.pops
    ∷ Op.later 0 25
    ∷ Op.pops
    ∷ Op.pops
    ∷ Op.pops
    ∷ []

calls_in_order : trace calls new_driver ≡ all_ok ((1, 1) ∷ (1, 2) ∷ (1, 3) ∷ (2, 0) ∷ [])
unfolding program
calls_in_order = refl

pops_increase_example :
    (keys : List (ℕ × ℕ)) × (trace calls new_driver ≡ all_ok keys) × IsOrdered none keys
pops_increase_example = pops_increase calls

abbrev message : ℕ → Envelope
message to = Envelope.v1 (record {
  cluster_id = 1 ∷ [];
  source = b'a' ∷ [];
  destination = to ∷ [];
  message_id = to ∷ [];
  correlation_id = none;
  protocol = b'r' ∷ [];
  message_type = b't' ∷ [];
  schema_version = 1;
  delivery_attempt = 0;
  payload = [];
})

-- Every message to `b` is sent three times.
abbrev thrice : FaultRule
thrice = record {
  predicate = record {
    ordinal = none;
    source = none;
    destination = some (b'b' ∷ []);
    protocol = none;
    message_type = none;
  };
  action = FaultAction.duplicate 2;
  consuming = false;
  consumed = false;
}

abbrev faulty : SimulatedNetwork
faulty = add_fault thrice new_network

abbrev loaded : SimulatedNetwork
loaded = (send (message b'b') faulty).0

abbrev three : AcceptedAttempt
three = record { ordinal = 1; enqueued_copies = 3 }

faulty-IsValid : IsValid none faulty.deliveries
unfolding program
faulty-IsValid = record { sorted = tt; entries = tt; reached = tt }

loaded_thrice : send (message b'b') faulty ≡ (loaded, ok three)
unfolding program
loaded_thrice = refl

send-Sent_example : Sent none (message b'b') faulty loaded three
send-Sent_example = send-Sent none (message b'b') faulty loaded three faulty-IsValid loaded_thrice

-- A message to `c` behind those to `b`, which crashes.
abbrev cut_off : SimulatedNetwork
cut_off = crash (b'b' ∷ []) (send (message b'c') loaded).0

skips_crashed :
    (pop_delivery cut_off).1
    ≡ ok (some (record { tick = 0; insertion_sequence = 3; event = message b'c' }))
unfolding program
skips_crashed = refl

cut_off-IsValid : IsValid none cut_off.deliveries
unfolding program
cut_off-IsValid = record {
  sorted = ((refl, (refl, (refl, tt))), ((refl, (refl, tt)), ((refl, tt), (tt, tt))));
  entries = (
    (omega arith, omega arith, tt),
    (
      (omega arith, omega arith, tt),
      ((omega arith, omega arith, tt), ((omega arith, omega arith, tt), tt)),
    ),
  );
  reached = tt;
}

pop_delivery_first_example :
    Pops (first_free (is_blocked cut_off) cut_off.deliveries.queue) (pop_delivery cut_off)
pop_delivery_first_example = pop_delivery_first none cut_off cut_off-IsValid
