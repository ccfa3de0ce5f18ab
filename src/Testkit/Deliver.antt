-- ===== src/Testkit/Deliver.antt =====
-- `pop_delivery` of crates/iron-testkit/src/network.rs against a definition without a loop.
use iron_consensus.Prelude.{
  ℕ, zero, suc, ◌<◌, ◌≡◌, refl, subst, sym, ap, ◌∙◌, Bool, List, [], ◌∷◌, Option, none, some,
  Result, ok, arith, if◌then◌else◌, Bool-cases, inl, inr, length,
}
use iron_consensus.Core.Envelope.Types.{Envelope}
use iron_consensus.Testkit.Driver.{Scheduled}
use iron_consensus.Testkit.Ordered.{IsValid}
use iron_consensus.Testkit.Pops.{behind, pop_empty, pop_full}
use iron_consensus.Testkit.Network.{
  SimulatedNetwork, NetworkError, is_blocked, pop_round, pop_loop, pop_delivery,
}

-- The first event that is not blocked, and the queue behind it.
abbrev pub first_free :
    (Envelope → Bool)
    → List ((ℕ × ℕ) × Envelope)
    → Option (Scheduled Envelope) × List ((ℕ × ℕ) × Envelope)
first_free blocked [] = (none, [])
first_free blocked ((key, envelope) ∷ queue) =
    if blocked envelope
    then first_free blocked queue
    else (some (record { tick = key.0; insertion_sequence = key.1; event = envelope }), queue)

-- A network's result and the queue that it leaves.
abbrev pub Pops :
    Option (Scheduled Envelope) × List ((ℕ × ℕ) × Envelope)
    → SimulatedNetwork × Result NetworkError (Option (Scheduled Envelope))
    → Type 0
Pops spec r = (r.1 ≡ ok spec.0) × (r.0.deliveries.queue ≡ spec.1)

pop_loop-Pops :
    (last : Option (ℕ × ℕ)) (fuel : ℕ) (n : SimulatedNetwork) (queue : List ((ℕ × ℕ) × Envelope))
    → n.deliveries.queue ≡ queue
    → IsValid last n.deliveries
    → length queue < fuel
    → Pops (first_free (is_blocked n) queue) (pop_loop fuel n)
unfolding pop_loop pop_round is_blocked
pop_loop-Pops last zero n queue q v h = absurd (omega arith)
pop_loop-Pops last (suc fuel) n [] q v h = rw (pop_loop, pop_empty n.deliveries q) (refl, q)
pop_loop-Pops last (suc fuel) n ((key, envelope) ∷ queue) q v h =
    let (e, follows, valid) = pop_full last n.deliveries key envelope queue q v in
    let n' : SimulatedNetwork = record n { deliveries = behind key queue n.deliveries } in
    elim (Bool-cases (is_blocked n envelope)) [
      | inl blocked ↦
          let opened : pop_loop (suc fuel) n ≡ pop_loop fuel n' =
            ap (pop_round (pop_loop fuel) n) e ∙ rw (pop_round, blocked) refl in
          let spec : first_free (is_blocked n) ((key, envelope) ∷ queue)
              ≡ first_free (is_blocked n) queue =
            rw (blocked) refl in
          subst (Pops (first_free (is_blocked n) ((key, envelope) ∷ queue))) (sym opened) (
            subst (λ s. Pops s (pop_loop fuel n')) (sym spec)
              (pop_loop-Pops (some key) fuel n' queue refl valid (omega arith)))
      | inr free ↦
          let found : Option (Scheduled Envelope) =
            some (record { tick = key.0; insertion_sequence = key.1; event = envelope }) in
          let opened : pop_loop (suc fuel) n ≡ (n', ok found) =
            ap (pop_round (pop_loop fuel) n) e ∙ rw (pop_round, free) refl in
          let spec : first_free (is_blocked n) ((key, envelope) ∷ queue) ≡ (found, queue) =
            rw (free) refl in
          subst (Pops (first_free (is_blocked n) ((key, envelope) ∷ queue))) (sym opened)
            (subst (λ s. Pops s (n', ok found)) (sym spec) (refl, refl))
    ]

-- If the driver's invariant holds, `pop_delivery` ends without an error, within as many rounds as the
-- queue is long and one more, and returns the first event of the queue whose nodes are connected, or
-- none if there is none; it leaves the queue behind that event, without the blocked ones before it.
pub pop_delivery_first :
    (last : Option (ℕ × ℕ)) (n : SimulatedNetwork)
    → IsValid last n.deliveries
    → Pops (first_free (is_blocked n) n.deliveries.queue) (pop_delivery n)
unfolding pop_delivery
pop_delivery_first last n v =
    pop_loop-Pops last (suc (length n.deliveries.queue)) n n.deliveries.queue refl v (omega arith)
