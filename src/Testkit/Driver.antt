-- ===== src/Testkit/Driver.antt =====
-- crates/iron-testkit/src/clock.rs and driver.rs: the logical clock and the event queue. The seeded
-- scenario of driver.rs stands on the rand crates and is left out.
use iron_consensus.Prelude.{
  ℕ, Bool, List, [], ◌∷◌, Option, none, some, Result, ok, err, if◌then◌else◌, ltb, checked_add,
  u64_mod,
}
use iron_consensus.Order.{nat_ord}
use iron_consensus.BTreeMap
use iron_consensus.Testkit.Pairs.{pair_ord}

-- `ClockError`; `went_backwards` has current and target.
pub data ClockError : Type 0 where
  overflow : ClockError
  went_backwards : ℕ → ℕ → ClockError

-- `LogicalTick::checked_add`
unfoldable pub tick_add : ℕ → ℕ → Result ClockError ℕ
tick_add tick ticks = elim (checked_add u64_mod tick ticks) [
  | some sum ↦ ok sum
  | none ↦ err ClockError.overflow
]

-- `DeterministicClock::advance_by`, on the clock's only field.
unfoldable pub advance_by : ℕ → ℕ → ℕ × Result ClockError ℕ
unfolding tick_add
advance_by ticks now = elim (tick_add now ticks) [
  | ok later ↦ (later, ok later)
  | err e ↦ (now, err e)
]

-- `DeterministicClock::advance_to`
unfoldable pub advance_to : ℕ → ℕ → ℕ × Result ClockError (Unit {0})
advance_to target now =
    if ltb target now then (now, err (ClockError.went_backwards now target)) else (target, ok tt)

-- `DriverError`; `past` has now and the requested tick.
pub data DriverError : Type 0 where
  sequence_overflow : DriverError
  past : ℕ → ℕ → DriverError
  clock : ClockError → DriverError

pub record Scheduled (T : Type 0) : Type 0 where
  pub tick : ℕ
  pub insertion_sequence : ℕ
  pub event : T

pub record Driver (T : Type 0) : Type 0 where
  pub now : ℕ
  pub next_sequence : ℕ
  pub queue : List ((ℕ × ℕ) × T)

module _ {T : Type 0} where
  -- `Driver::new`
  unfoldable pub new_driver : Driver T
  new_driver = record { now = 0; next_sequence = 0; queue = [] }

  unfoldable pub schedule_at : ℕ → T → Driver T → Driver T × Result DriverError ℕ
  schedule_at tick event d =
      if ltb tick d.now
      then (d, err (DriverError.past d.now tick))
      else elim (checked_add u64_mod d.next_sequence 1) [
        | none ↦ (d, err DriverError.sequence_overflow)
        | some next ↦ (
          record d {
            next_sequence = next;
            queue = BTreeMap.insert (tick, d.next_sequence) event d.queue;
          },
          ok d.next_sequence,
        )
      ]

  unfoldable pub schedule_after : ℕ → T → Driver T → Driver T × Result DriverError ℕ
  unfolding tick_add schedule_at
  schedule_after delay event d = elim (tick_add d.now delay) [
    | err e ↦ (d, err (DriverError.clock e))
    | ok tick ↦ schedule_at tick event d
  ]

  -- `pop_next` behind `pop_first`.
  unfoldable pub popped :
      ℕ
      → ℕ
      → T
      → Driver T
      → ℕ × Result ClockError (Unit {0})
      → Driver T × Result DriverError (Option (Scheduled T))
  popped tick sequence event d (now, err e) = (record d { now = now }, err (DriverError.clock e))
  popped tick sequence event d (now, ok _) = (
    record d { now = now },
    ok (some (record { tick = tick; insertion_sequence = sequence; event = event })),
  )

  unfoldable pub pop_from :
      List ((ℕ × ℕ) × T) → Driver T → Driver T × Result DriverError (Option (Scheduled T))
  unfolding popped advance_to
  pop_from [] d = (d, ok none)
  pop_from (((tick, sequence), event) ∷ rest) d =
      popped tick sequence event (record d { queue = rest }) (advance_to tick d.now)

  -- `pop_next`
  unfoldable pub pop_next : Driver T → Driver T × Result DriverError (Option (Scheduled T))
  unfolding pop_from
  pop_next d = pop_from d.queue d

  -- `retain` of a map.
  unfoldable pub retain_entries : (T → Bool) → List ((ℕ × ℕ) × T) → List ((ℕ × ℕ) × T)
  retain_entries keep [] = []
  retain_entries keep ((key, event) ∷ queue) =
      let rest = retain_entries keep queue in if keep event then (key, event) ∷ rest else rest

  unfoldable pub retain : (T → Bool) → Driver T → Driver T
  unfolding retain_entries
  retain keep d = record d { queue = retain_entries keep d.queue }
