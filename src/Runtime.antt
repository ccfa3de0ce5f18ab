-- ===== src/Runtime.antt =====
-- crates/iron-runtime/src/lib.rs: the runtime around a protocol, its log and its effects. The
-- protocol, the log and the effects are parameters, as they are in the source; their asynchronous
-- calls end before the next one begins.
pub mod Logged
pub mod Commit
pub mod Run
pub mod Recover
mod Tests
use iron_consensus.Prelude.{
  ℕ, List, [], ◌∷◌, Option, none, some, Bool, true, false, Result, ok, err, ◌>>=◌,
}
use Prim.Native.String.{String}
use iron_consensus.Wal.Types.{WalError, WalRecord, RecordInput, Replay, AppendOutcome, new_input}
use iron_consensus.Core.Envelope.Types.{Envelope}
use iron_consensus.Protocol.{
  ProtocolError, TransportError, Action, ScheduleTimer, ReplyToClient, Event, RecoveredRecord,
  DurableRecord, Transition, Protocol, Transport, recovered_record,
}

pub data RuntimeError : Type 0 where
  protocol : ProtocolError → RuntimeError
  wal : WalError → RuntimeError
  transport : TransportError → RuntimeError
  effect : String → RuntimeError
  undurable_effects : RuntimeError

-- The trait `Effects`, with its state.
pub record Effects {ℓ} (X : Type ℓ) : Type ℓ where
  pub send : Envelope → X → X × Result TransportError (Unit {0})
  pub schedule : ScheduleTimer → X → X × Result RuntimeError (Unit {0})
  pub cancel : List ℕ → X → X × Result RuntimeError (Unit {0})
  pub reply : ReplyToClient → X → X × Result RuntimeError (Unit {0})

-- The trait `WriteAheadLog` of crates/iron-wal/src/writer.rs.
pub record WriteAheadLog {ℓ} (W : Type ℓ) : Type ℓ where
  pub append : RecordInput → W → W × Result WalError AppendOutcome
  pub flush : W → W × Result WalError (Option ℕ)
  pub replay : W → W × Result WalError Replay

pub record NodeRuntime {ℓ κ μ} (P : Type ℓ) (W : Type κ) (X : Type μ) : Type (ℓ ⊔ κ ⊔ μ) where
  pub protocol : P
  pub wal : W
  pub effects : X

unfoldable pub new {ℓ κ μ} : {P : Type ℓ} {W : Type κ} {X : Type μ} → P → W → X → NodeRuntime P W X
new protocol' wal' effects = record { protocol = protocol'; wal = wal'; effects = effects }

-- `TransportEffects`: sends go to the transport, and the other effects do nothing.
unfoldable pub transport_effects {ℓ} : {T : Type ℓ} → Transport T → Effects T
transport_effects transport' = record {
  send = transport'.send;
  schedule = λ timer t. (t, ok tt);
  cancel = λ timer t. (t, ok tt);
  reply = λ answer t. (t, ok tt);
}

-- `?` on a transport's result.
unfoldable pub sent {ℓ} :
    {X : Type ℓ} → X × Result TransportError (Unit {0}) → X × Result RuntimeError (Unit {0})
sent (x, ok done) = (x, ok tt)
sent (x, err e) = (x, err (RuntimeError.transport e))

module _ {ℓ} {X : Type ℓ} (fx : Effects X) where
  -- The arms of the loop in `commit_transition`.
  unfoldable pub execute : Action → X → X × Result RuntimeError (Unit {0})
  unfolding sent
  execute (Action.send envelope) x = sent (fx.send envelope x)
  execute (Action.schedule_timer timer) x = fx.schedule timer x
  execute (Action.cancel_timer timer) x = fx.cancel timer x
  execute (Action.reply_to_client answer) x = fx.reply answer x

  -- The loop of `commit_transition`; an error ends it.
  unfoldable pub execute_all : List Action → X → X × Result RuntimeError (Unit {0})
  unfolding execute
  execute_all [] x = (x, ok tt)
  execute_all (action ∷ actions) x =
      let (x', r) = execute action x in
      elim r [ ok done ↦ execute_all actions x' | err e ↦ (x', err e) ]

-- `?` on a flush.
unfoldable pub flushed {ℓ} :
    {W : Type ℓ} → W × Result WalError (Option ℕ) → W × Result RuntimeError (Unit {0})
flushed (w, ok durable) = (w, ok tt)
flushed (w, err e) = (w, err (RuntimeError.wal e))

module _ {ℓ} {W : Type ℓ} (log : WriteAheadLog W) where
  -- The append and the flush of a record, with what the append returned.
  unfoldable pub after_append :
      W × Result WalError AppendOutcome → W × Result RuntimeError (Unit {0})
  unfolding flushed
  after_append (w, ok outcome) = flushed (log.flush w)
  after_append (w, err e) = (w, err (RuntimeError.wal e))

  unfoldable pub log_record : DurableRecord → W → W × Result RuntimeError (Unit {0})
  unfolding after_append
  log_record r w = elim (new_input r.record_kind r.schema_version r.payload) [
    | err e ↦ (w, err (RuntimeError.wal e))
    | ok input ↦ after_append (log.append input w)
  ]

-- The records that `recover` makes of those replayed, up to the first that is refused.
unfoldable pub recovered_records : List WalRecord → Result ProtocolError (List RecoveredRecord)
recovered_records [] = ok []
recovered_records (r ∷ rs) = do
  first ← recovered_record r.lsn r.record_kind r.schema_version r.payload
  rest ← recovered_records rs
  ok (first ∷ rest)

module _ {ℓ κ μ} {P : Type ℓ} {W : Type κ} {X : Type μ} (engine : Protocol P)
    (log : WriteAheadLog W) (fx : Effects X) where
  -- `commit_transition` from its loop on, with how the log took the record.
  unfoldable pub run_actions :
      List Action
      → NodeRuntime P W X
      → W × Result RuntimeError (Unit {0})
      → NodeRuntime P W X × Result RuntimeError (Unit {0})
  unfolding execute_all
  run_actions actions rt (w, ok done) =
      let (x, r) = execute_all fx actions rt.effects in (record rt { wal = w; effects = x }, r)
  run_actions actions rt (w, err e) = (record rt { wal = w }, err e)

  unfoldable pub commit_parts :
      Option DurableRecord
      → List Action
      → NodeRuntime P W X
      → NodeRuntime P W X × Result RuntimeError (Unit {0})
  unfolding log_record run_actions
  commit_parts none [] rt = (rt, ok tt)
  commit_parts none (action ∷ actions) rt = (rt, err RuntimeError.undurable_effects)
  commit_parts (some r) actions rt = run_actions actions rt (log_record log r rt.wal)

  unfoldable pub commit_transition :
      Transition → NodeRuntime P W X → NodeRuntime P W X × Result RuntimeError (Unit {0})
  unfolding commit_parts
  commit_transition transition rt = commit_parts transition.durable_record transition.actions rt

  -- `handle`, with what the protocol returned.
  unfoldable pub handled :
      NodeRuntime P W X
      → P × Result ProtocolError Transition
      → NodeRuntime P W X × Result RuntimeError (Unit {0})
  unfolding commit_transition
  handled rt (p, ok transition) = commit_transition transition (record rt { protocol = p })
  handled rt (p, err e) = (record rt { protocol = p }, err (RuntimeError.protocol e))

  unfoldable pub handle :
      Event → NodeRuntime P W X → NodeRuntime P W X × Result RuntimeError (Unit {0})
  unfolding handled
  handle event rt = handled rt (engine.handle event rt.protocol)

  -- `recover`, with what the protocol returned.
  unfoldable pub restored :
      NodeRuntime P W X
      → P × Result ProtocolError (Unit {0})
      → NodeRuntime P W X × Result RuntimeError (Unit {0})
  restored rt (p, ok done) = (record rt { protocol = p }, ok tt)
  restored rt (p, err e) = (record rt { protocol = p }, err (RuntimeError.protocol e))

  -- `recover`, with the records for the protocol.
  unfoldable pub give_records :
      NodeRuntime P W X
      → Result ProtocolError (List RecoveredRecord)
      → NodeRuntime P W X × Result RuntimeError (Unit {0})
  unfolding restored
  give_records rt (ok records) = restored rt (engine.recover records rt.protocol)
  give_records rt (err e) = (rt, err (RuntimeError.protocol e))

  -- `recover`, with what the log replayed.
  unfoldable pub replayed :
      NodeRuntime P W X
      → W × Result WalError Replay
      → NodeRuntime P W X × Result RuntimeError (Unit {0})
  unfolding give_records recovered_records
  replayed rt (w, ok found) = give_records (record rt { wal = w }) (recovered_records found.records)
  replayed rt (w, err e) = (record rt { wal = w }, err (RuntimeError.wal e))

  unfoldable pub recover : NodeRuntime P W X → NodeRuntime P W X × Result RuntimeError (Unit {0})
  unfolding replayed
  recover rt = replayed rt (log.replay rt.wal)
