-- ===== src/Runtime/Commit.antt =====
-- `handle` of crates/iron-runtime/src/lib.rs over the writer of crates/iron-wal/src/writer.rs: no
-- effect is executed before the transition's record is durable.
use iron_consensus.Prelude.{
  ℕ, ◌+◌, ◌≡◌, refl, sym, ap, subst, true, List, [], ◌∷◌, ◌++◌, Option, none, some, Result, ok, err,
  length,
}
use iron_consensus.Wal.Types.{RecordInput, WalError}
use iron_consensus.Wal.Format.RoundTrip.{IsInput}
use iron_consensus.Wal.Writer.{FileWal}
use iron_consensus.Wal.Writer.Outcome.{Holds}
use iron_consensus.Protocol.{ProtocolError, Action, Event, DurableRecord, Transition, Protocol}
use iron_consensus.Runtime.{
  RuntimeError, Effects, NodeRuntime, execute_all, run_actions, commit_parts, commit_transition,
  handled, handle,
}
use iron_consensus.Runtime.Logged.{
  input_of, file_wal, Logged, Recorded, log_record-Recorded, log_record-poisoned,
}

module _ {ℓ κ} {P : Type ℓ} {X : Type κ} (crc32c : List ℕ → ℕ) (engine : Protocol P)
    (fx : Effects X) where
  -- The records of the protocol are of their types: kind and schema version are nonzero u16.
  abbrev pub IsTyped : Type ℓ
  IsTyped =
      (event : Event) (p : P) (t : Transition) (r : DurableRecord)
      → (engine.handle event p).1 ≡ ok t
      → t.durable_record ≡ some r
      → IsInput (input_of r)

  -- Why an event has no effects, from what the protocol returned and the log before and after it,
  -- and the result of the call.
  pub data Unserved (out : Result ProtocolError Transition) (w w' : FileWal) (rs : List RecordInput)
      (result : Result RuntimeError (Unit {0})) : Type 0 where
    rejected :
        (e : ProtocolError)
        → out ≡ err e
        → w' ≡ w
        → result ≡ err (RuntimeError.protocol e)
        → Unserved out w w' rs result
    idle :
        out ≡ ok (record { durable_record = none; actions = [] })
        → w' ≡ w
        → result ≡ ok tt
        → Unserved out w w' rs result
    undurable :
        (action : Action) (actions : List Action)
        → out ≡ ok (record { durable_record = none; actions = action ∷ actions })
        → w' ≡ w
        → result ≡ err RuntimeError.undurable_effects
        → Unserved out w w' rs result
    poisoned :
        (r : DurableRecord) (actions : List Action)
        → out ≡ ok (record { durable_record = some r; actions = actions })
        → w.poisoned ≡ true
        → w' ≡ w
        → result ≡ err (RuntimeError.wal WalError.poisoned)
        → Unserved out w w' rs result
    unlogged :
        (r : DurableRecord) (actions : List Action) (e : WalError)
        → out ≡ ok (record { durable_record = some r; actions = actions })
        → Holds crc32c w rs
        → Logged crc32c w' rs
        → result ≡ err (RuntimeError.wal e)
        → Unserved out w w' rs result

  -- What became of an event: nothing was executed, for one of these reasons; or the transition has a
  -- record, that is in the log and durable, and its actions were executed up to the first error.
  pub data Handled (event : Event) (rt : NodeRuntime P FileWal X) (rs : List RecordInput)
      : NodeRuntime P FileWal X × Result RuntimeError (Unit {0}) → Type (ℓ ⊔ κ) where
    kept :
        (rt' : NodeRuntime P FileWal X) (result : Result RuntimeError (Unit {0}))
        → rt'.protocol ≡ (engine.handle event rt.protocol).0
        → rt'.effects ≡ rt.effects
        → Unserved (engine.handle event rt.protocol).1 rt.wal rt'.wal rs result
        → Handled event rt rs (rt', result)
    committed :
        (rt' : NodeRuntime P FileWal X) (r : DurableRecord) (actions : List Action)
        → rt'.protocol ≡ (engine.handle event rt.protocol).0
        → (engine.handle event rt.protocol).1
          ≡ ok (record { durable_record = some r; actions = actions })
        → Holds crc32c rt'.wal (rs ++ (input_of r ∷ []))
        → rt'.wal.durable_through ≡ some (length rs + 1)
        → rt'.effects ≡ (execute_all fx actions rt.effects).0
        → Handled event rt rs (rt', (execute_all fx actions rt.effects).1)

  -- A log that held the records then holds them still, as far as `Logged` goes.
  pub Unserved-Logged :
      (out : Result ProtocolError Transition) (w w' : FileWal) (rs : List RecordInput)
      (result : Result RuntimeError (Unit {0}))
      → Logged crc32c w rs
      → Unserved out w w' rs result
      → Logged crc32c w' rs
  Unserved-Logged out w w' rs result h (rejected e o same x) =
      subst (λ v. Logged crc32c v rs) (sym same) h
  Unserved-Logged out w w' rs result h (idle o same x) =
      subst (λ v. Logged crc32c v rs) (sym same) h
  Unserved-Logged out w w' rs result h (undurable a actions o same x) =
      subst (λ v. Logged crc32c v rs) (sym same) h
  Unserved-Logged out w w' rs result h (poisoned r actions o p same x) =
      subst (λ v. Logged crc32c v rs) (sym same) h
  Unserved-Logged out w w' rs result h (unlogged r actions e o before after x) = after

  -- A transition's record is taken, or the runtime stays as it is but for its log.
  module _ (event : Event) (rt : NodeRuntime P FileWal X) (rs : List RecordInput) (p : P)
      (same : p ≡ (engine.handle event rt.protocol).0) where
    abbrev rt1 : NodeRuntime P FileWal X
    rt1 = record rt { protocol = p }

    run_actions-Handled :
        (r : DurableRecord) (actions : List Action) (o : FileWal × Result RuntimeError (Unit {0}))
        → (engine.handle event rt.protocol).1
          ≡ ok (record { durable_record = some r; actions = actions })
        → Holds crc32c rt.wal rs
        → Recorded crc32c rs (input_of r) o
        → Handled event rt rs (run_actions engine (file_wal crc32c) fx actions rt1 o)
    unfolding run_actions
    run_actions-Handled r actions o e before (Recorded.stored w h frontier) =
        committed (record rt1 { wal = w; effects = (execute_all fx actions rt.effects).0 }) r
          actions same e h frontier refl
    run_actions-Handled r actions o e before (Recorded.failed w x h) =
        kept (record rt1 { wal = w }) _ same refl (unlogged r actions x e before h refl)

    commit_poisoned :
        (r : DurableRecord) (actions : List Action)
        → (engine.handle event rt.protocol).1
          ≡ ok (record { durable_record = some r; actions = actions })
        → IsInput (input_of r)
        → rt.wal.poisoned ≡ true
        → Handled event rt rs (commit_parts engine (file_wal crc32c) fx (some r) actions rt1)
    unfolding commit_parts run_actions
    commit_poisoned r actions e i broken =
        subst (λ o. Handled event rt rs (run_actions engine (file_wal crc32c) fx actions rt1 o))
          (sym (log_record-poisoned crc32c rt.wal r i broken))
          (kept rt1 _ same refl (poisoned r actions e broken refl refl))

    commit_parts-Handled :
        (record? : Option DurableRecord) (actions : List Action)
        → (engine.handle event rt.protocol).1
          ≡ ok (record { durable_record = record?; actions = actions })
        → ((r : DurableRecord) → record? ≡ some r → IsInput (input_of r))
        → Logged crc32c rt.wal rs
        → Handled event rt rs (commit_parts engine (file_wal crc32c) fx record? actions rt1)
    unfolding commit_parts
    commit_parts-Handled none [] e typed h = kept rt1 (ok tt) same refl (idle e refl refl)
    commit_parts-Handled none (a ∷ actions) e typed h =
        kept rt1 _ same refl (undurable a actions e refl refl)
    commit_parts-Handled (some r) actions e typed (Logged.intact h) =
        run_actions-Handled r actions _ e h
          (log_record-Recorded crc32c rt.wal rs r h (typed r refl))
    commit_parts-Handled (some r) actions e typed (Logged.broken w0 r0 h b) =
        commit_poisoned r actions e (typed r refl) b.poisoned
    commit_parts-Handled (some r) actions e typed (Logged.unflushed w0 r0 h bytes broken config) =
        commit_poisoned r actions e (typed r refl) broken

  handled-Handled :
      (event : Event) (rt : NodeRuntime P FileWal X) (rs : List RecordInput)
      (o : P × Result ProtocolError Transition)
      → engine.handle event rt.protocol ≡ o
      → IsTyped
      → Logged crc32c rt.wal rs
      → Handled event rt rs (handled engine (file_wal crc32c) fx rt o)
  unfolding handled commit_transition
  handled-Handled event rt rs (p, ok t) e typed h =
      commit_parts-Handled event rt rs p (ap (λ o. o.0) (sym e)) t.durable_record t.actions
        (ap (λ o. o.1) e) (λ r. typed event rt.protocol t r (ap (λ o. o.1) e)) h
  handled-Handled event rt rs (p, err x) e typed h =
      kept (record rt { protocol = p }) _ (ap (λ o. o.0) (sym e)) refl
        (rejected x (ap (λ o. o.1) e) refl refl)

  -- With a protocol whose records are well typed, and a log that holds some records or is poisoned
  -- behind them, and whatever calls on the file fail, an event leaves the effects as they were, or
  -- its record is in the log behind those that it held, the durability frontier is at it, and
  -- effects and result are those of its actions in order, up to the first that fails. In the first
  -- case the result is the error of the protocol, of actions without a record or of the log, or
  -- that of a transition with neither record nor actions, which succeeds; and the log is unchanged,
  -- or its error came from a writer that held the records and now holds them still, or is poisoned
  -- behind them and at most one more record, whole or in part.
  pub handle-Handled :
      (event : Event) (rt : NodeRuntime P FileWal X) (rs : List RecordInput)
      → IsTyped
      → Logged crc32c rt.wal rs
      → Handled event rt rs (handle engine (file_wal crc32c) fx event rt)
  unfolding handle
  handle-Handled event rt rs typed h =
      handled-Handled event rt rs (engine.handle event rt.protocol) refl typed h
