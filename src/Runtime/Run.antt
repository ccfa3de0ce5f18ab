-- ===== src/Runtime/Run.antt =====
-- A runtime of crates/iron-runtime/src/lib.rs that goes on with later events whatever became of the
-- earlier ones, and its file after a crash.
use iron_consensus.Prelude.{
  ℕ, ◌+◌, ◌<◌, ◌≡◌, subst, List, [], ◌∷◌, ◌++◌, some, Result, ok, length, u32_mod, u64_mod,
}
use iron_consensus.Wal.Types.{RecordInput}
use iron_consensus.Wal.Writer.{FileWal}
use iron_consensus.Wal.Writer.Outcome.{Holds}
use iron_consensus.Protocol.{Action, Event, DurableRecord, Protocol}
use iron_consensus.Runtime.{RuntimeError, Effects, NodeRuntime, execute_all, handle}
use iron_consensus.Runtime.Logged.{input_of, file_wal, Logged, Reopens, Logged-Reopens}
use iron_consensus.Runtime.Commit.{IsTyped, Handled, Unserved-Logged, handle-Handled}

module _ {ℓ κ} {P : Type ℓ} {X : Type κ} (crc32c : List ℕ → ℕ) (engine : Protocol P)
    (fx : Effects X) where
  -- The runtime after the events, one after the other.
  abbrev pub run : List Event → NodeRuntime P FileWal X → NodeRuntime P FileWal X
  run [] rt = rt
  run (event ∷ events) rt = run events (handle engine (file_wal crc32c) fx event rt).0

  -- What the runtime promises: an event is refused, or its record is added to the log and its
  -- actions are executed, at once. The state is the protocol's, the records and the effects'.
  pub data Serves
      : List Event → P → List RecordInput → X → P → List RecordInput → X → Type (ℓ ⊔ κ) where
    idle : (p : P) (rs : List RecordInput) (x : X) → Serves [] p rs x p rs x
    refuses :
        (event : Event) (events : List Event) (p p' : P) (rs rs' : List RecordInput) (x x' : X)
        → Serves events (engine.handle event p).0 rs x p' rs' x'
        → Serves (event ∷ events) p rs x p' rs' x'
    commits :
        (event : Event) (events : List Event) (p p' : P) (rs rs' : List RecordInput) (x x' : X)
        (r : DurableRecord) (actions : List Action)
        → (engine.handle event p).1 ≡ ok (record { durable_record = some r; actions = actions })
        → Serves events
            (engine.handle event p).0
            (rs ++ (input_of r ∷ []))
            (execute_all fx actions x).0
            p'
            rs'
            x'
        → Serves (event ∷ events) p rs x p' rs' x'

  -- The promise for the runtime's states, with the records that it ends with.
  abbrev Served :
      List Event
      → NodeRuntime P FileWal X
      → List RecordInput
      → NodeRuntime P FileWal X
      → Type (ℓ ⊔ κ)
  Served events rt rs rt' =
      (rs' : List RecordInput) × (Serves events rt.protocol rs rt.effects rt'.protocol rs'
          rt'.effects
        × Logged crc32c rt'.wal rs')

  step-Served :
      (event : Event) (events : List Event) (rt : NodeRuntime P FileWal X) (rs : List RecordInput)
      (o : NodeRuntime P FileWal X × Result RuntimeError (Unit {0}))
      → Handled crc32c engine fx event rt rs o
      → Logged crc32c rt.wal rs
      → ((rs1 : List RecordInput)
          → Logged crc32c (o.0).wal rs1
          → Served events (o.0) rs1 (run events o.0))
      → Served (event ∷ events) rt rs (run events o.0)
  step-Served event events rt rs o (Handled.kept rt' result p x h) held next =
      let (rs', (promised, logged)) = next rs (Unserved-Logged crc32c engine fx _ _ _ _ _ held h) in
      let end = run events rt' in
      (
        rs',
        (
          refuses event events _ _ _ _ _ _ (
              subst (λ v. Serves events v rs rt.effects end.protocol rs' end.effects) p
                (subst (λ v. Serves events rt'.protocol rs v end.protocol rs' end.effects) x
                  promised)),
          logged,
        ),
      )
  step-Served event events rt rs o (Handled.committed rt' r actions p e h frontier x) held next =
      let rs1 = rs ++ (input_of r ∷ []) in
      let (rs', (promised, logged)) = next rs1 (Logged.intact h) in
      let end = run events rt' in
      let after = (execute_all fx actions rt.effects).0 in
      (
        rs',
        (
          commits event events _ _ _ _ _ _ r actions e (
              subst (λ v. Serves events v rs1 after end.protocol rs' end.effects) p
                (subst (λ v. Serves events rt'.protocol rs1 v end.protocol rs' end.effects) x
                  promised)),
          logged,
        ),
      )

  run-Served :
      (events : List Event) (rt : NodeRuntime P FileWal X) (rs : List RecordInput)
      → IsTyped crc32c engine fx
      → Logged crc32c rt.wal rs
      → Served events rt rs (run events rt)
  run-Served [] rt rs typed h = (rs, (idle _ _ _, h))
  run-Served (event ∷ events) rt rs typed h =
      step-Served event events rt rs _ (handle-Handled crc32c engine fx event rt rs typed h) h
        (λ rs1 h1. run-Served events _ rs1 typed h1)

  -- Over any events, and whatever calls on the file fail, a runtime whose log holds some records
  -- does what a machine does that refuses an event or adds its record to the log and executes its
  -- actions at once; and when the file is opened again, with truncation of a torn tail and short of
  -- 2 ^ 64 bytes by 4 GiB, the records of that machine are found, with at most one behind them. So
  -- every effect that was executed is of a transition that recovery finds.
  pub run_refines :
      (crc32c_bound : (bs : List ℕ) → crc32c bs < u32_mod) (events : List Event)
      (rt : NodeRuntime P FileWal X) (rs : List RecordInput)
      → IsTyped crc32c engine fx
      → Holds crc32c rt.wal rs
      → let rt' = run events rt in
        length rt'.wal.file.bytes + u32_mod < u64_mod
        → (rs' : List RecordInput) × (Serves events rt.protocol rs rt.effects rt'.protocol rs'
              rt'.effects
            × Reopens crc32c crc32c_bound rt'.wal rs')
  run_refines crc32c_bound events rt rs typed h sized =
      let (rs', (promised, logged)) = run-Served events rt rs typed (Logged.intact h) in
      (rs', (promised, Logged-Reopens crc32c crc32c_bound _ rs' logged sized))
