-- ===== src/Runtime/Tests.antt =====
-- The runtime at concrete inputs, and its theorems there, with a checksum that is constant.
use iron_consensus.Prelude.{
  ℕ, ◌+◌, ◌<◌, ◌≡◌, refl, subst, List, [], ◌∷◌, none, some, Result, ok, err, length, u32_mod,
  u64_mod, arith, false,
}
use iron_consensus.Core.Id.{nonzero_new, checked_successor}
use iron_consensus.Wal.Types.{RecordInput, SyncPolicy, TailRepair, new_input}
use iron_consensus.Wal.Io.{seek, write_all, sync_data, overwrite}
use iron_consensus.Wal.Format.{encode_frame}
use iron_consensus.Wal.Format.RoundTrip.{IsInput}
use iron_consensus.Wal.Reader.Recovery.{encode_log}
use iron_consensus.Wal.Reader.Recovery.Whole.{replay_log}
use iron_consensus.Wal.Writer.{
  FileWal, append, flush, report_flush, sync_current, mark_synced, must_sync, report_append,
  apply_policy, count_record, count_length, after_write, after_seek, write_frame, next_append_lsn,
}
use iron_consensus.Wal.Writer.Outcome.{Holds}
use iron_consensus.Protocol.{
  ProtocolError, TransportError, Action, ReplyToClient, Event, DurableRecord, Transition, Protocol,
  Transport, durable, stateless, durable_record, record_kind_of, from_ticks, is_retryable,
}
use iron_consensus.Runtime.{
  RuntimeError, Effects, NodeRuntime, new, transport_effects, sent, execute, execute_all, flushed,
  after_append, log_record, run_actions, commit_parts, commit_transition, handled, handle, recover,
}
use iron_consensus.Runtime.Logged.{input_of, file_wal, Logged, Reopens}
use iron_consensus.Runtime.Commit.{IsTyped, Handled, handle-Handled}
use iron_consensus.Runtime.Run.{run, Serves, run_refines}
use iron_consensus.Runtime.Recover.{Restores, recover_replays}

program : Unit {0}
unfolding nonzero_new checked_successor new_input seek write_all sync_data overwrite encode_frame
    append flush report_flush sync_current mark_synced must_sync report_append apply_policy
    count_record count_length after_write after_seek write_frame next_append_lsn durable stateless
    durable_record record_kind_of from_ticks is_retryable new transport_effects sent execute
    execute_all flushed after_append log_record run_actions commit_parts commit_transition handled
    handle encode_log
program = tt

abbrev constant : List ℕ → ℕ
constant bytes = 7

constant_bound : (bytes : List ℕ) → constant bytes < u32_mod
constant_bound bytes = omega arith

-- A protocol that logs and echoes each request, counting them; a timer asks for a reply at once.
abbrev logged : List ℕ → DurableRecord
logged command = record { record_kind = 1; schema_version = 1; payload = command }

abbrev echo : List ℕ → List ℕ → List Action
echo request_id command =
    Action.reply_to_client (record { request_id = request_id; outcome = command }) ∷ []

abbrev answer : Event → ℕ → ℕ × Result ProtocolError Transition
answer (Event.message envelope) n = (n, err (ProtocolError.rejected "peer" "no peers"))
answer (Event.client_request q) n = (
  n + 1,
  ok (record { durable_record = some (logged q.command); actions = echo q.request_id q.command }),
)
answer (Event.timer_fired t) n =
    (n, ok (record { durable_record = none; actions = echo t.timer_id [] }))

abbrev engine : Protocol ℕ
engine = record { recover = λ records n. (length records, ok tt); handle = answer }

-- Effects that keep the replies.
abbrev fx : Effects (List ReplyToClient)
fx = record {
  send = λ envelope x. (x, err TransportError.unavailable);
  schedule = λ timer x. (x, ok tt);
  cancel = λ timer x. (x, ok tt);
  reply = λ r x. (r ∷ x, ok tt);
}

logged-IsInput : (command : List ℕ) → IsInput (input_of (logged command))
logged-IsInput command = record {
  kind_nonzero = omega arith;
  kind_bound = omega arith;
  version_nonzero = omega arith;
  version_bound = omega arith;
}

engine-IsTyped : IsTyped constant engine fx
engine-IsTyped (Event.message envelope) n t r e h = ground arith
engine-IsTyped (Event.client_request q) n t r e h =
    subst (λ v. IsInput (input_of v)) (ground arith) (logged-IsInput q.command)
engine-IsTyped (Event.timer_fired x) n t r e h = ground arith

-- An empty log; the fourth call on the file from the second record on stores three bytes and fails.
abbrev wal : FileWal
wal = record {
  file = record {
    bytes = [];
    position = 0;
    faults = none ∷ none ∷ none ∷ none ∷ none ∷ some 3 ∷ [];
  };
  config = record {
    max_record_bytes = 100;
    sync_policy = SyncPolicy.always;
    tail_repair = TailRepair.truncate;
  };
  last_lsn = none;
  durable_through = none;
  valid_length = 0;
  unsynced_records = 0;
  poisoned = false;
  open_report = (replay_log [] 0 none).report;
}

wal-Holds : Holds constant wal []
unfolding program
wal-Holds = record { log = refl; loggable = tt; ends = refl; last = refl; healthy = refl }

abbrev runtime : NodeRuntime ℕ FileWal (List ReplyToClient)
runtime = record { protocol = 0; wal = wal; effects = [] }

abbrev request : ℕ → Event
request n =
    Event.client_request (record { request_id = n ∷ []; schema_version = 1; command = n ∷ n ∷ [] })

abbrev tick : Event
tick = Event.timer_fired (record { timer_id = 9 ∷ [] })

abbrev echoed : ℕ → ReplyToClient
echoed n = record { request_id = n ∷ []; outcome = n ∷ n ∷ [] }

first_request_test :
    (handle engine (file_wal constant) fx (request 5) runtime).0.effects ≡ echoed 5 ∷ []
unfolding program
first_request_test = refl

undurable_test :
    handle engine (file_wal constant) fx tick runtime
    ≡ (runtime, err RuntimeError.undurable_effects)
unfolding program
undurable_test = refl

-- The second record is cut off and the third refused: neither is replied to.
cut_off_test :
    (run constant engine fx (request 5 ∷ request 6 ∷ request 7 ∷ []) runtime).effects
    ≡ echoed 5 ∷ []
unfolding program
cut_off_test = refl

sends_only_test :
    (transport : Transport ℕ)
    → execute (transport_effects transport) (Action.cancel_timer []) 4 ≡ (4, ok tt)
unfolding program
sends_only_test transport = refl

handle-Handled_example :
    Handled constant engine fx
      (request 5)
      runtime
      []
      (handle engine (file_wal constant) fx (request 5) runtime)
handle-Handled_example =
    handle-Handled constant engine fx (request 5) runtime [] engine-IsTyped
      (Logged.intact wal-Holds)

abbrev events : List Event
events = request 5 ∷ tick ∷ request 6 ∷ request 7 ∷ []

events_sized : length (run constant engine fx events runtime).wal.file.bytes + u32_mod < u64_mod
unfolding program
events_sized = omega arith

run_refines_example :
    let rt' = run constant engine fx events runtime in
    (rs' : List RecordInput) × (Serves constant engine fx events 0 [] [] rt'.protocol rs'
        rt'.effects
      × Reopens constant constant_bound rt'.wal rs')
run_refines_example =
    run_refines constant engine fx constant_bound events runtime [] engine-IsTyped wal-Holds
      events_sized

-- A runtime over a file whose calls succeed, after a request.
abbrev quiet : NodeRuntime ℕ FileWal (List ReplyToClient)
quiet =
    run constant engine fx (request 5 ∷ [])
      (record runtime { wal = record wal { file = record wal.file { faults = [] } } })

quiet-Holds : Holds constant quiet.wal (input_of (logged (5 ∷ 5 ∷ [])) ∷ [])
unfolding program
quiet-Holds = record {
  log = refl;
  loggable =
      (record { input = logged-IsInput (5 ∷ 5 ∷ []); fits = omega arith; small = omega arith }, tt);
  ends = refl;
  last = refl;
  healthy = refl;
}

quiet_faults : quiet.wal.file.faults ≡ []
unfolding program
quiet_faults = refl

quiet_sized : length quiet.wal.file.bytes < u64_mod
unfolding program
quiet_sized = omega arith

recover_replays_example :
    Restores constant constant_bound engine fx quiet
      (input_of (logged (5 ∷ 5 ∷ [])) ∷ [])
      (recover engine (file_wal constant) fx quiet)
recover_replays_example =
    recover_replays constant constant_bound engine fx quiet (input_of (logged (5 ∷ 5 ∷ [])) ∷ [])
      quiet-Holds quiet_faults quiet_sized
