-- ===== src/Coordinator.antt =====
-- services/realtime-audio/runtime/mode.go: the mode coordinator of one runtime. A method takes the
-- coordinator and returns the next one; the mutex makes each method one step. What the coordinator
-- asks of its surroundings (context, clock, event sink) is an argument of the step, and `accepted`
-- lists the events that the sink has acknowledged, oldest first.
pub mod Faithful
pub mod Events
pub mod Tests
pub mod Fence
pub mod Commit
pub mod Decision
pub mod Window
mod Ring
pub mod Replay
pub mod Retention
pub mod Remembered
pub mod Retry
pub mod Induction
pub mod History
use Prim.Native.String.{◌++◌ as text_append}
use xe6_tsy.Common.{
  ℕ, ◌+◌, ◌%◌, Bool, true, false, not, ◌&&◌, ◌||◌, Option, none, some, String, List, [], ◌∷◌, ◌++◌,
  ltb, if◌then◌else◌, ◌==◌, incr, positive, str_eq, is_blank, Map, empty, insert, delete, length,
  get_elem?, set,
}
use xe6_tsy.Contract.Mode.{
  Time, Mode, valid, mode_eq, ModeState, SwitchCommand, SwitchResult, ModeChanged, ModePhase,
  active, ModeSwitchStatus, applied, unchanged, command_eq, mode_changed_event_version,
}

-- ctx.Err().
pub data ContextError : Type 0 where
  canceled deadline_exceeded : ContextError

pub data Error : Type 0 where
  context_error : ContextError → Error
  command_invalid not_available generation_conflict instance_mismatch operation_conflict : Error
  -- What the sink, or the commit callback, reported.
  event_unavailable commit_failed : String → Error

pub data Result {ℓ} (A : Type ℓ) : Type ℓ where
  ok : A → Result A
  err : Error → Result A

abbrev pub retention_limit : ℕ
retention_limit = 256

pub record OperationRecord : Type 0 where
  pub command : SwitchCommand
  pub result : SwitchResult

pub record Pending : Type 0 where
  pub command : SwitchCommand
  pub result : SwitchResult
  pub event : ModeChanged

pub record Coordinator : Type 0 where
  pub state : ModeState
  pub available : Mode → Bool
  pub operations : Map OperationRecord
  pub operation_order : List String
  pub operation_cursor : ℕ
  pub pending : Option Pending
  pub accepted : List ModeChanged

-- The map of registered modes; the first invalid mode is an error.
unfoldable pub register : List Mode → (Mode → Bool) → Result (Mode → Bool)
register [] registered = ok registered
register (m ∷ ms) registered =
    let rest = register ms (λ n. mode_eq m n || registered n) in
    if valid m then rest else err command_invalid

-- `wired` says that the sink and the clock are not nil.
unfoldable pub new : String → String → Mode → List Mode → Bool → Time → Result Coordinator
new session_id instance_id initial modes wired now =
    if is_blank session_id || is_blank instance_id || not wired
    then err command_invalid
    else elim (register modes (λ n. false)) [
      | err e ↦ err e
      | ok registered ↦
          if not (valid initial) || not (registered initial)
          then err not_available
          else ok (record {
            state = record {
              session_id = session_id;
              runtime_instance_id = instance_id;
              active_mode = initial;
              generation = 1;
              phase = active;
              last_operation_id = none;
              updated_at = now;
            };
            available = registered;
            operations = empty;
            operation_order = [];
            operation_cursor = 0;
            pending = none;
            accepted = [];
          })
    ]

-- `delete(c.operations, c.operationOrder[c.operationCursor])`. `none` is an index out of range, which
-- panics in Go.
unfoldable pub evict : Option String → Map OperationRecord → Map OperationRecord
evict none m = m
evict (some k) m = delete k m

unfoldable pub remember : SwitchCommand → SwitchResult → Coordinator → Coordinator
unfolding evict
remember command result c =
    if ltb (length c.operation_order) retention_limit
    then record c {
      operations = insert command.operation_id entry c.operations;
      operation_order = c.operation_order ++ command.operation_id ∷ [];
    }
    else record c {
      operations =
          insert command.operation_id entry
            (evict (get_elem? c.operation_order c.operation_cursor) c.operations);
      operation_order = set c.operation_order c.operation_cursor command.operation_id;
      operation_cursor = (c.operation_cursor + 1) % retention_limit;
    }
  where
    entry : OperationRecord
    entry = record { command = command; result = result }

-- What surrounds one call: `ctx.Err()` before and after the lock is taken, the clock, and the sink.
pub record Env : Type 0 where
  pub ctx_before : Option ContextError
  pub ctx_locked : Option ContextError
  pub now : Time
  pub publish : ModeChanged → Option String

-- `commitPending` for a pending transition that is not nil.
unfoldable pub commit_pending : Env → Pending → Coordinator → Coordinator × Result SwitchResult
commit_pending env p c = elim (env.publish p.event) [
  | some why ↦ (c, err (event_unavailable why))
  | none ↦ (
    record (remember p.command p.result (record c { state = p.result.state })) {
      pending = none;
      accepted = c.accepted ++ p.event ∷ [];
    },
    ok p.result,
  )
]

-- The checks of a command that need no state.
unfoldable pub command_ok : SwitchCommand → Bool
command_ok q = not (
    is_blank q.session_id
    || is_blank q.runtime_instance_id
    || is_blank q.operation_id
    || is_blank q.trace_id
    || not (positive q.expected_generation)
    || not (valid q.target_mode))

-- The end of `Switch`: the target is the active mode.
unfoldable pub stay : Time → SwitchCommand → Coordinator → Coordinator × Result SwitchResult
stay now q c = (remember q result (record c { state = state }), ok result)
  where
    state : ModeState
    state = record c.state {
      last_operation_id = some q.operation_id;
      updated_at = now;
      phase = active;
    }

    result : SwitchResult
    result = record { operation_id = q.operation_id; status = unchanged; state = state }

-- `sha256_hex` is the hex text of crypto/sha256's digest.
module _ (sha256_hex : String → String) where
  unfoldable pub event_id_of : SwitchCommand → String
  event_id_of q = text_append "mode_changed_" (
      sha256_hex (
        text_append q.session_id
          (text_append "\0" (text_append q.runtime_instance_id (text_append "\0" q.operation_id)))))

  unfoldable pub prepare : Time → SwitchCommand → Coordinator → Pending
  prepare now q c = record {
    command = q;
    result = record { operation_id = q.operation_id; status = applied; state = next };
    event = record {
      event_version = mode_changed_event_version;
      event_id = event_id_of q;
      trace_id = q.trace_id;
      session_id = q.session_id;
      runtime_instance_id = q.runtime_instance_id;
      operation_id = q.operation_id;
      from_mode = c.state.active_mode;
      to_mode = q.target_mode;
      resulting_generation = next.generation;
      occurred_at = now;
    };
  }
    where
      next : ModeState
      next = record c.state {
        active_mode = q.target_mode;
        generation = incr c.state.generation;
        phase = active;
        last_operation_id = some q.operation_id;
        updated_at = now;
      }

  -- `Switch` from the comparison with the runtime instance on, with no transition pending.
  unfoldable pub compare_and_switch :
      Env → SwitchCommand → Coordinator → Coordinator × Result SwitchResult
  compare_and_switch env q c =
      if not (str_eq q.runtime_instance_id c.state.runtime_instance_id)
      then (c, err instance_mismatch)
      else if not (q.expected_generation == c.state.generation)
      then (c, err generation_conflict)
      else if not (c.available q.target_mode)
      then (c, err not_available)
      else if not (mode_eq q.target_mode c.state.active_mode)
      then commit_pending env (prepare env.now q c)
          (record c { pending = some (prepare env.now q c) })
      else stay env.now q c

  -- What `Switch` does after a pending transition of another operation was committed or not.
  unfoldable pub after_recovery :
      Env → SwitchCommand → Coordinator × Result SwitchResult → Coordinator × Result SwitchResult
  after_recovery env q (c, err e) = (c, err e)
  after_recovery env q (c, ok r) = compare_and_switch env q c

  -- `Switch` on the pending transition, for an operation that is not remembered.
  unfoldable pub resume :
      Env → SwitchCommand → Coordinator → Option Pending → Coordinator × Result SwitchResult
  resume env q c none = compare_and_switch env q c
  resume env q c (some p) =
      if str_eq p.command.operation_id q.operation_id
      then (if not (command_eq p.command q)
          then (c, err operation_conflict)
          else commit_pending env p c)
      else after_recovery env q (commit_pending env p c)

  -- `Switch` on the remembered result of the operation.
  unfoldable pub replay :
      Env → SwitchCommand → Coordinator → Option OperationRecord → Coordinator × Result SwitchResult
  replay env q c none = resume env q c c.pending
  replay env q c (some previous) =
      if not (command_eq previous.command q)
      then (c, err operation_conflict)
      else (c, ok previous.result)

  unfoldable pub switch : Env → SwitchCommand → Coordinator → Coordinator × Result SwitchResult
  switch env q c = elim env.ctx_before [
    | some e ↦ (c, err (context_error e))
    | none ↦ if not (command_ok q) then (c, err command_invalid) else elim env.ctx_locked [
      | some e ↦ (c, err (context_error e))
      | none ↦
          if not (str_eq q.session_id c.state.session_id)
          then (c, err command_invalid)
          else replay env q c (c.operations q.operation_id)
    ]
  ]

  -- A sequence of calls.
  unfoldable pub run : List (Env × SwitchCommand) → Coordinator → Coordinator
  run [] c = c
  run ((env, q) ∷ rest) c = run rest (switch env q c).0
