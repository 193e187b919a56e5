-- ===== src/Lifecycle.antt =====
-- services/realtime-audio/session/service.go and repository.go: the lifecycle service, which owns the
-- runtime snapshot of each session. A method takes the world and returns the next one; the lock of
-- the session makes each method one step for its session.
pub mod Reports
mod Tests
pub mod Locks
pub mod Ends
pub mod Retry
pub mod Runs
pub mod Sound
pub mod Invariant
pub mod Progress
pub mod Stop
pub mod Start
use xe6_tsy.Common.{
  Bool, true, false, not, ◌&&◌, ◌||◌, Option, none, some, String, List, [], ◌∷◌, ◌++◌,
  if◌then◌else◌, ◌==◌, str_eq, is_blank, Map, insert,
}
use xe6_tsy.Contract.Mode.{Time, Mode}
use xe6_tsy.Contract.Runtime.{
  RuntimeState, stopped, starting, listening, asr_processing, translating, thinking,
  assistant_processing, tts_processing, playing, stopping, failed, RuntimeErrorCode, start_failed,
  stop_failed, RuntimeSnapshot,
}

-- What the service reports when a step fails, and why, as the ports and the store put it.
pub data Step : Type 0 where
  read_runtime read_session save_starting start_pipeline save_failed save_listening : Step
  compensate_pipeline activate_pipeline save_stopping stop_pipeline close_connection : Step
  save_stopped save_progress save_failure : Step

pub data Error : Type 0 where
  context_error : String → Error
  session_id_required operation_id_required cleanup_required operation_conflict : Error
  session_not_created runtime_not_found invalid_update identity_conflict : Error
  invalid_transition invalid_error_code : Error
  wrapped : Step → String → Error

-- One part of `errors.Join`: no error is none.
abbrev pub reported : Step → Option String → List Error
reported step none = []
reported step (some why) = wrapped step why ∷ []

pub record SessionSnapshot : Type 0 where
  pub session_id : String
  pub account_id : String
  pub initial_mode : Mode
  pub start_operation_id : String
  pub trace_id : String
  pub status : String

pub record StartCommand : Type 0 where
  pub session_id : String
  pub operation_id : String
  pub trace_id : String
  pub started_by : String
  pub initial_mode : Mode

pub record StopCommand : Type 0 where
  pub session_id : String
  pub trace_id : String
  pub reason : String
  pub ended_at : Time

-- The stored snapshots, and by session whether a pipeline was started, and a connection opened, that
-- was not stopped or closed since.
pub record World : Type 0 where
  pub runtimes : Map RuntimeSnapshot
  pub live : String → Bool
  pub connected : String → Bool

-- What surrounds one call. A port or the store answers `none` where it succeeds; a store that fails
-- keeps what it has. `save` runs under the caller's context and `cleanup_save` under one of its own.
-- `active` is `none` where the pipelines are no `PipelineHealthReader`, and `activate` is `none` where they
-- are no `PipelineActivator`. The clock's readings go by the state that they stamp.
pub record Env : Type 0 where
  pub ctx : Option String
  pub read : Option String
  pub session : SessionSnapshot
  pub session_failure : Option String
  pub save : RuntimeSnapshot → Option String
  pub cleanup_save : RuntimeSnapshot → Option String
  pub start : SessionSnapshot → Option String
  pub activate : Option (Option String)
  pub active : Option Bool
  pub stop : Option String
  pub close : Option String
  pub now : RuntimeState → Time

abbrev pub mark : String → Bool → (String → Bool) → String → Bool
mark k b f j = if str_eq k j then b else f j

unfoldable pub save_runtime :
    (RuntimeSnapshot → Option String) → RuntimeSnapshot → World → World × Option String
save_runtime save r w = elim (save r) [
  | some why ↦ (w, some why)
  | none ↦ (record w { runtimes = insert r.session_id r w.runtimes }, none)
]

unfoldable pub stop_pipeline_for_cleanup : Env → String → World → World × Option String
stop_pipeline_for_cleanup env id w = elim env.stop [
  | some why ↦ (w, some why)
  | none ↦ (record w { live = mark id false w.live }, none)
]

unfoldable pub close_connection_for_cleanup : Env → String → World → World × Option String
close_connection_for_cleanup env id w = elim env.close [
  | some why ↦ (w, some why)
  | none ↦ (record w { connected = mark id false w.connected }, none)
]

abbrev pub failure_snapshot : String → String → RuntimeErrorCode → Time → RuntimeSnapshot
failure_snapshot id operation code now = record {
  session_id = id;
  start_operation_id = operation;
  runtime_state = failed;
  current_turn_id = none;
  current_playback_id = none;
  last_error_code = some code;
  updated_at = now;
}

-- The snapshots that `Start` saves.
abbrev pub fresh_snapshot : StartCommand → RuntimeState → Time → RuntimeSnapshot
fresh_snapshot q state now = record {
  session_id = q.session_id;
  start_operation_id = q.operation_id;
  runtime_state = state;
  current_turn_id = none;
  current_playback_id = none;
  last_error_code = none;
  updated_at = now;
}

-- What a method leaves and answers; `none` is the zero snapshot, and no error is `nil`.
abbrev pub Answer : Type 0
Answer = World × Option RuntimeSnapshot × List Error

-- `Start` once the pipeline runs and a later step has failed: stop the pipeline, save the failure.
unfoldable pub compensate : Env → StartCommand → Step → String → World → Answer
compensate env q step why w =
    let stop = stop_pipeline_for_cleanup env q.session_id w in
    let failure = failure_snapshot q.session_id q.operation_id start_failed (env.now failed) in
    let save = save_runtime env.cleanup_save failure stop.0 in
    (
      save.0,
      some failure,
      wrapped step why ∷ reported compensate_pipeline stop.1 ++ reported save_failed save.1,
    )
