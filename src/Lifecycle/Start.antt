-- ===== src/Lifecycle/Start.antt =====
-- services/realtime-audio/session/service.go: `Start`, from its last step back to its first.
use xe6_tsy.Common.{
  Bool, true, false, not, Option, none, some, [], ◌∷◌, if◌then◌else◌, str_eq, is_blank,
}
use xe6_tsy.Contract.Runtime.{
  RuntimeState, stopped, starting, listening, asr_processing, translating, thinking,
  assistant_processing, tts_processing, playing, failed, RuntimeErrorCode, start_failed,
  stop_failed, RuntimeSnapshot,
}
use xe6_tsy.Lifecycle.{
  read_runtime, read_session, save_starting, start_pipeline, save_failed, save_listening,
  activate_pipeline, context_error, session_id_required, operation_id_required, cleanup_required,
  operation_conflict, session_not_created, wrapped, reported, SessionSnapshot, StartCommand, World,
  Env, Answer, mark, save_runtime, failure_snapshot, fresh_snapshot, compensate,
}

abbrev pub is_processing : RuntimeState → Bool
is_processing listening = true
is_processing asr_processing = true
is_processing translating = true
is_processing thinking = true
is_processing assistant_processing = true
is_processing tts_processing = true
is_processing playing = true
is_processing _ = false

abbrev pub is_over : RuntimeState → Bool
is_over stopped = true
is_over failed = true
is_over _ = false

-- A stop has failed, and its cleanup is due.
abbrev pub failed_stop : RuntimeState → Option RuntimeErrorCode → Bool
failed_stop failed (some stop_failed) = true
failed_stop _ _ = false

abbrev pub awaits_cleanup : RuntimeSnapshot → Bool
awaits_cleanup r = failed_stop r.runtime_state r.last_error_code

-- The rest of `Start`, once the listening snapshot is stored.
unfoldable pub activate : Env → StartCommand → World → Answer
activate env q w = elim env.activate [
  | some (some why) ↦ compensate env q activate_pipeline why w
  | other ↦ (w, some (fresh_snapshot q listening (env.now listening)), [])
]

unfoldable pub listen : Env → StartCommand → World → Answer
listen env q w =
    let save = save_runtime env.save (fresh_snapshot q listening (env.now listening)) w in
    elim save.1 [
      | some why ↦ compensate env q save_listening why save.0
      | none ↦ activate env q save.0
    ]

unfoldable pub run_pipeline : Env → StartCommand → SessionSnapshot → World → Answer
run_pipeline env q business w = elim (env.start business) [
  | some why ↦
      let failure = failure_snapshot q.session_id q.operation_id start_failed (env.now failed) in
      let save = save_runtime env.cleanup_save failure w in
      (save.0, some failure, wrapped start_pipeline why ∷ reported save_failed save.1)
  | none ↦ listen env q (record w { live = mark q.session_id true w.live })
]

-- The session as the pipeline gets it: owned by the operation, traced, and in the initial mode.
unfoldable pub owned : StartCommand → SessionSnapshot → SessionSnapshot
owned q business = record business {
  start_operation_id = q.operation_id;
  trace_id = if is_blank q.trace_id then q.operation_id else q.trace_id;
  initial_mode = q.initial_mode;
}

unfoldable pub launch : Env → StartCommand → World → Answer
launch env q w = elim env.session_failure [
  | some why ↦ (w, none, wrapped read_session why ∷ [])
  | none ↦
      if not (str_eq env.session.status "created")
      then (w, none, session_not_created ∷ [])
      else let save = save_runtime env.save (fresh_snapshot q starting (env.now starting)) w in
        elim save.1 [
          | some why ↦ (save.0, none, wrapped save_starting why ∷ [])
          | none ↦ run_pipeline env q (owned q env.session) save.0
        ]
]

-- `Start` on the stored snapshot. Without a health reader a pipeline counts as active.
unfoldable pub take_over : Env → StartCommand → World → Option RuntimeSnapshot → Answer
take_over env q w none = launch env q w
take_over env q w (some r) =
    if awaits_cleanup r
    then (w, some r, cleanup_required ∷ [])
    else if is_over r.runtime_state
    then launch env q w
    else if not (str_eq r.start_operation_id q.operation_id)
    then (w, some r, operation_conflict ∷ [])
    else if not (is_processing r.runtime_state)
    then (w, some r, [])
    else elim env.active [
      | none ↦ (w, some r, [])
      | some true ↦ (w, some r, [])
      | some false ↦ launch env q w
    ]

unfoldable pub start_runtime : Env → StartCommand → World → Answer
start_runtime env q w = elim env.ctx [
  | some why ↦ (w, none, context_error why ∷ [])
  | none ↦
      if is_blank q.session_id
      then (w, none, session_id_required ∷ [])
      else if is_blank q.operation_id
      then (w, none, operation_id_required ∷ [])
      else elim env.read [
        | some why ↦ (w, none, wrapped read_runtime why ∷ [])
        | none ↦ take_over env q w (w.runtimes q.session_id)
      ]
]
