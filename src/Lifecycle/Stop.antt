-- ===== src/Lifecycle/Stop.antt =====
-- services/realtime-audio/session/service.go: `Stop`, and the two memory repository reads of it.
use xe6_tsy.Common.{
  Bool, true, false, Option, none, some, String, [], ◌∷◌, ◌++◌, if◌then◌else◌, ◌==◌, is_blank,
}
use xe6_tsy.Contract.Mode.{Time}
use xe6_tsy.Contract.Runtime.{RuntimeState, stopped, stopping, failed, stop_failed, RuntimeSnapshot}
use xe6_tsy.Lifecycle.{
  read_runtime, save_failed, save_stopping, stop_pipeline, close_connection, save_stopped,
  context_error, session_id_required, wrapped, reported, StopCommand, World, Env, Answer,
  save_runtime, failure_snapshot, stop_pipeline_for_cleanup, close_connection_for_cleanup,
}

unfoldable pub stop_time : StopCommand → Time → Time
stop_time q fallback = if q.ended_at == 0 then fallback else q.ended_at

-- The end of `Stop`, by what the two cleanups answer.
unfoldable pub finish :
    Env → StopCommand → RuntimeSnapshot → World → Option String → Option String → Answer
finish env q current w none none =
    let over = record current {
      runtime_state = stopped;
      current_turn_id = none;
      current_playback_id = none;
      last_error_code = none;
      updated_at = stop_time q (env.now stopped);
    } in
    let save = save_runtime env.cleanup_save over w in
    (save.0, some over, reported save_stopped save.1)
finish env q current w pipeline connection =
    let failure =
      failure_snapshot q.session_id current.start_operation_id stop_failed (env.now failed) in
    let save = save_runtime env.cleanup_save failure w in
    (
      save.0,
      some failure,
      (reported stop_pipeline pipeline ++ reported close_connection connection)
          ++ reported save_failed save.1,
    )

-- Both resources are released, whatever the first answers.
unfoldable pub release : Env → StopCommand → RuntimeSnapshot → World → Answer
release env q current w =
    let pipeline = stop_pipeline_for_cleanup env q.session_id w in
    let connection = close_connection_for_cleanup env q.session_id pipeline.0 in
    finish env q current connection.0 pipeline.1 connection.1

unfoldable pub wind_down : Env → StopCommand → World → RuntimeSnapshot → Answer
wind_down env q w current =
    let save =
      save_runtime env.save
        (record current { runtime_state = stopping; updated_at = env.now stopping }) w in
    elim save.1 [
      | some why ↦ (save.0, none, wrapped save_stopping why ∷ [])
      | none ↦ release env q current save.0
    ]

abbrev pub is_stopped : RuntimeState → Bool
is_stopped stopped = true
is_stopped _ = false

-- `Stop` on the stored snapshot.
unfoldable pub stop_stored : Env → StopCommand → World → Option RuntimeSnapshot → Answer
stop_stored env q w none = (
  w,
  some (record {
    session_id = q.session_id;
    start_operation_id = "";
    runtime_state = stopped;
    current_turn_id = none;
    current_playback_id = none;
    last_error_code = none;
    updated_at = stop_time q (env.now stopped);
  }),
  [],
)
stop_stored env q w (some current) =
    if is_stopped current.runtime_state then (w, some current, []) else wind_down env q w current

unfoldable pub stop_runtime : Env → StopCommand → World → Answer
stop_runtime env q w = elim env.ctx [
  | some why ↦ (w, none, context_error why ∷ [])
  | none ↦ if is_blank q.session_id then (w, none, session_id_required ∷ []) else elim env.read [
    | some why ↦ (w, none, wrapped read_runtime why ∷ [])
    | none ↦ stop_stored env q w (w.runtimes q.session_id)
  ]
]
