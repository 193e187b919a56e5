-- ===== src/Lifecycle/Sound.antt =====
-- services/realtime-audio/session: every method keeps the stored snapshots sound.
use xe6_tsy.Common.{
  ◌≡◌, refl, true, false, Option, none, some, String, arith, str_eq, str_eq_refl, Bool-cases,
  Option-cases, inl, inr, is_blank,
}
use xe6_tsy.Contract.Runtime.{starting, stopping, RuntimeSnapshot, listening}
use xe6_tsy.Lifecycle.{
  World, Env, StartCommand, StopCommand, SessionSnapshot, save_runtime, fresh_snapshot,
  stop_pipeline_for_cleanup, close_connection_for_cleanup, save_listening, activate_pipeline,
}
use xe6_tsy.Lifecycle.Start.{
  activate, listen, run_pipeline, launch, take_over, start_runtime, awaits_cleanup, is_over,
  is_processing,
}
use xe6_tsy.Lifecycle.Stop.{is_stopped, finish, release, wind_down, stop_stored, stop_runtime}
use xe6_tsy.Lifecycle.Progress.{fits}
use xe6_tsy.Lifecycle.Invariant.{
  shaped, Stored, Sound, save-Sound, stop-Sound, close-Sound, mark-Sound, compensate-Sound,
  stored-save_runtime,
}

activate-Sound : (env : Env) (q : StartCommand) (w : World) → Sound w → Sound (activate env q w).0
unfolding activate
activate-Sound env q w h = elim (Option-cases env.activate) [
  | inl e ↦ rw (e, activate) h
  | inr (none, e) ↦ rw (e, activate) h
  | inr (some why, e) ↦ rw (e, activate) (compensate-Sound env q activate_pipeline why w h)
]

listen-Sound : (env : Env) (q : StartCommand) (w : World) → Sound w → Sound (listen env q w).0
unfolding listen shaped fits
listen-Sound env q w h =
    let kept =
      save-Sound env.save (fresh_snapshot q listening (env.now listening)) w h refl (λ z. cc z) in
    elim (Option-cases
      (save_runtime env.save (fresh_snapshot q listening (env.now listening)) w).1) [
        | inl e ↦ rw (e, listen) (activate-Sound env q _ kept)
        | inr (why, e) ↦ rw (e, listen) (compensate-Sound env q save_listening why _ kept)
      ]

run_pipeline-Sound :
    (env : Env) (q : StartCommand) (business : SessionSnapshot) (w : World)
    → Sound w
    → w.runtimes q.session_id ≡ some (fresh_snapshot q starting (env.now starting))
    → Sound (run_pipeline env q business w).0
unfolding run_pipeline shaped
run_pipeline-Sound env q business w h i = elim (Option-cases (env.start business)) [
  | inr (why, e) ↦ rw (e, run_pipeline) (save-Sound env.cleanup_save _ w h refl (λ z. cc z))
  | inl e ↦ rw (e, run_pipeline) (listen-Sound env q _ (mark-Sound q.session_id _ w h i refl))
]

launch-Sound : (env : Env) (q : StartCommand) (w : World) → Sound w → Sound (launch env q w).0
unfolding launch shaped
launch-Sound env q w h = elim (Option-cases env.session_failure) [
  | inr (why, e) ↦ rw (e, launch) h
  | inl e ↦ elim (Bool-cases (str_eq env.session.status "created")) [
    | inr f ↦ rw (e, f, launch) h
    | inl f ↦
        let kept =
          save-Sound env.save (fresh_snapshot q starting (env.now starting)) w h refl (λ z. cc z) in
        elim (Option-cases
          (save_runtime env.save (fresh_snapshot q starting (env.now starting)) w).1) [
            | inr (why, g) ↦ rw (e, f, g, launch) kept
            | inl g ↦
                rw (e, f, g, launch)
                  (run_pipeline-Sound env q _ _ kept (stored-save_runtime env.save _ w g))
          ]
  ]
]

take_over-Sound :
    (env : Env) (q : StartCommand) (w : World) (o : Option RuntimeSnapshot)
    → Sound w
    → Sound (take_over env q w o).0
unfolding take_over
take_over-Sound env q w none h = launch-Sound env q w h
take_over-Sound env q w (some r) h = elim (Bool-cases (awaits_cleanup r)) [
  | inl a ↦ rw (a, take_over) h
  | inr a ↦ elim (Bool-cases (is_over r.runtime_state)) [
    | inl b ↦ rw (a, b, take_over) (launch-Sound env q w h)
    | inr b ↦ elim (Bool-cases (str_eq r.start_operation_id q.operation_id)) [
      | inr c ↦ rw (a, b, c, take_over) h
      | inl c ↦ elim (Bool-cases (is_processing r.runtime_state)) [
        | inr d ↦ rw (a, b, c, d, take_over) h
        | inl d ↦ elim (Option-cases env.active) [
          | inl e ↦ rw (a, b, c, d, e, take_over) h
          | inr (true, e) ↦ rw (a, b, c, d, e, take_over) h
          | inr (false, e) ↦ rw (a, b, c, d, e, take_over) (launch-Sound env q w h)
        ]
      ]
    ]
  ]
]

-- A method that refuses leaves the world as it is; otherwise it goes on from the stored snapshot.
pub start_runtime-Sound :
    (env : Env) (q : StartCommand) (w : World) → Sound w → Sound (start_runtime env q w).0
unfolding start_runtime
start_runtime-Sound env q w h = elim (Option-cases env.ctx) [
  | inr (why, a) ↦ rw (a, start_runtime) h
  | inl a ↦ elim (Bool-cases (is_blank q.session_id)) [
    | inl b ↦ rw (a, b, start_runtime) h
    | inr b ↦ elim (Bool-cases (is_blank q.operation_id)) [
      | inl c ↦ rw (a, b, c, start_runtime) h
      | inr c ↦ elim (Option-cases env.read) [
        | inr (why, d) ↦ rw (a, b, c, d, start_runtime) h
        | inl d ↦ rw (a, b, c, d, start_runtime) (take_over-Sound env q w _ h)
      ]
    ]
  ]
]

finish-Sound :
    (env : Env) (q : StopCommand) (current : RuntimeSnapshot) (w : World)
    (pipeline connection : Option String)
    → Sound w
    → (pipeline ≡ none → w.live current.session_id ≡ false)
    → Sound (finish env q current w pipeline connection).0
unfolding finish shaped
finish-Sound env q current w none none h quiet =
    save-Sound env.cleanup_save _ w h refl (λ z. quiet refl)
finish-Sound env q current w none (some why) h quiet =
    save-Sound env.cleanup_save _ w h refl (λ z. cc z)
finish-Sound env q current w (some why) connection h quiet =
    save-Sound env.cleanup_save _ w h refl (λ z. cc z)

-- Once the pipeline was stopped, closing the connection leaves it stopped.
quiet_after :
    (env : Env) (id : String) (w : World)
    → (stop_pipeline_for_cleanup env id w).1 ≡ none
    → (close_connection_for_cleanup env id (stop_pipeline_for_cleanup env id w).0).0.live id ≡ false
unfolding stop_pipeline_for_cleanup close_connection_for_cleanup
quiet_after env id w h = ground (arith, str_eq_refl id)

release-Sound :
    (env : Env) (q : StopCommand) (current : RuntimeSnapshot) (w : World)
    → Sound w
    → current.session_id ≡ q.session_id
    → Sound (release env q current w).0
unfolding release
release-Sound env q current w h i =
    finish-Sound env q current _ _ _
      (close-Sound env q.session_id _ (stop-Sound env q.session_id w h))
      (λ z. simp i (quiet_after env q.session_id w z))

wind_down-Sound :
    (env : Env) (q : StopCommand) (w : World) (current : RuntimeSnapshot)
    → Sound w
    → current.session_id ≡ q.session_id
    → Sound (wind_down env q w current).0
unfolding wind_down shaped
wind_down-Sound env q w current h i =
    let halting = record current { runtime_state = stopping; updated_at = env.now stopping } in
    let kept = save-Sound env.save halting w h refl (λ z. cc z) in
    elim (Option-cases (save_runtime env.save halting w).1) [
      | inr (why, e) ↦ rw (e, wind_down) kept
      | inl e ↦ rw (e, wind_down) (release-Sound env q current _ kept i)
    ]

stop_stored-Sound :
    (env : Env) (q : StopCommand) (w : World) (o : Option RuntimeSnapshot)
    → Sound w
    → w.runtimes q.session_id ≡ o
    → Sound (stop_stored env q w o).0
unfolding stop_stored
stop_stored-Sound env q w none h i = h
stop_stored-Sound env q w (some r) h i = elim (Bool-cases (is_stopped r.runtime_state)) [
  | inl e ↦ rw (e, stop_stored) h
  | inr e ↦
      let own : Stored q.session_id (some r) (w.live q.session_id) = rw i at (h q.session_id) in
      rw (e, stop_stored) (wind_down-Sound env q w r h own.0)
]

pub stop_runtime-Sound :
    (env : Env) (q : StopCommand) (w : World) → Sound w → Sound (stop_runtime env q w).0
unfolding stop_runtime
stop_runtime-Sound env q w h = elim (Option-cases env.ctx) [
  | inr (why, a) ↦ rw (a, stop_runtime) h
  | inl a ↦ elim (Bool-cases (is_blank q.session_id)) [
    | inl b ↦ rw (a, b, stop_runtime) h
    | inr b ↦ elim (Option-cases env.read) [
      | inr (why, d) ↦ rw (a, b, d, stop_runtime) h
      | inl d ↦ rw (a, b, d, stop_runtime) (stop_stored-Sound env q w _ h refl)
    ]
  ]
]
