-- ===== src/Lifecycle/Ends.antt =====
-- services/realtime-audio/session/service.go: what a Stop has released when it answers.
use xe6_tsy.Common.{
  ◌≡◌, ◌≢◌, refl, ◌∙◌, true, false, ◌⊎◌, Option, none, some, String, [], ◌∷◌, arith, str_eq_refl,
  is_blank, insert, Option-cases, inl, inr,
}
use xe6_tsy.Contract.Runtime.{stopping, failed, stop_failed, RuntimeSnapshot}
use xe6_tsy.Lifecycle.{
  World, Env, StartCommand, StopCommand, save_runtime, stop_pipeline_for_cleanup,
  close_connection_for_cleanup, cleanup_required, failure_snapshot, mark,
}
use xe6_tsy.Lifecycle.Start.{take_over, start_runtime}
use xe6_tsy.Lifecycle.Stop.{is_stopped, finish, release, wind_down, stop_stored, stop_runtime}
use xe6_tsy.Lifecycle.Invariant.{Sound, Stored}
use xe6_tsy.Lifecycle.Retry.{Reaches, start_runtime-reached}

-- Nothing is stored, or a stopped snapshot.
abbrev pub Over : Option RuntimeSnapshot → Type 0
Over none = Unit {0}
Over (some r) = is_stopped r.runtime_state ≡ true

-- The store, the pipelines and the connections do what a Stop asks of them.
pub record Works (env : Env) (q : StopCommand) : Type 0 where
  pub alive : env.ctx ≡ none
  pub named : is_blank q.session_id ≡ false
  pub readable : env.read ≡ none
  pub saves : (r : RuntimeSnapshot) → env.save r ≡ none
  pub cleanup_saves : (r : RuntimeSnapshot) → env.cleanup_save r ≡ none

stop_runtime-reached :
    (env : Env) (q : StopCommand) (w : World) (r : RuntimeSnapshot)
    → Works env q
    → w.runtimes q.session_id ≡ some r
    → is_stopped r.runtime_state ≡ false
    → stop_runtime env q w ≡ wind_down env q w r
unfolding stop_runtime stop_stored
stop_runtime-reached env q w r h i n = simp (h.alive, h.named, h.readable, i, n, stop_runtime) refl

wind_down-releases :
    (env : Env) (q : StopCommand) (w : World) (r : RuntimeSnapshot)
    → Works env q
    → wind_down env q w r
      ≡ release env q r
          (save_runtime env.save
            (record r { runtime_state = stopping; updated_at = env.now stopping })
            w).0
unfolding wind_down save_runtime
wind_down-releases env q w r h =
    ground (arith, h.saves (record r { runtime_state = stopping; updated_at = env.now stopping }))

module _ (env : Env) (id : String) (w : World) where
  pipeline_stopped :
      env.stop ≡ none
      → stop_pipeline_for_cleanup env id w ≡ (record w { live = mark id false w.live }, none)
  unfolding stop_pipeline_for_cleanup
  pipeline_stopped e = ground arith

  pipeline_kept :
      (why : String) → env.stop ≡ some why → stop_pipeline_for_cleanup env id w ≡ (w, some why)
  unfolding stop_pipeline_for_cleanup
  pipeline_kept why e = ground arith

  connection_closed :
      env.close ≡ none
      → close_connection_for_cleanup env id w
        ≡ (record w { connected = mark id false w.connected }, none)
  unfolding close_connection_for_cleanup
  connection_closed e = ground arith

  connection_kept :
      (why : String) → env.close ≡ some why → close_connection_for_cleanup env id w ≡ (w, some why)
  unfolding close_connection_for_cleanup
  connection_kept why e = ground arith

saved_by :
    (env : Env) (q : StopCommand)
    → Works env q
    → (r : RuntimeSnapshot) (w : World)
    → save_runtime env.cleanup_save r w
      ≡ (record w { runtimes = insert r.session_id r w.runtimes }, none)
unfolding save_runtime
saved_by env q h r w = ground (arith, h.cleanup_saves r)

release-ends :
    (env : Env) (q : StopCommand) (r : RuntimeSnapshot) (w : World)
    → Works env q
    → env.stop ≡ none
    → env.close ≡ none
    → r.session_id ≡ q.session_id
    → let a = release env q r w in
      (a.2 ≡ [])
      × (a.0.live q.session_id ≡ false)
      × (a.0.connected q.session_id ≡ false)
      × (a.0.runtimes q.session_id ≡ a.1)
      × Over a.1
unfolding release finish
release-ends env q r w h stop close same =
    simp
      (
        pipeline_stopped env q.session_id w stop,
        connection_closed env q.session_id _ close,
        saved_by env q h,
        same,
        str_eq_refl,
      )
      (refl, refl, refl, refl, refl)

-- A Stop of a session that is not stopped ends it, when the store and both resources do what they are
-- told: it answers no error, the pipeline and the connection are released, and the stopped snapshot that
-- it answers is stored, whatever had failed before.
pub stop_ends :
    (env : Env) (q : StopCommand) (w : World) (r : RuntimeSnapshot)
    → Works env q
    → env.stop ≡ none
    → env.close ≡ none
    → Sound w
    → w.runtimes q.session_id ≡ some r
    → is_stopped r.runtime_state ≡ false
    → let a = stop_runtime env q w in
      (a.2 ≡ [])
      × (a.0.live q.session_id ≡ false)
      × (a.0.connected q.session_id ≡ false)
      × (a.0.runtimes q.session_id ≡ a.1)
      × Over a.1
stop_ends env q w r h stop close sound i n =
    let own : Stored q.session_id (some r) (w.live q.session_id) = rw i at (sound q.session_id) in
    simp (stop_runtime-reached env q w r h i n, wind_down-releases env q w r h)
      (release-ends env q r _ h stop close own.0)

release_blocks :
    (env : Env) (q : StopCommand) (r : RuntimeSnapshot) (w : World)
    → Works env q
    → (env.stop ≢ none) ⊎ (env.close ≢ none)
    → let a = release env q r w in
      let f = failure_snapshot q.session_id r.start_operation_id stop_failed (env.now failed) in
      (a.2 ≢ []) × (a.1 ≡ some f) × (a.0.runtimes q.session_id ≡ some f)
unfolding release finish
release_blocks env q r w h broken =
    let f = failure_snapshot q.session_id r.start_operation_id stop_failed (env.now failed) in
    elim (Option-cases env.stop) [
      | inr (why, a) ↦ elim (Option-cases env.close) [
        | inl b ↦
            simp
              (
                pipeline_kept env q.session_id w why a,
                connection_closed env q.session_id w b,
                saved_by env q h,
                str_eq_refl,
              )
              (λ z. cc z, refl, refl)
        | inr (x, b) ↦
            simp
              (
                pipeline_kept env q.session_id w why a,
                connection_kept env q.session_id w x b,
                saved_by env q h,
                str_eq_refl,
              )
              (λ z. cc z, refl, refl)
      ]
      | inl a ↦ elim (Option-cases env.close) [
        | inl b ↦ elim broken [ inl x ↦ absurd (x a) | inr x ↦ absurd (x b) ]
        | inr (x, b) ↦
            simp
              (
                pipeline_stopped env q.session_id w a,
                connection_kept env q.session_id _ x b,
                saved_by env q h,
                str_eq_refl,
              )
              (λ z. cc z, refl, refl)
      ]
    ]

-- A Stop that could not release a resource answers an error and blocks every Start of the session,
-- which changes nothing, if its failure was stored.
pub failed_stop_blocks :
    (env later : Env) (q : StopCommand) (next : StartCommand) (w : World) (r : RuntimeSnapshot)
    → Works env q
    → (env.stop ≢ none) ⊎ (env.close ≢ none)
    → w.runtimes q.session_id ≡ some r
    → is_stopped r.runtime_state ≡ false
    → Reaches later next
    → next.session_id ≡ q.session_id
    → let a = stop_runtime env q w in
      (a.2 ≢ []) × (start_runtime later next a.0 ≡ (a.0, a.1, cleanup_required ∷ []))
unfolding take_over
failed_stop_blocks env later q next w r h broken i n reaches same =
    let halting =
      save_runtime env.save (record r { runtime_state = stopping; updated_at = env.now stopping })
        w in
    let b = release_blocks env q r halting.0 h broken in
    let found : (release env q r halting.0).0.runtimes next.session_id
        ≡ some (failure_snapshot q.session_id r.start_operation_id stop_failed (env.now failed)) =
      simp same b.2 in
    simp (stop_runtime-reached env q w r h i n, wind_down-releases env q w r h)
      (b.0, start_runtime-reached later next _ _ reaches found ∙ simp b.1 refl)
