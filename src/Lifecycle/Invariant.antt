-- ===== src/Lifecycle/Invariant.antt =====
-- services/realtime-audio/session: what the stored snapshots say of the pipelines, and that every
-- method keeps it.
use xe6_tsy.Common.{
  ◌≡◌, refl, sym, ap, subst, ◌∙◌, Bool, true, false, not, ◌&&◌, Option, none, some, String, arith,
  str_eq, str_eq_iff, str_eq_refl, Bool-cases, Option-cases, inl, inr,
}
use xe6_tsy.Contract.Runtime.{RuntimeState, stopped, starting, stopping, failed, RuntimeSnapshot}
use xe6_tsy.Lifecycle.{
  World, Env, Step, StartCommand, mark, save_runtime, stop_pipeline_for_cleanup,
  close_connection_for_cleanup, compensate,
}
use xe6_tsy.Lifecycle.Stop.{is_stopped}
use xe6_tsy.Lifecycle.Progress.{fits, is_some}

-- The identities that a snapshot carries in each state: a stopping one keeps those it had.
unfoldable pub shaped : RuntimeState → Option String → Option String → Bool
shaped stopped turn playback = not (is_some turn) && not (is_some playback)
shaped starting turn playback = not (is_some turn) && not (is_some playback)
shaped failed turn playback = not (is_some turn) && not (is_some playback)
shaped stopping turn playback = true
shaped state turn playback = fits state turn playback

-- What is stored for a session: a snapshot of its own with the identities of its state, and none
-- that is stopped while a pipeline lives.
abbrev pub Stored : String → Option RuntimeSnapshot → Bool → Type 0
Stored id none live = live ≡ false
Stored id (some r) live =
    (r.session_id ≡ id)
    × (shaped r.runtime_state r.current_turn_id r.current_playback_id ≡ true)
    × (is_stopped r.runtime_state ≡ true → live ≡ false)

abbrev pub Sound : World → Type 0
Sound w = (id : String) → Stored id (w.runtimes id) (w.live id)

-- A live pipeline stays within reach: its session has a snapshot that is not stopped.
pub save-Sound :
    (save : RuntimeSnapshot → Option String) (r : RuntimeSnapshot) (w : World)
    → Sound w
    → shaped r.runtime_state r.current_turn_id r.current_playback_id ≡ true
    → (is_stopped r.runtime_state ≡ true → w.live r.session_id ≡ false)
    → Sound (save_runtime save r w).0
unfolding save_runtime
save-Sound save r w h shape over id = elim (Option-cases (save r)) [
  | inr (why, e) ↦ rw (e, save_runtime) (h id)
  | inl e ↦ elim (Bool-cases (str_eq r.session_id id)) [
    | inr d ↦ simp (e, d, save_runtime) (h id)
    | inl d ↦
        let same : r.session_id ≡ id = (str_eq_iff r.session_id id).0 d in
        simp (e, d, save_runtime) (same, shape, λ z. ap w.live (sym same) ∙ over z)
  ]
]

Stored-quiet :
    (id : String) (o : Option RuntimeSnapshot) (live : Bool) → Stored id o live → Stored id o false
Stored-quiet id none live h = refl
Stored-quiet id (some r) live h = (h.0, h.1, λ z. refl)

pub stop-Sound :
    (env : Env) (id : String) (w : World) → Sound w → Sound (stop_pipeline_for_cleanup env id w).0
unfolding stop_pipeline_for_cleanup
stop-Sound env id w h k = elim (Option-cases env.stop) [
  | inr (why, e) ↦ rw (e, stop_pipeline_for_cleanup) (h k)
  | inl e ↦ elim (Bool-cases (str_eq id k)) [
    | inr d ↦ simp (e, d, stop_pipeline_for_cleanup) (h k)
    | inl d ↦
        simp (e, d, stop_pipeline_for_cleanup) (Stored-quiet k (w.runtimes k) (w.live k) (h k))
  ]
]

pub close-Sound :
    (env : Env) (id : String) (w : World)
    → Sound w
    → Sound (close_connection_for_cleanup env id w).0
unfolding close_connection_for_cleanup
close-Sound env id w h k = elim (Option-cases env.close) [
  | inr (why, e) ↦ rw (e, close_connection_for_cleanup) (h k)
  | inl e ↦ rw (e, close_connection_for_cleanup) (h k)
]

-- A pipeline may come to life where a snapshot is stored that is not stopped.
pub mark-Sound :
    (id : String) (r : RuntimeSnapshot) (w : World)
    → Sound w
    → w.runtimes id ≡ some r
    → is_stopped r.runtime_state ≡ false
    → Sound (record w { live = mark id true w.live })
mark-Sound id r w h i n k = elim (Bool-cases (str_eq id k)) [
  | inr d ↦ simp d (h k)
  | inl d ↦
      let i' : w.runtimes k ≡ some r =
        subst (λ j. w.runtimes j ≡ some r) ((str_eq_iff id k).0 d) i in
      let old : Stored k (some r) (w.live k) = rw i' at (h k) in
      simp (d, i') (old.0, old.1, λ z. cc (z, n))
]

pub compensate-Sound :
    (env : Env) (q : StartCommand) (step : Step) (why : String) (w : World)
    → Sound w
    → Sound (compensate env q step why w).0
unfolding compensate shaped
compensate-Sound env q step why w h =
    save-Sound env.cleanup_save _ _ (stop-Sound env q.session_id w h) refl (λ z. cc z)

pub stored-save_runtime :
    (save : RuntimeSnapshot → Option String) (r : RuntimeSnapshot) (w : World)
    → (save_runtime save r w).1 ≡ none
    → (save_runtime save r w).0.runtimes r.session_id ≡ some r
unfolding save_runtime
stored-save_runtime save r w h = ground (arith, str_eq_refl r.session_id)
