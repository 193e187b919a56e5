-- ===== src/Lifecycle/Reports.antt =====
-- services/realtime-audio/session/runtime.go: the reports of a pipeline keep the stored snapshots sound.
use xe6_tsy.Common.{
  ◌≡◌, refl, true, false, Option, none, some, String, List, arith, str_eq, Bool-cases, Option-cases,
  inl, inr, is_blank,
}
use xe6_tsy.Contract.Runtime.{
  RuntimeState, asr_processing, translating, thinking, assistant_processing, tts_processing,
  playing, stopped, starting, stopping, failed, RuntimeErrorCode, RuntimeSnapshot, listening,
  valid_code,
}
use xe6_tsy.Lifecycle.{World, Env, Error}
use xe6_tsy.Lifecycle.Stop.{is_stopped}
use xe6_tsy.Lifecycle.Progress.{
  fits, ProcessingStateUpdate, validate_runtime_update, refuses, advance, set_processing_state,
  set_runtime_failed, fail, with_runtime, same_runtime_state, is_settled, code_or_default,
}
use xe6_tsy.Lifecycle.Invariant.{shaped, Sound, save-Sound}

-- What `validate_runtime_update` lets through fits its state.
validated_shape :
    (u : ProcessingStateUpdate)
    → validate_runtime_update u ≡ none
    → fits u.runtime_state u.current_turn_id u.current_playback_id ≡ true
unfolding validate_runtime_update
validated_shape u h = ground arith

fits-shaped :
    (s : RuntimeState) (turn playback : Option String)
    → fits s turn playback ≡ true
    → (shaped s turn playback ≡ true) × (is_stopped s ≡ false)
unfolding fits shaped
fits-shaped stopped turn playback h = cc
fits-shaped starting turn playback h = cc
fits-shaped listening turn playback h = (h, refl)
fits-shaped asr_processing turn playback h = (h, refl)
fits-shaped translating turn playback h = (h, refl)
fits-shaped thinking turn playback h = (h, refl)
fits-shaped assistant_processing turn playback h = (h, refl)
fits-shaped tts_processing turn playback h = (h, refl)
fits-shaped playing turn playback h = (h, refl)
fits-shaped stopping turn playback h = cc
fits-shaped failed turn playback h = cc

advance-Sound :
    (env : Env) (u : ProcessingStateUpdate) (w : World) (r : RuntimeSnapshot)
    → Sound w
    → validate_runtime_update u ≡ none
    → Sound (advance env u w r).0
unfolding advance
advance-Sound env u w r h v = elim (Option-cases (refuses u.session_id r u)) [
  | inr (e, a) ↦ rw (a, advance) h
  | inl a ↦ elim (Bool-cases (same_runtime_state r u)) [
    | inl b ↦ rw (a, b, advance) h
    | inr b ↦
        let s =
          fits-shaped u.runtime_state u.current_turn_id u.current_playback_id
            (validated_shape u v) in
        rw (a, b, advance) (save-Sound env.save _ w h s.0 (λ z. cc (z, s.1)))
  ]
]

with_runtime-Sound :
    (env : Env) (id : String) (w : World) (next : RuntimeSnapshot → World × List Error)
    → Sound w
    → ((r : RuntimeSnapshot) → w.runtimes id ≡ some r → Sound (next r).0)
    → Sound (with_runtime env id w next).0
unfolding with_runtime
with_runtime-Sound env id w next h k = elim (Option-cases env.read) [
  | inr (why, a) ↦ rw (a, with_runtime) h
  | inl a ↦ elim (Option-cases (w.runtimes id)) [
    | inl b ↦ simp (a, b, with_runtime) h
    | inr (r, b) ↦ simp (a, b, with_runtime) (k r b)
  ]
]

pub set_processing_state-Sound :
    (env : Env) (u : ProcessingStateUpdate) (w : World)
    → Sound w
    → Sound (set_processing_state env u w).0
unfolding set_processing_state
set_processing_state-Sound env u w h = elim (Option-cases env.ctx) [
  | inr (why, a) ↦ rw (a, set_processing_state) h
  | inl a ↦ elim (Option-cases (validate_runtime_update u)) [
    | inr (e, b) ↦ rw (a, b, set_processing_state) h
    | inl b ↦
        rw (a, b, set_processing_state)
          (with_runtime-Sound env u.session_id w (advance env u w) h
            (λ r i. advance-Sound env u w r h b))
  ]
]

fail-Sound :
    (env : Env) (id : String) (code : RuntimeErrorCode) (w : World) (r : RuntimeSnapshot)
    → Sound w
    → Sound (fail env id code w r).0
unfolding fail shaped
fail-Sound env id code w r h = elim (Bool-cases (str_eq r.session_id id)) [
  | inr a ↦ rw (a, fail) h
  | inl a ↦ elim (Bool-cases (is_settled r.runtime_state)) [
    | inl b ↦ rw (a, b, fail) h
    | inr b ↦ rw (a, b, fail) (save-Sound env.save _ w h refl (λ z. cc z))
  ]
]

pub set_runtime_failed-Sound :
    (env : Env) (id : String) (given : RuntimeErrorCode) (w : World)
    → Sound w
    → Sound (set_runtime_failed env id given w).0
unfolding set_runtime_failed
set_runtime_failed-Sound env id given w h = elim (Option-cases env.ctx) [
  | inr (why, a) ↦ rw (a, set_runtime_failed) h
  | inl a ↦ elim (Bool-cases (is_blank id)) [
    | inl b ↦ rw (a, b, set_runtime_failed) h
    | inr b ↦ elim (Bool-cases (valid_code (code_or_default given))) [
      | inr c ↦ rw (a, b, c, set_runtime_failed) h
      | inl c ↦
          rw (a, b, c, set_runtime_failed)
            (with_runtime-Sound env id w _ h (λ r i. fail-Sound env id _ w r h))
    ]
  ]
]
