-- ===== src/Lifecycle/Runs.antt =====
-- services/realtime-audio/session: sequences of calls of the lifecycle service.
use xe6_tsy.Common.{◌≡◌, refl, true, false, Option, none, some, String, List, [], ◌∷◌, arith, empty}
use xe6_tsy.Contract.Runtime.{
  RuntimeState, stopped, starting, asr_processing, translating, thinking, assistant_processing,
  tts_processing, playing, stopping, failed, RuntimeErrorCode, RuntimeSnapshot, listening,
}
use xe6_tsy.Lifecycle.{World, Env, StartCommand, StopCommand}
use xe6_tsy.Lifecycle.Start.{start_runtime}
use xe6_tsy.Lifecycle.Stop.{stop_runtime}
use xe6_tsy.Lifecycle.Progress.{
  fits, validate_runtime_update, ProcessingStateUpdate, refuses, advance, set_processing_state,
  set_runtime_failed, fail, with_runtime, is_settled, valid_runtime_progress_transition, may_follow,
}
use xe6_tsy.Lifecycle.Invariant.{Sound}
use xe6_tsy.Lifecycle.Sound.{start_runtime-Sound, stop_runtime-Sound}
use xe6_tsy.Lifecycle.Reports.{set_processing_state-Sound, set_runtime_failed-Sound}

pub data Call : Type 0 where
  start : StartCommand → Call
  stop : StopCommand → Call
  progress : ProcessingStateUpdate → Call
  failure : String → RuntimeErrorCode → Call

unfoldable pub step : Env → Call → World → World
step env (start q) w = (start_runtime env q w).0
step env (stop q) w = (stop_runtime env q w).0
step env (progress u) w = (set_processing_state env u w).0
step env (failure id code) w = (set_runtime_failed env id code w).0

unfoldable pub run : List (Env × Call) → World → World
run [] w = w
run ((env, call) ∷ rest) w = run rest (step env call w)

-- Before the first call nothing is stored and nothing lives.
abbrev pub new_world : World
new_world = record { runtimes = empty; live = λ k. false; connected = λ k. false }

step-Sound : (env : Env) (call : Call) (w : World) → Sound w → Sound (step env call w)
unfolding step
step-Sound env (start q) w h = start_runtime-Sound env q w h
step-Sound env (stop q) w h = stop_runtime-Sound env q w h
step-Sound env (progress u) w h = set_processing_state-Sound env u w h
step-Sound env (failure id code) w h = set_runtime_failed-Sound env id code w h

run_keeps : (calls : List (Env × Call)) (w : World) → Sound w → Sound (run calls w)
unfolding run
run_keeps [] w h = h
run_keeps ((env, call) ∷ rest) w h = run_keeps rest (step env call w) (step-Sound env call w h)

-- Whatever calls are made and whatever fails in them, each snapshot stays under its own session with
-- the identities that its state has, and a pipeline that was started and not stopped since has a snapshot
-- that is not stopped.
pub run-Sound : (calls : List (Env × Call)) → Sound (run calls new_world)
run-Sound calls = run_keeps calls new_world (λ id. refl)

fits_unsettled :
    (s : RuntimeState) (turn playback : Option String)
    → fits s turn playback ≡ true
    → is_settled s ≡ false
unfolding fits
fits_unsettled stopped turn playback h = cc
fits_unsettled starting turn playback h = refl
fits_unsettled listening turn playback h = refl
fits_unsettled asr_processing turn playback h = refl
fits_unsettled translating turn playback h = refl
fits_unsettled thinking turn playback h = refl
fits_unsettled assistant_processing turn playback h = refl
fits_unsettled tts_processing turn playback h = refl
fits_unsettled playing turn playback h = refl
fits_unsettled stopping turn playback h = cc
fits_unsettled failed turn playback h = cc

settled_stays :
    (a b : RuntimeState)
    → is_settled a ≡ true
    → is_settled b ≡ false
    → valid_runtime_progress_transition a b ≡ false
unfolding valid_runtime_progress_transition may_follow
settled_stays stopped stopped h k = cc
settled_stays stopped starting h k = refl
settled_stays stopped listening h k = refl
settled_stays stopped asr_processing h k = refl
settled_stays stopped translating h k = refl
settled_stays stopped thinking h k = refl
settled_stays stopped assistant_processing h k = refl
settled_stays stopped tts_processing h k = refl
settled_stays stopped playing h k = refl
settled_stays stopped stopping h k = cc
settled_stays stopped failed h k = cc
settled_stays starting b h k = cc
settled_stays listening b h k = cc
settled_stays asr_processing b h k = cc
settled_stays translating b h k = cc
settled_stays thinking b h k = cc
settled_stays assistant_processing b h k = cc
settled_stays tts_processing b h k = cc
settled_stays playing b h k = cc
settled_stays stopping stopped h k = cc
settled_stays stopping starting h k = refl
settled_stays stopping listening h k = refl
settled_stays stopping asr_processing h k = refl
settled_stays stopping translating h k = refl
settled_stays stopping thinking h k = refl
settled_stays stopping assistant_processing h k = refl
settled_stays stopping tts_processing h k = refl
settled_stays stopping playing h k = refl
settled_stays stopping stopping h k = cc
settled_stays stopping failed h k = cc
settled_stays failed stopped h k = cc
settled_stays failed starting h k = refl
settled_stays failed listening h k = refl
settled_stays failed asr_processing h k = refl
settled_stays failed translating h k = refl
settled_stays failed thinking h k = refl
settled_stays failed assistant_processing h k = refl
settled_stays failed tts_processing h k = refl
settled_stays failed playing h k = refl
settled_stays failed stopping h k = cc
settled_stays failed failed h k = cc

validated_unsettled :
    (u : ProcessingStateUpdate)
    → validate_runtime_update u ≡ none
    → is_settled u.runtime_state ≡ false
unfolding validate_runtime_update
validated_unsettled u h =
    ground (arith, fits_unsettled u.runtime_state u.current_turn_id u.current_playback_id)

advance_settled :
    (env : Env) (u : ProcessingStateUpdate) (w : World) (r : RuntimeSnapshot)
    → is_settled r.runtime_state ≡ true
    → validate_runtime_update u ≡ none
    → (advance env u w r).0 ≡ w
unfolding advance refuses
advance_settled env u w r s v =
    ground (arith, settled_stays r.runtime_state u.runtime_state s (validated_unsettled u v))

-- Reports of the pipeline change nothing once its runtime is being stopped, was stopped or has
-- failed.
pub settled_reports :
    (env : Env) (u : ProcessingStateUpdate) (id : String) (code : RuntimeErrorCode) (w : World)
    (r : RuntimeSnapshot)
    → u.session_id ≡ id
    → w.runtimes id ≡ some r
    → is_settled r.runtime_state ≡ true
    → ((set_processing_state env u w).0 ≡ w) × ((set_runtime_failed env id code w).0 ≡ w)
unfolding set_processing_state set_runtime_failed with_runtime fail
settled_reports env u id code w r i k s = ground (arith, advance_settled env u w r s)
