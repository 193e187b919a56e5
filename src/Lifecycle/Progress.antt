-- ===== src/Lifecycle/Progress.antt =====
-- services/realtime-audio/session/runtime.go: the pipeline's reports of its progress and its failure.
use xe6_tsy.Common.{
  Bool, true, false, not, ◌&&◌, ◌||◌, Option, none, some, String, List, [], ◌∷◌, if◌then◌else◌,
  str_eq, is_blank,
}
use xe6_tsy.Contract.Runtime.{
  RuntimeState, stopped, listening, asr_processing, translating, thinking, assistant_processing,
  tts_processing, playing, stopping, failed, RuntimeErrorCode, pipeline_failed, other, valid_code,
  RuntimeSnapshot, state_eq,
}
use xe6_tsy.Lifecycle.{
  Error, context_error, session_id_required, runtime_not_found, invalid_update, identity_conflict,
  invalid_transition, invalid_error_code, wrapped, reported, read_runtime, save_progress,
  save_failure, World, Env, save_runtime,
}

pub record ProcessingStateUpdate : Type 0 where
  pub session_id : String
  pub runtime_state : RuntimeState
  pub current_turn_id : Option String
  pub current_playback_id : Option String
  pub expected_turn_id : Option String
  pub expected_playback_id : Option String

abbrev pub is_some {ℓ} : {A : Type ℓ} → Option A → Bool
is_some none = false
is_some (some a) = true

-- An identity that is there and not blank.
abbrev pub present : Option String → Bool
present none = false
present (some id) = not (is_blank id)

abbrev pub invalid_expected_identity : Option String → Bool
invalid_expected_identity none = false
invalid_expected_identity (some id) = is_blank id

-- Whether the identities fit the state: the switch of `validateRuntimeUpdate`.
unfoldable pub fits : RuntimeState → Option String → Option String → Bool
fits listening turn playback = not (is_some turn) && not (is_some playback)
fits asr_processing turn playback = present turn && not (is_some playback)
fits translating turn playback = present turn && not (is_some playback)
fits thinking turn playback = present turn && not (is_some playback)
fits assistant_processing turn playback = present turn && not (is_some playback)
fits tts_processing turn playback = present turn && present playback
fits playing turn playback = present turn && present playback
fits _ turn playback = false

unfoldable pub validate_runtime_update : ProcessingStateUpdate → Option Error
validate_runtime_update u =
    if is_blank u.session_id
    then some session_id_required
    else if invalid_expected_identity u.expected_turn_id
        || invalid_expected_identity u.expected_playback_id
        || is_some u.expected_playback_id && not (is_some u.expected_turn_id)
    then some invalid_update
    else if fits u.runtime_state u.current_turn_id u.current_playback_id
    then none
    else some invalid_update

abbrev pub matches_expected_identity : Option String → Option String → Bool
matches_expected_identity current none = true
matches_expected_identity none (some id) = false
matches_expected_identity (some current) (some id) = str_eq current id

-- The switch of `validRuntimeProgressTransition`, on two states that differ.
unfoldable pub may_follow : RuntimeState → RuntimeState → Bool
may_follow listening next =
    state_eq next asr_processing
    || state_eq next translating
    || state_eq next thinking
    || state_eq next assistant_processing
    || state_eq next tts_processing
may_follow asr_processing next =
    state_eq next asr_processing
    || state_eq next translating
    || state_eq next thinking
    || state_eq next assistant_processing
    || state_eq next listening
may_follow translating next =
    state_eq next asr_processing || state_eq next tts_processing || state_eq next listening
may_follow assistant_processing next =
    state_eq next asr_processing || state_eq next tts_processing || state_eq next listening
may_follow thinking next =
    state_eq next asr_processing || state_eq next tts_processing || state_eq next listening
may_follow tts_processing next =
    state_eq next playing || state_eq next listening || state_eq next asr_processing
may_follow playing next = state_eq next listening || state_eq next asr_processing
may_follow _ next = false

unfoldable pub valid_runtime_progress_transition : RuntimeState → RuntimeState → Bool
valid_runtime_progress_transition current next = state_eq current next || may_follow current next

abbrev pub is_active_runtime_state : RuntimeState → Bool
is_active_runtime_state asr_processing = true
is_active_runtime_state translating = true
is_active_runtime_state thinking = true
is_active_runtime_state assistant_processing = true
is_active_runtime_state tts_processing = true
is_active_runtime_state playing = true
is_active_runtime_state _ = false

abbrev pub conflicting_identity : Option String → Option String → Bool
conflicting_identity (some current) (some next) = not (str_eq current next)
conflicting_identity _ _ = false

abbrev pub equal_string : Option String → Option String → Bool
equal_string none none = true
equal_string (some a) (some b) = str_eq a b
equal_string _ _ = false

unfoldable pub same_runtime_state : RuntimeSnapshot → ProcessingStateUpdate → Bool
same_runtime_state r u =
    state_eq r.runtime_state u.runtime_state
    && equal_string r.current_turn_id u.current_turn_id
    && equal_string r.current_playback_id u.current_playback_id
    && not (is_some r.last_error_code)

-- The guards of `SetProcessingState` on the stored snapshot.
unfoldable pub refuses : String → RuntimeSnapshot → ProcessingStateUpdate → Option Error
refuses id r u =
    if not (str_eq r.session_id id)
    then some identity_conflict
    else if not (matches_expected_identity r.current_turn_id u.expected_turn_id)
        || not (matches_expected_identity r.current_playback_id u.expected_playback_id)
    then some identity_conflict
    else if not (valid_runtime_progress_transition r.runtime_state u.runtime_state)
    then some invalid_transition
    else if not (is_active_runtime_state r.runtime_state && state_eq u.runtime_state asr_processing)
        && (conflicting_identity r.current_turn_id u.current_turn_id
            || conflicting_identity r.current_playback_id u.current_playback_id)
    then some identity_conflict
    else none

unfoldable pub advance : Env → ProcessingStateUpdate → World → RuntimeSnapshot → World × List Error
advance env u w r = elim (refuses u.session_id r u) [
  | some e ↦ (w, e ∷ [])
  | none ↦
      if same_runtime_state r u
      then (w, [])
      else let save =
          save_runtime env.save
            (record r {
              runtime_state = u.runtime_state;
              current_turn_id = u.current_turn_id;
              current_playback_id = u.current_playback_id;
              last_error_code = none;
              updated_at = env.now u.runtime_state;
            })
            w in
        (save.0, reported save_progress save.1)
]

-- The repository's read, by which both methods begin.
unfoldable pub with_runtime :
    Env → String → World → (RuntimeSnapshot → World × List Error) → World × List Error
with_runtime env id w next = elim env.read [
  | some why ↦ (w, wrapped read_runtime why ∷ [])
  | none ↦ elim (w.runtimes id) [ none ↦ (w, runtime_not_found ∷ []) | some r ↦ next r ]
]

unfoldable pub set_processing_state : Env → ProcessingStateUpdate → World → World × List Error
set_processing_state env u w = elim env.ctx [
  | some why ↦ (w, context_error why ∷ [])
  | none ↦ elim (validate_runtime_update u) [
    | some e ↦ (w, e ∷ [])
    | none ↦ with_runtime env u.session_id w (advance env u w)
  ]
]

-- `SetRuntimeFailed` with no code reports a failed pipeline.
unfoldable pub code_or_default : RuntimeErrorCode → RuntimeErrorCode
code_or_default (other s) = if is_blank s then pipeline_failed else other s
code_or_default code = code

-- A stop that is under way, or a failure, stays.
abbrev pub is_settled : RuntimeState → Bool
is_settled stopped = true
is_settled stopping = true
is_settled failed = true
is_settled _ = false

unfoldable pub fail : Env → String → RuntimeErrorCode → World → RuntimeSnapshot → World × List Error
fail env id code w r =
    if not (str_eq r.session_id id)
    then (w, identity_conflict ∷ [])
    else if is_settled r.runtime_state
    then (w, [])
    else let save =
        save_runtime env.save
          (record r {
            runtime_state = failed;
            current_turn_id = none;
            current_playback_id = none;
            last_error_code = some code;
            updated_at = env.now failed;
          })
          w in
      (save.0, reported save_failure save.1)

unfoldable pub set_runtime_failed : Env → String → RuntimeErrorCode → World → World × List Error
set_runtime_failed env id given w = elim env.ctx [
  | some why ↦ (w, context_error why ∷ [])
  | none ↦
      if is_blank id
      then (w, session_id_required ∷ [])
      else if not (valid_code (code_or_default given))
      then (w, invalid_error_code ∷ [])
      else with_runtime env id w (fail env id (code_or_default given) w)
]
