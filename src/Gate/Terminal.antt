-- ===== src/Gate/Terminal.antt =====
-- services/realtime-audio/command/gate.go: how an attempt ends, with packages/contracts/realtime/v1/command.go.
use xe6_tsy.Common.{
  ℕ, Bool, true, false, not, ◌&&◌, ◌||◌, String, ◌∷◌, if◌then◌else◌, leb, ◌==◌, length, codes,
  is_blank, negative, positive,
}
use xe6_tsy.Contract.Mode.{Time, Mode, assistant, interpretation, other as other_mode, valid}
use xe6_tsy.Segmenter.{reset}
use xe6_tsy.Stabilizer.Scan.{text_eq, has, trim_space}
use xe6_tsy.Gate.Registry.{Action, activate_mode, return_to_assistant, assistant_query, other}
use xe6_tsy.Gate.{
  Gate, dormant, Failure, window_expired, canceled, OpenRequest, no_request, ResultStatus, applied,
  unchanged, ResultEvent, default_failure_result, Outcome, stream_closed, published, feedback,
  recorded, Log, Deps,
}

-- The text of an action, and of a mode.
abbrev pub action_text : Action → String
action_text activate_mode = "activate_mode"
action_text return_to_assistant = "return_to_assistant"
action_text assistant_query = "assistant_query"
action_text (other s) = s

abbrev pub mode_text : Mode → String
mode_text assistant = "assistant"
mode_text interpretation = "interpretation"
mode_text (other_mode s) = s

-- A native text is always valid UTF-8.
unfoldable pub valid_text : String → ℕ → Bool
valid_text value max_length =
    text_eq (trim_space (codes value)) (codes value)
    && not (is_blank value)
    && leb (length (codes value)) max_length
    && not (has 13 (codes value) || has 10 (codes value) || has 9 (codes value))

abbrev pub is_successful : ResultStatus → Bool
is_successful applied = true
is_successful unchanged = true
is_successful _ = false

abbrev pub bool_eq : Bool → Bool → Bool
bool_eq true b = b
bool_eq false b = not b

-- `Validate` gives no error.
unfoldable pub valid_event : ResultEvent → Bool
valid_event e =
    valid_text e.command_id 128
    && valid_text e.session_id 128
    && valid_text e.message 512
    && not (e.occurred_at == 0)
    && (is_blank (action_text e.action) || valid_text (action_text e.action) 64)
    && (is_blank (mode_text e.target_mode) || valid e.target_mode)
    && (if is_successful e.status
        then not (
            is_blank e.runtime_instance_id
            || not (positive e.generation)
            || is_blank (action_text e.action)
            || not (valid e.target_mode))
        else not (
            negative e.generation
            || not (bool_eq (is_blank e.runtime_instance_id) (e.generation == 0))))

unfoldable pub publish_result : Deps → ℕ → ResultEvent → Log → Log
publish_result d a e log =
    if not d.results || not (valid_event e) then log else (a, published e) ∷ log

unfoldable pub record_outcome : Deps → ℕ → ResultStatus → Failure → Log → Log
record_outcome d a status f log = if d.observer then (a, recorded status f) ∷ log else log

abbrev pub is_canceled : Failure → Bool
is_canceled canceled = true
is_canceled _ = false

abbrev pub is_query : Action → Bool
is_query assistant_query = true
is_query _ = false

unfoldable pub publish_feedback : Deps → ℕ → Outcome → Log → Log
publish_feedback d a o log =
    if d.feedback && not (is_canceled o.failure) && not (is_query o.event.action)
    then (a, feedback o.event o.succeeded) ∷ log
    else log

unfoldable pub publish_terminal_outcome : Deps → ℕ → Outcome → Log → Log
publish_terminal_outcome d a o log =
    publish_feedback d a o
      (record_outcome d a o.event.status o.failure (publish_result d a o.event log))

-- `_ = g.stream.Close()` where there is a stream.
abbrev pub close_stream : Bool → ℕ → Log → Log
close_stream stream a log = if stream then (a, stream_closed) ∷ log else log

-- `abandonLocked`.
unfoldable pub abandon : Gate → Gate
abandon g = record g {
  log = close_stream g.stream g.attempt g.log;
  state = dormant;
  request = no_request;
  segmenter = reset g.segmenter;
  capture_complete = false;
  stream = false;
  window_timer = false;
  silence_timer = false;
}

abbrev pub failure_outcome : OpenRequest → Failure → Time → Outcome
failure_outcome q f now = record {
  event = default_failure_result q f now;
  failure = f;
  succeeded = false;
}

-- `failLocked` but for its result.
unfoldable pub fail : Deps → Time → Failure → Gate → Gate
fail d now f g = abandon (record g {
  log = publish_terminal_outcome d g.attempt (failure_outcome g.request f now) g.log;
})

-- The caller was canceled, and the attempt's deadline has passed.
unfoldable pub classify_failure : Bool → Bool → Failure → Failure
classify_failure caller_canceled window_over fallback =
    if caller_canceled then canceled else if window_over then window_expired else fallback
