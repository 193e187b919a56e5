-- ===== src/Gate/Recognition.antt =====
-- services/realtime-audio/command/gate.go: the worker that recognizes, interprets and executes a command.
-- A worker's step is what it does between two moments at which it waits for the gate's mutex or for
-- another component; other calls may come between the steps. The metric of the interpretation's duration
-- is left out.
use xe6_tsy.Common.{
  ℕ, Bool, true, false, not, ◌||◌, ◌⊎◌, inl, inr, Option, none, some, String, List, [], ◌∷◌,
  if◌then◌else◌, ◌==◌, str_eq, codes,
}
use xe6_tsy.Contract.Mode.{Time, Mode, ModeSwitchStatus}
use xe6_tsy.Stabilizer.Scan.{Text, is_empty, trim_space}
use xe6_tsy.Gate.Registry.{Action, Candidate, Command, Result, ok, err, validate}
use xe6_tsy.Gate.Registry as Registry
use xe6_tsy.Gate.Wake.{strip_wake_word_prefix}
use xe6_tsy.Gate.{
  Failure, no_failure, asr_failed, interpretation_failed, not_allowed, execution_failed, canceled,
  is_recognizing, OpenRequest, ResultStatus, applied, unchanged, unsupported, failed, ResultEvent,
  failure_event, Outcome, Transcript, Phase, finishing, processing, concluded, publishing,
  completing, Worker, executed, Deps, Gate,
}
use xe6_tsy.Gate.Terminal.{publish_terminal_outcome, abandon, classify_failure}
use xe6_tsy.Gate.Messages.{
  ExecutionResult, ExecuteError, execution_interrupted, is_unchanged, command_success_fallback,
  execution_failure_feedback,
}

-- What a step of a worker finds: the recognizer's transcript, the interpreter's candidate for a text in a
-- language, and what the executor answers; its caller canceled, and its context's deadline passed.
pub record WorkEnv : Type 0 where
  pub transcript : Option Transcript
  pub interpret : Text → String → Option Candidate
  pub execute : Command → ExecuteError ⊎ ExecutionResult
  pub caller_canceled : Bool
  pub window_over : Bool
  pub now : Time

abbrev pub classified : WorkEnv → Failure → Failure
classified env fallback = classify_failure env.caller_canceled env.window_over fallback

-- `failureOutcome`, without a command and with one.
abbrev pub bare_outcome : OpenRequest → Failure → ResultStatus → String → Time → Outcome
bare_outcome q f status message now = record {
  event = failure_event q status (Registry.other "") (Mode.other "") message now;
  failure = f;
  succeeded = false;
}

abbrev pub command_outcome :
    OpenRequest → Failure → ResultStatus → String → Command → Time → Outcome
command_outcome q f status message parsed now = record {
  event = failure_event q status parsed.action parsed.target_mode message now;
  failure = f;
  succeeded = false;
}

abbrev pub result_status : ModeSwitchStatus → ResultStatus
result_status status = if is_unchanged status then unchanged else applied

unfoldable pub command_result_event :
    OpenRequest → Command → ExecutionResult → String → Time → ResultEvent
command_result_event q parsed execution message now = record {
  command_id = q.command_id;
  session_id = q.session_id;
  runtime_instance_id = execution.runtime_instance_id;
  generation = execution.generation;
  status = result_status execution.status;
  action = parsed.action;
  target_mode = parsed.target_mode;
  message = message;
  occurred_at = now;
}

abbrev pub is_interruption : ExecuteError → Bool
is_interruption execution_interrupted = true
is_interruption _ = false

-- What the executor's answer to a command comes to.
unfoldable pub executed_outcome :
    WorkEnv → OpenRequest → Command → ExecuteError ⊎ ExecutionResult → Outcome
executed_outcome env q parsed (inl e) =
    let told = execution_failure_feedback parsed e in
    if is_interruption e
    then command_outcome q canceled failed "回答已中断" parsed env.now
    else command_outcome q (classified env execution_failed) told.0 told.1 parsed env.now
executed_outcome env q parsed (inr execution) = record {
  event =
      command_result_event q parsed execution (command_success_fallback parsed execution) env.now;
  failure = no_failure;
  succeeded = true;
}

-- The command that a transcript comes to, or how processing it ends before there is one.
unfoldable pub understand : Deps → WorkEnv → OpenRequest → Transcript → Outcome ⊎ Command
understand d env q t =
    let command_text = strip_wake_word_prefix (codes t.text) in
    if is_empty (trim_space command_text)
    then inl (bare_outcome q interpretation_failed failed "没有识别到唤醒词后的问题，请稍作停顿后重试" env.now)
    else elim (env.interpret command_text t.source_language) [
      | none ↦
          inl
            (bare_outcome q (classified env interpretation_failed) failed "暂时无法理解这个指令，请重试" env.now)
      | some candidate ↦ elim (validate d.registry candidate) [
        | err e ↦ inl (bare_outcome q not_allowed unsupported "当前不支持这个能力" env.now)
        | ok parsed ↦ inr parsed
      ]
    ]

-- `runRecognition` from `stripWakeWordPrefix` on.
unfoldable pub process : Deps → WorkEnv → ℕ → OpenRequest → Transcript → Gate → Gate × Phase
process d env a q t g = elim (understand d env q t) [
  | inl o ↦ (g, concluded o)
  | inr parsed ↦ (
    record g { log = (a, executed parsed) ∷ g.log },
    concluded (executed_outcome env q parsed (env.execute parsed)),
  )
]

unfoldable pub begin_processing : String → Gate → Gate × Bool
begin_processing id g =
    if not (is_recognizing g.state) || not (str_eq g.request.command_id id) || g.closed
    then (g, false)
    else (record g { window_timer = false; capture_complete = true }, true)

-- `runRecognition` up to `beginProcessing`.
unfoldable pub finish : WorkEnv → OpenRequest → Option Transcript → Gate → Gate × Phase
finish env q none g =
    (g, concluded (bare_outcome q (classified env asr_failed) failed "命令语音识别失败，请重试" env.now))
finish env q (some t) g =
    let r = begin_processing q.command_id g in
    if r.1
    then (r.0, processing t)
    else (g, concluded (bare_outcome q canceled failed "上一条命令已被新的唤醒取消" env.now))

-- `recognize` under the mutex: an outcome counts while its attempt is the one being recognized.
unfoldable pub settle : ℕ → Outcome → Gate → Gate × Phase
settle a o g =
    if not (g.attempt == a) || not (is_recognizing g.state)
    then (g, completing)
    else (abandon g, publishing o)

abbrev pub find : ℕ → List Worker → Option Worker
find a [] = none
find a (w ∷ ws) = if w.attempt == a then some w else find a ws

abbrev pub set_phase : ℕ → Phase → List Worker → List Worker
set_phase a p [] = []
set_phase a p (w ∷ ws) =
    if w.attempt == a then record w { phase = p } ∷ ws else w ∷ set_phase a p ws

abbrev pub remove : ℕ → List Worker → List Worker
remove a [] = []
remove a (w ∷ ws) = if w.attempt == a then ws else w ∷ remove a ws

abbrev pub enter : ℕ → Gate × Phase → Gate
enter a (g, p) = record g { tasks = set_phase a p g.tasks }

-- One step of the worker of an attempt.
unfoldable pub advance : Deps → WorkEnv → ℕ → OpenRequest → Phase → Gate → Gate
advance d env a q finishing g = enter a (finish env q env.transcript g)
advance d env a q (processing t) g = enter a (process d env a q t g)
advance d env a q (concluded o) g = enter a (settle a o g)
advance d env a q (publishing o) g =
    enter a (record g { log = publish_terminal_outcome d a o g.log }, completing)
advance d env a q completing g = record g { tasks = remove a g.tasks }

unfoldable pub work : Deps → WorkEnv → ℕ → Gate → Gate
work d env a g = elim (find a g.tasks) [ none ↦ g | some w ↦ advance d env a w.request w.phase g ]
