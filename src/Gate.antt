-- ===== src/Gate.antt =====
-- services/realtime-audio/command/gate.go: the command gate, which takes the audio that follows a wake word
-- away from the ordinary input and turns it into one command.
pub mod Processing
pub mod Shapes
pub mod Hearing
pub mod Pending
mod Tests
pub mod Drain
pub mod Lawful
pub mod Tally
pub mod Recent
pub mod Memory
pub mod Balance
pub mod Holding
pub mod Streams
pub mod Quarantine
pub mod Closing
pub mod Moves
pub mod Opening
pub mod Once
pub mod Workers
pub mod Settles
pub mod Weight
pub mod Registry
pub mod Wake
pub mod Terminal
pub mod Capture
pub mod Messages
pub mod Recognition
pub mod Calls
use xe6_tsy.Common.{
  ℕ, Bool, true, false, not, ◌&&◌, ◌||◌, Option, none, some, String, List, [], ◌∷◌, ◌++◌,
  if◌then◌else◌, ltb, leb, ◌==◌, str_eq, is_blank, positive, negative, less, length,
}
use xe6_tsy.Contract.Mode.{Time, Mode, valid}
use xe6_tsy.Segmenter.{Segmenter, new_segmenter, ok, err}
use xe6_tsy.Gate.Registry.{Action, other, Command, CapabilityDescriptor}

pub data State : Type 0 where
  dormant armed capturing recognizing : State

pub data Failure : Type 0 where
  no_failure window_expired no_speech asr_failed interpretation_failed : Failure
  not_allowed execution_failed canceled invalid_audio : Failure

-- Durations are int64 patterns.
pub record Options : Type 0 where
  pub window_ttl : ℕ
  pub no_speech_timeout : ℕ
  pub max_audio_duration : ℕ
  pub end_silence : ℕ
  pub prefix_padding : ℕ

pub record OpenRequest : Type 0 where
  pub session_id : String
  pub command_id : String
  pub source_language : String
  pub opened_at : Time
  pub capture_from : Time

abbrev pub no_request : OpenRequest
no_request = record {
  session_id = "";
  command_id = "";
  source_language = "";
  opened_at = 0;
  capture_from = 0;
}

-- packages/contracts/realtime/v1/command.go.
pub data ResultStatus : Type 0 where
  applied unchanged clarification_required unsupported failed : ResultStatus

pub record ResultEvent : Type 0 where
  pub command_id : String
  pub session_id : String
  pub runtime_instance_id : String
  pub generation : ℕ  -- int64
  pub status : ResultStatus
  pub action : Action
  pub target_mode : Mode
  pub message : String
  pub occurred_at : Time

-- `parsed` is `Command{}` where there is no command.
abbrev pub failure_event : OpenRequest → ResultStatus → Action → Mode → String → Time → ResultEvent
failure_event q status action mode message now = record {
  command_id = q.command_id;
  session_id = q.session_id;
  runtime_instance_id = "";
  generation = 0;
  status = status;
  action = action;
  target_mode = mode;
  message = message;
  occurred_at = now;
}

abbrev pub failure_message : Failure → String
failure_message window_expired = "命令窗口已超时，请重新唤醒后再试"
failure_message no_speech = "没有听到命令，请重新唤醒后再试"
failure_message asr_failed = "命令语音识别失败，请重试"
failure_message canceled = "上一条命令已被新的唤醒取消"
failure_message invalid_audio = "命令音频无效，请重试"
failure_message _ = "命令未执行，原模式保持不变"

abbrev pub default_failure_result : OpenRequest → Failure → Time → ResultEvent
default_failure_result q f now =
    failure_event q failed (other "") (Mode.other "") (failure_message f) now

-- What ends an attempt: the event, why it failed, and whether feedback phrases a success.
pub record Outcome : Type 0 where
  pub event : ResultEvent
  pub failure : Failure
  pub succeeded : Bool

-- What the recognizer heard, once its audio is final.
pub record Transcript : Type 0 where
  pub text : String
  pub source_language : String

-- A worker that recognizes one attempt: until its audio is final, while the command is processed, with
-- its outcome before and after it has taken the gate's mutex, and at its end.
pub data Phase : Type 0 where
  finishing : Phase
  processing : Transcript → Phase
  concluded publishing : Outcome → Phase
  completing : Phase

pub record Worker : Type 0 where
  pub attempt : ℕ
  pub request : OpenRequest
  pub phase : Phase

-- What the gate does outside: on the recognizer's stream, to the result, feedback and metrics sinks, and
-- to the executor.
pub data Effect : Type 0 where
  stream_started stream_closed : Effect
  audio_pushed : List ℕ → Effect
  published : ResultEvent → Effect
  -- Whether feedback phrases a success.
  feedback : ResultEvent → Bool → Effect
  recorded : ResultStatus → Failure → Effect
  executed : Command → Effect
  interrupted feedback_closed : Effect

-- What was done, with the attempt it was for, the latest first.
abbrev pub Log : Type 0
Log = List (ℕ × Effect)

-- The optional dependencies that are there, and the registry that validates.
pub record Deps : Type 0 where
  pub results : Bool
  pub feedback : Bool
  pub observer : Bool
  pub registry : List CapabilityDescriptor

-- `stream` is whether a stream is open, and the timers whether they are set. An attempt has its context
-- while the gate is not dormant.
pub record Gate : Type 0 where
  pub options : Options
  pub segmenter : Segmenter
  pub state : State
  pub request : OpenRequest
  pub stream : Bool
  pub attempt : ℕ  -- uint64
  pub window_timer : Bool
  pub silence_timer : Bool
  pub command_id_order : List String
  pub seen_command_ids : String → Bool
  pub tasks : List Worker
  pub capture_complete : Bool
  pub closed : Bool
  pub log : Log

unfoldable pub options_ok : Options → Bool
options_ok o = not (
    not (positive o.window_ttl)
    || not (positive o.no_speech_timeout)
    || not (positive o.max_audio_duration)
    || not (positive o.end_silence)
    || less o.window_ttl o.no_speech_timeout
    || less o.window_ttl o.max_audio_duration
    || not (less o.end_silence o.max_audio_duration)
    || negative o.prefix_padding
    || not (less o.prefix_padding o.max_audio_duration))

-- A gate that nothing has been asked of.
abbrev pub idle_gate : Options → Segmenter → Gate
idle_gate o segmenter = record {
  options = o;
  segmenter = segmenter;
  state = dormant;
  request = no_request;
  stream = false;
  attempt = 0;
  window_timer = false;
  silence_timer = false;
  command_id_order = [];
  seen_command_ids = λ id. false;
  tasks = [];
  capture_complete = false;
  closed = false;
  log = [];
}

unfoldable pub new_gate : Options → Option Gate
new_gate o =
    if not (options_ok o)
    then none
    else elim (new_segmenter (record {
      silence_after = o.end_silence;
      max_duration = o.max_audio_duration;
      max_buffered_duration = 0;
      prefix_padding = o.prefix_padding;
    })) [ err e ↦ none | ok segmenter ↦ some (idle_gate o segmenter) ]

abbrev pub is_dormant : State → Bool
is_dormant dormant = true
is_dormant _ = false

abbrev pub is_armed : State → Bool
is_armed armed = true
is_armed _ = false

abbrev pub is_recognizing : State → Bool
is_recognizing recognizing = true
is_recognizing _ = false
