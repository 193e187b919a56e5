-- ===== src/Contract/Mode.antt =====
-- packages/contracts/realtime/v1/mode.go: business modes, mode commands and mode-changed events.
-- A Go string type with constants is a data type with a constructor `other` for every other text,
-- or, where the code writes the constants only, with a constructor for each of these;
-- times are nanoseconds since Go's zero time, so `IsZero` is the test against 0.
use xe6_tsy.Common.{
  ℕ, Bool, true, false, not, ◌&&◌, ◌||◌, Option, none, some, String, ◌==◌, if◌then◌else◌, less,
  str_eq, is_blank,
}

abbrev pub Time : Type 0
Time = ℕ

pub data Mode : Type 0 where
  assistant interpretation : Mode
  other : String → Mode

pub data ModePhase : Type 0 where
  active switching : ModePhase

pub data ModeSwitchStatus : Type 0 where
  applied unchanged : ModeSwitchStatus

abbrev pub valid : Mode → Bool
valid assistant = true
valid interpretation = true
valid (other s) = false

-- m == n. `other` never holds the text of a constant.
unfoldable pub mode_eq : Mode → Mode → Bool
mode_eq assistant assistant = true
mode_eq interpretation interpretation = true
mode_eq (other s) (other t) = str_eq s t
mode_eq _ _ = false

-- An omitted mode is the empty text.
unfoldable pub or_legacy_default : Mode → Mode
or_legacy_default assistant = assistant
or_legacy_default interpretation = interpretation
or_legacy_default (other s) = if is_blank s then interpretation else other s

pub record ModeState : Type 0 where
  pub session_id : String
  pub runtime_instance_id : String
  pub active_mode : Mode
  pub generation : ℕ  -- int64
  pub phase : ModePhase
  pub last_operation_id : Option String
  pub updated_at : Time

pub record SwitchCommand : Type 0 where
  pub session_id : String
  pub runtime_instance_id : String
  pub operation_id : String
  pub trace_id : String
  pub expected_generation : ℕ  -- int64
  pub target_mode : Mode

pub record SwitchResult : Type 0 where
  pub operation_id : String
  pub status : ModeSwitchStatus
  pub state : ModeState

pub record ModeChanged : Type 0 where
  pub event_version : ℕ
  pub event_id : String
  pub trace_id : String
  pub session_id : String
  pub runtime_instance_id : String
  pub operation_id : String
  pub from_mode : Mode
  pub to_mode : Mode
  pub resulting_generation : ℕ  -- int64
  pub occurred_at : Time

abbrev pub mode_changed_event_version : ℕ
mode_changed_event_version = 1

-- The field that `ErrInvalidModeChangedEvent` names.
pub data Field : Type 0 where
  event_version event_id trace_id session_id runtime_instance_id operation_id : Field
  from_mode to_mode resulting_generation occurred_at : Field

-- `ModeChangedEvent.Validate`: `none` is success.
unfoldable pub validate : ModeChanged → Option Field
validate e =
    if not (e.event_version == mode_changed_event_version)
    then some event_version
    else if is_blank e.event_id
    then some event_id
    else if is_blank e.trace_id
    then some trace_id
    else if is_blank e.session_id
    then some session_id
    else if is_blank e.runtime_instance_id
    then some runtime_instance_id
    else if is_blank e.operation_id
    then some operation_id
    else if not (valid e.from_mode)
    then some from_mode
    else if not (valid e.to_mode) || mode_eq e.to_mode e.from_mode
    then some to_mode
    else if less e.resulting_generation 2
    then some resulting_generation
    else if e.occurred_at == 0
    then some occurred_at
    else none

-- `==` on two commands compares every field.
unfoldable pub command_eq : SwitchCommand → SwitchCommand → Bool
command_eq a b =
    str_eq a.session_id b.session_id
    && str_eq a.runtime_instance_id b.runtime_instance_id
    && str_eq a.operation_id b.operation_id
    && str_eq a.trace_id b.trace_id
    && a.expected_generation == b.expected_generation
    && mode_eq a.target_mode b.target_mode
