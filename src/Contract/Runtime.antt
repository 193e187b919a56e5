-- ===== src/Contract/Runtime.antt =====
-- packages/contracts/realtime/v1/runtime_state.go: the state of a session's media runtime. The code
-- writes no other runtime state than the constants.
use xe6_tsy.Common.{ℕ, Bool, true, false, Option, String, ◌==◌}
use xe6_tsy.Contract.Mode.{Time}

pub data RuntimeState : Type 0 where
  stopped starting listening asr_processing translating thinking : RuntimeState
  assistant_processing tts_processing playing stopping failed : RuntimeState

pub data RuntimeErrorCode : Type 0 where
  start_failed stop_failed pipeline_failed translation_rejected : RuntimeErrorCode
  other : String → RuntimeErrorCode

-- `RuntimeErrorCode.Valid`.
abbrev pub valid_code : RuntimeErrorCode → Bool
valid_code (other s) = false
valid_code _ = true

pub record RuntimeSnapshot : Type 0 where
  pub session_id : String
  pub start_operation_id : String
  pub runtime_state : RuntimeState
  pub current_turn_id : Option String
  pub current_playback_id : Option String
  pub last_error_code : Option RuntimeErrorCode
  pub updated_at : Time

abbrev rank : RuntimeState → ℕ
rank stopped = 0
rank starting = 1
rank listening = 2
rank asr_processing = 3
rank translating = 4
rank thinking = 5
rank assistant_processing = 6
rank tts_processing = 7
rank playing = 8
rank stopping = 9
rank failed = 10

-- s == t.
abbrev pub state_eq : RuntimeState → RuntimeState → Bool
state_eq s t = rank s == rank t
