-- ===== src/Gate/Tests.antt =====
-- services/realtime-audio/command/gate.go: a spoken command that is heard, interpreted and executed, and an
-- attempt that another one supersedes.
use xe6_tsy.Common.{
  ◌≤◌, Bool, true, false, ◌+◌, ◌≡◌, ◌≢◌, refl, inr, none, some, String, List, [], ◌∷◌, arith,
  str_eq,
}
use xe6_tsy.Contract.Mode.{interpretation, applied, Time}
use xe6_tsy.Segmenter.{Frame, Segmenter, options_ok as segmenter_options_ok, new_segmenter}
use xe6_tsy.Languages.Validate.{unset}
use xe6_tsy.Gate.{
  recognizing, finishing, is_dormant, OpenRequest, Options, Deps, Gate,
  options_ok as gate_options_ok, idle_gate, new_gate,
}
use xe6_tsy.Gate.Registry.{activate_mode, Candidate}
use xe6_tsy.Gate.Capture.{Env}
use xe6_tsy.Gate.Recognition.{WorkEnv}
use xe6_tsy.Gate.Calls.{
  Call, opening, consuming, working, open_gate, cancel, step, valid_request, supersede, arm,
  remember_command_id, run,
}
use xe6_tsy.Gate.Terminal.{abandon}
use xe6_tsy.Gate.Weight.{executing, recording, told, pending, running}
use xe6_tsy.Gate.Tally.{counted}
use xe6_tsy.Gate.Streams.{Held}
use xe6_tsy.Gate.Once.{at_most_once, one_outcome_each}
use xe6_tsy.Gate.Balance.{run-Held}
use xe6_tsy.Gate.Lawful.{unlawful, executes_allowed}
use xe6_tsy.Gate.Closing.{canceled_for_good}

abbrev options : Options
options = record {
  window_ttl = 100;
  no_speech_timeout = 50;
  max_audio_duration = 60;
  end_silence = 10;
  prefix_padding = 0;
}

abbrev segmenter : Segmenter
segmenter = record {
  options = record {
    silence_after = 10;
    max_duration = 60;
    max_buffered_duration = 0;
    prefix_padding = 0;
  };
  active = false;
  started_at = 0;
  last_speech = 0;
  last_seen = 0;
  frames = [];
  prefix_frames = [];
}

abbrev gate : Gate
gate = idle_gate options segmenter

abbrev deps : Deps
deps = record {
  results = true;
  feedback = true;
  observer = true;
  registry =
      record {
        mode = interpretation;
        description = "translates";
        schema_version = 1;
        actions = activate_mode ∷ [];
      }
      ∷ [];
}

abbrev asking : String → OpenRequest
asking id = record {
  session_id = "s";
  command_id = id;
  source_language = "zh-CN";
  opened_at = 1_000;
  capture_from = 0;
}

abbrev frame : Time → Frame
frame t = record { pcm = 1 ∷ 2 ∷ []; sample_rate = 16_000; captured_at = t }

abbrev hearing : Bool → Env
hearing speech = record {
  ctx_done = false;
  caller_canceled = false;
  window_over = false;
  speech = speech;
  stream_starts = true;
  accepts = λ pcm. true;
  now = 1_050;
}

abbrev switching : Candidate
switching = record {
  text = "打开翻译";
  action = activate_mode;
  target_mode = interpretation;
  arguments = record { source_language = ""; target_language = ""; output_mode = unset };
}

abbrev answering : WorkEnv
answering = record {
  transcript = some (record { text = "小灵小灵，打开翻译"; source_language = "zh-CN" });
  interpret = λ text language. some switching;
  execute = λ command. inr (record {
    status = applied;
    runtime_instance_id = "r";
    generation = 2;
    language_config = none;
  });
  caller_canceled = false;
  window_over = false;
  now = 1_060;
}

-- The first attempt is superseded, and the second one runs to its end.
abbrev heard : List Call
heard =
    opening 1_000 (asking "c1")
    ∷ opening 1_001 (asking "c2")
    ∷ consuming (hearing true) (frame 1_002)
    ∷ consuming (hearing false) (frame 1_020)
    ∷ []

abbrev worked : List Call
worked =
    opening 1_000 (asking "c1")
    ∷ opening 1_001 (asking "c2")
    ∷ consuming (hearing true) (frame 1_002)
    ∷ consuming (hearing false) (frame 1_020)
    ∷ working answering 2
    ∷ working answering 2
    ∷ working answering 2
    ∷ working answering 2
    ∷ working answering 2
    ∷ []

gate_made : new_gate options ≡ some gate
unfolding new_gate new_segmenter gate_options_ok segmenter_options_ok
gate_made = refl

-- The first attempt ends as the second one opens.
abbrev superseded : List Call
superseded = opening 1_000 (asking "c1") ∷ opening 1_001 (asking "c2") ∷ []

superseded_state :
    ((run deps superseded gate).closed ≡ false) × ((run deps superseded gate).attempt ≡ 2)
unfolding run step open_gate valid_request str_eq arm abandon supersede remember_command_id
superseded_state = (refl, refl)

at_most_once_example : told executing 2 (run deps worked gate).log ≤ 1
at_most_once_example = at_most_once deps options gate worked executing 2 gate_made (omega arith)

one_outcome_each_example :
    told recording 1 (run deps superseded gate).log
      + (pending recording 1 (run deps superseded gate).tasks
          + running recording 1 (run deps superseded gate).state (run deps superseded gate).attempt)
    ≡ 1
one_outcome_each_example =
    one_outcome_each deps options gate superseded 1 gate_made (omega arith) refl superseded_state.0
      (omega arith) (omega (arith, superseded_state.1))

executes_allowed_example : counted (unlawful deps) (run deps worked gate).log ≡ 0
executes_allowed_example = executes_allowed deps options gate worked gate_made

run-Held_example : Held (run deps heard gate)
run-Held_example = run-Held deps options gate heard gate_made

-- The worker of the second attempt is under way as the gate is canceled.
canceled_for_good_example :
    (is_dormant (run deps (working answering 2 ∷ []) (cancel deps (run deps heard gate))).state
      ≡ true)
    × ((open_gate deps 1_070
          (asking "c3")
          (run deps (working answering 2 ∷ []) (cancel deps (run deps heard gate)))).1
        ≢ none)
canceled_for_good_example =
    canceled_for_good deps (run deps heard gate) (working answering 2 ∷ []) 1_070 (asking "c3")

abbrev busy : Gate
busy = record gate {
  state = recognizing;
  stream = true;
  attempt = 2;
  tasks = record { attempt = 2; request = asking "c2"; phase = finishing } ∷ [];
}
