-- ===== src/Coordinator/Tests.antt =====
-- Runs of the mode coordinator, and its theorems at concrete inputs.
use xe6_tsy.Common.{
  ℕ, ◌+◌, ◌≡◌, ◌≢◌, refl, sym, subst, All, sign_bit, ◌<◌, word_mod, true, false, ◌||◌, none, some,
  String, List, [], ◌∷◌, ◌++◌, arith, str_eq, str_eq_iff, empty, length,
}
use xe6_tsy.Contract.Mode.{
  Mode, assistant, interpretation, mode_eq, command_eq, SwitchCommand, SwitchResult, ModeChanged,
  active, applied,
}
use xe6_tsy.Turn.Tests.{turn}
use xe6_tsy.Coordinator.{
  Coordinator, Env, ok, err, generation_conflict, new, register, remember, evict, commit_pending,
  command_ok, event_id_of, prepare, stay, compare_and_switch, after_recovery, resume, replay,
  switch, run,
}
use xe6_tsy.Coordinator.History.{
  Follows, Consistent, accepted-Follows, new-Consistent, freeze-Consistent,
}
use xe6_tsy.Coordinator.Retry.{switch_retry}
use xe6_tsy.Coordinator.Window.{
  IsWindow, recent, enqueue, recent-remember, switch-IsWindow, new-IsWindow,
}
use xe6_tsy.Coordinator.Decision.{Decides, switch_Decides, switch_recovers}
use xe6_tsy.Coordinator.Commit.{CommitEnv, commit_turn, turn_mode}
use xe6_tsy.Coordinator.Faithful.{Faithful, accepted-Faithful}
use xe6_tsy.Coordinator.Fence.{stale_turn_refused}

abbrev pub digest : String → String
digest s = s

abbrev pub modes : List Mode
modes = assistant ∷ interpretation ∷ []

abbrev pub start : Coordinator
start = record {
  state = record {
    session_id = "s";
    runtime_instance_id = "rt";
    active_mode = assistant;
    generation = 1;
    phase = active;
    last_operation_id = none;
    updated_at = 5;
  };
  available = λ n. mode_eq interpretation n || (mode_eq assistant n || false);
  operations = empty;
  operation_order = [];
  operation_cursor = 0;
  pending = none;
  accepted = [];
}

pub start_is_new : new "s" "rt" assistant modes true 5 ≡ ok start
unfolding new register mode_eq str_eq
start_is_new = refl

abbrev start_consistent : Consistent assistant start
start_consistent = new-Consistent "s" "rt" assistant modes true 5 start start_is_new

abbrev pub alive : Env
alive = record { ctx_before = none; ctx_locked = none; now = 9; publish = λ e. none }

abbrev pub down : Env
down = record { ctx_before = none; ctx_locked = none; now = 9; publish = λ e. some "down" }

abbrev pub ask : String → ℕ → Mode → SwitchCommand
ask operation generation target = record {
  session_id = "s";
  runtime_instance_id = "rt";
  operation_id = operation;
  trace_id = "t";
  expected_generation = generation;
  target_mode = target;
}

abbrev pub calls : List (Env × SwitchCommand)
calls = (down, ask "a" 1 interpretation) ∷ (alive, ask "b" 1 assistant) ∷ []

-- The first command is frozen, the second commits it and meets the new generation.
recovered : (run digest calls start).state.generation ≡ 2
unfolding run switch replay resume after_recovery compare_and_switch commit_pending remember evict
    prepare stay command_ok event_id_of command_eq mode_eq str_eq
recovered = refl

accepted-Follows_example : let d = run digest calls start in Follows assistant 1 d.accepted d.state
accepted-Follows_example =
    accepted-Follows digest "s" "rt" assistant modes true 5 start start_is_new calls

abbrev answer : SwitchResult
answer = record {
  operation_id = "a";
  status = applied;
  state = record {
    session_id = "s";
    runtime_instance_id = "rt";
    active_mode = interpretation;
    generation = 2;
    phase = active;
    last_operation_id = some "a";
    updated_at = 9;
  };
}

abbrev switched : Coordinator
switched = (switch digest alive (ask "a" 1 interpretation) start).0

switched_lem : switch digest alive (ask "a" 1 interpretation) start ≡ (switched, ok answer)
unfolding switch replay resume after_recovery compare_and_switch commit_pending remember evict
    prepare stay command_ok event_id_of command_eq mode_eq str_eq
switched_lem = refl

different : ◌≢◌ {A = String} "a" "b"
unfolding str_eq
different e = cc ((str_eq_iff "a" "b").1 e)

abbrev window : IsWindow start
window = new-IsWindow "s" "rt" assistant modes true 5 start start_is_new

switch_retry_example :
    switch digest down
      (ask "a" 1 interpretation)
      (run digest ((alive, ask "b" 2 assistant) ∷ []) switched)
    ≡ (run digest ((alive, ask "b" 2 assistant) ∷ []) switched, ok answer)
switch_retry_example =
    switch_retry digest assistant alive down (ask "a" 1 interpretation) start switched answer
      ((alive, ask "b" 2 assistant) ∷ []) start_consistent window refl switched_lem (omega arith)
      refl refl

recent-remember_example :
    recent (remember (ask "a" 1 interpretation) answer start) ≡ enqueue "a" (recent start)
recent-remember_example = recent-remember (ask "a" 1 interpretation) answer start window

switch-IsWindow_example : IsWindow (switch digest alive (ask "a" 1 interpretation) start).0
switch-IsWindow_example = switch-IsWindow digest alive (ask "a" 1 interpretation) start window

switch_Decides_example :
    let q = ask "a" 1 interpretation in
    Decides digest alive q start (switch digest alive q start).0 (switch digest alive q start).1
switch_Decides_example = switch_Decides digest alive (ask "a" 1 interpretation) start refl refl

-- The coordinator that waits for the sink.
abbrev waiting : Coordinator
waiting = record start { pending = some (prepare digest 9 (ask "a" 1 interpretation) start) }

waiting_consistent : Consistent assistant waiting
unfolding mode_eq
waiting_consistent =
    freeze-Consistent digest assistant 9 (ask "a" 1 interpretation) start start_consistent refl

switch_recovers_example :
    let q = ask "b" 1 assistant in
    let d = (switch digest alive q waiting).0 in
    ((switch digest alive q waiting).1 ≡ err generation_conflict)
    × (d.state ≡ (prepare digest 9 (ask "a" 1 interpretation) start).result.state)
    × (d.accepted ≡ [] ++ (prepare digest 9 (ask "a" 1 interpretation) start).event ∷ [])
    × (d.pending ≡ none)
unfolding command_ok str_eq prepare
switch_recovers_example =
    switch_recovers digest alive (ask "b" 1 assistant) assistant waiting
      (prepare digest 9 (ask "a" 1 interpretation) start) waiting_consistent refl different refl
      refl refl refl refl refl refl refl

abbrev publishes : CommitEnv
publishes = record { ctx_before = none; ctx_locked = none; callback = none }

one_call_accepted :
    length start.accepted
    ≢ length (run digest ((alive, ask "a" 1 interpretation) ∷ []) start).accepted
unfolding run switch replay resume after_recovery compare_and_switch commit_pending remember evict
    prepare stay command_ok event_id_of command_eq mode_eq str_eq
one_call_accepted e = omega arith

one_call_small :
    length (run digest ((alive, ask "a" 1 interpretation) ∷ []) start).accepted + 1 < word_mod
unfolding run switch replay resume after_recovery compare_and_switch commit_pending remember evict
    prepare stay command_ok event_id_of command_eq mode_eq str_eq
one_call_small = omega arith

stale_turn_refused_example :
    let d = run digest ((alive, ask "a" 1 interpretation) ∷ []) start in
    ((commit_turn publishes (turn 1) d []).0 ≡ [])
    × ((commit_turn publishes (turn 1) d []).1 ≢ ok true)
unfolding turn_mode
stale_turn_refused_example =
    stale_turn_refused digest assistant start ((alive, ask "a" 1 interpretation) ∷ []) publishes
      (turn 1) [] start_consistent refl one_call_accepted one_call_small

abbrev pub recovery_event : ModeChanged
recovery_event = record {
  event_version = 1;
  event_id = "mode_changed_s\0rt\0a";
  trace_id = "t";
  session_id = "s";
  runtime_instance_id = "rt";
  operation_id = "a";
  from_mode = assistant;
  to_mode = interpretation;
  resulting_generation = 2;
  occurred_at = 9;
}

pub acknowledged : (run digest calls start).accepted ≡ recovery_event ∷ []
unfolding run switch replay resume after_recovery compare_and_switch commit_pending remember evict
    prepare stay command_ok event_id_of command_eq mode_eq str_eq
acknowledged = refl

pub ticking : All (λ call. call.0.now ≢ 0) calls
ticking = (λ e. absurd (omega (arith, e)), (λ e. absurd (omega (arith, e)), tt))

pub few : length (run digest calls start).accepted + 1 < sign_bit
few = subst (λ es. length es + 1 < sign_bit) (sym acknowledged) (omega arith)

accepted-Faithful_example :
    All (Faithful (run digest calls start).state) (run digest calls start).accepted
accepted-Faithful_example =
    accepted-Faithful digest "s" "rt" assistant modes true 5 start start_is_new calls ticking few
