-- ===== src/Lifecycle/Tests.antt =====
-- services/realtime-audio/session: the lifecycle's theorems at concrete inputs.
use xe6_tsy.Common.{◌≡◌, ◌≢◌, refl, true, false, none, some, List, [], ◌∷◌, inl, str_eq, ◌≤◌}
use xe6_tsy.Contract.Mode.{assistant}
use xe6_tsy.Contract.Runtime.{translating, start_failed}
use xe6_tsy.Lifecycle.{
  World, Env, SessionSnapshot, StartCommand, StopCommand, save_runtime, cleanup_required,
  operation_conflict,
}
use xe6_tsy.Lifecycle.Start.{activate, listen, run_pipeline, launch, take_over, start_runtime}
use xe6_tsy.Lifecycle.Stop.{stop_runtime}
use xe6_tsy.Lifecycle.Progress.{ProcessingStateUpdate}
use xe6_tsy.Lifecycle.Invariant.{Sound}
use xe6_tsy.Lifecycle.Runs.{Call, start, stop, progress, failure, step, run, new_world, run-Sound}
use xe6_tsy.Lifecycle.Retry.{Reaches, other_start_refused}
use xe6_tsy.Lifecycle.Ends.{Over, Works, stop_ends, failed_stop_blocks}
use xe6_tsy.Lifecycle.Locks.{
  Locker, Caller, waiting, enter, acquire, entering, acquiring, new_keyed_locker, Reachable, first,
  further,
}
use xe6_tsy.Lifecycle.Locks.Counts.{key_holders}
use xe6_tsy.Lifecycle.Locks.Exclusion.{at_most_one_holder}

abbrev created : SessionSnapshot
created = record {
  session_id = "s";
  account_id = "a";
  initial_mode = assistant;
  start_operation_id = "op";
  trace_id = "t";
  status = "created";
}

abbrev working : Env
working = record {
  ctx = none;
  read = none;
  session = created;
  session_failure = none;
  save = λ r. none;
  cleanup_save = λ r. none;
  start = λ b. none;
  activate = some none;
  active = some true;
  stop = none;
  close = none;
  now = λ s. 5;
}

abbrev stuck : Env
stuck = record working { stop = some "busy" }

abbrev begin : StartCommand
begin = record {
  session_id = "s";
  operation_id = "op";
  trace_id = "t";
  started_by = "u";
  initial_mode = assistant;
}

abbrev begin_other : StartCommand
begin_other = record begin { operation_id = "op2" }

abbrev halt : StopCommand
halt = record { session_id = "s"; trace_id = "t"; reason = "done"; ended_at = 9 }

abbrev translate : ProcessingStateUpdate
translate = record {
  session_id = "s";
  runtime_state = translating;
  current_turn_id = some "turn";
  current_playback_id = none;
  expected_turn_id = none;
  expected_playback_id = none;
}

abbrev calls : List (Env × Call)
calls =
    (working, start begin)
    ∷ (working, progress translate)
    ∷ (stuck, stop halt)
    ∷ (working, failure "s" start_failed)
    ∷ []

run-Sound_example : Sound (run calls new_world)
run-Sound_example = run-Sound calls

abbrev running : World
running = run ((working, start begin) ∷ []) new_world

running_live : running.live "s" ≡ true
unfolding str_eq run step start_runtime take_over launch save_runtime run_pipeline listen activate
running_live = refl

abbrev ended : World
ended = run ((working, start begin) ∷ (working, stop halt) ∷ []) new_world

path_clear : Reaches working begin
unfolding str_eq
path_clear = record { alive = refl; named = refl; owned = refl; readable = refl }

path_clear_2 : Reaches working begin_other
unfolding str_eq
path_clear_2 = record { alive = refl; named = refl; owned = refl; readable = refl }

other_start_refused_example :
    start_runtime working begin_other (start_runtime working begin new_world).0 ≡ (
      (start_runtime working begin new_world).0,
      (start_runtime working begin new_world).1,
      operation_conflict ∷ [],
    )
unfolding str_eq start_runtime take_over launch save_runtime run_pipeline listen activate
other_start_refused_example =
    other_start_refused working working begin begin_other new_world refl path_clear_2 refl
      (λ e. cc e)

obedient : Works working halt
unfolding str_eq
obedient = record {
  alive = refl;
  named = refl;
  readable = refl;
  saves = λ r. refl;
  cleanup_saves = λ r. refl;
}

obedient_store : Works stuck halt
unfolding str_eq
obedient_store = record {
  alive = refl;
  named = refl;
  readable = refl;
  saves = λ r. refl;
  cleanup_saves = λ r. refl;
}

stop_ends_example :
    let a = stop_runtime working halt running in
    (a.2 ≡ [])
    × (a.0.live "s" ≡ false)
    × (a.0.connected "s" ≡ false)
    × (a.0.runtimes "s" ≡ a.1)
    × Over a.1
unfolding str_eq run step start_runtime take_over launch save_runtime run_pipeline listen activate
stop_ends_example =
    stop_ends working halt running _ obedient refl refl (run-Sound ((working, start begin) ∷ []))
      refl refl

failed_stop_blocks_example :
    let a = stop_runtime stuck halt running in
    (a.2 ≢ []) × (start_runtime working begin_other a.0 ≡ (a.0, a.1, cleanup_required ∷ []))
unfolding str_eq run step start_runtime take_over launch save_runtime run_pipeline listen activate
failed_stop_blocks_example =
    failed_stop_blocks stuck working halt begin_other running _ obedient_store (inl (λ e. cc e))
      refl refl path_clear_2 refl

-- Two callers come for one key, and the second of them takes the mutex.
abbrev first_in : Locker
first_in = enter "s" none new_keyed_locker

abbrev both_in : Locker
both_in = enter "s" (some 0) first_in

abbrev caller : Caller
caller = record { key = "s"; entry = 0; phase = waiting }

abbrev one_holds : Locker
one_holds = acquire [] caller (caller ∷ []) both_in

one_holds-reached : Reachable one_holds
unfolding str_eq enter
one_holds-reached =
    further (further (further first (entering "s" new_keyed_locker)) (entering "s" first_in))
      (acquiring [] caller (caller ∷ []) both_in refl refl refl)

at_most_one_holder_example : key_holders "s" one_holds.callers ≤ 1
at_most_one_holder_example = at_most_one_holder one_holds "s" one_holds-reached
