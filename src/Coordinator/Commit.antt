-- ===== src/Coordinator/Commit.antt =====
-- services/realtime-audio/runtime/mode.go: the fence before a Turn's facts are published, and the
-- lookup of a session's coordinator in the Manager.
use xe6_tsy.Common.{
  ◌≡◌, ◌≢◌, ◌⊎◌, Bool, true, false, not, ◌&&◌, ◌||◌, Option, none, some, String, List, [], ◌∷◌,
  ◌++◌, arith, if◌then◌else◌, ◌==◌, positive, str_eq, str_eq_iff, is_blank,
}
use xe6_tsy.Contract.Mode.{valid, mode_eq}
use xe6_tsy.Contract.Equality.{mode_eq_iff}
use xe6_tsy.Turn.{Turn, TurnMode}
use xe6_tsy.Coordinator.{
  Coordinator, ContextError, Result, ok, err, context_error, command_invalid, commit_failed,
}

-- `ctx.Err()` before and after the lock is taken, and what the commit callback answers.
pub record CommitEnv : Type 0 where
  pub ctx_before : Option ContextError
  pub ctx_locked : Option ContextError
  pub callback : Option String

-- The checks that need no coordinator.
unfoldable pub turn_ok : Turn → Bool
turn_ok t = not (
    is_blank t.session_id
    || not (str_eq t.mode.session_id t.session_id)
    || is_blank t.mode.runtime_instance_id
    || not (valid t.mode.mode)
    || not (positive t.mode.generation))

-- The Turn's snapshot is the coordinator's state.
unfoldable pub is_current : Turn → Coordinator → Bool
is_current t c =
    str_eq t.mode.runtime_instance_id c.state.runtime_instance_id
    && mode_eq t.mode.mode c.state.active_mode
    && t.mode.generation == c.state.generation

-- `commitTurn` under the lock. `facts` lists the Turns whose callback has published, oldest first.
unfoldable pub commit_locked : CommitEnv → Turn → Coordinator → List Turn → List Turn × Result Bool
commit_locked env t c facts = elim env.ctx_locked [
  | some e ↦ (facts, err (context_error e))
  | none ↦
      if not (str_eq t.session_id c.state.session_id)
      then (facts, err command_invalid)
      else if not (is_current t c)
      then (facts, ok false)
      else elim env.callback [
        | some why ↦ (facts, err (commit_failed why))
        | none ↦ (facts ++ t ∷ [], ok true)
      ]
]

unfoldable pub commit_turn : CommitEnv → Turn → Coordinator → List Turn → List Turn × Result Bool
commit_turn env t c facts = elim env.ctx_before [
  | some e ↦ (facts, err (context_error e))
  | none ↦ if not (turn_ok t) then (facts, err command_invalid) else commit_locked env t c facts
]

-- `managerTurnModeReader.GetTurnMode` on a coordinator that is there.
unfoldable pub turn_mode : Coordinator → TurnMode
turn_mode c = record {
  session_id = c.state.session_id;
  runtime_instance_id = c.state.runtime_instance_id;
  mode = c.state.active_mode;
  generation = c.state.generation;
}

-- A runtime entry of the Manager, as far as its lookups read it.
pub record Entry : Type 0 where
  pub mode : Option Coordinator
  pub stopping : Bool
  pub terminal : Bool
  pub finished : Bool

-- `currentModeRuntime`: `none` is `ErrRuntimeNotFound`.
unfoldable pub current_mode_runtime : Option Entry → Option Coordinator
current_mode_runtime none = none
current_mode_runtime (some e) = if e.stopping || e.terminal || e.finished then none else e.mode

-- `currentFinalTurnCoordinator` also finds a runtime that is stopping.
unfoldable pub current_final_turn_coordinator : Option Entry → Option Coordinator
current_final_turn_coordinator none = none
current_final_turn_coordinator (some e) = if e.terminal || e.finished then none else e.mode

-- A Turn is published exactly when its context is alive, it is well formed, the callback publishes,
-- and its session, instance, mode and generation are those of the coordinator at that moment.
-- Otherwise nothing is published.
pub commit_turn-published :
    (env : CommitEnv) (t : Turn) (c : Coordinator) (facts : List Turn)
    → (commit_turn env t c facts ≡ (facts ++ t ∷ [], ok true)
        × (t.session_id ≡ c.state.session_id)
        × (t.mode.runtime_instance_id ≡ c.state.runtime_instance_id)
        × (t.mode.mode ≡ c.state.active_mode)
        × (t.mode.generation ≡ c.state.generation)
        × (env.callback ≡ none))
      ⊎ ((commit_turn env t c facts).0 ≡ facts) × ((commit_turn env t c facts).1 ≢ ok true)
unfolding commit_turn commit_locked is_current
commit_turn-published env t c facts = ground (
  arith,
  str_eq_iff t.session_id c.state.session_id,
  str_eq_iff t.mode.runtime_instance_id c.state.runtime_instance_id,
  mode_eq_iff t.mode.mode c.state.active_mode,
)
