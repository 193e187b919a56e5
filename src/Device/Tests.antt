-- ===== src/Device/Tests.antt =====
-- sdks/device/state.go: a late observation of an old runtime.
use xe6_tsy.Common.{
  true, ℕ, suc, Option, some, ◌≡◌, ◌⊎◌, ◌≤◌, ◌<◌, if◌then◌else◌, ltb, ◌==◌, arith, ◌≢◌, refl, Bool,
  String, none, List, [], ◌∷◌, is_blank, str_eq, str_eq_iff,
}
use xe6_tsy.Contract.Mode.{ModeState, assistant, active}
use xe6_tsy.Device.Reconnect.{Error, Effect, Reconnector, Context, is_connected, run_reconnector}
use xe6_tsy.Device.Attempts.{tries, run_reconnector_ends}
use xe6_tsy.Device.{
  ConnectionState, disconnected, StateStore, new_state_store, untouched, apply, replaces,
  apply_mode,
}
use xe6_tsy.Device.Display.{Observation, of_mode, step, run, old_instance_gone}

abbrev blank : String → Bool
blank s = is_blank s

abbrev store : StateStore
store = record { session = "s"; connection = untouched; runtime = untouched; mode = untouched }

abbrev old_mode : ModeState
old_mode = record {
  session_id = "s";
  runtime_instance_id = "r1";
  active_mode = assistant;
  generation = 1;
  phase = active;
  last_operation_id = none;
  updated_at = 1;
}

abbrev new_mode : ModeState
new_mode = record old_mode { runtime_instance_id = "r2"; updated_at = 2 }

abbrev late : List Observation
late = of_mode (record old_mode { generation = 7; updated_at = 3 }) ∷ []

old_instance_gone_example : new_mode.runtime_instance_id ≢ old_mode.runtime_instance_id
unfolding new_state_store run step apply_mode apply replaces str_eq
old_instance_gone_example =
    old_instance_gone blank "s" store (of_mode old_mode ∷ []) (of_mode new_mode ∷ []) late old_mode
      new_mode new_mode refl refl refl (λ e. cc ((str_eq_iff "r1" "r2").1 e)) refl

-- The second attempt succeeds, and the policy would have refused the fourth.
abbrev patient : ℕ → ConnectionState → Option ℕ
patient attempt state = if ltb attempt 4 then some 1_000 else none

abbrev second : ℕ → Bool
second attempt = attempt == 2

abbrev reconnector : Reconnector
reconnector = record { policy = some patient; connect = some second; sleep = none; on_state = true }

abbrev alive : Context
alive = record { in_sleep = λ attempt. none; after = λ attempt. none }

run_reconnector_ends_example :
    (x : Option Error × List Effect) × (run_reconnector reconnector alive (suc 3) disconnected
      ≡ some x)
    × (tries x.1 < suc 3)
    × ((is_connected disconnected ≡ true)
        ⊎ (((e : Error) × (x.0 ≡ some e)) ⊎ ((m : ℕ) × (1 ≤ m) × (m < suc 3) × (second m ≡ true))))
run_reconnector_ends_example =
    run_reconnector_ends reconnector patient second alive disconnected 3 refl refl refl
      (omega arith)
