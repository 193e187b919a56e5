-- ===== src/Projection/Tests.antt =====
-- Runs of the API's mode projection, and its theorems at concrete inputs.
use mathlib.Core.List.{Memᴰ}
use xe6_tsy.Common.{
  ◌≡◌, refl, sym, subst, true, false, Option, none, some, String, List, [], ◌∷◌, ◌++◌, str_eq,
}
use xe6_tsy.Contract.Mode.{assistant, ModeChanged, validate, mode_eq}
use xe6_tsy.Coordinator.{run}
use xe6_tsy.Coordinator.Tests.{
  digest, modes, start, start_is_new, calls, recovery_event, acknowledged, ticking, few,
}
use xe6_tsy.Projection.{
  Projection, new_repository, blank, event, Delivery, consume, latest, project, project_hashed,
  settle_event, record_event,
}
use xe6_tsy.Projection.Live.{Genuine, projection_shows_mode}

-- The hash of an event, taken to be its identity and the reading of its operation.
abbrev hash : ModeChanged → Option String
hash e = some e.operation_id

abbrev early_messages : List Delivery
early_messages =
    record { ctx_done = true; now = 3; payload = event recovery_event }
    ∷ record { ctx_done = false; now = 3; payload = blank }
    ∷ []

abbrev late_messages : List Delivery
late_messages = record { ctx_done = false; now = 5; payload = event recovery_event } ∷ []

genuine : Genuine (run digest calls start) recovery_event recovery_event
genuine = record {
  unique = λ i. refl;
  acknowledged = λ i. subst (Memᴰ recovery_event) (sym acknowledged) (Memᴰ.head refl);
}

projection_shows_mode_example :
    (p : Projection) × (latest false (run digest calls start).state.session_id (
        consume hash
          (early_messages
            ++ record { ctx_done = false; now = 4; payload = event recovery_event } ∷ late_messages)
          new_repository)
      ≡ (some p, none))
    × (p.active_mode ≡ (run digest calls start).state.active_mode)
    × (p.generation ≡ (run digest calls start).state.generation)
projection_shows_mode_example =
    projection_shows_mode digest "s" "rt" assistant modes true 5 start start_is_new calls ticking
      few [] recovery_event acknowledged hash "a" early_messages late_messages 4 refl
      (genuine, (tt, (genuine, (genuine, tt))))

projected_once :
    project hash false 4 recovery_event new_repository
    ≡ (record_event 4 recovery_event "a" new_repository, none)
unfolding project project_hashed settle_event validate mode_eq str_eq
projected_once = refl
