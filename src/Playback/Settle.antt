-- ===== src/Playback/Settle.antt =====
-- services/realtime-audio/playback/service.go: `settle`, by which Complete, Interrupt and Cancel end a
-- playback.
use xe6_tsy.Common.{
  ℕ, Bool, true, false, not, ◌&&◌, ◌||◌, Option, none, some, String, List, ◌∷◌, if◌then◌else◌, incr,
  str_eq,
}
use xe6_tsy.Playback.{
  State, EventType, is_playing, type_eq, Settlement, Playback, Error, Effect, Env, event_locked,
  finished, interrupted, cancelled, event_finished, event_interrupted, event_cancelled,
  playback_not_active, publish_failed, track_failed, published, completed, stopped,
}

-- The stages of `settle` on the settlement under way, each passing on what the one before left.
unfoldable pub complete_track :
    Env → String → Settlement → List Effect → Settlement × List Effect × Option Error
complete_track env id s log =
    if s.stop || s.track_stopped then (s, log, none) else elim env.complete_playback [
      | none ↦ (record s { track_stopped = true }, log, none)
      | some call ↦ elim (call id) [
        | some why ↦ (s, log, some (track_failed why))
        | none ↦ (record s { track_stopped = true }, completed id ∷ log, none)
      ]
    ]

unfoldable pub publish_end :
    Env → Settlement → List Effect → Settlement × List Effect × Option Error
publish_end env s log = if s.event_sent then (s, log, none) else elim (env.publish s.event) [
  | some why ↦ (s, log, some (publish_failed why))
  | none ↦ (record s { event_sent = true }, published s.event ∷ log, none)
]

unfoldable pub stop_track :
    Env → String → Settlement → List Effect → Settlement × List Effect × Option Error
stop_track env id s log =
    if not s.stop || s.track_stopped then (s, log, none) else elim (env.stop id) [
      | some why ↦ (s, log, some (track_failed why))
      | none ↦ (record s { track_stopped = true }, stopped id ∷ log, none)
    ]

unfoldable pub and_then :
    Settlement × List Effect × Option Error
    → (Settlement → List Effect → Settlement × List Effect × Option Error)
    → Settlement × List Effect × Option Error
and_then (s, log, some e) next = (s, log, some e)
and_then (s, log, none) next = next s log

-- The end of `settle`: the settlement is closed when nothing of it is left to do.
unfoldable pub close :
    Playback → Settlement × List Effect × Option Error → Playback × List Effect × Option Error
close p (s, log, some e) = (record p { settlement = some s }, log, some e)
close p (s, log, none) =
    if s.event_sent && s.track_stopped
    then (
      record p { snapshot = record p.snapshot { state = s.state }; settlement = none },
      log,
      none,
    )
    else (record p { settlement = some s }, log, none)

unfoldable pub conclude :
    Env → String → Settlement → Playback → List Effect → Playback × List Effect × Option Error
conclude env id s p log =
    close p
      (and_then (and_then (complete_track env id s log) (publish_end env)) (stop_track env id))

-- `Complete`, `Interrupt` and `Cancel`, with the reason that the last two are given.
pub data Ending : Type 0 where
  complete : Ending
  interrupt cancel : String → Ending

abbrev pub state_of : Ending → State
state_of complete = finished
state_of (interrupt why) = interrupted
state_of (cancel why) = cancelled

abbrev pub type_of : Ending → EventType
type_of complete = event_finished
type_of (interrupt why) = event_interrupted
type_of (cancel why) = event_cancelled

abbrev pub reason_of : Ending → String
reason_of complete = ""
reason_of (interrupt why) = why
reason_of (cancel why) = why

abbrev pub stops : Ending → Bool
stops complete = false
stops (interrupt why) = true
stops (cancel why) = true

module _ (event_id_text : String → EventType → ℕ → String) where
  -- `settle` on the settlement that is under way, or on a new one.
  unfoldable pub settle_pending :
      Env
      → String
      → Ending
      → Playback
      → List Effect
      → Option Settlement
      → Playback × List Effect × Option Error
  settle_pending env id e p log (some s) =
      if not (type_eq s.event.event_type (type_of e))
      then (p, log, some playback_not_active)
      else conclude env id s p log
  settle_pending env id e p log none =
      if not (is_playing p.snapshot.state)
      then (p, log, none)
      else conclude env id settlement counted log
    where
      counted : Playback
      counted = record p { event_seq = incr p.event_seq }

      settlement : Settlement
      settlement = record {
        state = state_of e;
        event = event_locked event_id_text env.now counted (type_of e) (reason_of e);
        stop = stops e;
        event_sent = false;
        track_stopped = false;
      }

  -- `settle` from `current.opMu.Lock()` on.
  unfoldable pub settle :
      Env → String → Ending → Playback → List Effect → Playback × List Effect × Option Error
  settle env id e p log =
      if not (str_eq p.snapshot.playback_id id)
      then (p, log, some playback_not_active)
      else settle_pending env id e p log p.settlement
