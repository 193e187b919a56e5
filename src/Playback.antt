-- ===== src/Playback.antt =====
-- services/realtime-audio/playback/service.go: one synthesized playback. Its methods hold `opMu` while
-- they work on the playback, so each is one step on it; `log` lists what the track and the event sink
-- have done for it, newest first.
pub mod Calls
pub mod Settle
pub mod Service
mod Tests
mod Endings
mod Delivery
pub mod Log
pub mod Order
use xe6_tsy.Common.{
  ℕ, Bool, true, false, not, ◌&&◌, ◌||◌, Option, none, some, String, List, [], ◌∷◌, if◌then◌else◌,
  ◌==◌, less, incr, positive, str_eq, is_blank,
}
use xe6_tsy.Contract.Mode.{Time}

pub data State : Type 0 where
  idle playing finished interrupted cancelled : State

pub data EventType : Type 0 where
  event_started event_finished event_interrupted event_cancelled : EventType

abbrev pub is_playing : State → Bool
is_playing playing = true
is_playing _ = false

abbrev pub type_eq : EventType → EventType → Bool
type_eq event_started event_started = true
type_eq event_finished event_finished = true
type_eq event_interrupted event_interrupted = true
type_eq event_cancelled event_cancelled = true
type_eq _ _ = false

pub record Event : Type 0 where
  pub event_id : String
  pub event_type : EventType
  pub session_id : String
  pub turn_id : String
  pub playback_id : String
  pub sequence_no : ℕ  -- int64
  pub reason : String
  pub occurred_at : Time

pub record AudioChunk : Type 0 where
  pub session_id : String
  pub turn_id : String
  pub playback_id : String
  pub sequence_no : ℕ  -- int64
  pub encoding : String
  pub bytes : List ℕ

pub record Snapshot : Type 0 where
  pub session_id : String
  pub turn_id : String
  pub playback_id : String
  pub state : State
  pub last_sequence : ℕ  -- int64

pub record Started : Type 0 where
  pub event : Event
  pub sequence_no : ℕ
  pub event_sent : Bool
  pub audio_sent : Bool

pub record Settlement : Type 0 where
  pub state : State
  pub event : Event
  pub stop : Bool
  pub event_sent : Bool
  pub track_stopped : Bool

pub record Playback : Type 0 where
  pub snapshot : Snapshot
  pub event_seq : ℕ  -- int64
  pub started : Option Started
  pub settlement : Option Settlement

pub data Error : Type 0 where
  session_required playback_required playback_not_active sequence_invalid data_required : Error
  context_done : Error
  -- What the event sink or the track reported.
  publish_failed track_failed : String → Error

pub data Effect : Type 0 where
  published : Event → Effect
  wrote : AudioChunk → Effect
  completed stopped : String → Effect

-- What the sink and the track answer in one call, and the clock. `none` is success; `complete_playback` is
-- `none` where the track has no such method.
pub record Env : Type 0 where
  pub now : Time
  pub publish : Event → Option String
  pub write : AudioChunk → Option String
  pub complete_playback : Option (String → Option String)
  pub stop : String → Option String

unfoldable pub validate_chunk : AudioChunk → Option Error
validate_chunk c =
    if is_blank c.session_id
    then some session_required
    else if is_blank c.playback_id
    then some playback_required
    else if not (positive c.sequence_no)
    then some sequence_invalid
    else elim c.bytes [ [] ↦ some data_required | b ∷ bs ↦ none ]

-- `event_id_text` is `fmt.Sprintf("%s_%s_%d", …)`.
module _ (event_id_text : String → EventType → ℕ → String) where
  unfoldable pub event_locked : Time → Playback → EventType → String → Event
  event_locked now p type reason = record {
    event_id = event_id_text p.snapshot.playback_id type p.event_seq;
    event_type = type;
    session_id = p.snapshot.session_id;
    turn_id = p.snapshot.turn_id;
    playback_id = p.snapshot.playback_id;
    sequence_no = p.event_seq;
    reason = reason;
    occurred_at = now;
  }

-- `Publish`: the chunk that starts a playback is written after its event.
unfoldable pub write_first :
    Env → AudioChunk → Started → Playback → List Effect → Playback × List Effect × Option Error
write_first env c st p log =
    if st.audio_sent then (record p { started = some st }, log, none) else elim (env.write c) [
      | some why ↦ (record p { started = some st }, log, some (track_failed why))
      | none ↦ (
        record p { snapshot = record p.snapshot { last_sequence = c.sequence_no }; started = none },
        wrote c ∷ log,
        none,
      )
    ]

unfoldable pub announce :
    Env → AudioChunk → Started → Playback → List Effect → Playback × List Effect × Option Error
announce env c st p log =
    if st.event_sent then write_first env c st p log else elim (env.publish st.event) [
      | some why ↦ (record p { started = some st }, log, some (publish_failed why))
      | none ↦ write_first env c (record st { event_sent = true }) p (published st.event ∷ log)
    ]

unfoldable pub write_next :
    Env → AudioChunk → Playback → List Effect → Playback × List Effect × Option Error
write_next env c p log = elim (env.write c) [
  | some why ↦ (p, log, some (track_failed why))
  | none ↦ (
    record p { snapshot = record p.snapshot { last_sequence = c.sequence_no } },
    wrote c ∷ log,
    none,
  )
]

-- `if current.snapshot.TurnID == ""`.
unfoldable pub name_turn : AudioChunk → Playback → Playback
name_turn c p =
    if is_blank p.snapshot.turn_id
    then record p { snapshot = record p.snapshot { turn_id = c.turn_id } }
    else p

module _ (event_id_text : String → EventType → ℕ → String) where
  -- `Publish` from `if current.snapshot.LastSequence == 0` on, by the start that is under way.
  unfoldable pub proceed :
      Env
      → AudioChunk
      → Playback
      → List Effect
      → Option Started
      → Playback × List Effect × Option Error
  proceed env c p log (some st) =
      if p.snapshot.last_sequence == 0 then announce env c st p log else write_next env c p log
  proceed env c p log none =
      if p.snapshot.last_sequence == 0
      then announce env c first counted log
      else write_next env c p log
    where
      counted : Playback
      counted = record p { event_seq = incr p.event_seq }

      first : Started
      first = record {
        event = event_locked event_id_text env.now counted event_started "";
        sequence_no = c.sequence_no;
        event_sent = false;
        audio_sent = false;
      }

  -- `Publish` on a chunk that is due.
  unfoldable pub start_or_continue :
      Env
      → AudioChunk
      → Playback
      → List Effect
      → Option Started
      → Playback × List Effect × Option Error
  start_or_continue env c p log (some st) =
      if not (st.sequence_no == c.sequence_no)
      then (p, log, some sequence_invalid)
      else proceed env c (name_turn c p) log (some st)
  start_or_continue env c p log none = proceed env c (name_turn c p) log none

  -- `Publish` from `current.opMu.Lock()` on.
  unfoldable pub deliver :
      Env → AudioChunk → Playback → List Effect → Playback × List Effect × Option Error
  deliver env c p log =
      if not (str_eq p.snapshot.playback_id c.playback_id) || not (is_playing p.snapshot.state)
      then (p, log, some playback_not_active)
      else elim p.settlement [
        | some s ↦ (p, log, some playback_not_active)
        | none ↦
            if not (less p.snapshot.last_sequence c.sequence_no)
            then (p, log, none)
            else start_or_continue env c p log p.started
      ]

-- The playback that `Publish` opens for a chunk.
abbrev pub opened : AudioChunk → Playback
opened c = record {
  snapshot = record {
    session_id = c.session_id;
    turn_id = c.turn_id;
    playback_id = c.playback_id;
    state = playing;
    last_sequence = 0;
  };
  event_seq = 0;
  started = none;
  settlement = none;
}
