-- ===== src/Projection.antt =====
-- services/api/internal/modeprojection: the API's read projection of the runtimes' modes
-- (memory.go, model.go), and the consumer that feeds it from a durable stream (consumer.go).
mod Tests
pub mod Replay
pub mod Live
pub mod Order
use xe6_tsy.Common.{
  ℕ, Bool, true, false, not, ◌&&◌, ◌||◌, Option, none, some, String, List, [], ◌∷◌, if◌then◌else◌,
  ◌==◌, ltb, less, str_eq, str_lt, is_blank, Map, empty, insert,
}
use xe6_tsy.Contract.Mode.{Time, Mode, ModeChanged, validate}

pub record Projection : Type 0 where
  pub session_id : String
  pub runtime_instance_id : String
  pub active_mode : Mode
  pub generation : ℕ  -- int64
  pub last_event_id : String
  pub occurred_at : Time
  pub updated_at : Time

-- The payload hashes of the events seen, and the latest projection of each session.
pub record Repository : Type 0 where
  pub events : Map String
  pub projections : Map Projection

abbrev pub new_repository : Repository
new_repository = record { events = empty; projections = empty }

pub data Error : Type 0 where
  context_done invalid_argument conflict not_found unhashable : Error

unfoldable pub should_advance : Projection → ModeChanged → Bool
should_advance p e =
    if str_eq p.runtime_instance_id e.runtime_instance_id
    then less p.generation e.resulting_generation
    else ltb p.occurred_at e.occurred_at
      || (e.occurred_at == p.occurred_at && str_lt p.last_event_id e.event_id)

abbrev pub projection_of : ModeChanged → Time → Projection
projection_of e now = record {
  session_id = e.session_id;
  runtime_instance_id = e.runtime_instance_id;
  active_mode = e.to_mode;
  generation = e.resulting_generation;
  last_event_id = e.event_id;
  occurred_at = e.occurred_at;
  updated_at = now;
}

-- `!exists || shouldAdvance(current, event)`.
unfoldable pub advances : Option Projection → ModeChanged → Bool
advances none e = true
advances (some p) e = should_advance p e

-- `Project` on an event that was not seen.
unfoldable pub record_event : Time → ModeChanged → String → Repository → Repository
record_event now e h r = record {
  events = insert e.event_id h r.events;
  projections =
      if advances (r.projections e.session_id) e
      then insert e.session_id (projection_of e now) r.projections
      else r.projections;
}

-- `Project` on the hash that was recorded under the event's ID.
unfoldable pub settle_event :
    Time → ModeChanged → String → Repository → Option String → Repository × Option Error
settle_event now e h r none = (record_event now e h r, none)
settle_event now e h r (some previous) =
    if not (str_eq previous h) then (r, some conflict) else (r, none)

-- `hash` is `hashModeChangedEvent`: SHA-256 of the event's JSON, `none` where it has none.
module _ (hash : ModeChanged → Option String) where
  unfoldable pub project_hashed :
      Time → ModeChanged → Repository → Option String → Repository × Option Error
  project_hashed now e r none = (r, some unhashable)
  project_hashed now e r (some h) = settle_event now e h r (r.events e.event_id)

  unfoldable pub project : Bool → Time → ModeChanged → Repository → Repository × Option Error
  project ctx_done now e r = if ctx_done then (r, some context_done) else elim (validate e) [
    | some field ↦ (r, some invalid_argument)
    | none ↦ project_hashed now e r (hash e)
  ]

-- `Latest`.
unfoldable pub latest : Bool → String → Repository → Option Projection × Option Error
latest ctx_done session r =
    if ctx_done
    then (none, some context_done)
    else if is_blank session
    then (none, some invalid_argument)
    else elim (r.projections session) [ none ↦ (none, some not_found) | some p ↦ (some p, none) ]

-- `isPermanentProjectionError`: redelivery cannot repair these.
unfoldable pub is_permanent : Error → Bool
is_permanent invalid_argument = true
is_permanent conflict = true
is_permanent not_found = true
is_permanent _ = false

-- What the stream hands over: an event that its payload decodes to, or a payload to reject.
pub data Payload : Type 0 where
  blank malformed : Payload
  event : ModeChanged → Payload

-- How a message is settled: acknowledged, handed back, or left pending.
pub data Settlement : Type 0 where
  acked nacked : Settlement

-- What `ProcessOnce` answers: whether it processed a message, and its error. The stream's and the
-- projector's errors are told apart.
pub data Failure : Type 0 where
  projection_failed : Error → Failure

pub record Processed : Type 0 where
  pub repository : Repository
  pub settlement : Settlement
  pub processed : Bool
  pub failure : Option Failure

-- `ProcessOnce` after `Project`, where the stream's settlement calls succeed.
unfoldable pub settle_message : Repository × Option Error → Processed
settle_message (r, none) = record {
  repository = r;
  settlement = acked;
  processed = true;
  failure = none;
}
settle_message (r, some e) =
    if is_permanent e
    then record { repository = r; settlement = acked; processed = true; failure = none }
    else record {
      repository = r;
      settlement = nacked;
      processed = true;
      failure = some (projection_failed e);
    }

module _ (hash : ModeChanged → Option String) where
  -- `ProcessOnce` on a received message; a decoded event is validated before it is projected.
  unfoldable pub process_once : Bool → Time → Payload → Repository → Processed
  process_once ctx_done now blank r = record {
    repository = r;
    settlement = acked;
    processed = false;
    failure = none;
  }
  process_once ctx_done now malformed r = record {
    repository = r;
    settlement = acked;
    processed = true;
    failure = none;
  }
  process_once ctx_done now (event e) r = elim (validate e) [
    | some field ↦ record { repository = r; settlement = acked; processed = true; failure = none }
    | none ↦ settle_message (project hash ctx_done now e r)
  ]

-- One message and what surrounds its processing: whether the context is done, and the clock.
pub record Delivery : Type 0 where
  pub ctx_done : Bool
  pub now : Time
  pub payload : Payload

-- `Run` on the messages that it receives; a message that is handed back is received again later.
unfoldable pub consume : (ModeChanged → Option String) → List Delivery → Repository → Repository
consume hash [] r = r
consume hash (d ∷ ds) r =
    consume hash ds (process_once hash d.ctx_done d.now d.payload r).repository
