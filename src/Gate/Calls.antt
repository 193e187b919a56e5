-- ===== src/Gate/Calls.antt =====
-- services/realtime-audio/command/gate.go: opening, expiry and cancellation, and sequences of calls.
use xe6_tsy.Common.{
  ℕ, ◌+◌, ◌%◌, Bool, true, false, not, ◌&&◌, ◌||◌, Option, none, some, String, List, [], ◌∷◌, ◌++◌,
  if◌then◌else◌, ltb, ◌==◌, str_eq, is_blank, length, word_mod,
}
use xe6_tsy.Contract.Mode.{Time}
use xe6_tsy.Segmenter.{Frame}
use xe6_tsy.Gate.{
  armed, is_dormant, is_armed, Failure, window_expired, no_speech, canceled, OpenRequest,
  interrupted, feedback_closed, Deps, Gate,
}
use xe6_tsy.Gate.Terminal.{publish_terminal_outcome, abandon, fail, failure_outcome}
use xe6_tsy.Gate.Capture.{Env, consume_locked, replay}
use xe6_tsy.Gate.Recognition.{WorkEnv, work}

pub data Error : Type 0 where
  invalid_open_request gate_closed duplicate_open : Error

abbrev pub command_id_retention_limit : ℕ
command_id_retention_limit = 256

-- A Go set of texts, as its membership test.
abbrev pub insert_id : String → (String → Bool) → String → Bool
insert_id id ids other = str_eq id other || ids other

abbrev pub delete_id : String → (String → Bool) → String → Bool
delete_id id ids other = not (str_eq id other) && ids other

unfoldable pub forget_oldest : List String → (String → Bool) → List String × (String → Bool)
forget_oldest [] seen = ([], seen)
forget_oldest (oldest ∷ rest) seen = (rest, delete_id oldest seen)

unfoldable pub remember_command_id : String → Gate → Gate
remember_command_id id g =
    let kept : List String × (String → Bool) =
      if length g.command_id_order == command_id_retention_limit
      then forget_oldest g.command_id_order g.seen_command_ids
      else (g.command_id_order, g.seen_command_ids) in
    record g { seen_command_ids = insert_id id kept.1; command_id_order = kept.0 ++ id ∷ [] }

abbrev pub is_zero : Time → Bool
is_zero t = t == 0

unfoldable pub valid_request : OpenRequest → Bool
valid_request q = not (
    is_blank q.session_id
    || is_blank q.command_id
    || is_zero q.opened_at
    || (not (is_zero q.capture_from) && ltb q.opened_at q.capture_from))

abbrev pub with_capture_from : OpenRequest → OpenRequest
with_capture_from q = if is_zero q.capture_from then record q { capture_from = q.opened_at } else q

abbrev pub interrupt_feedback : Deps → Gate → Gate
interrupt_feedback d g = record g {
  log = if d.feedback then (g.attempt, interrupted) ∷ g.log else g.log;
}

-- The attempt that a new one supersedes ends as canceled.
unfoldable pub supersede : Deps → Time → Gate → Gate
supersede d now g = record g {
  log =
      if is_dormant g.state
      then g.log
      else publish_terminal_outcome d g.attempt (failure_outcome g.request canceled now) g.log;
}

unfoldable pub arm : OpenRequest → Gate → Gate
arm q g = record g {
  attempt = (g.attempt + 1) % word_mod;
  request = q;
  state = armed;
  window_timer = true;
  silence_timer = true;
}

unfoldable pub open_gate : Deps → Time → OpenRequest → Gate → Gate × Option Error
open_gate d now q g =
    if not (valid_request q)
    then (g, some invalid_open_request)
    else if g.closed
    then (g, some gate_closed)
    else if g.seen_command_ids q.command_id
    then (g, some duplicate_open)
    else (
      arm (with_capture_from q)
          (abandon (supersede d now (interrupt_feedback d (remember_command_id q.command_id g)))),
      none,
    )

abbrev pub is_no_speech : Failure → Bool
is_no_speech no_speech = true
is_no_speech _ = false

abbrev pub is_window_expired : Failure → Bool
is_window_expired window_expired = true
is_window_expired _ = false

unfoldable pub expire : Deps → Time → ℕ → Failure → Gate → Gate
expire d now a f g =
    if is_dormant g.state || not (g.attempt == a)
    then g
    else if is_no_speech f && not (is_armed g.state)
    then g
    else if is_window_expired f && g.capture_complete
    then g
    else fail d now f g

-- `Cancel` but for its wait for the workers.
unfoldable pub cancel : Deps → Gate → Gate
cancel d g =
    let left = abandon (record g { closed = true }) in
    record left {
      log = if d.feedback then (left.attempt, feedback_closed) ∷ left.log else left.log;
    }

pub data Call : Type 0 where
  opening : Time → OpenRequest → Call
  consuming : Env → Frame → Call
  replaying : List (Env × Frame) → Call
  expiring : Time → ℕ → Failure → Call
  working : WorkEnv → ℕ → Call
  canceling : Call

unfoldable pub step : Deps → Call → Gate → Gate
step d (opening now q) g = (open_gate d now q g).0
step d (consuming env f) g = (consume_locked d env f false g).0
step d (replaying fs) g = (replay d fs g).0
step d (expiring now a f) g = expire d now a f g
step d (working env a) g = work d env a g
step d canceling g = cancel d g

unfoldable pub run : Deps → List Call → Gate → Gate
run d [] g = g
run d (call ∷ calls) g = run d calls (step d call g)
