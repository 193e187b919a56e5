-- ===== src/Playback/Tests.antt =====
-- Runs of a playback, and its theorems at concrete inputs.
use xe6_tsy.Common.{
  true, false, str_eq_iff, empty, ℕ, ◌≡◌, refl, sym, ap, Option, none, some, String, List, [], ◌∷◌,
  str_eq,
}
use xe6_tsy.Playback.{
  playback_not_active, Playback, EventType, AudioChunk, Env, opened, finished, deliver,
  start_or_continue, proceed, announce, write_first, write_next, name_turn, validate_chunk,
  event_locked,
}
use xe6_tsy.Playback.Settle.{
  complete, interrupt, state_of, settle, settle_pending, conclude, close, and_then, complete_track,
  publish_end, stop_track,
}
use xe6_tsy.Playback.Calls.{Call, chunk, ending, step, run}
use xe6_tsy.Playback.Log.{Ordered, InOrder}
use xe6_tsy.Playback.Service.{
  Service, try_reserve, busy, plays, plays_as, reserved_for, claim, reserved_exclusive,
}
use xe6_tsy.Playback.Order.{run-Ordered, settle_ends}

abbrev name_event : String → EventType → ℕ → String
name_event id type n = id

abbrev working : Env
working = record {
  now = 7;
  publish = λ e. none;
  write = λ c. none;
  complete_playback = some (λ id. none);
  stop = λ id. none;
}

abbrev deaf : Env
deaf = record working { publish = λ e. some "closed" }

abbrev audio : ℕ → AudioChunk
audio n = record {
  session_id = "s";
  turn_id = "turn";
  playback_id = "p";
  sequence_no = n;
  encoding = "pcm";
  bytes = 1 ∷ [];
}

-- The start is refused once, the second chunk comes twice, and the end is asked for twice.
abbrev calls : List (Env × Call)
calls =
    (deaf, chunk (audio 1))
    ∷ (working, chunk (audio 1))
    ∷ (working, chunk (audio 2))
    ∷ (working, chunk (audio 2))
    ∷ (deaf, ending "p" complete)
    ∷ (working, ending "p" complete)
    ∷ []

run_ends : (run name_event calls (opened (audio 1), [])).0.snapshot.state ≡ finished
unfolding run step deliver start_or_continue proceed announce write_first write_next name_turn
    validate_chunk settle settle_pending conclude close and_then complete_track publish_end
    stop_track event_locked str_eq
run_ends = refl

run-Ordered_example : Ordered (run name_event calls (opened (audio 1), [])).1
run-Ordered_example = run-Ordered name_event calls (audio 1)

abbrev over : Playback
over = record (opened (audio 1)) {
  snapshot = record (opened (audio 1)).snapshot { state = finished };
}

over-InOrder : InOrder over []
over-InOrder = record { ordered = tt; known = λ z. cc z; closed = λ z. refl }

abbrev at_p : Option (String → Option String) → Option String
at_p none = none
at_p (some g) = g "p"

settle_ends_example :
    let r = settle name_event working "p" (interrupt "user_speaking") (opened (audio 1)) [] in
    (r.0.snapshot.state ≡ state_of (interrupt "user_speaking"))
    × (r.0.settlement ≡ none)
    × (r.2 ≡ none)
settle_ends_example =
    settle_ends name_event working (interrupt "user_speaking") (opened (audio 1)) [] refl refl
      (λ x. refl) refl (λ f i. sym (ap at_p i))

abbrev silent : Service
silent = record { current = empty; reservations = empty }

abbrev intruder : AudioChunk
intruder = record (audio 1) { playback_id = "q" }

p_blank : str_eq "p" "" ≡ false
unfolding str_eq
p_blank = refl

q_is_p : str_eq "q" "p" ≡ false
unfolding str_eq
q_is_p = refl

track_free : (try_reserve "s" "p" silent).1 ≡ false
unfolding try_reserve busy plays plays_as reserved_for str_eq
track_free = refl

reserved_exclusive_example :
    let t = (try_reserve "s" "p" silent).0 in
    ((try_reserve "s" "q" t).1 ≡ true) × (claim intruder t ≡ (t, some playback_not_active))
reserved_exclusive_example =
    reserved_exclusive "p" intruder silent (λ e. cc (p_blank, (str_eq_iff "p" "").1 e))
      (λ e. cc (q_is_p, (str_eq_iff "q" "p").1 e)) track_free
