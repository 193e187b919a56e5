-- ===== src/Gate/Capture.antt =====
-- services/realtime-audio/command/gate.go: what the gate does with the audio it is given.
use xe6_tsy.Common.{
  ℕ, ◌+◌, ◌%◌, Bool, true, false, not, ◌&&◌, List, [], ◌∷◌, if◌then◌else◌, ltb, ◌==◌, length,
}
use xe6_tsy.Contract.Mode.{Time}
use xe6_tsy.Segmenter.{
  Frame, supported_sample_rate, Segmenter, Event, opened, audio, final, Result, ok, err, push,
}
use xe6_tsy.Gate.{
  State, dormant, armed, capturing, recognizing, is_armed, Failure, no_failure, window_expired,
  no_speech, asr_failed, canceled, invalid_audio, finishing, stream_started, audio_pushed, Log,
  Deps, Gate,
}
use xe6_tsy.Gate.Terminal.{fail, classify_failure}

-- `Executed` is never set.
pub record Answer : Type 0 where
  pub consumed : Bool
  pub state : State
  pub failure : Failure

-- What one call finds: its context done, or canceled, and the attempt's deadline passed; the classifier's
-- answer; whether the recognizer starts a stream, and the audio that this accepts; the time.
pub record Env : Type 0 where
  pub ctx_done : Bool
  pub caller_canceled : Bool
  pub window_over : Bool
  pub speech : Bool
  pub stream_starts : Bool
  pub accepts : List ℕ → Bool
  pub now : Time

unfoldable pub valid_frame : Frame → Bool
valid_frame f =
    ltb 0 (length f.pcm)
    && length f.pcm % 2 == 0
    && f.sample_rate == supported_sample_rate
    && not (f.captured_at == 0)

unfoldable pub fail_locked : Deps → Env → Failure → Gate → Gate × Answer
fail_locked d env f g =
    (fail d env.now f g, record { consumed = true; state = dormant; failure = f })

abbrev pub classify : Env → Failure → Failure
classify env fallback = classify_failure env.caller_canceled env.window_over fallback

-- The prefix's audio up to the first that is refused, and whether all was accepted.
unfoldable pub push_prefix : Env → ℕ → List Frame → Log → Log × Bool
push_prefix env a [] log = (log, true)
push_prefix env a (f ∷ fs) log =
    let rest = push_prefix env a fs ((a, audio_pushed f.pcm) ∷ log) in
    if env.accepts f.pcm then rest else (log, false)

unfoldable pub start_recognition : Gate → Gate × Answer
start_recognition g = (
  record g {
    state = recognizing;
    tasks = record { attempt = g.attempt; request = g.request; phase = finishing } ∷ g.tasks;
  },
  record { consumed = true; state = recognizing; failure = no_failure },
)

-- `startCaptureLocked` when the stream starts.
unfoldable pub start_capture : Gate → Gate
start_capture g = record g {
  log = (g.attempt, stream_started) ∷ g.log;
  stream = true;
  state = capturing;
}

abbrev pub capture_answer : Answer
capture_answer = record { consumed = true; state = capturing; failure = no_failure }

-- The loop over the segmenter's events, with the result so far.
unfoldable pub handle_events : Deps → Env → List Event → Gate → Answer → Gate × Answer
handle_events d env [] g answer = (g, answer)
handle_events d env (opened prefix t ∷ rest) g answer =
    let started = start_capture g in
    let pushed = push_prefix env g.attempt prefix started.log in
    let fed : Gate = record started { log = pushed.0 } in
    let next = handle_events d env rest (record fed { silence_timer = false }) capture_answer in
    if not env.stream_starts
    then fail_locked d env (classify env asr_failed) g
    else if not pushed.1
    then fail_locked d env (classify env asr_failed) fed
    else next
handle_events d env (audio f t ∷ rest) g answer =
    let pushed : Gate = record g { log = (g.attempt, audio_pushed f.pcm) ∷ g.log } in
    let next = handle_events d env rest pushed capture_answer in
    if not g.stream
    then fail_locked d env invalid_audio g
    else if not (env.accepts f.pcm)
    then fail_locked d env (classify env asr_failed) g
    else next
handle_events d env (final reason fs from to ∷ rest) g answer = start_recognition g

abbrev pub with_segmenter : Segmenter → Gate → Gate
with_segmenter s g = record g { segmenter = s }

unfoldable pub segmented : Deps → Env → Segmenter × Result (List Event) → Gate → Gate × Answer
segmented d env (s, err e) g = fail_locked d env (classify env invalid_audio) (with_segmenter s g)
segmented d env (s, ok es) g =
    handle_events d env es (with_segmenter s g)
      (record { consumed = true; state = g.state; failure = no_failure })

-- `consumeLocked` while the gate is armed or capturing.
unfoldable pub listen : Deps → Env → Frame → Bool → Gate → Gate × Answer
listen d env f replayed g =
    if env.ctx_done
    then fail_locked d env canceled g
    else if not (valid_frame f)
    then fail_locked d env invalid_audio g
    else if not replayed && ltb f.captured_at g.request.capture_from
    then (g, record { consumed = true; state = armed; failure = no_failure })
    else if not replayed && not (ltb f.captured_at (g.request.opened_at + g.options.window_ttl))
    then fail_locked d env window_expired g
    else if not replayed
        && is_armed g.state
        && not (ltb f.captured_at (g.request.opened_at + g.options.no_speech_timeout))
    then fail_locked d env no_speech g
    else segmented d env (push env.ctx_done f env.speech g.segmenter) g

unfoldable pub consume_locked : Deps → Env → Frame → Bool → Gate → Gate × Answer
consume_locked d env f replayed g = elim g.state [
  | dormant ↦ (g, record { consumed = false; state = dormant; failure = no_failure })
  | recognizing ↦ (g, record { consumed = true; state = recognizing; failure = no_failure })
  | armed ↦ listen d env f replayed g
  | capturing ↦ listen d env f replayed g
]

abbrev pub ends_replay : State → Bool
ends_replay dormant = true
ends_replay _ = false

-- `Replay`'s loop, with what the calls find and the result so far.
unfoldable pub replay_from : Deps → List (Env × Frame) → Gate → Answer → Gate × Answer
replay_from d [] g answer = (g, answer)
replay_from d ((env, f) ∷ fs) g answer =
    let r = consume_locked d env f true g in
    let next = replay_from d fs r.0 r.1 in if ends_replay (r.1).state then r else next

unfoldable pub replay : Deps → List (Env × Frame) → Gate → Gate × Answer
replay d fs g =
    replay_from d fs g (record { consumed = true; state = g.state; failure = no_failure })
