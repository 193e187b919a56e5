-- ===== src/Gate/Quarantine.antt =====
-- services/realtime-audio/command/gate.go: which audio the gate keeps from the ordinary input.
use xe6_tsy.Common.{◌+◌, Bool, true, false, not, ◌&&◌, ◌≡◌, refl, List, [], ◌∷◌, if◌then◌else◌, ltb}
use xe6_tsy.Segmenter.{Frame, Segmenter, Event, opened, audio, final, Result, ok, err, push}
use xe6_tsy.Gate.{
  State, dormant, armed, capturing, recognizing, is_dormant, is_armed, no_failure, Deps, Gate,
}
use xe6_tsy.Gate.Capture.{
  Answer, Env, valid_frame, fail_locked, push_prefix, start_recognition, start_capture,
  capture_answer, handle_events, with_segmenter, segmented, listen, consume_locked,
}

abbrev Keeps : Gate × Answer → Type 0
Keeps r = (r.1).consumed ≡ true

module _ (d : Deps) (env : Env) where
  either : (c : Bool) (x y : Gate × Answer) → Keeps x → Keeps y → Keeps (if c then x else y)
  either true x y h j = h
  either false x y h j = j

  handle_events-Keeps :
      (es : List Event) (g : Gate) (answer : Answer)
      → answer.consumed ≡ true
      → Keeps (handle_events d env es g answer)
  unfolding handle_events fail_locked start_recognition
  handle_events-Keeps [] g answer h = h
  handle_events-Keeps (opened prefix t ∷ rest) g answer h =
      either (not env.stream_starts) _ _ refl (
        either (not (push_prefix env g.attempt prefix (start_capture g).log).1) _ _ refl
          (handle_events-Keeps rest _ capture_answer refl))
  handle_events-Keeps (audio f t ∷ rest) g answer h =
      either (not g.stream) _ _ refl
        (either (not (env.accepts f.pcm)) _ _ refl (handle_events-Keeps rest _ capture_answer refl))
  handle_events-Keeps (final reason fs from to ∷ rest) g answer h = refl

  segmented-Keeps : (r : Segmenter × Result (List Event)) (g : Gate) → Keeps (segmented d env r g)
  unfolding segmented fail_locked
  segmented-Keeps (s, err e) g = refl
  segmented-Keeps (s, ok es) g = handle_events-Keeps es (with_segmenter s g) _ refl

  listen-Keeps : (f : Frame) (replayed : Bool) (g : Gate) → Keeps (listen d env f replayed g)
  unfolding listen fail_locked
  listen-Keeps f replayed g = either env.ctx_done _ _ refl (
      either (not (valid_frame f)) _ _ refl (
        either (not replayed && ltb f.captured_at g.request.capture_from) _ _ refl (
          either
            (not replayed && not (ltb f.captured_at (g.request.opened_at + g.options.window_ttl))) _
            _ refl
            (either
              (not replayed
                && is_armed g.state
                && not (ltb f.captured_at (g.request.opened_at + g.options.no_speech_timeout)))
              _ _ refl (segmented-Keeps (push env.ctx_done f env.speech g.segmenter) g)))))

  by_state :
      (g : Gate) (s : State) (x : Gate × Answer)
      → Keeps x
      → ((elim s as (λ s. Gate × Answer) [
        | dormant ↦ (g, record { consumed = false; state = dormant; failure = no_failure })
        | recognizing ↦ (g, record { consumed = true; state = recognizing; failure = no_failure })
        | armed ↦ x
        | capturing ↦ x
      ]).1
        ).consumed
        ≡ not (is_dormant s)
  by_state g dormant x h = refl
  by_state g armed x h = h
  by_state g capturing x h = h
  by_state g recognizing x h = refl

-- A frame is kept from the ordinary input exactly when the gate is not dormant as it comes, whatever then
-- becomes of it and of the attempt: it may be early, late, invalid, refused by the recognizer or the last
-- one of the command.
pub consumed_unless_dormant :
    (d : Deps) (env : Env) (f : Frame) (replayed : Bool) (g : Gate)
    → ((consume_locked d env f replayed g).1).consumed ≡ not (is_dormant g.state)
unfolding consume_locked
consumed_unless_dormant d env f replayed g =
    by_state d env g g.state (listen d env f replayed g) (listen-Keeps d env f replayed g)
