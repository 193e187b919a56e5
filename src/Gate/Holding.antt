-- ===== src/Gate/Holding.antt =====
-- services/realtime-audio/command/gate.go: what the gate holds as it takes audio.
use xe6_tsy.Common.{
  ◌+◌, Bool, true, false, not, ◌&&◌, ◌≡◌, refl, subst, ◌⊎◌, inl, inr, List, [], ◌∷◌, if◌then◌else◌,
  ltb, arith,
}
use xe6_tsy.Segmenter.{Frame, Segmenter, Event, Result, ok, err, push}
use xe6_tsy.Gate.{
  State, dormant, armed, capturing, recognizing, Failure, asr_failed, invalid_audio, canceled,
  window_expired, no_speech, no_failure, is_armed, stream_started, Deps, Gate,
}
use xe6_tsy.Gate.Capture.{
  Answer, Env, valid_frame, fail_locked, classify, push_prefix, start_recognition, start_capture,
  handle_events, with_segmenter, segmented, listen, consume_locked, ends_replay, replay_from,
  replay,
}
use xe6_tsy.Gate.Weight.{count_if}
use xe6_tsy.Gate.Tally.{counted-push_prefix}
use xe6_tsy.Gate.Streams.{is_start, is_close, Balanced, Fits, Held, fail-Held}
use xe6_tsy.Gate.Shapes.{Shaped, quiet, opening, ongoing, ending, Taken, push-Taken}

module _ (d : Deps) (env : Env) where
  either : (c : Bool) (x y : Gate × Answer) → Held x.0 → Held y.0 → Held (if c then x else y).0
  either true x y h j = h
  either false x y h j = j

  failing : (f : Failure) (g : Gate) → Balanced g → Held (fail_locked d env f g).0
  unfolding fail_locked
  failing f g h = fail-Held d env.now f g h

  fed-Balanced :
      (prefix : List Frame) (g : Gate)
      → Balanced g
      → g.stream ≡ false
      → Balanced (record (start_capture g) {
        log = (push_prefix env g.attempt prefix (start_capture g).log).0;
      })
  unfolding start_capture
  fed-Balanced prefix g h e =
      let log = (g.attempt, stream_started) ∷ g.log in
      let none_open : count_if g.stream ≡ 0 = rw e refl in
      omega (
        arith,
        h,
        none_open,
        counted-push_prefix is_start env g.attempt prefix log (λ pcm. refl),
        counted-push_prefix is_close env g.attempt prefix log (λ pcm. refl),
      )

  -- The frame that begins the utterance starts the stream.
  armed-Held :
      (b : Bool) (es : List Event) (g : Gate) (answer : Answer)
      → Shaped false b es
      → g.state ≡ armed
      → Balanced g
      → g.stream ≡ false
      → (g.segmenter).active ≡ b
      → g.window_timer ≡ true
      → g.silence_timer ≡ true
      → g.capture_complete ≡ false
      → Held (handle_events d env es g answer).0
  unfolding handle_events start_capture
  armed-Held b es g answer quiet e h s a w n c = (h, rw e (s, a, w, n, c))
  armed-Held b es g answer (opening {fs} {t} {u} {f}) e h s a w n c =
      let started = start_capture g in
      let fed : Gate = record started { log = (push_prefix env g.attempt fs started.log).0 } in
      let balanced = fed-Balanced fs g h s in
      either (not env.stream_starts) _ _ (failing (classify env asr_failed) g h) (
        either (not (push_prefix env g.attempt fs started.log).1) _ _
          (failing (classify env asr_failed) fed balanced)
          (either (not (env.accepts f.pcm)) _ _
            (failing (classify env asr_failed) (record fed { silence_timer = false }) balanced)
            (omega (arith, balanced), (refl, a, w, refl, c))))

  capturing-Held :
      (b : Bool) (es : List Event) (g : Gate) (answer : Answer)
      → Shaped true b es
      → g.state ≡ capturing
      → Balanced g
      → g.stream ≡ true
      → (g.segmenter).active ≡ b
      → g.window_timer ≡ true
      → g.silence_timer ≡ false
      → g.capture_complete ≡ false
      → Held (handle_events d env es g answer).0
  unfolding handle_events start_recognition
  capturing-Held b es g answer (ongoing {f}) e h s a w n c =
      either (not g.stream) _ _ (failing invalid_audio g h) (
        either (not (env.accepts f.pcm)) _ _ (failing (classify env asr_failed) g h)
          (omega (arith, h), rw e (s, a, w, n, c)))
  capturing-Held b es g answer ending e h s a w n c = (h, (s, n, rw (w, c) refl))

  segmented-Held :
      (r : Segmenter × Result (List Event)) (g : Gate)
      → Held g
      → Taken (g.segmenter).active r
      → (g.state ≡ armed) ⊎ (g.state ≡ capturing)
      → Held (segmented d env r g).0
  unfolding segmented
  segmented-Held (t, err x) g h k e = failing (classify env invalid_audio) (with_segmenter t g) h.0
  segmented-Held (t, ok es) g h k (inl e) =
      let f =
        subst
          (λ s.
            Fits s g.stream (g.segmenter).active g.window_timer g.silence_timer g.capture_complete)
          e h.1 in
      armed-Held t.active es (with_segmenter t g) _ (subst (λ b. Shaped b t.active es) f.1 k) e h.0
        f.0 refl f.2 f.3 f.4
  segmented-Held (t, ok es) g h k (inr e) =
      let f =
        subst
          (λ s.
            Fits s g.stream (g.segmenter).active g.window_timer g.silence_timer g.capture_complete)
          e h.1 in
      capturing-Held t.active es (with_segmenter t g) _ (subst (λ b. Shaped b t.active es) f.1 k) e
        h.0 f.0 refl f.2 f.3 f.4

  listen-Held :
      (f : Frame) (replayed : Bool) (g : Gate)
      → Held g
      → (g.state ≡ armed) ⊎ (g.state ≡ capturing)
      → Held (listen d env f replayed g).0
  unfolding listen
  listen-Held f replayed g h e = either env.ctx_done _ _ (failing canceled g h.0) (
      either (not (valid_frame f)) _ _ (failing invalid_audio g h.0) (
        either (not replayed && ltb f.captured_at g.request.capture_from)
          (g, record { consumed = true; state = armed; failure = no_failure }) _ h
          (either
            (not replayed && not (ltb f.captured_at (g.request.opened_at + g.options.window_ttl))) _
            _ (failing window_expired g h.0)
            (either
              (not replayed
                && is_armed g.state
                && not (ltb f.captured_at (g.request.opened_at + g.options.no_speech_timeout)))
              _ _ (failing no_speech g h.0)
              (segmented-Held (push env.ctx_done f env.speech g.segmenter) g h
                (push-Taken env.ctx_done f env.speech g.segmenter) e)))))

  by_state :
      (g : Gate) (s : State) (x : Gate × Answer)
      → g.state ≡ s
      → Held g
      → ((g.state ≡ armed) ⊎ (g.state ≡ capturing) → Held x.0)
      → Held
          (elim s as (λ s. Gate × Answer) [
            | dormant ↦ (g, record { consumed = false; state = dormant; failure = no_failure })
            | recognizing ↦
                (g, record { consumed = true; state = recognizing; failure = no_failure })
            | armed ↦ x
            | capturing ↦ x
          ]).0
  by_state g dormant x e h k = h
  by_state g armed x e h k = k (inl e)
  by_state g capturing x e h k = k (inr e)
  by_state g recognizing x e h k = h

  pub consume_locked-Held :
      (f : Frame) (replayed : Bool) (g : Gate) → Held g → Held (consume_locked d env f replayed g).0
  unfolding consume_locked
  consume_locked-Held f replayed g h =
      by_state g g.state (listen d env f replayed g) refl h (listen-Held f replayed g h)

replay_from-Held :
    (d : Deps) (fs : List (Env × Frame)) (g : Gate) (answer : Answer)
    → Held g
    → Held (replay_from d fs g answer).0
unfolding replay_from
replay_from-Held d [] g answer h = h
replay_from-Held d ((env, f) ∷ fs) g answer h =
    let r = consume_locked d env f true g in
    let one = consume_locked-Held d env f true g h in
    either d env (ends_replay (r.1).state) r _ one (replay_from-Held d fs r.0 r.1 one)

pub replay-Held : (d : Deps) (fs : List (Env × Frame)) (g : Gate) → Held g → Held (replay d fs g).0
unfolding replay
replay-Held d fs g h = replay_from-Held d fs g _ h
