-- ===== src/Gate/Hearing.antt =====
-- services/realtime-audio/command/gate.go: audio tells an outcome only of an attempt that is owed one.
use xe6_tsy.Common.{
  ◌+◌, Bool, true, false, not, ◌&&◌, ◌≡◌, refl, ◌∙◌, List, [], ◌∷◌, if◌then◌else◌, ltb, arith,
}
use xe6_tsy.Segmenter.{Frame, Segmenter, Event, opened, audio, final, Result, ok, err, push}
use xe6_tsy.Gate.{
  State, dormant, armed, capturing, recognizing, Failure, asr_failed, invalid_audio, canceled,
  window_expired, no_speech, stream_started, audio_pushed, is_armed, Deps, Gate, no_failure,
}
use xe6_tsy.Gate.Capture.{
  Answer, Env, valid_frame, fail_locked, classify, push_prefix, start_recognition, start_capture,
  capture_answer, handle_events, with_segmenter, segmented, listen, consume_locked, ends_replay,
  replay_from,
}
use xe6_tsy.Gate.Tally.{counted-cons, counted-push_prefix}
use xe6_tsy.Gate.Weight.{told-push_prefix, running-hears, hears, hears_awake, begun}
use xe6_tsy.Gate.Settles.{Settles, Settles-equal, Settles-refl, Settles-trans, fail-Settles}

choose :
    (d : Deps) (g : Gate) (c : Bool) (x y : Gate × Answer)
    → Settles d g x.0
    → Settles d g y.0
    → Settles d g (if c then x else y).0
choose d g true x y h j = h
choose d g false x y h j = j

module _ (d : Deps) (env : Env) where
  abbrev Calm : Gate → Gate × Answer → Type 0
  Calm g r = hears g.state ≡ true → Settles d g r.0

  pick :
      (g : Gate) (c : Bool) (x y : Gate × Answer)
      → Calm g x
      → Calm g y
      → Calm g (if c then x else y)
  pick g true x y h j = h
  pick g false x y h j = j

  -- A change that moves no weight, before what follows.
  after :
      (g h : Gate) (r : Gate × Answer)
      → hears h.state ≡ true
      → (hears g.state ≡ true → Settles d g h)
      → Calm h r
      → Calm g r
  after g h r e s c n = Settles-trans d g h r.0 (s n) (c e)

  fail_locked-Settles : (f : Failure) (g : Gate) → Calm g (fail_locked d env f g)
  unfolding fail_locked
  fail_locked-Settles f g h = fail-Settles d env.now f g (hears_awake g.state h)

  start_recognition-Settles : (g : Gate) → Calm g (start_recognition g)
  unfolding start_recognition
  start_recognition-Settles g h =
      Settles-equal d g (start_recognition g).0 refl (λ z. let awake = hears_awake g.state h in cc)
        (λ k a. omega (arith, running-hears k a g.state g.attempt h, begun k a g.attempt))
        (λ p n. refl)

  -- The gate once a stream is open and has the audio of the prefix.
  abbrev fed : List Frame → Gate → Gate
  fed prefix g = record (start_capture g) {
    log = (push_prefix env g.attempt prefix (start_capture g).log).0;
  }

  fed-Settles : (prefix : List Frame) (g : Gate) → hears g.state ≡ true → Settles d g (fed prefix g)
  unfolding start_capture
  fed-Settles prefix g h =
      Settles-equal d g (fed prefix g) refl (λ z. let awake = hears_awake g.state h in cc)
        (λ k a. omega (
          arith,
          running-hears k a g.state g.attempt h,
          told-push_prefix env k a g.attempt prefix (start_capture g).log,
        ))
        (λ p n.
          counted-push_prefix p env g.attempt prefix (start_capture g).log n.pushes
          ∙ counted-cons p g.attempt stream_started g.log n.starts)

  quiet-Settles :
      (prefix : List Frame) (g : Gate)
      → hears g.state ≡ true
      → Settles d g (record (fed prefix g) { silence_timer = false })
  unfolding start_capture
  quiet-Settles prefix g h =
      Settles-trans d g (fed prefix g) (record (fed prefix g) { silence_timer = false })
        (fed-Settles prefix g h)
        (Settles-equal d (fed prefix g) (record (fed prefix g) { silence_timer = false }) refl
          (λ z. z) (λ k a. refl) (λ p n. refl))

  handle_events-Settles :
      (es : List Event) (g : Gate) (answer : Answer) → Calm g (handle_events d env es g answer)
  unfolding handle_events start_capture
  handle_events-Settles [] g answer = λ h. Settles-refl d g
  handle_events-Settles (opened prefix t ∷ rest) g answer =
      let last : Gate = record (fed prefix g) { silence_timer = false } in
      let next = handle_events-Settles rest last capture_answer in
      pick g (not env.stream_starts) _ _ (fail_locked-Settles (classify env asr_failed) g) (
        pick g (not (push_prefix env g.attempt prefix (start_capture g).log).1) _ _
          (after g (fed prefix g) (fail_locked d env (classify env asr_failed) (fed prefix g)) refl
            (fed-Settles prefix g) (fail_locked-Settles (classify env asr_failed) (fed prefix g)))
          (after g last (handle_events d env rest last capture_answer) refl (quiet-Settles prefix g)
            next))
  handle_events-Settles (audio f t ∷ rest) g answer = λ h.
      let pushed : Gate = record g { log = (g.attempt, audio_pushed f.pcm) ∷ g.log } in
      let next = handle_events-Settles rest pushed capture_answer in
      pick g (not g.stream) _ _ (fail_locked-Settles invalid_audio g)
        (pick g (not (env.accepts f.pcm)) _ _ (fail_locked-Settles (classify env asr_failed) g) (
          after g pushed (handle_events d env rest pushed capture_answer) h
            (λ n.
              Settles-equal d g pushed refl (λ z. z) (λ k a. omega arith)
                (λ p n. counted-cons p g.attempt (audio_pushed f.pcm) g.log (n.pushes f.pcm)))
            next))
        h
  handle_events-Settles (final reason fs from to ∷ rest) g answer = start_recognition-Settles g

  segmented-Settles :
      (r : Segmenter × Result (List Event)) (g : Gate) → Calm g (segmented d env r g)
  unfolding segmented fail_locked
  segmented-Settles (s, err e) g h =
      Settles-trans d g (with_segmenter s g) _
        (Settles-equal d g (with_segmenter s g) refl (λ z. z) (λ k a. refl) (λ p n. refl))
        (fail_locked-Settles (classify env invalid_audio) (with_segmenter s g) h)
  segmented-Settles (s, ok es) g h =
      Settles-trans d g (with_segmenter s g) _
        (Settles-equal d g (with_segmenter s g) refl (λ z. z) (λ k a. refl) (λ p n. refl))
        (handle_events-Settles es (with_segmenter s g)
          (record { consumed = true; state = g.state; failure = no_failure }) h)

  listen-Settles : (f : Frame) (replayed : Bool) (g : Gate) → Calm g (listen d env f replayed g)
  unfolding listen
  listen-Settles f replayed g = pick g env.ctx_done _ _ (fail_locked-Settles canceled g) (
      pick g (not (valid_frame f)) _ _ (fail_locked-Settles invalid_audio g) (
        pick g (not replayed && ltb f.captured_at g.request.capture_from) _ _
          (λ h. Settles-refl d g)
          (pick g
            (not replayed && not (ltb f.captured_at (g.request.opened_at + g.options.window_ttl))) _
            _ (fail_locked-Settles window_expired g)
            (pick g
              (not replayed
                && is_armed g.state
                && not (ltb f.captured_at (g.request.opened_at + g.options.no_speech_timeout)))
              _ _ (fail_locked-Settles no_speech g)
              (segmented-Settles (push env.ctx_done f env.speech g.segmenter) g)))))

  by_state :
      (g : Gate) (s : State) (x y z : Gate × Answer)
      → Settles d g x.0
      → Settles d g y.0
      → (hears s ≡ true → Settles d g z.0)
      → Settles d g
          (elim s as (λ s. Gate × Answer) [
            | dormant ↦ x
            | recognizing ↦ y
            | armed ↦ z
            | capturing ↦ z
          ]).0
  by_state g dormant x y z h j k = h
  by_state g armed x y z h j k = k refl
  by_state g capturing x y z h j k = k refl
  by_state g recognizing x y z h j k = j

  pub consume_locked-Settles :
      (f : Frame) (replayed : Bool) (g : Gate) → Settles d g (consume_locked d env f replayed g).0
  unfolding consume_locked
  consume_locked-Settles f replayed g =
      by_state g g.state _ _ _ (Settles-refl d g) (Settles-refl d g) (listen-Settles f replayed g)

pub replay_from-Settles :
    (d : Deps) (fs : List (Env × Frame)) (g : Gate) (answer : Answer)
    → Settles d g (replay_from d fs g answer).0
unfolding replay_from
replay_from-Settles d [] g answer = Settles-refl d g
replay_from-Settles d ((env, f) ∷ fs) g answer =
    let r = consume_locked d env f true g in
    let one = consume_locked-Settles d env f true g in
    let next = replay_from d fs r.0 r.1 in
    choose d g (ends_replay (r.1).state) r next one
      (Settles-trans d g r.0 next.0 one (replay_from-Settles d fs r.0 r.1))
