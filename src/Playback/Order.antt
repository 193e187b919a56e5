-- ===== src/Playback/Order.antt =====
-- services/realtime-audio/playback/service.go: the order in which one playback's chunks and events
-- reach the track and the event sink.
use xe6_tsy.Common.{
  ℕ, ◌≡◌, refl, str_eq_refl, true, false, Option, none, some, String, List, [], ◌∷◌, arith,
  positive, Option-cases, inl, inr,
}
use xe6_tsy.Playback.{
  Playback, EventType, is_playing, Event, AudioChunk, Effect, Env, deliver, validate_chunk, opened,
}
use xe6_tsy.Playback.Settle.{
  complete_track, publish_end, stop_track, and_then, close, conclude, Ending, settle_pending,
  settle, state_of, complete, interrupt, cancel,
}
use xe6_tsy.Playback.Calls.{Call, chunk, ending, step, run}
use xe6_tsy.Playback.Delivery.{deliver-InOrder}
use xe6_tsy.Playback.Endings.{settle-InOrder}
use xe6_tsy.Playback.Log.{Ordered, InOrder}

module _ (event_id_text : String → EventType → ℕ → String) where
  valid_chunk_numbered : (c : AudioChunk) → validate_chunk c ≡ none → positive c.sequence_no ≡ true
  unfolding validate_chunk
  valid_chunk_numbered c h = ground arith

  step-InOrder :
      (env : Env) (call : Call) (p : Playback) (log : List Effect)
      → InOrder p log
      → let r = step event_id_text env call (p, log) in InOrder r.0 r.1
  unfolding step
  step-InOrder env (chunk c) p log h = elim (Option-cases (validate_chunk c)) [
    | inr (e, i) ↦ simp (i, step) h
    | inl i ↦
        simp (i, step) (deliver-InOrder event_id_text env c p log (valid_chunk_numbered c i) h)
  ]
  step-InOrder env (ending id e) p log h = settle-InOrder event_id_text env id e p log h

  pub run-InOrder :
      (calls : List (Env × Call)) (p : Playback) (log : List Effect)
      → InOrder p log
      → let r = run event_id_text calls (p, log) in InOrder r.0 r.1
  unfolding run
  run-InOrder [] p log h = h
  run-InOrder ((env, call) ∷ rest) p log h = run-InOrder rest _ _ (step-InOrder env call p log h)

  -- The track and the event sink get a playback's chunks and events in order, whatever calls come and
  -- whichever of them fail: the start is published at most once and before any audio, chunks are
  -- written in the order of their sequence numbers and none twice, at most one end is published, the
  -- track is completed or stopped at most once, and after either there is no start and no audio.
  pub run-Ordered :
      (calls : List (Env × Call)) (c : AudioChunk)
      → Ordered (run event_id_text calls (opened c, [])).1
  run-Ordered calls c =
      (run-InOrder calls (opened c) [] (record {
        ordered = tt;
        known = λ z. (refl, refl, refl, (refl, refl));
        closed = λ z. refl;
      })).ordered

  -- A playback that has ended ignores every call: nothing reaches the track or the event sink, and
  -- the playback stays as it is.
  pub ended_ignores :
      (env : Env) (call : Call) (p : Playback) (log : List Effect)
      → InOrder p log
      → is_playing p.snapshot.state ≡ false
      → step event_id_text env call (p, log) ≡ (p, log)
  unfolding step deliver settle settle_pending
  ended_ignores env (chunk c) p log h a = ground (arith, h.closed a)
  ended_ignores env (ending id e) p log h a = ground (arith, h.closed a)

  -- Complete, Interrupt or Cancel of a playback that plays and is not being settled ends it with no
  -- error and in the state asked for, if the event sink and the track do what they are told.
  pub settle_ends :
      (env : Env) (e : Ending) (p : Playback) (log : List Effect)
      → is_playing p.snapshot.state ≡ true
      → p.settlement ≡ none
      → ((x : Event) → env.publish x ≡ none)
      → env.stop p.snapshot.playback_id ≡ none
      → ((f : String → Option String)
          → env.complete_playback ≡ some f
          → f p.snapshot.playback_id ≡ none)
      → let r = settle event_id_text env p.snapshot.playback_id e p log in
        (r.0.snapshot.state ≡ state_of e) × (r.0.settlement ≡ none) × (r.2 ≡ none)
  unfolding settle settle_pending conclude close and_then complete_track publish_end stop_track
  settle_ends env complete p log a n s t f = elim (Option-cases env.complete_playback) [
    | inl i ↦ simp (str_eq_refl p.snapshot.playback_id, n, a, i, s, settle) (refl, refl, refl)
    | inr (g, i) ↦
        simp (str_eq_refl p.snapshot.playback_id, n, a, i, f g i, s, settle) (refl, refl, refl)
  ]
  settle_ends env (interrupt why) p log a n s t f =
      simp (str_eq_refl p.snapshot.playback_id, n, a, s, t, settle) (refl, refl, refl)
  settle_ends env (cancel why) p log a n s t f =
      simp (str_eq_refl p.snapshot.playback_id, n, a, s, t, settle) (refl, refl, refl)
