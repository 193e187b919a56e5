-- ===== src/Playback/Endings.antt =====
-- services/realtime-audio/playback/service.go: `settle` keeps the order of chunks and events.
use xe6_tsy.Common.{
  ℕ, ◌≡◌, refl, ◌∙◌, incr, str_eq, true, false, not, ◌&&◌, ◌||◌, Option, none, some, String, List,
  arith, Bool-cases, Option-cases, inl, inr,
}
use xe6_tsy.Playback.{
  Playback, EventType, event_started, type_eq, is_playing, Settlement, Effect, Env, Error,
  event_locked,
}
use xe6_tsy.Playback.Settle.{
  complete_track, publish_end, stop_track, and_then, close, conclude, Ending, settle_pending,
  settle, state_of, type_of, complete, interrupt, cancel,
}
use xe6_tsy.Playback.Log.{halted, Ordered, Settling, Playing, InOrder}

-- A settlement is under way in a playback that plays.
record Winding (p : Playback) (a : Settlement × List Effect × Option Error) : Type 0 where
  ordered : Ordered a.1
  plays : is_playing p.snapshot.state ≡ true
  known : Playing (record p { settlement = some a.0 }) a.1

complete_track-Winding :
    (env : Env) (id : String) (p : Playback) (s : Settlement) (log : List Effect) (o : Option Error)
    → Winding p (s, log, o)
    → Winding p (complete_track env id s log)
unfolding complete_track
complete_track-Winding env id p s log o h = elim (Bool-cases (s.stop || s.track_stopped)) [
  | inl e ↦
      simp (e, complete_track) (record { ordered = h.ordered; plays = h.plays; known = h.known })
  | inr e ↦
      let k = h.known in
      let quiet : halted log ≡ false = k.3.3 (ground (arith, e)) in
      elim (Option-cases env.complete_playback) [
        | inl i ↦
            simp (e, i, complete_track)
              (record {
                ordered = h.ordered;
                plays = h.plays;
                known = (k.0, k.1, k.2, (k.3.0, k.3.1, k.3.2, λ z. quiet));
              })
        | inr (call, i) ↦ elim (Option-cases (call id)) [
          | inl j ↦
              simp (e, i, j, complete_track)
                (record {
                  ordered = (quiet, h.ordered);
                  plays = h.plays;
                  known = (k.0, k.1, k.2, (k.3.0, k.3.1, k.3.2, λ z. cc z));
                })
          | inr (why, j) ↦
              simp (e, i, j, complete_track)
                (record { ordered = h.ordered; plays = h.plays; known = h.known })
        ]
      ]
]

publish_end-Winding :
    (env : Env) (p : Playback) (s : Settlement) (log : List Effect) (o : Option Error)
    → Winding p (s, log, o)
    → Winding p (publish_end env s log)
unfolding publish_end
publish_end-Winding env p s log o h = elim (Bool-cases s.event_sent) [
  | inl e ↦ simp (e, publish_end) (record { ordered = h.ordered; plays = h.plays; known = h.known })
  | inr e ↦ elim (Option-cases (env.publish s.event)) [
    | inr (why, i) ↦
        simp (e, i, publish_end) (record { ordered = h.ordered; plays = h.plays; known = h.known })
    | inl i ↦
        let k = h.known in
        simp (e, i, publish_end)
          (record {
            ordered = ((k.3.2 ∙ e, λ z. cc (z, k.3.1)), h.ordered);
            plays = h.plays;
            known = (k.0, k.1, simp k.3.1 k.2, (k.3.0, k.3.1, ground (arith, k.3.1), k.3.3));
          })
  ]
]

stop_track-Winding :
    (env : Env) (id : String) (p : Playback) (s : Settlement) (log : List Effect) (o : Option Error)
    → Winding p (s, log, o)
    → Winding p (stop_track env id s log)
unfolding stop_track
stop_track-Winding env id p s log o h = elim (Bool-cases (not s.stop || s.track_stopped)) [
  | inl e ↦ simp (e, stop_track) (record { ordered = h.ordered; plays = h.plays; known = h.known })
  | inr e ↦
      let k = h.known in
      let quiet : halted log ≡ false = k.3.3 (ground (arith, e)) in
      elim (Option-cases (env.stop id)) [
        | inl j ↦
            simp (e, j, stop_track)
              (record {
                ordered = (quiet, h.ordered);
                plays = h.plays;
                known = (k.0, k.1, k.2, (k.3.0, k.3.1, k.3.2, λ z. cc z));
              })
        | inr (why, j) ↦
            simp (e, j, stop_track)
              (record { ordered = h.ordered; plays = h.plays; known = h.known })
      ]
]

and_then-Winding :
    (p : Playback) (a : Settlement × List Effect × Option Error)
    (next : Settlement → List Effect → Settlement × List Effect × Option Error)
    → ((s : Settlement) (log : List Effect) (o : Option Error)
        → Winding p (s, log, o)
        → Winding p (next s log))
    → Winding p a
    → Winding p (and_then a next)
unfolding and_then
and_then-Winding p (s, log, some e) next k h = h
and_then-Winding p (s, log, none) next k h = k s log none h

close-InOrder :
    (p : Playback) (a : Settlement × List Effect × Option Error)
    → Winding p a
    → InOrder (close p a).0 (close p a).1
unfolding close
close-InOrder p (s, log, some e) h = record {
  ordered = h.ordered;
  known = λ z. h.known;
  closed = λ z. cc (z, h.plays);
}
close-InOrder p (s, log, none) h = elim (Bool-cases (s.event_sent && s.track_stopped)) [
  | inl e ↦
      simp (e, close)
        (record { ordered = h.ordered; known = λ z. cc (z, h.known.3.0); closed = λ z. refl })
  | inr e ↦
      simp (e, close)
        (record { ordered = h.ordered; known = λ z. h.known; closed = λ z. cc (z, h.plays) })
]

conclude-InOrder :
    (env : Env) (id : String) (s : Settlement) (p : Playback) (log : List Effect)
    → Winding p (s, log, none)
    → let r = conclude env id s p log in InOrder r.0 r.1
unfolding conclude
conclude-InOrder env id s p log h = close-InOrder p _ (
    and_then-Winding p _ (stop_track env id) (stop_track-Winding env id p) (
      and_then-Winding p _ (publish_end env) (publish_end-Winding env p)
        (complete_track-Winding env id p s log none h)))

ending-Types :
    (e : Ending) → (is_playing (state_of e) ≡ false) × (type_eq (type_of e) event_started ≡ false)
ending-Types complete = (refl, refl)
ending-Types (interrupt why) = (refl, refl)
ending-Types (cancel why) = (refl, refl)

module _ (event_id_text : String → EventType → ℕ → String) where
  pending-InOrder :
      (env : Env) (id : String) (e : Ending) (p : Playback) (log : List Effect)
      (o : Option Settlement)
      → InOrder p log
      → p.settlement ≡ o
      → let r = settle_pending event_id_text env id e p log o in InOrder r.0 r.1
  unfolding settle_pending event_locked
  pending-InOrder env id e p log none h n = elim (Bool-cases (is_playing p.snapshot.state)) [
    | inr a ↦ simp (a, settle_pending) h
    | inl a ↦
        let k = h.known a in
        let quiet : Settling none log = rw n at k.3 in
        simp (a, settle_pending)
          (conclude-InOrder env id _ (record p { event_seq = incr p.event_seq }) log
            (record {
              ordered = h.ordered;
              plays = a;
              known =
                  (k.0, k.1, k.2, ((ending-Types e).0, (ending-Types e).1, quiet.0, λ z. quiet.1));
            }))
  ]
  pending-InOrder env id e p log (some s) h n =
      elim (Bool-cases (type_eq s.event.event_type (type_of e))) [
        | inr t ↦ simp (t, settle_pending) h
        | inl t ↦ elim (Bool-cases (is_playing p.snapshot.state)) [
          | inr a ↦ absurd (cc (h.closed a, n))
          | inl a ↦
              let k = h.known a in
              simp (t, settle_pending)
                (conclude-InOrder env id s p log
                  (record { ordered = h.ordered; plays = a; known = (k.0, k.1, k.2, rw n at k.3) }))
        ]
      ]

  pub settle-InOrder :
      (env : Env) (id : String) (e : Ending) (p : Playback) (log : List Effect)
      → InOrder p log
      → let r = settle event_id_text env id e p log in InOrder r.0 r.1
  unfolding settle
  settle-InOrder env id e p log h = elim (Bool-cases (str_eq p.snapshot.playback_id id)) [
    | inr i ↦ simp (i, settle) h
    | inl i ↦ simp (i, settle) (pending-InOrder env id e p log p.settlement h refl)
  ]
