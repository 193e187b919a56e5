-- ===== src/Playback/Delivery.antt =====
-- services/realtime-audio/playback/service.go: `Publish` keeps the order of chunks and events.
use xe6_tsy.Common.{
  ℕ, ◌≡◌, refl, ◌∙◌, ap, incr, str_eq, true, false, not, Option, none, some, String, List, ◌∷◌,
  arith, ==_iff, ◌==◌, less, positive, Bool-cases, Option-cases, inl, inr,
}
use xe6_tsy.Playback.{
  Playback, EventType, is_playing, AudioChunk, Started, Effect, published, Env, write_first,
  announce, write_next, name_turn, event_locked, start_or_continue, proceed, deliver,
}
use xe6_tsy.Playback.Log.{announced, Ordered, Starting, Settling, Playing, InOrder}

write_first-InOrder :
    (env : Env) (c : AudioChunk) (st : Started) (p : Playback) (log : List Effect)
    → Ordered log
    → is_playing p.snapshot.state ≡ true
    → Playing (record p { started = some st }) log
    → p.settlement ≡ none
    → st.event_sent ≡ true
    → positive c.sequence_no ≡ true
    → InOrder (write_first env c st p log).0 (write_first env c st p log).1
unfolding write_first
write_first-InOrder env c st p log o a k n e pos =
    let quiet : Settling none log = rw n at k.3 in
    elim (Option-cases (env.write c)) [
      | inl i ↦
          rw (k.2.3, i, write_first)
            (record {
              ordered = (ground (arith, k.0, k.2.0, k.2.2, quiet.0, quiet.1), o);
              known = λ z. (refl, ground arith, ground (arith, k.2.2), rw n quiet);
              closed = λ z. n;
            })
      | inr (why, i) ↦
          rw (k.2.3, i, write_first) (record { ordered = o; known = λ z. k; closed = λ z. n })
    ]

announce-InOrder :
    (env : Env) (c : AudioChunk) (st : Started) (p : Playback) (log : List Effect)
    → Ordered log
    → is_playing p.snapshot.state ≡ true
    → Playing (record p { started = some st }) log
    → p.settlement ≡ none
    → positive c.sequence_no ≡ true
    → InOrder (announce env c st p log).0 (announce env c st p log).1
unfolding announce
announce-InOrder env c st p log o a k n pos =
    let quiet : Settling none log = rw n at k.3 in
    elim (Bool-cases st.event_sent) [
      | inl e ↦ simp (e, announce) (write_first-InOrder env c st p log o a k n e pos)
      | inr e ↦ elim (Option-cases (env.publish st.event)) [
        | inr (why, i) ↦
            simp (e, i, announce) (record { ordered = o; known = λ z. k; closed = λ z. n })
        | inl i ↦
            simp (e, i, announce)
              (write_first-InOrder env c (record st { event_sent = true }) p
                (published st.event ∷ log) ((quiet.0, λ z. (k.2.2 ∙ e, k.0 ∙ k.2.0, quiet.1)), o) a
                (
                  k.0,
                  k.1,
                  (k.2.0, k.2.1, ground (arith, k.2.1), k.2.3),
                  rw n (ground (arith, k.2.1, quiet.0), quiet.1),
                )
                n refl pos)
      ]
    ]

write_next-InOrder :
    (env : Env) (c : AudioChunk) (p : Playback) (log : List Effect)
    → Ordered log
    → is_playing p.snapshot.state ≡ true
    → Playing p log
    → p.settlement ≡ none
    → p.started ≡ none
    → (p.snapshot.last_sequence == 0) ≡ false
    → less p.snapshot.last_sequence c.sequence_no ≡ true
    → positive c.sequence_no ≡ true
    → InOrder (write_next env c p log).0 (write_next env c p log).1
unfolding write_next
write_next-InOrder env c p log o a k n s d l pos =
    let quiet : Settling none log = rw n at k.3 in
    let begun : announced log ≡ not (p.snapshot.last_sequence == 0) = rw s at k.2 in
    elim (Option-cases (env.write c)) [
      | inr (why, i) ↦ rw (i, write_next) (record { ordered = o; known = λ z. k; closed = λ z. n })
      | inl i ↦
          rw (i, write_next)
            (record {
              ordered = ((begun ∙ ap not d, ground (arith, k.0, l), quiet.0, quiet.1), o);
              known = λ z. (refl, ground arith, rw s (ground (arith, begun, d)), rw n quiet);
              closed = λ z. n;
            })
    ]

-- Naming the Turn changes nothing else.
name_turn_keeps :
    (c : AudioChunk) (p : Playback)
    → ((name_turn c p).snapshot.state ≡ p.snapshot.state)
      × ((name_turn c p).snapshot.last_sequence ≡ p.snapshot.last_sequence)
      × ((name_turn c p).started ≡ p.started)
      × ((name_turn c p).settlement ≡ p.settlement)
unfolding name_turn
name_turn_keeps c p = ground arith

-- A chunk comes next in a playback that plays.
record Due (c : AudioChunk) (p : Playback) (o : Option Started) (log : List Effect) : Type 0 where
  ordered : Ordered log
  plays : is_playing p.snapshot.state ≡ true
  known : Playing p log
  unsettled : p.settlement ≡ none
  start : p.started ≡ o
  later : less p.snapshot.last_sequence c.sequence_no ≡ true
  numbered : positive c.sequence_no ≡ true

name_turn-Due :
    (c : AudioChunk) (p : Playback) (o : Option Started) (log : List Effect)
    → Due c p o log
    → Due c (name_turn c p) o log
name_turn-Due c p o log h =
    let k = name_turn_keeps c p in
    record {
      ordered = h.ordered;
      plays = rw k.0 h.plays;
      known = rw (k.1, k.2, k.3) h.known;
      unsettled = k.3 ∙ h.unsettled;
      start = k.2 ∙ h.start;
      later = rw k.1 h.later;
      numbered = h.numbered;
    }

module _ (event_id_text : String → EventType → ℕ → String) where
  proceed-InOrder :
      (env : Env) (c : AudioChunk) (p : Playback) (log : List Effect) (o : Option Started)
      → Due c p o log
      → let r = proceed event_id_text env c p log o in InOrder r.0 r.1
  unfolding proceed event_locked
  proceed-InOrder env c p log none h =
      let k = h.known in
      let begun : announced log ≡ not (p.snapshot.last_sequence == 0) = rw h.start at k.2 in
      elim (Bool-cases (p.snapshot.last_sequence == 0)) [
        | inl d ↦
            simp (d, proceed)
              (announce-InOrder env c _ (record p { event_seq = incr p.event_seq }) log h.ordered
                h.plays
                (
                  k.0,
                  k.1,
                  ((==_iff p.snapshot.last_sequence 0).0 d, refl, begun ∙ ap not d, refl),
                  k.3,
                )
                h.unsettled h.numbered)
        | inr d ↦
            simp (d, proceed)
              (write_next-InOrder env c p log h.ordered h.plays k h.unsettled h.start d h.later
                h.numbered)
      ]
  proceed-InOrder env c p log (some st) h =
      let k = h.known in
      let begun : Starting (some st) p.snapshot.last_sequence (announced log) = rw h.start at k.2 in
      simp ((==_iff p.snapshot.last_sequence 0).1 begun.0, proceed)
        (announce-InOrder env c st p log h.ordered h.plays (k.0, k.1, begun, k.3) h.unsettled
          h.numbered)

  start-InOrder :
      (env : Env) (c : AudioChunk) (p : Playback) (log : List Effect) (o : Option Started)
      → Due c p o log
      → let r = start_or_continue event_id_text env c p log o in InOrder r.0 r.1
  unfolding start_or_continue
  start-InOrder env c p log none h = proceed-InOrder env c _ log none (name_turn-Due c p none log h)
  start-InOrder env c p log (some st) h = elim (Bool-cases (st.sequence_no == c.sequence_no)) [
    | inr e ↦
        simp (e, start_or_continue)
          (record { ordered = h.ordered; known = λ z. h.known; closed = λ z. h.unsettled })
    | inl e ↦
        simp (e, start_or_continue)
          (proceed-InOrder env c _ log (some st) (name_turn-Due c p (some st) log h))
  ]

  pub deliver-InOrder :
      (env : Env) (c : AudioChunk) (p : Playback) (log : List Effect)
      → positive c.sequence_no ≡ true
      → InOrder p log
      → let r = deliver event_id_text env c p log in InOrder r.0 r.1
  unfolding deliver
  deliver-InOrder env c p log pos h =
      elim (Bool-cases (str_eq p.snapshot.playback_id c.playback_id)) [
        | inr e ↦ simp (e, deliver) h
        | inl e ↦ elim (Bool-cases (is_playing p.snapshot.state)) [
          | inr a ↦ simp (e, a, deliver) h
          | inl a ↦ elim (Option-cases p.settlement) [
            | inr (s, n) ↦ simp (e, a, n, deliver) h
            | inl n ↦ elim (Bool-cases (less p.snapshot.last_sequence c.sequence_no)) [
              | inr l ↦ simp (e, a, n, l, deliver) h
              | inl l ↦
                  simp (e, a, n, l, deliver)
                    (start-InOrder env c p log p.started (record {
                      ordered = h.ordered;
                      plays = a;
                      known = h.known a;
                      unsettled = n;
                      start = refl;
                      later = l;
                      numbered = pos;
                    }))
            ]
          ]
        ]
      ]
