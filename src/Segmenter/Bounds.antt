-- ===== src/Segmenter/Bounds.antt =====
-- How long the utterances of services/realtime-audio/vad/segmenter.go last.
use xe6_tsy.Common.{
  ℕ, ◌+◌, ◌-◌, ◌<◌, ◌≤◌, ◌≡◌, refl, subst, inl, inr, Bool, true, false, String, none, List, [], ◌∷◌,
  ◌++◌, arith, All, All-append, Bool-cases, leb, positive,
}
use xe6_tsy.Contract.Mode.{Time}
use xe6_tsy.Segmenter.{
  Frame, Event, opened, audio, final, Segmenter, Result, ok, err, start, drop_before,
  remember_prefix, opened_event, final_event, finalize, reset_active, cut, hear, pause, overdue,
  advance, push, reset, first_captured, validate_frame,
}
use xe6_tsy.Segmenter.Branches.{advance_rule, push_rule}

-- An utterance in progress began at a frame already seen; so were the prefix frames.
pub record IsTimed (s : Segmenter) : Type 0 where
  pub began : s.active ≡ true → s.started_at ≤ s.last_seen
  pub seen : s.active ≡ true → 0 < s.last_seen
  pub before : All (λ f. f.captured_at ≤ s.last_seen) s.prefix_frames

-- A final event lasts some time, and no longer than the watchdog allows, or without a watchdog the
-- largest duration, where these are set.
abbrev pub Lasts : Segmenter → Event → Type 0
Lasts s (opened fs t) = Unit {0}
Lasts s (audio f t) = Unit {0}
Lasts s (final r fs a b) =
    (a < b)
    × (positive s.max_buffered_duration ≡ true → b ≤ a + s.max_buffered_duration)
    × (positive s.max_buffered_duration ≡ false
        → positive s.max_duration ≡ true
        → b ≤ a + s.max_duration)

All-drop_before :
    (t cutoff : Time) (fs : List Frame)
    → All (λ f. f.captured_at ≤ t) fs
    → All (λ f. f.captured_at ≤ t) (drop_before cutoff fs)
unfolding drop_before
All-drop_before t cutoff [] h = tt
All-drop_before t cutoff (f ∷ fs) h = ground (arith, All-drop_before t cutoff fs h.1)

All-later :
    (t u : Time) (fs : List Frame)
    → t ≤ u
    → All (λ f. f.captured_at ≤ t) fs
    → All (λ f. f.captured_at ≤ u) fs
All-later t u [] le h = tt
All-later t u (f ∷ fs) le h = (omega (arith, h.0), All-later t u fs le h.1)

first_captured-le :
    (t : Time) (fs : List Frame) → All (λ f. f.captured_at ≤ t) fs → first_captured fs t ≤ t
first_captured-le t [] h = omega arith
first_captured-le t (f ∷ fs) h = h.0

-- The facts about the frame that a step takes: it is later than all seen before.
module _ (f : Frame) (s : Segmenter) (timed : s.last_seen ≡ f.captured_at)
    (real : 0 < f.captured_at) where
  IsTimed-start : All (λ g. g.captured_at ≤ f.captured_at) s.prefix_frames → IsTimed (start f s)
  unfolding start
  IsTimed-start h = record {
    began = λ e. rw timed (first_captured-le f.captured_at s.prefix_frames h);
    seen = λ e. rw timed real;
    before = tt;
  }

  IsTimed-remember_prefix :
      All (λ g. g.captured_at ≤ f.captured_at) s.prefix_frames
      → s.active ≡ false
      → IsTimed (remember_prefix f s)
  unfolding remember_prefix
  IsTimed-remember_prefix h i =
      let kept =
        All-append (λ g. g.captured_at ≤ f.captured_at) s.prefix_frames (f ∷ []) h
          (omega arith, tt) in
      elim (Bool-cases (positive s.prefix_padding)) [
        | inr n ↦
            simp (n, remember_prefix)
              (record { began = λ e. cc (e, i); seen = λ e. cc (e, i); before = rw timed h })
        | inl p ↦
            simp (p, remember_prefix)
              (record {
                began = λ e. cc (e, i);
                seen = λ e. cc (e, i);
                before = rw timed (
                    All-drop_before f.captured_at (f.captured_at - s.prefix_padding)
                      (s.prefix_frames ++ f ∷ []) kept);
              })
      ]

module _ (f : Frame) (s : Segmenter) (timed : s.last_seen ≡ f.captured_at)
    (real : 0 < f.captured_at) where
  IsTimed-cut : (reason : String) (limit : ℕ) (sp : Bool) → IsTimed (cut reason limit f sp s).0
  unfolding cut finalize reset_active
  IsTimed-cut reason limit true = IsTimed-start f (finalize s) timed real tt
  IsTimed-cut reason limit false = IsTimed-remember_prefix f (finalize s) timed real tt refl

  -- The lower bounds of the step's facts.
  IsTimed-hear :
      All (λ g. g.captured_at ≤ f.captured_at) s.prefix_frames
      → (s.active ≡ true → s.started_at ≤ s.last_seen)
      → IsTimed (hear f s).0
  unfolding hear
  IsTimed-hear h b = elim (Bool-cases s.active) [
    | inr e ↦ simp (e, hear) (IsTimed-start f s timed real h)
    | inl e ↦
        simp (e, hear) (record { began = λ x. b e; seen = λ x. rw timed real; before = rw timed h })
  ]

  IsTimed-pause :
      All (λ g. g.captured_at ≤ f.captured_at) s.prefix_frames
      → (s.active ≡ true → s.started_at ≤ s.last_seen)
      → IsTimed (pause f s).0
  unfolding pause finalize reset_active
  IsTimed-pause h b = elim (Bool-cases s.active) [
    | inr e ↦ simp (e, pause) (IsTimed-remember_prefix f s timed real h e)
    | inl e ↦ elim (Bool-cases (leb s.silence_after (f.captured_at - s.last_speech))) [
      | inl l ↦ simp (e, l, pause) (record { began = λ x. cc; seen = λ x. cc; before = tt })
      | inr l ↦
          simp (e, l, pause)
            (record { began = λ x. b e; seen = λ x. rw timed real; before = rw timed h })
    ]
  ]

cut-Lasts :
    (reason : String) (limit : ℕ) (f : Frame) (sp : Bool) (s d : Segmenter)
    → positive limit ≡ true
    → (positive d.max_buffered_duration ≡ true → limit ≤ d.max_buffered_duration)
    → (positive d.max_buffered_duration ≡ false
        → positive d.max_duration ≡ true
        → limit ≤ d.max_duration)
    → All (Lasts d) (cut reason limit f sp s).1
unfolding cut final_event opened_event
cut-Lasts reason limit f true s d p h k =
    ((ground arith, ground arith, ground arith), (tt, (tt, tt)))
cut-Lasts reason limit f false s d p h k = ((ground arith, ground arith, ground arith), tt)

pause-Lasts :
    (f : Frame) (s : Segmenter)
    → overdue s.max_buffered_duration f s ≡ false
    → overdue s.max_duration f s ≡ false
    → (s.active ≡ true → s.started_at < f.captured_at)
    → All (Lasts s) (pause f s).1
unfolding pause final_event
pause-Lasts f s h k b = ground arith

hear-Lasts : (f : Frame) (s : Segmenter) → All (Lasts s) (hear f s).1
unfolding hear opened_event
hear-Lasts f s = ground arith

advance-Lasts :
    (f : Frame) (sp : Bool) (s : Segmenter)
    → (s.active ≡ true → s.started_at < f.captured_at)
    → All (Lasts s) (advance f sp s).1
advance-Lasts f sp s b =
    advance_rule (λ r. All (Lasts s) r.1) f sp s
      (λ h.
        cut-Lasts "turn_watchdog" s.max_buffered_duration f sp s s (ground (arith, h))
          (λ e. omega arith) (λ e g. absurd_both e h))
      (λ h k.
        cut-Lasts "" s.max_duration f sp s s (ground (arith, k)) (λ e. ground (arith, h, k))
          (λ e g. omega arith))
      (λ h k x. hear-Lasts f s) (λ h k x. pause-Lasts f s h k b)
  where
    absurd_both :
        positive s.max_buffered_duration ≡ false
        → overdue s.max_buffered_duration f s ≡ true
        → s.max_buffered_duration ≤ s.max_duration
    absurd_both e h = ground arith

abbrev Bounded : Segmenter → Segmenter × Result (List Event) → Type 0
Bounded s (d, ok es) = All (Lasts s) es
Bounded s (d, err e) = Unit {0}

captured-positive : (f : Frame) → validate_frame f ≡ none → 0 < f.captured_at
unfolding validate_frame
captured-positive f v = ground arith

-- Every utterance that a frame ends lasts some time; it lasts at most the buffering limit where one is
-- set, and at most the largest duration where that is set and no buffering limit is.
pub push-Lasts :
    (done : Bool) (f : Frame) (sp : Bool) (s s' : Segmenter) (es : List Event)
    → IsTimed s
    → push done f sp s ≡ (s', ok es)
    → All (Lasts s) es
push-Lasts done f sp s s' es i h = subst (Bounded s) h bounded
  where
    bounded : Bounded s (push done f sp s)
    bounded =
        push_rule (Bounded s) done f sp s (λ e. tt) (λ d. tt)
          (λ m v.
            advance-Lasts f sp (record s { last_seen = f.captured_at })
              (λ e. ground (arith, m, i.began e, i.seen e)))

-- What the bounds need is kept by every call.
pub push-IsTimed :
    (done : Bool) (f : Frame) (sp : Bool) (s : Segmenter) → IsTimed s → IsTimed (push done f sp s).0
push-IsTimed done f sp s i =
    push_rule (λ r. IsTimed r.0) done f sp s (λ e. i)
      (λ d. unfold reset reset_active in (record { began = λ e. cc; seen = λ e. cc; before = tt }))
      (λ m v.
        let real = captured-positive f v in
        let later : s.last_seen ≤ f.captured_at = ground (arith, m) in
        let before : All (λ g. g.captured_at ≤ f.captured_at) s.prefix_frames =
          All-later s.last_seen f.captured_at s.prefix_frames later i.before in
        let began : s.active ≡ true → s.started_at ≤ f.captured_at =
          λ e. omega (arith, i.began e, later) in
        advance_rule (λ r. IsTimed r.0) f sp (record s { last_seen = f.captured_at })
          (λ h. IsTimed-cut f _ refl real _ _ sp) (λ h k. IsTimed-cut f _ refl real _ _ sp)
          (λ h k x. IsTimed-hear f _ refl real before began)
          (λ h k x. IsTimed-pause f _ refl real before began))
