-- ===== src/Gate/Shapes.antt =====
-- services/realtime-audio/vad/segmenter.go: the events that one frame gives, by their kinds.
use xe6_tsy.Common.{
  ℕ, ◌-◌, Bool, true, false, not, ◌≡◌, refl, inl, inr, List, [], ◌∷◌, String, positive, leb, arith,
  Bool-cases,
}
use xe6_tsy.Segmenter.{
  Frame, Segmenter, Event, opened, audio, final, Result, ok, err, push, advance, hear, pause, cut,
  start, finalize, remember_prefix, accept, opened_event, final_event, overdue,
}
use xe6_tsy.Segmenter.Branches.{advance_rule, push_rule}

-- The events of one frame, by whether an utterance is in progress before and after it.
pub data Shaped : Bool → Bool → List Event → Type 0 where
  quiet : Shaped false false []
  opening :
      {fs : List Frame} {t u : ℕ} {f : Frame} → Shaped false true (opened fs t ∷ audio f u ∷ [])
  ongoing : {f : Frame} {t : ℕ} → Shaped true true (audio f t ∷ [])
  ending :
      {b : Bool} {reason : String} {fs : List Frame} {t u : ℕ} {rest : List Event}
      → Shaped true b (final reason fs t u ∷ rest)

overdue_active :
    (limit : ℕ) (f : Frame) (s : Segmenter) → overdue limit f s ≡ true → s.active ≡ true
overdue_active limit f s h = ground (arith, h)

cut-Shaped :
    (reason : String) (limit : ℕ) (f : Frame) (sp : Bool) (s : Segmenter)
    → s.active ≡ true
    → Shaped s.active (cut reason limit f sp s).0.active (cut reason limit f sp s).1
unfolding cut final_event
cut-Shaped reason limit f true s h = rw h ending
cut-Shaped reason limit f false s h = rw h ending

hear-Shaped : (f : Frame) (s : Segmenter) → Shaped s.active (hear f s).0.active (hear f s).1
unfolding hear opened_event start
hear-Shaped f s = elim (Bool-cases s.active) [
  | inl e ↦ rw (e, hear) ongoing
  | inr e ↦ rw (e, hear) opening
]

remember_prefix-active : (f : Frame) (s : Segmenter) → (remember_prefix f s).active ≡ s.active
unfolding remember_prefix
remember_prefix-active f s = elim (Bool-cases (not (positive s.prefix_padding))) [
  | inl e ↦ rw (e, remember_prefix) refl
  | inr e ↦ rw (e, remember_prefix) refl
]

pause-Shaped : (f : Frame) (s : Segmenter) → Shaped s.active (pause f s).0.active (pause f s).1
unfolding pause final_event finalize
pause-Shaped f s = elim (Bool-cases s.active) [
  | inl e ↦ elim (Bool-cases (leb s.silence_after (f.captured_at - s.last_speech))) [
    | inl k ↦ rw (e, k, pause) ending
    | inr k ↦ simp (e, k, pause) ongoing
  ]
  | inr e ↦ simp (e, pause, remember_prefix-active f s) quiet
]

advance-Shaped :
    (f : Frame) (sp : Bool) (s : Segmenter)
    → Shaped s.active (advance f sp s).0.active (advance f sp s).1
advance-Shaped f sp s =
    advance_rule (λ r. Shaped s.active r.0.active r.1) f sp s
      (λ h.
        cut-Shaped "turn_watchdog" s.max_buffered_duration f sp s
          (overdue_active s.max_buffered_duration f s h))
      (λ h k. cut-Shaped "" s.max_duration f sp s (overdue_active s.max_duration f s k))
      (λ h k x. hear-Shaped f s) (λ h k x. pause-Shaped f s)

-- As `Shaped`, where the frame is taken.
abbrev pub Taken : Bool → Segmenter × Result (List Event) → Type 0
Taken b (t, ok es) = Shaped b t.active es
Taken b (t, err e) = Unit

accept-Taken :
    (b : Bool) (r : Segmenter × List Event) → Shaped b r.0.active r.1 → Taken b (accept r)
accept-Taken b (t, es) h = h

pub push-Taken :
    (done : Bool) (f : Frame) (sp : Bool) (s : Segmenter) → Taken s.active (push done f sp s)
push-Taken done f sp s =
    push_rule (λ r. Taken s.active r) done f sp s (λ e. tt) (λ e. tt)
      (λ m v.
        accept-Taken s.active (advance f sp (record s { last_seen = f.captured_at }))
          (advance-Shaped f sp (record s { last_seen = f.captured_at })))
