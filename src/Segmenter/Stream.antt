-- ===== src/Segmenter/Stream.antt =====
-- Streaming consumers of services/realtime-audio/vad/segmenter.go and consumers that wait for the
-- final event hear the same utterance.
use xe6_tsy.Common.{
  ℕ, suc, ◌-◌, ◌≡◌, refl, ap, sym, subst, ◌⊎◌, inl, inr, Bool, true, false, String, List, [], ◌∷◌,
  ◌++◌, arith, length, length-append, take, All, Bool-cases,
}
use xe6_tsy.Segmenter.Branches.{advance_rule, push_rule}
use xe6_tsy.Segmenter.{
  Frame, Event, opened, audio, final, Segmenter, Result, ok, err, reset, reset_active, start,
  remember_prefix, opened_event, final_event, finalize, cut, hear, pause, advance, push,
}

-- What a consumer that streams has collected: the opening prefix, then each audio frame; a final
-- event starts over.
abbrev pub listen : List Frame → List Event → List Frame
listen acc [] = acc
listen acc (opened fs t ∷ es) = listen fs es
listen acc (audio f t ∷ es) = listen (acc ++ f ∷ []) es
listen acc (final r fs a b ∷ es) = listen [] es

-- A final event carries what was streamed, or that and the quiet frame which ended the utterance.
abbrev pub Agrees : List Frame → Frame → Bool → Event → Type 0
Agrees acc f is_speech (opened fs t) = Unit {0}
Agrees acc f is_speech (audio g t) = Unit {0}
Agrees acc f is_speech (final r fs a b) = (fs ≡ acc) ⊎ ((is_speech ≡ false) × (fs ≡ acc ++ f ∷ []))

abbrev pub IsIdle : Segmenter → Type 0
IsIdle s = s.active ≡ false → (s.frames ≡ [])

take_init : (xs : List Frame) (f : Frame) → take (length (xs ++ f ∷ []) - 1) (xs ++ f ∷ []) ≡ xs
take_init [] f = refl
take_init (x ∷ xs) f =
    let n : length ((x ∷ xs) ++ f ∷ []) - 1 ≡ suc (length (xs ++ f ∷ []) - 1) =
      omega (arith, length-append xs (f ∷ [])) in
    rw n (ap (◌∷◌ x) (take_init xs f))

pub frames-remember_prefix : (f : Frame) (s : Segmenter) → (remember_prefix f s).frames ≡ s.frames
unfolding remember_prefix
frames-remember_prefix f s = ground arith

pub active-remember_prefix : (f : Frame) (s : Segmenter) → (remember_prefix f s).active ≡ s.active
unfolding remember_prefix
active-remember_prefix f s = ground arith

record Streams (acc : List Frame) (f : Frame) (is_speech : Bool) (r : Segmenter × List Event)
    : Type 0 where
  kept : r.0.frames ≡ listen acc r.1
  agrees : All (Agrees acc f is_speech) r.1
  idle : IsIdle r.0

cut-Streams :
    (reason : String) (limit : ℕ) (f : Frame) (sp : Bool) (s : Segmenter)
    → Streams s.frames f sp (cut reason limit f sp s)
unfolding cut start finalize reset_active opened_event final_event
cut-Streams reason limit f true s = record {
  kept = refl;
  agrees = (inl refl, (tt, (tt, tt)));
  idle = λ e. cc;
}
cut-Streams reason limit f false s = record {
  kept = frames-remember_prefix f _;
  agrees = (inl refl, tt);
  idle = λ e. frames-remember_prefix f _;
}

hear-Streams : (f : Frame) (s : Segmenter) → Streams s.frames f true (hear f s)
unfolding hear start opened_event
hear-Streams f s = elim (Bool-cases s.active) [
  | inl e ↦ rw e (record { kept = refl; agrees = (tt, tt); idle = λ i. cc })
  | inr e ↦
      rw e (record {
        kept = rw (take_init s.prefix_frames f);
        agrees = (tt, (tt, tt));
        idle = λ i. cc;
      })
]

pause-Streams : (f : Frame) (s : Segmenter) → IsIdle s → Streams s.frames f false (pause f s)
unfolding pause finalize reset_active final_event
pause-Streams f s i = ground (arith, frames-remember_prefix f s, active-remember_prefix f s)

advance-Streams :
    (f : Frame) (sp : Bool) (s : Segmenter) → IsIdle s → Streams s.frames f sp (advance f sp s)
advance-Streams f sp s i =
    advance_rule (Streams s.frames f sp) f sp s
      (λ h. cut-Streams "turn_watchdog" s.max_buffered_duration f sp s)
      (λ h k. cut-Streams "" s.max_duration f sp s)
      (λ h k x. subst (λ b. Streams s.frames f b (hear f s)) (sym x) (hear-Streams f s))
      (λ h k x. subst (λ b. Streams s.frames f b (pause f s)) (sym x) (pause-Streams f s i))

IsIdle-advance : (f : Frame) (sp : Bool) (s : Segmenter) → IsIdle s → IsIdle (advance f sp s).0
IsIdle-advance f sp s i = (advance-Streams f sp s i).idle

abbrev Heard : List Frame → Frame → Bool → Segmenter × Result (List Event) → Type 0
Heard acc f sp (s, ok es) = (s.frames ≡ listen acc es) × All (Agrees acc f sp) es
Heard acc f sp (s, err e) = Unit {0}

-- After a frame that is taken, the frames held are those that a streaming consumer has collected, and
-- each final event carries what was streamed of its utterance: that alone, or, where the new frame is
-- quiet, that and this frame. `IsIdle` says that no frames are held between utterances.
pub push_stream :
    (f : Frame) (sp done : Bool) (s s' : Segmenter) (es : List Event)
    → IsIdle s
    → push done f sp s ≡ (s', ok es)
    → (s'.frames ≡ listen s.frames es) × All (Agrees s.frames f sp) es
push_stream f sp done s s' es i h = subst (Heard s.frames f sp) h heard
  where
    heard : Heard s.frames f sp (push done f sp s)
    heard =
        push_rule (Heard s.frames f sp) done f sp s (λ e. tt) (λ d. tt)
          (λ m v.
            let streamed = advance-Streams f sp (record s { last_seen = f.captured_at }) i in
            (streamed.kept, streamed.agrees))

-- `IsIdle` holds of a new segmenter and is kept by every operation.
pub push-IsIdle :
    (f : Frame) (sp done : Bool) (s : Segmenter) → IsIdle s → IsIdle (push done f sp s).0
push-IsIdle f sp done s i =
    push_rule (λ r. IsIdle r.0) done f sp s (λ e. i) (λ d. unfold reset reset_active in λ e. refl)
      (λ m v. IsIdle-advance f sp _ i)
