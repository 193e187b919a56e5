-- ===== src/Segmenter/Accounting.antt =====
-- Where the frames go that services/realtime-audio/vad/segmenter.go takes.
use xe6_tsy.Common.{
  ℕ, ◌+◌, ◌-◌, ◌<◌, ◌≡◌, refl, ap, sym, subst, ◌⊎◌, inl, inr, Bool, true, false, String, List, [],
  ◌∷◌, ◌++◌, arith, append-nil, All, Bool-cases, ltb, leb, positive,
}
use xe6_tsy.Contract.Mode.{Time}
use xe6_tsy.Segmenter.{
  Frame, Event, opened, audio, final, Segmenter, Result, ok, err, start, drop_before,
  remember_prefix, opened_event, final_event, finalize, reset_active, cut, hear, pause, advance,
  push, reset,
}
use xe6_tsy.Segmenter.Branches.{advance_rule, push_rule}
use xe6_tsy.Segmenter.Stream.{frames-remember_prefix, active-remember_prefix}

-- The frames that the final events deliver.
abbrev pub delivered : List Event → List Frame
delivered [] = []
delivered (opened fs t ∷ es) = delivered es
delivered (audio f t ∷ es) = delivered es
delivered (final r fs a b ∷ es) = fs ++ delivered es

-- Silence that may be dropped at the time `t`: it is older than the padding, or none is kept.
abbrev pub IsStale : ℕ → Time → Frame → Type 0
IsStale padding t f = (f.captured_at + padding < t) ⊎ (positive padding ≡ false)

-- The frames held before and the new one are those delivered, those dropped and those held now, in
-- this order. What is dropped is stale and comes off the front of the prefix with the new frame;
-- nothing is dropped on speech, or where an utterance is in progress afterwards.
pub record Accounts (padding : ℕ) (f : Frame) (is_speech : Bool) (s : Segmenter)
    (r : Segmenter × List Event) : Type 0 where
  pub dropped : List Frame
  pub kept : List Frame
  pub quiet : s.prefix_frames ++ f ∷ [] ≡ dropped ++ kept
  pub speech : is_speech ≡ true → dropped ≡ []
  pub busy : r.0.active ≡ true → dropped ≡ []
  pub stale : All (IsStale padding f.captured_at) dropped
  pub balance :
      s.frames ++ (s.prefix_frames ++ f ∷ [])
      ≡ delivered r.1 ++ (dropped ++ (r.0.frames ++ r.0.prefix_frames))

-- No prefix is kept during an utterance, nor without padding, and no frames between utterances.
pub record IsSplit (s : Segmenter) : Type 0 where
  pub idle : s.active ≡ false → s.frames ≡ []
  pub busy : s.active ≡ true → s.prefix_frames ≡ []
  pub bare : positive s.prefix_padding ≡ false → s.prefix_frames ≡ []

pub record Dropped (cutoff : Time) (fs : List Frame) : Type 0 where
  pub front : List Frame
  pub early : All (λ f. f.captured_at < cutoff) front
  pub rest : fs ≡ front ++ drop_before cutoff fs

drop_before-Dropped : (cutoff : Time) (fs : List Frame) → Dropped cutoff fs
unfolding drop_before
drop_before-Dropped cutoff [] = record { front = []; early = tt; rest = refl }
drop_before-Dropped cutoff (f ∷ fs) = elim (Bool-cases (ltb f.captured_at cutoff)) [
  | inl h ↦
      let d = drop_before-Dropped cutoff fs in
      record {
        front = f ∷ d.front;
        early = (ground arith, d.early);
        rest = rw (h, drop_before) (ap (◌∷◌ f) d.rest);
      }
  | inr h ↦ record { front = []; early = tt; rest = rw (h, drop_before) }
]

IsStale-early :
    (padding t : ℕ) (fs : List Frame)
    → All (λ f. f.captured_at < t - padding) fs
    → All (IsStale padding t) fs
IsStale-early padding t [] h = tt
IsStale-early padding t (f ∷ fs) h = (inl (omega (arith, h.0)), IsStale-early padding t fs h.1)

-- What `rememberPrefix` drops.
remember_prefix-Dropped :
    (f : Frame) (s : Segmenter)
    → (positive s.prefix_padding ≡ false → s.prefix_frames ≡ [])
    → (gone : List Frame) × All (IsStale s.prefix_padding f.captured_at) gone
      × (s.prefix_frames ++ f ∷ [] ≡ gone ++ (remember_prefix f s).prefix_frames)
unfolding remember_prefix
remember_prefix-Dropped f s bare = elim (Bool-cases (positive s.prefix_padding)) [
  | inl p ↦
      let d = drop_before-Dropped (f.captured_at - s.prefix_padding) (s.prefix_frames ++ f ∷ []) in
      (
        d.front,
        IsStale-early s.prefix_padding f.captured_at d.front d.early,
        rw (p, remember_prefix) d.rest,
      )
  | inr n ↦ (f ∷ [], (inr n, tt), rw (n, remember_prefix) (rw (bare n)))
]

cut-Accounts :
    (reason : String) (limit : ℕ) (f : Frame) (sp : Bool) (s : Segmenter)
    → s.prefix_frames ≡ []
    → Accounts s.prefix_padding f sp s (cut reason limit f sp s)
unfolding cut start finalize reset_active opened_event final_event
cut-Accounts reason limit f true s none_kept = record {
  dropped = [];
  kept = s.prefix_frames ++ f ∷ [];
  quiet = refl;
  speech = λ e. refl;
  busy = λ e. refl;
  stale = tt;
  balance = simp (none_kept, append-nil);
}
cut-Accounts reason limit f false s none_kept =
    let (gone, stale, balance) = remember_prefix-Dropped f (finalize s) (λ n. refl) in
    record {
      dropped = gone;
      kept = (remember_prefix f (finalize s)).prefix_frames;
      quiet = simp none_kept balance;
      speech = λ e. cc;
      busy = λ e. cc (e, active-remember_prefix f (finalize s));
      stale = stale;
      balance = simp (none_kept, append-nil, frames-remember_prefix) (ap (◌++◌ s.frames) balance);
    }

hear-Accounts :
    (f : Frame) (s : Segmenter) → IsSplit s → Accounts s.prefix_padding f true s (hear f s)
unfolding hear start opened_event
hear-Accounts f s i = elim (Bool-cases s.active) [
  | inl e ↦ rw e (record {
    dropped = [];
    kept = s.prefix_frames ++ f ∷ [];
    quiet = refl;
    speech = λ e. refl;
    busy = λ e. refl;
    stale = tt;
    balance = simp (i.busy e, append-nil);
  })
  | inr e ↦ rw e (record {
    dropped = [];
    kept = s.prefix_frames ++ f ∷ [];
    quiet = refl;
    speech = λ e. refl;
    busy = λ e. refl;
    stale = tt;
    balance = simp (i.idle e, append-nil);
  })
]

pause-Accounts :
    (f : Frame) (s : Segmenter) → IsSplit s → Accounts s.prefix_padding f false s (pause f s)
unfolding pause finalize reset_active final_event
pause-Accounts f s i = elim (Bool-cases s.active) [
  | inr e ↦
      let (gone, stale, balance) = remember_prefix-Dropped f s i.bare in
      simp (e, pause)
        (record {
          dropped = gone;
          kept = (remember_prefix f s).prefix_frames;
          quiet = balance;
          speech = λ h. cc;
          busy = λ h. cc (h, e, active-remember_prefix f s);
          stale = stale;
          balance = simp (frames-remember_prefix, i.idle e) balance;
        })
  | inl e ↦ elim (Bool-cases (leb s.silence_after (f.captured_at - s.last_speech))) [
    | inl l ↦
        rw (e, l, pause)
          (record {
            dropped = [];
            kept = s.prefix_frames ++ f ∷ [];
            quiet = refl;
            speech = λ e. refl;
            busy = λ e. refl;
            stale = tt;
            balance = simp (i.busy e, append-nil);
          })
    | inr l ↦
        rw (e, l, pause)
          (record {
            dropped = [];
            kept = s.prefix_frames ++ f ∷ [];
            quiet = refl;
            speech = λ e. refl;
            busy = λ e. refl;
            stale = tt;
            balance = simp (i.busy e, append-nil);
          })
  ]
]

advance-Accounts :
    (f : Frame) (sp : Bool) (s : Segmenter)
    → IsSplit s
    → Accounts s.prefix_padding f sp s (advance f sp s)
advance-Accounts f sp s i =
    advance_rule (Accounts s.prefix_padding f sp s) f sp s
      (λ h.
        cut-Accounts "turn_watchdog" s.max_buffered_duration f sp s (i.busy (ground (arith, h))))
      (λ h k. cut-Accounts "" s.max_duration f sp s (i.busy (ground (arith, k))))
      (λ h k x.
        subst (λ b. Accounts s.prefix_padding f b s (hear f s)) (sym x) (hear-Accounts f s i))
      (λ h k x.
        subst (λ b. Accounts s.prefix_padding f b s (pause f s)) (sym x) (pause-Accounts f s i))

abbrev Balanced : Frame → Bool → Segmenter → Segmenter × Result (List Event) → Type 0
Balanced f sp s (d, ok es) = Accounts s.prefix_padding f sp s (d, es)
Balanced f sp s (d, err e) = Unit {0}

-- No frame that is taken is lost, doubled or moved: what was held before and the new frame are what
-- the final events deliver, what is dropped, and what is held now, in this order. What is dropped is
-- a front part of the prefix frames with the new frame, older than the padding or any where there is
-- no padding; a speech frame drops nothing, nor does a frame after which an utterance is in progress.
-- `IsSplit` says that no prefix is held during an utterance or without padding, and nothing else
-- between utterances.
pub push-Accounts :
    (done : Bool) (f : Frame) (sp : Bool) (s s' : Segmenter) (es : List Event)
    → IsSplit s
    → push done f sp s ≡ (s', ok es)
    → Accounts s.prefix_padding f sp s (s', es)
push-Accounts done f sp s s' es i h = subst (Balanced f sp s) h balanced
  where
    balanced : Balanced f sp s (push done f sp s)
    balanced =
        push_rule (Balanced f sp s) done f sp s (λ e. tt) (λ d. tt)
          (λ m v.
            let a =
              advance-Accounts f sp (record s { last_seen = f.captured_at })
                (record { idle = i.idle; busy = i.busy; bare = i.bare }) in
            record {
              dropped = a.dropped;
              kept = a.kept;
              quiet = a.quiet;
              speech = a.speech;
              busy = a.busy;
              stale = a.stale;
              balance = a.balance;
            })

cut-IsSplit :
    (reason : String) (limit : ℕ) (f : Frame) (sp : Bool) (s : Segmenter)
    → IsSplit (cut reason limit f sp s).0
unfolding cut start finalize reset_active remember_prefix
cut-IsSplit reason limit f sp s = ground arith

hear-IsSplit : (f : Frame) (s : Segmenter) → IsSplit s → IsSplit (hear f s).0
unfolding hear start
hear-IsSplit f s i = ground arith

pause-IsSplit : (f : Frame) (s : Segmenter) → IsSplit s → IsSplit (pause f s).0
unfolding pause finalize reset_active remember_prefix
pause-IsSplit f s i = ground arith

-- What the accounting needs is kept by every call: nothing is held between utterances but the prefix,
-- and no prefix during one.
pub push-IsSplit :
    (done : Bool) (f : Frame) (sp : Bool) (s : Segmenter) → IsSplit s → IsSplit (push done f sp s).0
push-IsSplit done f sp s i =
    push_rule (λ r. IsSplit r.0) done f sp s (λ e. i)
      (λ d.
        unfold reset reset_active in
        (record { idle = λ e. refl; busy = λ e. refl; bare = λ e. refl }))
      (λ m v.
        advance_rule (λ r. IsSplit r.0) f sp (record s { last_seen = f.captured_at })
          (λ h. cut-IsSplit _ _ f sp _) (λ h k. cut-IsSplit _ _ f sp _)
          (λ h k x. hear-IsSplit f _ (record { idle = i.idle; busy = i.busy; bare = i.bare }))
          (λ h k x. pause-IsSplit f _ (record { idle = i.idle; busy = i.busy; bare = i.bare })))
