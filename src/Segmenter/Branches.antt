-- ===== src/Segmenter/Branches.antt =====
-- Rules that lead through the branches of `Push` of services/realtime-audio/vad/segmenter.go.
use xe6_tsy.Common.{
  ◌<◌, ◌⊎◌, arith, ◌≡◌, inl, inr, Bool, true, false, not, ◌&&◌, none, List, Bool-cases,
  Option-cases, ltb, ◌==◌,
}
use xe6_tsy.Segmenter.{
  Frame, Event, Error, context_done, non_monotonic_timestamp, Segmenter, Result, err, accept, reset,
  cut, hear, pause, overdue, advance, push, validate_frame,
}

pub advance_rule {ℓ} :
    (P : Segmenter × List Event → Type ℓ) (f : Frame) (sp : Bool) (s : Segmenter)
    → (overdue s.max_buffered_duration f s ≡ true
        → P (cut "turn_watchdog" s.max_buffered_duration f sp s))
    → (overdue s.max_buffered_duration f s ≡ false
        → overdue s.max_duration f s ≡ true
        → P (cut "" s.max_duration f sp s))
    → (overdue s.max_buffered_duration f s ≡ false
        → overdue s.max_duration f s ≡ false
        → sp ≡ true
        → P (hear f s))
    → (overdue s.max_buffered_duration f s ≡ false
        → overdue s.max_duration f s ≡ false
        → sp ≡ false
        → P (pause f s))
    → P (advance f sp s)
unfolding advance
advance_rule P f sp s watchdog long speech quiet =
    elim (Bool-cases (overdue s.max_buffered_duration f s)) [
      | inl h ↦ rw (h, advance) (watchdog h)
      | inr h ↦ elim (Bool-cases (overdue s.max_duration f s)) [
        | inl k ↦ rw (h, k, advance) (long h k)
        | inr k ↦ elim (Bool-cases sp) [
          | inl x ↦ rw (h, k, advance) (rw x (speech h k x))
          | inr x ↦ rw (h, k, advance) (rw x (quiet h k x))
        ]
      ]
    ]

pub push_rule {ℓ} :
    (P : Segmenter × Result (List Event) → Type ℓ) (done : Bool) (f : Frame) (sp : Bool)
    (s : Segmenter)
    → ((e : Error) → P (s, err e))
    → (done ≡ true → P (reset s, err context_done))
    → ((s.last_seen ≡ 0) ⊎ (s.last_seen < f.captured_at)
        → validate_frame f ≡ none
        → P (accept (advance f sp (record s { last_seen = f.captured_at }))))
    → P (push done f sp s)
unfolding push
push_rule P done f sp s refused canceled taken = elim (Bool-cases done) [
  | inl d ↦ rw (d, push) (canceled d)
  | inr d ↦ elim (Option-cases (validate_frame f)) [
    | inr (e, v) ↦ rw (d, v, push) (refused e)
    | inl v ↦ elim (Bool-cases (not (s.last_seen == 0) && not (ltb s.last_seen f.captured_at))) [
      | inl m ↦ rw (d, v, m, push) (refused non_monotonic_timestamp)
      | inr m ↦ rw (d, v, m, push) (taken (ground arith) v)
    ]
  ]
]
