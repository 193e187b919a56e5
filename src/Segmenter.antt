-- ===== src/Segmenter.antt =====
-- services/realtime-audio/vad/segmenter.go: audio frames are cut into utterances. The classifier's
-- answer for a frame is an argument of the step; durations are int64 patterns, times nanoseconds
-- since Go's zero time. Subtraction stops at 0: for frames earlier than the start of the utterance
-- (there are none) Go's difference is negative and passes no threshold either.
mod Tests
pub mod Bounds
pub mod Accounting
pub mod Branches
pub mod Stream
use xe6_tsy.Common.{
  ℕ, ◌+◌, ◌-◌, ◌%◌, Bool, true, false, not, ◌&&◌, ◌||◌, Option, none, some, String, List, [], ◌∷◌,
  ◌++◌, if◌then◌else◌, ltb, leb, ◌==◌, positive, negative, length, take,
}
use xe6_tsy.Contract.Mode.{Time}

pub record Frame : Type 0 where
  pub pcm : List ℕ
  pub sample_rate : ℕ
  pub captured_at : Time

-- services/realtime-audio/audio/frame.go.
abbrev pub supported_sample_rate : ℕ
supported_sample_rate = 16_000

pub data Error : Type 0 where
  context_done pcm_required pcm_alignment unsupported_sample_rate capture_time_required : Error
  non_monotonic_timestamp invalid_options : Error

pub data Result {ℓ} (A : Type ℓ) : Type ℓ where
  ok : A → Result A
  err : Error → Result A

pub record Options : Type 0 where
  pub silence_after : ℕ
  pub max_duration : ℕ
  pub max_buffered_duration : ℕ
  pub prefix_padding : ℕ

pub data Event : Type 0 where
  -- The frames kept from before the first speech, and the start of the utterance.
  opened : List Frame → Time → Event
  audio : Frame → Time → Event
  -- The reason, the utterance, its start and its end.
  final : String → List Frame → Time → Time → Event

pub record Segmenter : Type 0 where
  pub options : Options
  pub open options use *
  pub active : Bool
  pub started_at : Time
  pub last_speech : Time
  pub last_seen : Time
  pub frames : List Frame
  pub prefix_frames : List Frame

-- The comparisons with `MaxDuration` are reached with both sides not negative.
unfoldable pub options_ok : Options → Bool
options_ok o = not (
    not (positive o.silence_after)
    || negative o.prefix_padding
    || negative o.max_buffered_duration
    || (positive o.max_duration && leb o.max_duration o.silence_after)
    || (positive o.max_duration && leb o.max_duration o.prefix_padding))

unfoldable pub new_segmenter : Options → Result Segmenter
new_segmenter o =
    if not (options_ok o)
    then err invalid_options
    else ok (record {
      options = o;
      active = false;
      started_at = 0;
      last_speech = 0;
      last_seen = 0;
      frames = [];
      prefix_frames = [];
    })

unfoldable pub validate_frame : Frame → Option Error
validate_frame f =
    if length f.pcm == 0
    then some pcm_required
    else if not (length f.pcm % 2 == 0)
    then some pcm_alignment
    else if not (f.sample_rate == supported_sample_rate)
    then some unsupported_sample_rate
    else if f.captured_at == 0
    then some capture_time_required
    else none

unfoldable pub reset_active : Segmenter → Segmenter
reset_active s = record s { active = false; started_at = 0; last_speech = 0; frames = [] }

unfoldable pub reset : Segmenter → Segmenter
reset s = record (reset_active s) { last_seen = 0; prefix_frames = [] }

-- `s.startedAt = s.frames[0].CapturedAt` where there are prefix frames.
abbrev pub first_captured : List Frame → Time → Time
first_captured [] t = t
first_captured (f ∷ fs) t = f.captured_at

unfoldable pub start : Frame → Segmenter → Segmenter
start f s = record s {
  active = true;
  started_at = first_captured s.prefix_frames f.captured_at;
  last_speech = f.captured_at;
  frames = s.prefix_frames ++ f ∷ [];
  prefix_frames = [];
}

-- The loop that skips the prefix frames captured before the cutoff.
unfoldable pub drop_before : Time → List Frame → List Frame
drop_before cutoff [] = []
drop_before cutoff (f ∷ fs) =
    let rest = drop_before cutoff fs in if ltb f.captured_at cutoff then rest else f ∷ fs

unfoldable pub remember_prefix : Frame → Segmenter → Segmenter
remember_prefix f s = if not (positive s.prefix_padding) then s else record s {
  prefix_frames = drop_before (f.captured_at - s.prefix_padding) (s.prefix_frames ++ f ∷ []);
}

abbrev pub audio_event : Frame → Segmenter → Event
audio_event f s = audio f s.started_at

-- The frames but the last, `s.frames[:len(s.frames)-1]`.
unfoldable pub opened_event : Segmenter → Event
opened_event s = opened (take (length s.frames - 1) s.frames) s.started_at

unfoldable pub final_event : String → Time → Segmenter → Event
final_event reason ended s = final reason s.frames s.started_at ended

-- The state that `finalize` leaves.
unfoldable pub finalize : Segmenter → Segmenter
finalize s = record (reset_active s) { prefix_frames = [] }

-- A cut after `limit`: the utterance ends there, and the frame opens another one or is kept.
unfoldable pub cut : String → ℕ → Frame → Bool → Segmenter → Segmenter × List Event
cut reason limit f is_speech s =
    if is_speech
    then (
      start f (finalize s),
      final_event reason (s.started_at + limit) s
          ∷ opened_event (start f (finalize s))
          ∷ audio_event f (start f (finalize s))
          ∷ [],
    )
    else (remember_prefix f (finalize s), final_event reason (s.started_at + limit) s ∷ [])

-- `Push` on a speech frame.
unfoldable pub hear : Frame → Segmenter → Segmenter × List Event
hear f s =
    if not s.active
    then (start f s, opened_event (start f s) ∷ audio_event f (start f s) ∷ [])
    else (
      record s { last_speech = f.captured_at; frames = s.frames ++ f ∷ [] },
      audio_event f s ∷ [],
    )

-- `Push` on a quiet frame.
unfoldable pub pause : Frame → Segmenter → Segmenter × List Event
pause f s =
    if s.active
    then (if leb s.silence_after (f.captured_at - s.last_speech)
        then (
          finalize s,
          final_event "" f.captured_at (record s { frames = s.frames ++ f ∷ [] }) ∷ [],
        )
        else (record s { frames = s.frames ++ f ∷ [] }, audio_event f s ∷ []))
    else (remember_prefix f s, [])

-- An utterance in progress that has reached a limit which is set.
abbrev pub overdue : ℕ → Frame → Segmenter → Bool
overdue limit f s = s.active && positive limit && leb limit (f.captured_at - s.started_at)

-- `Push` after its checks.
unfoldable pub advance : Frame → Bool → Segmenter → Segmenter × List Event
advance f is_speech s =
    if overdue s.max_buffered_duration f s
    then cut "turn_watchdog" s.max_buffered_duration f is_speech s
    else if overdue s.max_duration f s
    then cut "" s.max_duration f is_speech s
    else if is_speech
    then hear f s
    else pause f s

abbrev pub accept : Segmenter × List Event → Segmenter × Result (List Event)
accept (s, es) = (s, ok es)

-- `ctx_done` says that `ctx.Err()` is not nil.
unfoldable pub push : Bool → Frame → Bool → Segmenter → Segmenter × Result (List Event)
push ctx_done f is_speech s =
    if ctx_done then (reset s, err context_done) else elim (validate_frame f) [
      | some e ↦ (s, err e)
      | none ↦
          if not (s.last_seen == 0) && not (ltb s.last_seen f.captured_at)
          then (s, err non_monotonic_timestamp)
          else accept (advance f is_speech (record s { last_seen = f.captured_at }))
    ]

unfoldable pub flush : Bool → Time → Segmenter → Segmenter × Result (List Event)
flush ctx_done ended s =
    if ctx_done
    then (reset s, err context_done)
    else if ended == 0
    then (s, err capture_time_required)
    else if not s.active
    then (s, ok [])
    else if not (ltb s.last_seen ended)
    then (s, err non_monotonic_timestamp)
    else (finalize (record s { last_seen = ended }), ok (final_event "" ended s ∷ []))

-- `ClaimActiveUtterance`.
unfoldable pub claim_active : Segmenter → Segmenter × List Frame
claim_active s = if not s.active then (s, []) else (reset s, s.frames)

-- A frame, whether the context is done, and the classifier's answer.
abbrev pub Input : Type 0
Input = Bool × Frame × Bool

-- The events of one call.
abbrev pub events : Result (List Event) → List Event
events (ok es) = es
events (err e) = []
