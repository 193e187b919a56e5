-- ===== src/Gate/Weight.antt =====
-- services/realtime-audio/command/gate.go: what was done for an attempt, and what is still to be done for it.
use xe6_tsy.Common.{
  ℕ, ◌+◌, ◌≤◌, Bool, true, false, not, ◌&&◌, ◌||◌, ◌≡◌, refl, List, [], ◌∷◌, if◌then◌else◌, ◌==◌,
  arith,
}
use xe6_tsy.Segmenter.{Frame}
use xe6_tsy.Gate.{
  State, dormant, armed, capturing, recognizing, is_dormant, is_recognizing, Outcome, Phase,
  finishing, processing, publishing, Worker, Effect, audio_pushed, published, feedback, recorded,
  executed, Log, Deps, Gate,
}
use xe6_tsy.Gate.Terminal.{
  valid_event, is_canceled, is_query, publish_result, record_outcome, publish_feedback,
  publish_terminal_outcome, close_stream,
}
use xe6_tsy.Gate.Capture.{Env, push_prefix}

-- The three ways in which an outcome is told, and the execution of a command.
pub data Kind : Type 0 where
  announcing speaking recording executing : Kind

abbrev pub is_outcome : Kind → Bool
is_outcome executing = false
is_outcome _ = true

abbrev pub is_kind : Effect → Kind → Bool
is_kind (published e) announcing = true
is_kind (feedback e b) speaking = true
is_kind (recorded s f) recording = true
is_kind (executed c) executing = true
is_kind _ _ = false

abbrev pub count_if : Bool → ℕ
count_if b = if b then 1 else 0

-- How often it was done for the attempt.
abbrev pub told : Kind → ℕ → Log → ℕ
told k a [] = 0
told k a ((b, e) ∷ log) = count_if (is_kind e k && b == a) + told k a log

-- What a worker has before it, by its phase.
abbrev pub tells : Phase → Kind → Bool
tells finishing executing = true
tells (processing t) executing = true
tells (publishing o) executing = false
tells (publishing o) k = true
tells _ _ = false

-- The workers that are about to do it for the attempt.
abbrev pub pending : Kind → ℕ → List Worker → ℕ
pending k a [] = 0
pending k a (w ∷ ws) = count_if (tells w.phase k && w.attempt == a) + pending k a ws

-- What is before the attempt under way that no worker has before it.
abbrev pub under_way : State → Kind → Bool
under_way dormant k = false
under_way armed k = true
under_way capturing k = true
under_way recognizing executing = false
under_way recognizing k = true

abbrev pub running : Kind → ℕ → State → ℕ → ℕ
running k a s b = if under_way s k then count_if (b == a) else 0

abbrev pub weight : Kind → ℕ → Gate → ℕ
weight k a g = told k a g.log + (pending k a g.tasks + running k a g.state g.attempt)

-- An effect that is there on a condition.
told-if :
    (c : Bool) (k : Kind) (a b : ℕ) (e : Effect) (log : Log)
    → told k a (if c then (b, e) ∷ log else log) ≤ count_if (is_kind e k && b == a) + told k a log
told-if true k a b e log = omega arith
told-if false k a b e log = omega arith

told-unless :
    (c : Bool) (k : Kind) (a b : ℕ) (e : Effect) (log : Log)
    → told k a (if c then log else (b, e) ∷ log) ≤ count_if (is_kind e k && b == a) + told k a log
told-unless true k a b e log = omega arith
told-unless false k a b e log = omega arith

told-publish :
    (d : Deps) (k : Kind) (a b : ℕ) (o : Outcome) (log : Log)
    → told k a (publish_terminal_outcome d b o log)
      ≤ (count_if (is_kind (feedback o.event o.succeeded) k && b == a)
          + count_if (is_kind (recorded o.event.status o.failure) k && b == a)
          + count_if (is_kind (published o.event) k && b == a))
        + told k a log
unfolding publish_terminal_outcome publish_result record_outcome publish_feedback
told-publish d k a b o log =
    let first = publish_result d b o.event log in
    let second = record_outcome d b o.event.status o.failure first in
    let one =
      told-unless (not d.results || not (valid_event o.event)) k a b (published o.event) log in
    let two = told-if d.observer k a b (recorded o.event.status o.failure) first in
    let three =
      told-if (d.feedback && not (is_canceled o.failure) && not (is_query o.event.action)) k a b
        (feedback o.event o.succeeded) second in
    omega (arith, one, two, three)

-- One outcome is told at most once in each way.
pub told-publish_terminal_outcome :
    (d : Deps) (k : Kind) (a b : ℕ) (o : Outcome) (log : Log)
    → told k a (publish_terminal_outcome d b o log)
      ≤ count_if (is_outcome k && b == a) + told k a log
told-publish_terminal_outcome d announcing a b o log =
    omega (arith, told-publish d announcing a b o log)
told-publish_terminal_outcome d speaking a b o log =
    omega (arith, told-publish d speaking a b o log)
told-publish_terminal_outcome d recording a b o log =
    omega (arith, told-publish d recording a b o log)
told-publish_terminal_outcome d executing a b o log =
    omega (arith, told-publish d executing a b o log)

-- With an observer it is recorded.
pub recorded-publish_terminal_outcome :
    (d : Deps) (a b : ℕ) (o : Outcome) (log : Log)
    → d.observer ≡ true
    → count_if (b == a) + told recording a log
      ≤ told recording a (publish_terminal_outcome d b o log)
unfolding publish_terminal_outcome publish_result record_outcome publish_feedback
recorded-publish_terminal_outcome d a b o log h = ground (arith, h)

either :
    (c : Bool) (k : Kind) (a : ℕ) (x y : Log × Bool) (n : ℕ)
    → told k a x.0 ≡ n
    → told k a y.0 ≡ n
    → told k a (if c then x else y).0 ≡ n
either true k a x y n h j = h
either false k a x y n h j = j

pub told-push_prefix :
    (env : Env) (k : Kind) (a b : ℕ) (fs : List Frame) (log : Log)
    → told k a (push_prefix env b fs log).0 ≡ told k a log
unfolding push_prefix
told-push_prefix env k a b [] log = refl
told-push_prefix env k a b (f ∷ fs) log =
    let rest = told-push_prefix env k a b fs ((b, audio_pushed f.pcm) ∷ log) in
    either (env.accepts f.pcm) k a (push_prefix env b fs ((b, audio_pushed f.pcm) ∷ log))
      (log, false) (told k a log) (omega (arith, rest)) refl

pub told-close_stream :
    (s : Bool) (k : Kind) (a b : ℕ) (log : Log) → told k a (close_stream s b log) ≡ told k a log
told-close_stream true k a b log = omega arith
told-close_stream false k a b log = refl

part : (c d : Bool) → count_if (c && d) ≤ count_if d
part true d = omega arith
part false d = omega arith

pub running-awake :
    (k : Kind) (a : ℕ) (s : State) (b : ℕ)
    → is_dormant s ≡ false
    → count_if (is_outcome k && b == a) ≤ running k a s b
running-awake k a dormant b h = cc
running-awake k a armed b h = part (is_outcome k) (b == a)
running-awake k a capturing b h = part (is_outcome k) (b == a)
running-awake announcing a recognizing b h = omega arith
running-awake speaking a recognizing b h = omega arith
running-awake recording a recognizing b h = omega arith
running-awake executing a recognizing b h = omega arith

pub running-dormant :
    (k : Kind) (a : ℕ) (s : State) (b : ℕ) → is_dormant s ≡ true → running k a s b ≡ 0
running-dormant k a dormant b h = refl
running-dormant k a armed b h = cc
running-dormant k a capturing b h = cc
running-dormant k a recognizing b h = cc

pub running-recording :
    (a : ℕ) (s : State) (b : ℕ) → is_dormant s ≡ false → running recording a s b ≡ count_if (b == a)
running-recording a dormant b h = cc
running-recording a armed b h = refl
running-recording a capturing b h = refl
running-recording a recognizing b h = refl

-- A worker takes over the execution as the recognition begins, and the outcome as it settles.
pub begun :
    (k : Kind) (a b : ℕ)
    → count_if (tells finishing k && b == a) + running k a recognizing b ≡ count_if (b == a)
begun announcing a b = omega arith
begun speaking a b = omega arith
begun recording a b = omega arith
begun executing a b = omega arith

pub handed :
    (k : Kind) (a b : ℕ) (o : Outcome) (s : State)
    → is_recognizing s ≡ true
    → running k a s b ≡ count_if (tells (publishing o) k && b == a)
handed k a b o dormant h = cc
handed k a b o armed h = cc
handed k a b o capturing h = cc
handed announcing a b o recognizing h = refl
handed speaking a b o recognizing h = refl
handed recording a b o recognizing h = refl
handed executing a b o recognizing h = refl

-- The attempt takes audio.
abbrev pub hears : State → Bool
hears s = under_way s executing

pub hears_awake : (s : State) → hears s ≡ true → is_dormant s ≡ false
hears_awake dormant h = cc
hears_awake armed h = refl
hears_awake capturing h = refl
hears_awake recognizing h = refl

pub running-hears :
    (k : Kind) (a : ℕ) (s : State) (b : ℕ) → hears s ≡ true → running k a s b ≡ count_if (b == a)
running-hears k a dormant b h = cc
running-hears k a armed b h = refl
running-hears k a capturing b h = refl
running-hears k a recognizing b h = cc
