-- ===== src/Gate/Tally.antt =====
-- services/realtime-audio/command/gate.go: the effects of a kind, which only some operations have.
use xe6_tsy.Common.{
  ℕ, ◌+◌, Bool, true, false, not, ◌&&◌, ◌||◌, ◌≡◌, refl, ◌∙◌, List, [], ◌∷◌, if◌then◌else◌, arith,
}
use xe6_tsy.Segmenter.{Frame}
use xe6_tsy.Gate.{
  ResultEvent, ResultStatus, Failure, Outcome, Effect, stream_started, stream_closed, audio_pushed,
  published, feedback, recorded, executed, interrupted, feedback_closed, Log, Deps,
}
use xe6_tsy.Gate.Registry.{Candidate, Command, ok, validate}
use xe6_tsy.Gate.Terminal.{
  valid_event, is_canceled, is_query, publish_result, record_outcome, publish_feedback,
  publish_terminal_outcome,
}
use xe6_tsy.Gate.Capture.{Env, push_prefix}
use xe6_tsy.Gate.Weight.{count_if}

abbrev pub counted : (Effect → Bool) → Log → ℕ
counted p [] = 0
counted p ((a, e) ∷ log) = count_if (p e) + counted p log

-- The effects that no outcome has.
abbrev pub Apart : (Effect → Bool) → Type 0
Apart p =
    ((e : ResultEvent) → p (published e) ≡ false)
    × ((e : ResultEvent) (b : Bool) → p (feedback e b) ≡ false)
    × ((s : ResultStatus) (f : Failure) → p (recorded s f) ≡ false)

pub counted-if :
    (p : Effect → Bool) (c : Bool) (a : ℕ) (e : Effect) (log : Log)
    → p e ≡ false
    → counted p (if c then (a, e) ∷ log else log) ≡ counted p log
counted-if p true a e log h = rw h (omega arith)
counted-if p false a e log h = refl

counted-unless :
    (p : Effect → Bool) (c : Bool) (a : ℕ) (e : Effect) (log : Log)
    → p e ≡ false
    → counted p (if c then log else (a, e) ∷ log) ≡ counted p log
counted-unless p true a e log h = refl
counted-unless p false a e log h = rw h (omega arith)

pub counted-publish_terminal_outcome :
    (p : Effect → Bool) (d : Deps) (a : ℕ) (o : Outcome) (log : Log)
    → Apart p
    → counted p (publish_terminal_outcome d a o log) ≡ counted p log
unfolding publish_terminal_outcome publish_result record_outcome publish_feedback
counted-publish_terminal_outcome p d a o log h =
    let first = publish_result d a o.event log in
    let second = record_outcome d a o.event.status o.failure first in
    counted-if p (d.feedback && not (is_canceled o.failure) && not (is_query o.event.action)) a
      (feedback o.event o.succeeded) second (h.1 o.event o.succeeded)
    ∙ counted-if p d.observer a (recorded o.event.status o.failure) first
        (h.2 o.event.status o.failure)
    ∙ counted-unless p (not d.results || not (valid_event o.event)) a (published o.event) log
        (h.0 o.event)

pub counted-push_prefix :
    (p : Effect → Bool) (env : Env) (a : ℕ) (fs : List Frame) (log : Log)
    → ((pcm : List ℕ) → p (audio_pushed pcm) ≡ false)
    → counted p (push_prefix env a fs log).0 ≡ counted p log
unfolding push_prefix
counted-push_prefix p env a [] log h = refl
counted-push_prefix p env a (f ∷ fs) log h =
    either (env.accepts f.pcm) (push_prefix env a fs ((a, audio_pushed f.pcm) ∷ log)) (
      counted-push_prefix p env a fs ((a, audio_pushed f.pcm) ∷ log) h ∙ rw (h f.pcm) (omega arith))
  where
    either :
        (c : Bool) (x : Log × Bool)
        → counted p x.0 ≡ counted p log
        → counted p (if c then x else (log, false)).0 ≡ counted p log
    either true x k = k
    either false x k = refl

-- Effects that nothing has but the execution of a command that the registry has not validated.
pub record Unlawful (d : Deps) (p : Effect → Bool) : Type 0 where
  pub outcomes : Apart p
  pub starts : p stream_started ≡ false
  pub closes : p stream_closed ≡ false
  pub pushes : (pcm : List ℕ) → p (audio_pushed pcm) ≡ false
  pub interrupts : p interrupted ≡ false
  pub releases : p feedback_closed ≡ false
  pub executes :
      (c : Candidate) (parsed : Command)
      → validate d.registry c ≡ ok parsed
      → p (executed parsed) ≡ false

pub counted-cons :
    (p : Effect → Bool) (a : ℕ) (e : Effect) (log : Log)
    → p e ≡ false
    → counted p ((a, e) ∷ log) ≡ counted p log
counted-cons p a e log h = counted-if p true a e log h
