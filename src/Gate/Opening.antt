-- ===== src/Gate/Opening.antt =====
-- services/realtime-audio/command/gate.go: an expiry and an opening: the attempt that ends is told so, and the new one is owed an outcome.
use xe6_tsy.Common.{
  ℕ, ◌+◌, ◌%◌, ◌≤◌, Bool, true, false, not, ◌&&◌, ◌≡◌, refl, inl, inr, List, ◌∷◌, if◌then◌else◌,
  ◌==◌, arith, Bool-cases, word_mod,
}
use xe6_tsy.Contract.Mode.{Time}
use xe6_tsy.Segmenter.{Frame}
use xe6_tsy.Gate.{
  is_dormant, is_armed, Failure, canceled, OpenRequest, interrupted, feedback_closed, Log, Deps,
  Gate,
}
use xe6_tsy.Gate.Terminal.{abandon, failure_outcome, fail}
use xe6_tsy.Gate.Calls.{
  remember_command_id, with_capture_from, interrupt_feedback, supersede, arm, is_no_speech,
  is_window_expired, expire,
}
use xe6_tsy.Gate.Capture.{Env, replay}
use xe6_tsy.Gate.Weight.{
  Kind, recording, running-awake, running-dormant, running-recording, told, running, count_if,
  weight, told-publish_terminal_outcome, recorded-publish_terminal_outcome, told-close_stream,
}
use xe6_tsy.Gate.Settles.{Settles, Settles-refl, fail-Settles}
use xe6_tsy.Gate.Hearing.{replay_from-Settles}

unless :
    (d : Deps) (g : Gate) (c : Bool) (h : Gate) → Settles d g h → Settles d g (if c then g else h)
unless d g true h s = Settles-refl d g
unless d g false h s = s

pub expire-Settles :
    (d : Deps) (now : Time) (a : ℕ) (f : Failure) (g : Gate) → Settles d g (expire d now a f g)
unfolding expire
expire-Settles d now a f g = elim (Bool-cases (is_dormant g.state)) [
  | inl e ↦ rw (e, expire) (Settles-refl d g)
  | inr e ↦
      rw (e, expire)
        (unless d g (not (g.attempt == a)) _ (
          unless d g (is_no_speech f && not (is_armed g.state)) _ (
            unless d g (is_window_expired f && g.capture_complete) (fail d now f g)
              (fail-Settles d now f g e))))
]

pub replay-Settles : (d : Deps) (fs : List (Env × Frame)) (g : Gate) → Settles d g (replay d fs g).0
unfolding replay
replay-Settles d fs g = replay_from-Settles d fs g _

told-if_interrupted :
    (c : Bool) (k : Kind) (a b : ℕ) (log : Log)
    → told k a (if c then (b, interrupted) ∷ log else log) ≡ told k a log
told-if_interrupted true k a b log = omega arith
told-if_interrupted false k a b log = refl

pub told-if_closed :
    (c : Bool) (k : Kind) (a b : ℕ) (log : Log)
    → told k a (if c then (b, feedback_closed) ∷ log else log) ≡ told k a log
told-if_closed true k a b log = omega arith
told-if_closed false k a b log = refl

-- The attempt that is superseded is told that it is canceled.
supersede-most :
    (d : Deps) (now : Time) (g : Gate) (k : Kind) (a : ℕ)
    → told k a (supersede d now g).log ≤ told k a g.log + running k a g.state g.attempt
unfolding supersede
supersede-most d now g k a = elim (Bool-cases (is_dormant g.state)) [
  | inl e ↦ rw e (omega arith)
  | inr e ↦ rw e (
      omega (
        arith,
        told-publish_terminal_outcome d k a g.attempt (failure_outcome g.request canceled now)
            g.log,
        running-awake k a g.state g.attempt e,
      ))
]

supersede-least :
    (d : Deps) (now : Time) (g : Gate) (a : ℕ)
    → d.observer ≡ true
    → told recording a g.log + running recording a g.state g.attempt
      ≤ told recording a (supersede d now g).log
unfolding supersede
supersede-least d now g a o = elim (Bool-cases (is_dormant g.state)) [
  | inl e ↦ rw e (omega (arith, running-dormant recording a g.state g.attempt e))
  | inr e ↦ rw e (
      omega (
        arith,
        recorded-publish_terminal_outcome d a g.attempt (failure_outcome g.request canceled now)
            g.log o,
        running-recording a g.state g.attempt e,
      ))
]

-- The new attempt is owed an outcome.
abbrev pub opened : Deps → Time → OpenRequest → Gate → Gate
opened d now q g =
    arm (with_capture_from q)
      (abandon (supersede d now (interrupt_feedback d (remember_command_id q.command_id g))))

abbrev noisy : Deps → OpenRequest → Gate → Gate
noisy d q g = interrupt_feedback d (remember_command_id q.command_id g)

pub opened-most :
    (d : Deps) (now : Time) (q : OpenRequest) (g : Gate) (k : Kind) (a : ℕ)
    → weight k a (opened d now q g) ≤ weight k a g + count_if ((g.attempt + 1) % word_mod == a)
unfolding arm abandon supersede remember_command_id
opened-most d now q g k a = omega (
  arith,
  told-close_stream g.stream k a g.attempt (supersede d now (noisy d q g)).log,
  supersede-most d now (noisy d q g) k a,
  told-if_interrupted d.feedback k a g.attempt g.log,
)

pub opened-least :
    (d : Deps) (now : Time) (q : OpenRequest) (g : Gate) (a : ℕ)
    → d.observer ≡ true
    → weight recording a g + count_if ((g.attempt + 1) % word_mod == a)
      ≤ weight recording a (opened d now q g)
unfolding arm abandon supersede remember_command_id
opened-least d now q g a o = omega (
  arith,
  told-close_stream g.stream recording a g.attempt (supersede d now (noisy d q g)).log,
  supersede-least d now (noisy d q g) a o,
  told-if_interrupted d.feedback recording a g.attempt g.log,
)
