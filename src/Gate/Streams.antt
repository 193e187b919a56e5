-- ===== src/Gate/Streams.antt =====
-- services/realtime-audio/command/gate.go: the recognizer's streams that were started and closed.
use xe6_tsy.Common.{◌+◌, Bool, true, false, not, ◌≡◌, refl, arith}
use xe6_tsy.Contract.Mode.{Time}
use xe6_tsy.Segmenter.{reset, reset_active}
use xe6_tsy.Gate.{
  State, dormant, armed, capturing, recognizing, Failure, Effect, stream_started, stream_closed,
  Deps, Gate,
}
use xe6_tsy.Gate.Terminal.{publish_terminal_outcome, close_stream, abandon, failure_outcome, fail}
use xe6_tsy.Gate.Weight.{count_if}
use xe6_tsy.Gate.Tally.{counted, Apart, counted-publish_terminal_outcome}

abbrev pub is_start : Effect → Bool
is_start stream_started = true
is_start _ = false

abbrev pub is_close : Effect → Bool
is_close stream_closed = true
is_close _ = false

pub starts-Apart : Apart is_start
starts-Apart = (λ e. refl, λ e b. refl, λ s f. refl)

pub closes-Apart : Apart is_close
closes-Apart = (λ e. refl, λ e b. refl, λ s f. refl)

-- Each stream that was started has been closed, but for the one that is open.
abbrev pub Balanced : Gate → Type 0
Balanced g = counted is_start g.log ≡ counted is_close g.log + count_if g.stream

-- What an attempt holds in each state: the stream, an utterance in the segmenter, the timer of the window,
-- the timer of silence, and that its audio is complete.
abbrev pub Fits : State → Bool → Bool → Bool → Bool → Bool → Type 0
Fits dormant stream active window silence complete =
    (stream ≡ false) × (active ≡ false) × (window ≡ false) × (silence ≡ false) × (complete ≡ false)
Fits armed stream active window silence complete =
    (stream ≡ false) × (active ≡ false) × (window ≡ true) × (silence ≡ true) × (complete ≡ false)
Fits capturing stream active window silence complete =
    (stream ≡ true) × (active ≡ true) × (window ≡ true) × (silence ≡ false) × (complete ≡ false)
Fits recognizing stream active window silence complete =
    (stream ≡ true) × (silence ≡ false) × (window ≡ not complete)

abbrev pub Fitting : Gate → Type 0
Fitting g =
    Fits g.state g.stream (g.segmenter).active g.window_timer g.silence_timer g.capture_complete

abbrev pub Held : Gate → Type 0
Held g = Balanced g × Fitting g

pub abandon-Held : (g : Gate) → Balanced g → Held (abandon g)
unfolding abandon reset reset_active
abandon-Held g h = (closing g.stream h, (refl, refl, refl, refl, refl))
  where
    closing :
        (s : Bool)
        → counted is_start g.log ≡ counted is_close g.log + count_if s
        → counted is_start (close_stream s g.attempt g.log)
          ≡ counted is_close (close_stream s g.attempt g.log) + 0
    closing true h = omega arith
    closing false h = h

pub fail-Held :
    (d : Deps) (now : Time) (f : Failure) (g : Gate) → Balanced g → Held (fail d now f g)
unfolding fail
fail-Held d now f g h =
    let o = failure_outcome g.request f now in
    let told : Gate = record g { log = publish_terminal_outcome d g.attempt o g.log } in
    abandon-Held told (
      omega (
        arith,
        counted-publish_terminal_outcome is_start d g.attempt o g.log starts-Apart,
        counted-publish_terminal_outcome is_close d g.attempt o g.log closes-Apart,
      ))
