-- ===== src/Gate/Moves.antt =====
-- services/realtime-audio/command/gate.go: every call opens an attempt, closes the gate, or does neither.
use xe6_tsy.Common.{
  Bool, true, false, not, ◌≡◌, refl, ap, sym, Option, none, some, [], if◌then◌else◌,
}
use xe6_tsy.Contract.Mode.{Time}
use xe6_tsy.Segmenter.{
  Segmenter, Options as SegmenterOptions, options_ok, new_segmenter, ok, err, Result,
  invalid_options,
}
use xe6_tsy.Gate.{
  OpenRequest, Deps, Gate, Options, options_ok as gate_options_ok, idle_gate, new_gate,
}
use xe6_tsy.Gate.Calls.{
  Error, invalid_open_request, gate_closed, duplicate_open, valid_request, open_gate, cancel, Call,
  opening, consuming, replaying, expiring, working, canceling, step,
}
use xe6_tsy.Gate.Settles.{Settles, Settles-refl}
use xe6_tsy.Gate.Hearing.{consume_locked-Settles}
use xe6_tsy.Gate.Workers.{work-Settles}
use xe6_tsy.Gate.Opening.{expire-Settles, replay-Settles, opened}

pub data Moves (d : Deps) (g h : Gate) : Type 0 where
  settling : Settles d g h → Moves d g h
  opens :
      (now : Time) (q : OpenRequest)
      → g.closed ≡ false
      → g.seen_command_ids q.command_id ≡ false
      → h ≡ opened d now q g
      → Moves d g h
  cancels : h ≡ cancel d g → Moves d g h

-- An opening is refused, or it opens an attempt.
pub open_gate_rule {ℓ} :
    (P : Gate × Option Error → Type ℓ) (d : Deps) (now : Time) (q : OpenRequest) (g : Gate)
    → ((e : Error) → P (g, some e))
    → (g.closed ≡ false → g.seen_command_ids q.command_id ≡ false → P (opened d now q g, none))
    → P (open_gate d now q g)
unfolding open_gate
open_gate_rule P d now q g refused taken =
    guards (not (valid_request q)) g.closed (g.seen_command_ids q.command_id) refl refl
  where
    guards :
        (a b c : Bool)
        → b ≡ g.closed
        → c ≡ g.seen_command_ids q.command_id
        → P (
            if a
            then (g, some invalid_open_request)
            else if b
            then (g, some gate_closed)
            else if c
            then (g, some duplicate_open)
            else (opened d now q g, none))
    guards true b c e f = refused invalid_open_request
    guards false true c e f = refused gate_closed
    guards false false true e f = refused duplicate_open
    guards false false false e f = taken (sym e) (sym f)

open_gate-Moves :
    (d : Deps) (now : Time) (q : OpenRequest) (g : Gate) → Moves d g (open_gate d now q g).0
open_gate-Moves d now q g =
    open_gate_rule (λ r. Moves d g r.0) d now q g (λ e. settling (Settles-refl d g))
      (λ c s. opens now q c s refl)

pub step-Moves : (d : Deps) (call : Call) (g : Gate) → Moves d g (step d call g)
unfolding step
step-Moves d (opening now q) g = open_gate-Moves d now q g
step-Moves d (consuming env f) g = settling (consume_locked-Settles d env f false g)
step-Moves d (replaying fs) g = settling (replay-Settles d fs g)
step-Moves d (expiring now a f) g = settling (expire-Settles d now a f g)
step-Moves d (working env a) g = settling (work-Settles d env a g)
step-Moves d canceling g = cancels refl

new_segmenter-inactive :
    (o : SegmenterOptions) (s : Segmenter) → new_segmenter o ≡ ok s → s.active ≡ false
unfolding new_segmenter
new_segmenter-inactive o s h = check (options_ok o) h
  where
    active_of : Result Segmenter → Bool
    active_of (ok s) = s.active
    active_of (err e) = false

    check :
        (b : Bool)
        → (if not b
            then err invalid_options
            else ok (record {
              options = o;
              active = false;
              started_at = 0;
              last_speech = 0;
              last_seen = 0;
              frames = [];
              prefix_frames = [];
            }))
          ≡ ok s
        → s.active ≡ false
    check false h = cc
    check true h = sym (ap active_of h)

-- A new gate is idle.
pub new_gate-idle :
    (o : Options) (g : Gate)
    → new_gate o ≡ some g
    → (s : Segmenter) × (g ≡ idle_gate o s) × (s.active ≡ false)
unfolding new_gate
new_gate-idle o g h = from (gate_options_ok o) _ refl h
  where
    from :
        (b : Bool) (r : Result Segmenter)
        → new_segmenter (record {
          silence_after = o.end_silence;
          max_duration = o.max_audio_duration;
          max_buffered_duration = 0;
          prefix_padding = o.prefix_padding;
        })
          ≡ r
        → (if◌then◌else◌ {A = Option Gate}
            (not b)
            none
            (elim r [ err e ↦ none | ok segmenter ↦ some (idle_gate o segmenter) ]))
          ≡ some g
        → (s : Segmenter) × (g ≡ idle_gate o s) × (s.active ≡ false)
    from false r e h = cc
    from true (err e) x h = cc
    from true (ok s) x h = (s, cc, new_segmenter-inactive _ s x)
