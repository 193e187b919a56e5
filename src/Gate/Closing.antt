-- ===== src/Gate/Closing.antt =====
-- services/realtime-audio/command/gate.go: a canceled gate.
use xe6_tsy.Common.{true, not, ◌≡◌, ◌≢◌, refl, ap, ◌∙◌, inl, inr, none, List, [], ◌∷◌, Bool-cases}
use xe6_tsy.Contract.Mode.{Time}
use xe6_tsy.Gate.{is_dormant, OpenRequest, Deps, Gate}
use xe6_tsy.Gate.Terminal.{abandon}
use xe6_tsy.Gate.Calls.{valid_request, open_gate, cancel, Call, step, run}
use xe6_tsy.Gate.Moves.{Moves, settling, opens, cancels, step-Moves}

abbrev pub Shut : Gate → Type 0
Shut g = (g.closed ≡ true) × (is_dormant g.state ≡ true)

pub cancel-Shut : (d : Deps) (g : Gate) → Shut (cancel d g)
unfolding cancel abandon
cancel-Shut d g = (refl, refl)

pub step-Shut : (d : Deps) (g h : Gate) → Moves d g h → Shut g → Shut h
unfolding cancel abandon
step-Shut d g h (settling s) (c, z) = (ap (λ x. x.1) s.same ∙ c, s.asleep z)
step-Shut d g h (opens now q c s e) (k, z) = cc
step-Shut d g h (cancels e) (c, z) = (ap (λ h. h.closed) e, ap (λ h. is_dormant h.state) e)

run-Shut : (d : Deps) (calls : List Call) (g : Gate) → Shut g → Shut (run d calls g)
unfolding run
run-Shut d [] g s = s
run-Shut d (call ∷ calls) g s =
    run-Shut d calls (step d call g) (step-Shut d g (step d call g) (step-Moves d call g) s)

open_gate-Shut :
    (d : Deps) (now : Time) (q : OpenRequest) (g : Gate)
    → g.closed ≡ true
    → (open_gate d now q g).1 ≢ none
unfolding open_gate
open_gate-Shut d now q g c = elim (Bool-cases (not (valid_request q))) [
  | inl e ↦ rw (e, open_gate) (λ x. cc)
  | inr e ↦ simp (e, c, open_gate) (λ x. cc)
]

-- Once `Cancel` was called, whatever calls come after it, those of workers and timers that were under way
-- included, the gate is dormant and closed and every opening is refused.
pub canceled_for_good :
    (d : Deps) (g : Gate) (calls : List Call) (now : Time) (q : OpenRequest)
    → (is_dormant (run d calls (cancel d g)).state ≡ true)
      × ((open_gate d now q (run d calls (cancel d g))).1 ≢ none)
canceled_for_good d g calls now q =
    let shut = run-Shut d calls (cancel d g) (cancel-Shut d g) in
    (shut.1, open_gate-Shut d now q (run d calls (cancel d g)) shut.0)
