-- ===== src/Coordinator/Faithful.antt =====
-- services/realtime-audio/runtime/mode.go: what the acknowledged events say of the coordinator's state.
use xe6_tsy.Common.{
  ℕ, ◌+◌, ◌<◌, ◌≤◌, ◌≡◌, ◌≢◌, sym, Bool, none, String, List, [], ◌∷◌, ◌++◌, arith, All, sign_bit,
  length,
}
use xe6_tsy.Contract.Mode.{Time, Mode, ModeState, ModeChanged, SwitchCommand, validate}
use xe6_tsy.Coordinator.{Coordinator, Env, ok, run, new}
use xe6_tsy.Coordinator.History.{Follows, Consistent, run-Consistent, new-Consistent}
use xe6_tsy.Coordinator.Fence.{generation-accepted}
use xe6_tsy.Coordinator.Events.{Issued, run-Issues, new-Issues}

-- The generation of an event of the story, and what it says of the state that the story leads to.
pub record Told (s : ModeState) (e : ModeChanged) : Type 0 where
  pub second : 2 ≤ e.resulting_generation
  pub behind : e.resulting_generation ≤ s.generation
  pub current : e.resulting_generation ≡ s.generation → e.to_mode ≡ s.active_mode

Follows-Told :
    (m : Mode) (g : ℕ) (es : List ModeChanged) (s : ModeState)
    → 1 ≤ g
    → g + length es < sign_bit
    → Follows m g es s
    → All (Told s) es × (g ≤ s.generation) × (g ≡ s.generation → m ≡ s.active_mode)
Follows-Told m g [] s o small h = (tt, omega (arith, h.1), λ i. sym h.0)
Follows-Told m g (e ∷ es) s o small h =
    let next : e.resulting_generation ≡ g + 1 = omega (arith, h.2) in
    let rest =
      Follows-Told e.to_mode e.resulting_generation es s (omega (arith, next)) (omega (arith, next))
        h.3 in
    (
      (record { second = omega (arith, next); behind = rest.1; current = rest.2 }, rest.0),
      omega (arith, next, rest.1),
      λ i. absurd (omega (arith, next, rest.1, i)),
    )

valid_complete :
    (s : ModeState) (e : ModeChanged)
    → Issued s e
    → 2 ≤ e.resulting_generation
    → e.resulting_generation < sign_bit
    → validate e ≡ none
unfolding validate
valid_complete s e h g small = ground (arith, h.complete)

-- What a coordinator's acknowledged events say of the state that it is in.
pub record Faithful (s : ModeState) (e : ModeChanged) : Type 0 where
  pub issued : Issued s e
  pub told : Told s e
  pub valid_event : validate e ≡ none

Issued-Faithful :
    (s : ModeState) (es : List ModeChanged)
    → s.generation < sign_bit
    → All (Issued s) es
    → All (Told s) es
    → All (Faithful s) es
Issued-Faithful s [] small h k = tt
Issued-Faithful s (e ∷ es) small h k = (
  record {
    issued = h.0;
    told = k.0;
    valid_event = valid_complete s e h.0 k.0.second (omega (arith, k.0.behind));
  },
  Issued-Faithful s es small h.1 k.1,
)

pub Follows-last :
    (m : Mode) (g : ℕ) (early : List ModeChanged) (newest : ModeChanged) (s : ModeState)
    → Follows m g (early ++ newest ∷ []) s
    → (newest.resulting_generation ≡ s.generation) × (newest.to_mode ≡ s.active_mode)
Follows-last m g [] newest s h = (sym h.3.1, sym h.3.0)
Follows-last m g (e ∷ early) newest s h =
    Follows-last e.to_mode e.resulting_generation early newest s h.3

module _ (sha256_hex : String → String) (session_id instance_id : String) (m : Mode)
    (modes : List Mode) (wired : Bool) (now : Time) (c : Coordinator)
    (built : new session_id instance_id m modes wired now ≡ ok c)
    (calls : List (Env × SwitchCommand)) (ticking : All (λ call. call.0.now ≢ 0) calls)
    (small : length (run sha256_hex calls c).accepted + 1 < sign_bit) where
  abbrev after : Coordinator
  after = run sha256_hex calls c

  consistent : Consistent m after
  consistent =
      run-Consistent sha256_hex m calls c
        (new-Consistent session_id instance_id m modes wired now c built)

  pub generation_small : after.state.generation < sign_bit
  generation_small = omega (arith, generation-accepted m after consistent (omega arith))

  -- The events that the sink of a new coordinator acknowledged are the runtime's own, pass the
  -- contract's validation, and carry a generation from 2 up to the current one, and an event with the
  -- current generation names the current mode, if the clock never read the zero time and fewer than
  -- 2 ^ 63 - 1 switches were acknowledged.
  pub accepted-Faithful : All (Faithful after.state) after.accepted
  accepted-Faithful =
      Issued-Faithful after.state after.accepted generation_small
        (run-Issues sha256_hex calls c ticking
          (new-Issues session_id instance_id m modes wired now c built)).acknowledged
        (Follows-Told m 1 after.accepted after.state (omega arith) (omega arith) consistent.story).0
