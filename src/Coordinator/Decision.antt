-- ===== src/Coordinator/Decision.antt =====
-- What one call of `Switch` of services/realtime-audio/runtime/mode.go decides.
use xe6_tsy.Common.{
  ℕ, ◌≡◌, ◌≢◌, refl, sym, ap, ◌∙◌, true, false, none, some, String, [], ◌∷◌, ◌++◌, arith,
  Bool-cases, Option-cases, inl, inr, str_eq, str_eq_iff, incr, ◌==◌, ==_iff,
}
use xe6_tsy.Contract.Mode.{Mode, SwitchCommand, SwitchResult, mode_eq, applied, unchanged}
use xe6_tsy.Contract.Equality.{mode_eq_iff}
use xe6_tsy.Coordinator.{
  Coordinator, Pending, Env, Error, Result, ok, err, event_unavailable, generation_conflict,
  instance_mismatch, context_error, command_invalid, not_available, commit_pending, command_ok,
  prepare, stay, compare_and_switch, after_recovery, resume, replay, switch,
}
use xe6_tsy.Coordinator.History.{Consistent, remember_keeps}

module _ (sha256_hex : String → String) (env : Env) (q : SwitchCommand) where
  -- What a call may do to a coordinator with no frozen transition.
  pub data Decides (c : Coordinator) (d : Coordinator) (r : Result SwitchResult) : Type 0 where
    refused : (e : Error) → d ≡ c → r ≡ err e → Decides c d r
    frozen :
        (why : String)
        → d ≡ record c { pending = some (prepare sha256_hex env.now q c) }
        → r ≡ err (event_unavailable why)
        → Decides c d r
    switched :
        q.expected_generation ≡ c.state.generation
        → q.target_mode ≢ c.state.active_mode
        → d.state.active_mode ≡ q.target_mode
        → d.state.generation ≡ incr c.state.generation
        → d.accepted ≡ c.accepted ++ (prepare sha256_hex env.now q c).event ∷ []
        → d.pending ≡ none
        → r ≡ ok (record { operation_id = q.operation_id; status = applied; state = d.state })
        → Decides c d r
    kept :
        q.expected_generation ≡ c.state.generation
        → q.target_mode ≡ c.state.active_mode
        → d.state.active_mode ≡ c.state.active_mode
        → d.state.generation ≡ c.state.generation
        → d.accepted ≡ c.accepted
        → d.pending ≡ none
        → r ≡ ok (record { operation_id = q.operation_id; status = unchanged; state = d.state })
        → Decides c d r

  Decides-stay :
      (c : Coordinator)
      → c.pending ≡ none
      → q.expected_generation ≡ c.state.generation
      → mode_eq q.target_mode c.state.active_mode ≡ true
      → Decides c (stay env.now q c).0 (stay env.now q c).1
  unfolding stay
  Decides-stay c i f k =
      let (same, waits, log) = remember_keeps q _ (record c { state = _ }) in
      kept f ((mode_eq_iff q.target_mode c.state.active_mode).0 k) (ap (λ s. s.active_mode) same)
        (ap (λ s. s.generation) same) log (waits ∙ i)
        (ap (λ s. ok (record { operation_id = q.operation_id; status = unchanged; state = s }))
          (sym same))

  Decides-commit_pending :
      (c : Coordinator)
      → q.expected_generation ≡ c.state.generation
      → mode_eq q.target_mode c.state.active_mode ≡ false
      → let p = prepare sha256_hex env.now q c in
        let a = commit_pending env p (record c { pending = some p }) in Decides c a.0 a.1
  unfolding commit_pending prepare
  Decides-commit_pending c f k =
      let p = prepare sha256_hex env.now q c in
      elim (Option-cases (env.publish p.event)) [
        | inr (why, e) ↦ rw (e, commit_pending) (frozen why refl refl)
        | inl e ↦
            let (same, waits, log) =
              remember_keeps q p.result (record c { state = p.result.state; pending = some p }) in
            rw (e, commit_pending)
              (switched f (λ t. cc (k, (mode_eq_iff q.target_mode c.state.active_mode).1 t))
                (ap (λ s. s.active_mode) same) (ap (λ s. s.generation) same) refl refl
                (ap
                  (λ s. ok (record { operation_id = q.operation_id; status = applied; state = s }))
                  (sym same)))
      ]

  -- The same below for the part of `Switch` after the idempotency checks.
  pub compare_Decides :
      (c : Coordinator)
      → c.pending ≡ none
      → Decides c
          (compare_and_switch sha256_hex env q c).0
          (compare_and_switch sha256_hex env q c).1
  unfolding compare_and_switch
  compare_Decides c i =
      elim (Bool-cases (str_eq q.runtime_instance_id c.state.runtime_instance_id)) [
        | inr e ↦ rw (e, compare_and_switch) (refused instance_mismatch refl refl)
        | inl e ↦ elim (Bool-cases (q.expected_generation == c.state.generation)) [
          | inr f ↦ rw (e, f, compare_and_switch) (refused generation_conflict refl refl)
          | inl f ↦ elim (Bool-cases (c.available q.target_mode)) [
            | inr g ↦ rw (e, f, g, compare_and_switch) (refused not_available refl refl)
            | inl g ↦
                let f' = (==_iff q.expected_generation c.state.generation).0 f in
                elim (Bool-cases (mode_eq q.target_mode c.state.active_mode)) [
                  | inl k ↦ rw (e, f, g, k, compare_and_switch) (Decides-stay c i f' k)
                  | inr k ↦ rw (e, f, g, k, compare_and_switch) (Decides-commit_pending c f' k)
                ]
          ]
        ]
      ]

  passes :
      (c : Coordinator)
      → c.pending ≡ none
      → c.operations q.operation_id ≡ none
      → env.ctx_before ≡ none
      → command_ok q ≡ true
      → env.ctx_locked ≡ none
      → str_eq q.session_id c.state.session_id ≡ true
      → switch sha256_hex env q c ≡ compare_and_switch sha256_hex env q c
  unfolding switch replay resume
  passes c i u e f g k = ground arith

  -- With no transition frozen and the operation not remembered, a call does one of four things: it
  -- refuses and changes nothing; it freezes the transition that the sink refused; it switches, when
  -- the expected generation is the current one and the target another mode, to that mode and the
  -- next generation, with one more event acknowledged; or it keeps mode and generation, when the
  -- target is the current mode, with no event. A successful answer carries the state that the
  -- coordinator is left with.
  pub switch_Decides :
      (c : Coordinator)
      → c.pending ≡ none
      → c.operations q.operation_id ≡ none
      → Decides c (switch sha256_hex env q c).0 (switch sha256_hex env q c).1
  unfolding switch replay resume
  switch_Decides c i u = elim (Option-cases env.ctx_before) [
    | inr (x, e) ↦ rw (e, switch) (refused (context_error x) refl refl)
    | inl e ↦ elim (Bool-cases (command_ok q)) [
      | inr f ↦ rw (e, f, switch) (refused command_invalid refl refl)
      | inl f ↦ elim (Option-cases env.ctx_locked) [
        | inr (x, g) ↦ rw (e, f, g, switch) (refused (context_error x) refl refl)
        | inl g ↦ elim (Bool-cases (str_eq q.session_id c.state.session_id)) [
          | inr k ↦ rw (e, f, g, k, switch) (refused command_invalid refl refl)
          | inl k ↦ rw (passes c i u e f g k) (compare_Decides c i)
        ]
      ]
    ]
  ]

  incr-ne : (g : ℕ) → g ≢ incr g
  incr-ne g e = omega arith

  -- A frozen transition is committed by the next command of another operation, when the sink accepts:
  -- one that is not remembered, is well formed and addressed to the session and the runtime, expects the
  -- current, old, generation, and has a live context. The command itself is then refused by the new
  -- generation. The coordinator is consistent, as a new one is after any calls.
  pub switch_recovers :
      (m : Mode) (c : Coordinator) (p : Pending)
      → Consistent m c
      → c.pending ≡ some p
      → p.command.operation_id ≢ q.operation_id
      → c.operations q.operation_id ≡ none
      → env.ctx_before ≡ none
      → env.ctx_locked ≡ none
      → env.publish p.event ≡ none
      → command_ok q ≡ true
      → q.session_id ≡ c.state.session_id
      → q.runtime_instance_id ≡ c.state.runtime_instance_id
      → q.expected_generation ≡ c.state.generation
      → let d = (switch sha256_hex env q c).0 in
        ((switch sha256_hex env q c).1 ≡ err generation_conflict)
        × (d.state ≡ p.result.state)
        × (d.accepted ≡ c.accepted ++ p.event ∷ [])
        × (d.pending ≡ none)
  unfolding switch replay resume after_recovery commit_pending compare_and_switch
  switch_recovers m c p h i differs u before locked sink checked home instance_id stale =
      let staged = rw i at h.staged in
      ground (
        arith,
        staged.counts,
        staged.numbers,
        staged.instance_id,
        incr-ne c.state.generation,
        remember_keeps p.command p.result (record c { state = p.result.state }),
        str_eq_iff p.command.operation_id q.operation_id,
        str_eq_iff q.session_id c.state.session_id,
        str_eq_iff q.runtime_instance_id p.result.state.runtime_instance_id,
      )

  -- While the sink refuses the frozen event, no command gets past it: the coordinator stays as it is.
  pub switch_blocked :
      (c : Coordinator) (p : Pending) (why : String)
      → c.pending ≡ some p
      → env.publish p.event ≡ some why
      → (switch sha256_hex env q c).0 ≡ c
  unfolding switch replay resume after_recovery commit_pending
  switch_blocked c p why i e = ground arith
