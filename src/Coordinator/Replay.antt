-- ===== src/Coordinator/Replay.antt =====
-- Retrying a mode command: services/realtime-audio/runtime/mode.go remembers what it answered.
use xe6_tsy.Common.{
  ◌≡◌, ◌≢◌, sym, ap, subst, ◌∙◌, true, none, some, String, arith, Option-cases, inl, inr,
  str_eq_iff, str_eq_refl,
}
use xe6_tsy.Contract.Mode.{Mode, SwitchCommand, SwitchResult}
use xe6_tsy.Contract.Equality.{command_eq_iff}
use xe6_tsy.Coordinator.{
  Coordinator, OperationRecord, Pending, Env, Result, ok, err, operation_conflict, remember,
  commit_pending, command_ok, stay, replay, switch,
}
use xe6_tsy.Coordinator.Induction.{switch_rule}
use xe6_tsy.Coordinator.History.{Consistent, remember_keeps, commit-Consistent, freeze-Consistent}

-- The answer stands in the replay window, under the command's operation.
abbrev pub Kept : SwitchCommand → Coordinator × Result SwitchResult → Type 0
Kept q (d, err e) = Unit {0}
Kept q (d, ok r) =
    (d.operations q.operation_id ≡ some (record { command = q; result = r }))
    × (d.state.session_id ≡ q.session_id)
    × (command_ok q ≡ true)

record Ready (m : Mode) (q : SwitchCommand) (c : Coordinator) : Type 0 where
  consistent : Consistent m c
  addressed : c.state.session_id ≡ q.session_id
  checked : command_ok q ≡ true

operations-remember_self :
    (q : SwitchCommand) (r : SwitchResult) (c : Coordinator)
    → (remember q r c).operations q.operation_id ≡ some (record { command = q; result = r })
unfolding remember
operations-remember_self q r c = ground (arith, str_eq_refl q.operation_id)

pub session-commit_pending :
    (m : Mode) (env : Env) (p : Pending) (c : Coordinator)
    → Consistent m c
    → c.pending ≡ some p
    → (commit_pending env p c).0.state.session_id ≡ c.state.session_id
unfolding commit_pending
session-commit_pending m env p c h i = elim (Option-cases (env.publish p.event)) [
  | inr (why, e) ↦ rw (e, commit_pending)
  | inl e ↦
      rw (e, commit_pending)
        (ap (λ s. s.session_id) (remember_keeps p.command p.result _).0
          ∙ (rw i at h.staged).session)
]

Ready-commit_pending :
    (m : Mode) (q : SwitchCommand) (env : Env) (p : Pending) (c : Coordinator)
    → Ready m q c
    → c.pending ≡ some p
    → Ready m q (commit_pending env p c).0
Ready-commit_pending m q env p c h i = record {
  consistent = commit-Consistent m env p c h.consistent i;
  addressed = session-commit_pending m env p c h.consistent i ∙ h.addressed;
  checked = h.checked;
}

Kept-commit_pending :
    (m : Mode) (q : SwitchCommand) (env : Env) (p : Pending) (c : Coordinator)
    → Ready m q c
    → c.pending ≡ some p
    → p.command ≡ q
    → Kept q (commit_pending env p c)
unfolding commit_pending
Kept-commit_pending m q env p c h i e = elim (Option-cases (env.publish p.event)) [
  | inr (why, f) ↦ rw (f, commit_pending) tt
  | inl f ↦
      let home = session-commit_pending m env p c h.consistent i ∙ h.addressed in
      let home' = rw (f, commit_pending) at home in
      rw (f, commit_pending)
        (
          subst
              (λ x.
                (remember p.command p.result (record c { state = p.result.state })).operations
                  x.operation_id
                ≡ some (record { command = x; result = p.result }))
              e (operations-remember_self p.command p.result _),
          home',
          h.checked,
        )
]

Kept-recall :
    (m : Mode) (q : SwitchCommand) (previous : OperationRecord) (c : Coordinator)
    → Ready m q c
    → c.operations q.operation_id ≡ some previous
    → previous.command ≡ q
    → Kept q (c, ok previous.result)
Kept-recall m q previous c h u e = (ground arith, h.addressed, h.checked)

Kept-stay :
    (m : Mode) (env : Env) (q : SwitchCommand) (c : Coordinator)
    → Ready m q c
    → Kept q (stay env.now q c)
unfolding stay
Kept-stay m env q c h = (
  operations-remember_self q _ _,
  ap (λ s. s.session_id) (remember_keeps q _ _).0 ∙ h.addressed,
  h.checked,
)

module _ (sha256_hex : String → String) (m : Mode) (env : Env) (q : SwitchCommand) where
  pub switch-Kept : (c : Coordinator) → Consistent m c → Kept q (switch sha256_hex env q c)
  switch-Kept c h =
      switch_rule sha256_hex env q (Ready m q) (Kept q) (λ e c h. tt) (Kept-recall m q)
        (λ p c h i d. Ready-commit_pending m q env p c h i) (Kept-commit_pending m q env)
        (λ c h u i e f g k. record {
          consistent = freeze-Consistent sha256_hex m env.now q c h.consistent k;
          addressed = h.addressed;
          checked = h.checked;
        })
        (λ c h u i e f g k. Kept-stay m env q c h) c (λ e. tt)
        (λ f k. record { consistent = h; addressed = sym k; checked = f })

  -- Another command under an answered operation is refused and changes nothing.
  pub switch_reused_operation :
      (c d : Coordinator) (r : SwitchResult) (later : Env) (other : SwitchCommand)
      → Consistent m c
      → switch sha256_hex env q c ≡ (d, ok r)
      → later.ctx_before ≡ none
      → later.ctx_locked ≡ none
      → command_ok other ≡ true
      → other.session_id ≡ q.session_id
      → other.operation_id ≡ q.operation_id
      → other ≢ q
      → switch sha256_hex later other d ≡ (d, err operation_conflict)
  unfolding switch replay
  switch_reused_operation c d r later other h e before locked checked same reused differs =
      let kept : Kept q (d, ok r) = subst (Kept q) e (switch-Kept c h) in
      ground (
        arith,
        kept.0,
        kept.1,
        str_eq_iff other.session_id d.state.session_id,
        command_eq_iff q other,
      )
