-- ===== src/Coordinator/Induction.antt =====
-- An induction rule for `Switch`: what holds on the way into each of its branches
-- and out of it, holds of the answer.
use xe6_tsy.Common.{
  ◌≡◌, refl, true, false, Option, none, some, String, arith, Bool-cases, Option-cases, inl, inr,
  ==_iff, str_eq, str_eq_iff, ◌==◌, get_elem?,
}
use xe6_tsy.Contract.Mode.{command_eq, SwitchCommand, SwitchResult, mode_eq}
use xe6_tsy.Contract.Equality.{command_eq_iff}
use xe6_tsy.Coordinator.{
  Coordinator, OperationRecord, Pending, Env, Error, Result, ok, err, evict, remember,
  commit_pending, command_ok, prepare, stay, compare_and_switch, after_recovery, resume, replay,
  switch, context_error, command_invalid, not_available, generation_conflict, instance_mismatch,
  operation_conflict, event_unavailable,
}

pub evict-none :
    (k : String) (o : Option String) (c : Coordinator)
    → c.operations k ≡ none
    → evict o c.operations k ≡ none
unfolding evict
evict-none k none c h = h
evict-none k (some e) c h = ground arith

-- Remembering one operation makes no other operation known.
pub remember_unknown :
    (k : String) (q : SwitchCommand) (r : SwitchResult) (c : Coordinator)
    → str_eq q.operation_id k ≡ false
    → c.operations k ≡ none
    → (remember q r c).operations k ≡ none
unfolding remember
remember_unknown k q r c d h =
    ground (arith, evict-none k (get_elem? c.operation_order c.operation_cursor) c h)

-- `P` holds while the call looks for its branch, `Q` of the coordinator and the answer.
module _ {ℓ κ} (sha256_hex : String → String) (env : Env) (q : SwitchCommand)
    (P : Coordinator → Type ℓ) (Q : Coordinator × Result SwitchResult → Type κ)
    (refuse : (e : Error) (c : Coordinator) → P c → Q (c, err e))
    (recall : (previous : OperationRecord) (c : Coordinator)
      → P c
      → c.operations q.operation_id ≡ some previous
      → previous.command ≡ q
      → Q (c, ok previous.result))
    (settle_other : (p : Pending) (c : Coordinator)
      → P c
      → c.pending ≡ some p
      → str_eq p.command.operation_id q.operation_id ≡ false
      → P (commit_pending env p c).0)
    (settle_own : (p : Pending) (c : Coordinator)
      → P c
      → c.pending ≡ some p
      → p.command ≡ q
      → Q (commit_pending env p c))
    (freeze : (c : Coordinator)
      → P c
      → c.operations q.operation_id ≡ none
      → c.pending ≡ none
      → q.runtime_instance_id ≡ c.state.runtime_instance_id
      → q.expected_generation ≡ c.state.generation
      → c.available q.target_mode ≡ true
      → mode_eq q.target_mode c.state.active_mode ≡ false
      → P (record c { pending = some (prepare sha256_hex env.now q c) }))
    (remain : (c : Coordinator)
      → P c
      → c.operations q.operation_id ≡ none
      → c.pending ≡ none
      → q.runtime_instance_id ≡ c.state.runtime_instance_id
      → q.expected_generation ≡ c.state.generation
      → c.available q.target_mode ≡ true
      → mode_eq q.target_mode c.state.active_mode ≡ true
      → Q (stay env.now q c)) where
  compare_rule :
      (c : Coordinator)
      → P c
      → c.operations q.operation_id ≡ none
      → c.pending ≡ none
      → Q (compare_and_switch sha256_hex env q c)
  unfolding compare_and_switch prepare
  compare_rule c h u i =
      elim (Bool-cases (str_eq q.runtime_instance_id c.state.runtime_instance_id)) [
        | inr e ↦ rw (e, compare_and_switch) (refuse instance_mismatch c h)
        | inl e ↦ elim (Bool-cases (q.expected_generation == c.state.generation)) [
          | inr f ↦ rw (e, f, compare_and_switch) (refuse generation_conflict c h)
          | inl f ↦ elim (Bool-cases (c.available q.target_mode)) [
            | inr g ↦ rw (e, f, g, compare_and_switch) (refuse not_available c h)
            | inl g ↦
                let e' = (str_eq_iff q.runtime_instance_id c.state.runtime_instance_id).0 e in
                let f' = (==_iff q.expected_generation c.state.generation).0 f in
                elim (Bool-cases (mode_eq q.target_mode c.state.active_mode)) [
                  | inl k ↦ rw (e, f, g, k, compare_and_switch) (remain c h u i e' f' g k)
                  | inr k ↦
                      rw (e, f, g, k, compare_and_switch)
                        (settle_own (prepare sha256_hex env.now q c) _ (freeze c h u i e' f' g k)
                          refl refl)
                ]
          ]
        ]
      ]

  recovery_rule :
      (p : Pending) (c : Coordinator)
      → P c
      → c.operations q.operation_id ≡ none
      → c.pending ≡ some p
      → str_eq p.command.operation_id q.operation_id ≡ false
      → Q (after_recovery sha256_hex env q (commit_pending env p c))
  unfolding after_recovery commit_pending
  recovery_rule p c h u i d =
      let kept : P (commit_pending env p c).0 = settle_other p c h i d in
      elim (Option-cases (env.publish p.event)) [
        | inr (why, e) ↦ rw (e, commit_pending) (refuse (event_unavailable why) c h)
        | inl e ↦
            let kept' = rw (e, commit_pending) at kept in
            rw (e, commit_pending)
              (compare_rule _ kept'
                (remember_unknown q.operation_id p.command p.result
                  (record c { state = p.result.state }) d u)
                refl)
      ]

  resume_rule :
      (c : Coordinator) (o : Option Pending)
      → P c
      → c.operations q.operation_id ≡ none
      → c.pending ≡ o
      → Q (resume sha256_hex env q c o)
  unfolding resume
  resume_rule c none h u i = compare_rule c h u i
  resume_rule c (some p) h u i = elim (Bool-cases (str_eq p.command.operation_id q.operation_id)) [
    | inl e ↦ elim (Bool-cases (command_eq p.command q)) [
      | inl f ↦ rw (e, f) (settle_own p c h i ((command_eq_iff p.command q).0 f))
      | inr f ↦ rw (e, f) (refuse operation_conflict c h)
    ]
    | inr e ↦ rw e (recovery_rule p c h u i e)
  ]

  replay_rule :
      (c : Coordinator) (o : Option OperationRecord)
      → P c
      → c.operations q.operation_id ≡ o
      → Q (replay sha256_hex env q c o)
  unfolding replay
  replay_rule c none h u = resume_rule c c.pending h u refl
  replay_rule c (some previous) h u = elim (Bool-cases (command_eq previous.command q)) [
    | inl e ↦ rw e (recall previous c h u ((command_eq_iff previous.command q).0 e))
    | inr e ↦ rw e (refuse operation_conflict c h)
  ]

  pub switch_rule :
      (c : Coordinator)
      → ((e : Error) → Q (c, err e))
      → (command_ok q ≡ true → q.session_id ≡ c.state.session_id → P c)
      → Q (switch sha256_hex env q c)
  unfolding switch
  switch_rule c early start = elim (Option-cases env.ctx_before) [
    | inr (x, e) ↦ rw (e, switch) (early (context_error x))
    | inl e ↦ elim (Bool-cases (command_ok q)) [
      | inr f ↦ rw (e, f, switch) (early command_invalid)
      | inl f ↦ elim (Option-cases env.ctx_locked) [
        | inr (x, g) ↦ rw (e, f, g, switch) (early (context_error x))
        | inl g ↦ elim (Bool-cases (str_eq q.session_id c.state.session_id)) [
          | inr k ↦ rw (e, f, g, k, switch) (early command_invalid)
          | inl k ↦
              rw (e, f, g, k, switch)
                (replay_rule c (c.operations q.operation_id)
                  (start f ((str_eq_iff q.session_id c.state.session_id).0 k)) refl)
        ]
      ]
    ]
  ]
