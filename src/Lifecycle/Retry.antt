-- ===== src/Lifecycle/Retry.antt =====
-- services/realtime-audio/session/service.go: what a Start or a Stop that is repeated meets.
use xe6_tsy.Common.{
  ◌≡◌, ◌≢◌, refl, sym, ◌∙◌, true, false, Option, none, some, [], ◌∷◌, arith, str_eq, str_eq_iff,
  is_blank, Bool-cases, Option-cases, inl, inr,
}
use xe6_tsy.Contract.Runtime.{
  RuntimeState, stopped, starting, asr_processing, translating, thinking, assistant_processing,
  tts_processing, playing, stopping, failed, RuntimeErrorCode, RuntimeSnapshot, listening,
}
use xe6_tsy.Lifecycle.{
  World, Env, StartCommand, Answer, SessionSnapshot, save_runtime, fresh_snapshot, compensate,
  operation_conflict,
}
use xe6_tsy.Lifecycle.Start.{
  activate, listen, run_pipeline, launch, take_over, start_runtime, awaits_cleanup, is_over,
  is_processing, failed_stop,
}
use xe6_tsy.Lifecycle.Invariant.{stored-save_runtime}

-- A Start that answered no error: the snapshot it answers is stored, the operation's own, and of a
-- runtime that is not over.
abbrev Started : StartCommand → Answer → Type 0
Started q a =
    a.2 ≡ []
    → (r : RuntimeSnapshot) × (a.1 ≡ some r)
      × (a.0.runtimes q.session_id ≡ some r)
      × (r.start_operation_id ≡ q.operation_id)
      × (is_over r.runtime_state ≡ false)

activate-Started :
    (env : Env) (q : StartCommand) (w : World)
    → w.runtimes q.session_id ≡ some (fresh_snapshot q listening (env.now listening))
    → Started q (activate env q w)
unfolding activate compensate
activate-Started env q w i = elim (Option-cases env.activate) [
  | inl e ↦ rw (e, activate) (λ z. (_, refl, i, refl, refl))
  | inr (none, e) ↦ rw (e, activate) (λ z. (_, refl, i, refl, refl))
  | inr (some why, e) ↦ rw (e, activate) (λ z. cc z)
]

listen-Started : (env : Env) (q : StartCommand) (w : World) → Started q (listen env q w)
unfolding listen compensate
listen-Started env q w =
    elim (Option-cases
      (save_runtime env.save (fresh_snapshot q listening (env.now listening)) w).1) [
        | inl e ↦ rw (e, listen) (activate-Started env q _ (stored-save_runtime env.save _ w e))
        | inr (why, e) ↦ rw (e, listen) (λ z. cc z)
      ]

run_pipeline-Started :
    (env : Env) (q : StartCommand) (business : SessionSnapshot) (w : World)
    → Started q (run_pipeline env q business w)
unfolding run_pipeline
run_pipeline-Started env q business w = elim (Option-cases (env.start business)) [
  | inr (why, e) ↦ rw (e, run_pipeline) (λ z. cc z)
  | inl e ↦ rw (e, run_pipeline) (listen-Started env q _)
]

launch-Started : (env : Env) (q : StartCommand) (w : World) → Started q (launch env q w)
unfolding launch
launch-Started env q w = elim (Option-cases env.session_failure) [
  | inr (why, e) ↦ rw (e, launch) (λ z. cc z)
  | inl e ↦ elim (Bool-cases (str_eq env.session.status "created")) [
    | inr f ↦ rw (e, f, launch) (λ z. cc z)
    | inl f ↦
        elim (Option-cases
          (save_runtime env.save (fresh_snapshot q starting (env.now starting)) w).1) [
            | inr (why, g) ↦ rw (e, f, g, launch) (λ z. cc z)
            | inl g ↦ rw (e, f, g, launch) (run_pipeline-Started env q _ _)
          ]
  ]
]

take_over-Started :
    (env : Env) (q : StartCommand) (w : World) (o : Option RuntimeSnapshot)
    → w.runtimes q.session_id ≡ o
    → Started q (take_over env q w o)
unfolding take_over
take_over-Started env q w none i = launch-Started env q w
take_over-Started env q w (some r) i = elim (Bool-cases (awaits_cleanup r)) [
  | inl a ↦ rw (a, take_over) (λ z. cc z)
  | inr a ↦ elim (Bool-cases (is_over r.runtime_state)) [
    | inl b ↦ rw (a, b, take_over) (launch-Started env q w)
    | inr b ↦ elim (Bool-cases (str_eq r.start_operation_id q.operation_id)) [
      | inr c ↦ rw (a, b, c, take_over) (λ z. cc z)
      | inl c ↦
          let same = (str_eq_iff r.start_operation_id q.operation_id).0 c in
          elim (Bool-cases (is_processing r.runtime_state)) [
            | inr d ↦ rw (a, b, c, d, take_over) (λ z. (r, refl, i, same, b))
            | inl d ↦ elim (Option-cases env.active) [
              | inl e ↦ rw (a, b, c, d, e, take_over) (λ z. (r, refl, i, same, b))
              | inr (true, e) ↦ rw (a, b, c, d, e, take_over) (λ z. (r, refl, i, same, b))
              | inr (false, e) ↦ rw (a, b, c, d, e, take_over) (launch-Started env q w)
            ]
          ]
    ]
  ]
]

start_runtime-Started :
    (env : Env) (q : StartCommand) (w : World) → Started q (start_runtime env q w)
unfolding start_runtime
start_runtime-Started env q w = elim (Option-cases env.ctx) [
  | inr (why, a) ↦ rw (a, start_runtime) (λ z. cc z)
  | inl a ↦ elim (Bool-cases (is_blank q.session_id)) [
    | inl b ↦ rw (a, b, start_runtime) (λ z. cc z)
    | inr b ↦ elim (Bool-cases (is_blank q.operation_id)) [
      | inl c ↦ rw (a, b, c, start_runtime) (λ z. cc z)
      | inr c ↦ elim (Option-cases env.read) [
        | inr (why, d) ↦ rw (a, b, c, d, start_runtime) (λ z. cc z)
        | inl d ↦ rw (a, b, c, d, start_runtime) (take_over-Started env q w _ refl)
      ]
    ]
  ]
]

-- A call that reaches the stored snapshot: its context is alive, its names are given, the store
-- answers.
pub record Reaches (env : Env) (q : StartCommand) : Type 0 where
  pub alive : env.ctx ≡ none
  pub named : is_blank q.session_id ≡ false
  pub owned : is_blank q.operation_id ≡ false
  pub readable : env.read ≡ none

pub start_runtime-reached :
    (env : Env) (q : StartCommand) (w : World) (r : RuntimeSnapshot)
    → Reaches env q
    → w.runtimes q.session_id ≡ some r
    → start_runtime env q w ≡ take_over env q w (some r)
unfolding start_runtime
start_runtime-reached env q w r h i =
    simp (h.alive, h.named, h.owned, h.readable, i, start_runtime) refl

not_over_not_awaiting :
    (s : RuntimeState) (code : Option RuntimeErrorCode)
    → is_over s ≡ false
    → failed_stop s code ≡ false
not_over_not_awaiting stopped code h = refl
not_over_not_awaiting starting code h = refl
not_over_not_awaiting listening code h = refl
not_over_not_awaiting asr_processing code h = refl
not_over_not_awaiting translating code h = refl
not_over_not_awaiting thinking code h = refl
not_over_not_awaiting assistant_processing code h = refl
not_over_not_awaiting tts_processing code h = refl
not_over_not_awaiting playing code h = refl
not_over_not_awaiting stopping code h = refl
not_over_not_awaiting failed code h = cc

held_by_other :
    (env : Env) (q : StartCommand) (w : World) (r : RuntimeSnapshot)
    → is_over r.runtime_state ≡ false
    → r.start_operation_id ≢ q.operation_id
    → take_over env q w (some r) ≡ (w, some r, operation_conflict ∷ [])
unfolding take_over
held_by_other env q w r alive differs = ground (
  arith,
  not_over_not_awaiting r.runtime_state r.last_error_code alive,
  str_eq_iff r.start_operation_id q.operation_id,
)

held_by_same :
    (env : Env) (q : StartCommand) (w : World) (r : RuntimeSnapshot)
    → is_over r.runtime_state ≡ false
    → r.start_operation_id ≡ q.operation_id
    → env.active ≢ some false
    → take_over env q w (some r) ≡ (w, some r, [])
unfolding take_over
held_by_same env q w r alive same active = ground (
  arith,
  not_over_not_awaiting r.runtime_state r.last_error_code alive,
  str_eq_iff r.start_operation_id q.operation_id,
)

-- What a later Start finds.
abbrev Kept : StartCommand → Answer → Type 0
Kept q a =
    (r : RuntimeSnapshot) × (a.1 ≡ some r)
    × (r.start_operation_id ≡ q.operation_id)
    × (is_over r.runtime_state ≡ false)

start-Kept :
    (first later : Env) (q other : StartCommand) (w : World)
    → (start_runtime first q w).2 ≡ []
    → Reaches later other
    → other.session_id ≡ q.session_id
    → let a = start_runtime first q w in
      (k : Kept q a) × (start_runtime later other a.0 ≡ take_over later other a.0 (some k.0))
start-Kept first later q other w clean h same =
    let (r, answered, stored, own, alive) = start_runtime-Started first q w clean in
    let found : (start_runtime first q w).0.runtimes other.session_id ≡ some r = simp same stored in
    (
      (r, answered, own, alive),
      start_runtime-reached later other (start_runtime first q w).0 r h found,
    )

-- After a Start that answered no error, another operation's Start of the session that reaches the
-- stored snapshot is refused as a conflict and changes nothing.
pub other_start_refused :
    (first later : Env) (q other : StartCommand) (w : World)
    → (start_runtime first q w).2 ≡ []
    → Reaches later other
    → other.session_id ≡ q.session_id
    → other.operation_id ≢ q.operation_id
    → let a = start_runtime first q w in
      start_runtime later other a.0 ≡ (a.0, a.1, operation_conflict ∷ [])
other_start_refused first later q other w clean h same differs =
    let (k, reached) = start-Kept first later q other w clean h same in
    simp k.1 (reached ∙ held_by_other later other _ k.0 k.3 (λ e. differs (sym e ∙ k.2)))

-- After a Start that answered no error, the same operation's Start of the session that reaches the
-- stored snapshot answers the same snapshot and changes nothing, unless the pipeline is reported dead.
pub own_start_repeats :
    (first later : Env) (q other : StartCommand) (w : World)
    → (start_runtime first q w).2 ≡ []
    → Reaches later other
    → other.session_id ≡ q.session_id
    → other.operation_id ≡ q.operation_id
    → later.active ≢ some false
    → let a = start_runtime first q w in start_runtime later other a.0 ≡ (a.0, a.1, [])
own_start_repeats first later q other w clean h same owner active =
    let (k, reached) = start-Kept first later q other w clean h same in
    simp k.1 (reached ∙ held_by_same later other _ k.0 k.3 (k.2 ∙ sym owner) active)
