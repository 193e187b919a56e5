-- ===== src/Languages/Retry.antt =====
-- services/api/languages/service.go: a request that is sent again under its idempotency key.
use xe6_tsy.Common.{
  ◌≡◌, refl, sym, ap, subst, ◌∙◌, true, false, none, some, String, List, [], ◌∷◌, ◌++◌, ◌⊎◌, inl,
  inr, str_eq, str_eq_iff, str_eq_refl, is_blank, insert, Map, Bool-cases, Option-cases,
}
use xe6_tsy.Contract.Mode.{Time}
use xe6_tsy.Languages.Validate.{idempotency_conflict, OutputRoute, has_delivery_route}
use xe6_tsy.Languages.Memory.{
  LanguageConfig, Store, clone_config, with_id, get_config_by_idempotency_key, create_active_config,
  supersede, serves, current_version, as_expected, in_use, new_config,
}
use xe6_tsy.Languages.{
  Request, Env, Answer, input_of, same_idempotent_request, replayed, write, deliver_or_write,
  create_valid, checked, create_config,
}

with_id-supersede :
    (id session : String) (now : Time) (cs : List LanguageConfig)
    → with_id id cs ≡ none
    → with_id id (supersede session now cs) ≡ none
unfolding supersede
with_id-supersede id session now [] h = refl
with_id-supersede id session now (c ∷ cs) h = elim (Bool-cases (str_eq c.id id)) [
  | inl e ↦ let k = simp e at h in cc k
  | inr e ↦ elim (Bool-cases (serves session c)) [
    | inl f ↦ simp (e, f) (simp e at h)
    | inr f ↦ simp (e, f) (with_id-supersede id session now cs (simp e at h))
  ]
]

with_id-append :
    (id : String) (cs : List LanguageConfig) (c : LanguageConfig)
    → with_id id cs ≡ none
    → c.id ≡ id
    → with_id id (cs ++ c ∷ []) ≡ some c
with_id-append id [] c h i = simp ((str_eq_iff c.id id).1 i) refl
with_id-append id (d ∷ cs) c h i = elim (Bool-cases (str_eq d.id id)) [
  | inl e ↦ let k = simp e at h in cc k
  | inr e ↦ simp e (with_id-append id cs c (simp e at h) i)
]

-- The key leads to the configuration, which came from the same session and the same body.
record Kept (q : Request) (t : Store) (c : LanguageConfig) : Type 0 where
  found : get_config_by_idempotency_key q.idempotency_key t ≡ some c
  same : same_idempotent_request c q.session_id q.fingerprint ≡ true

-- An answer that is a configuration keeps it under the key.
abbrev Keeps : Request → Answer → Type 0
Keeps q a = (c : LanguageConfig) → a.1 ≡ inr c → Kept q a.0 c

replayed-Keeps :
    (q : Request) (t : Store) (existing : LanguageConfig)
    → get_config_by_idempotency_key q.idempotency_key t ≡ some existing
    → Keeps q (t, replayed q existing)
unfolding replayed
replayed-Keeps q t existing h c i =
    elim (Bool-cases (same_idempotent_request existing q.session_id q.fingerprint)) [
      | inl e ↦
          let same : existing ≡ c = cc (simp e at i) in
          record {
            found = h ∙ ap some same;
            same = ap (λ x. same_idempotent_request x q.session_id q.fingerprint) (sym same) ∙ e;
          }
      | inr e ↦ let k = simp e at i in cc k
    ]

answer-cases {ℓ κ} :
    {A : Type ℓ} {B : Type κ} (x : A ⊎ B) → ((a : A) × (x ≡ inl a)) ⊎ ((b : B) × (x ≡ inr b))
answer-cases (inl a) = inl (a, refl)
answer-cases (inr b) = inr (b, refl)

-- A key that was just written leads to its configuration.
led :
    (key id : String) (cs : List LanguageConfig) (m : Map String) (c : LanguageConfig)
    → is_blank key ≡ false
    → with_id id cs ≡ some c
    → get_config_by_idempotency_key key (record { configs = cs; idempo = insert key id m })
      ≡ some (clone_config c)
unfolding get_config_by_idempotency_key
led key id cs m c h i = rw (h, str_eq_refl key, i, get_config_by_idempotency_key) refl

module _ (q : Request) (keyed : is_blank q.idempotency_key ≡ false)
    (printed : is_blank q.fingerprint ≡ false) where
  created-Keeps :
      (now : Time) (id : String) (routes : List OutputRoute) (s : Store)
      → with_id id s.configs ≡ none
      → Keeps q (create_active_config now id (input_of q routes) s)
  unfolding create_active_config get_config_by_idempotency_key same_idempotent_request clone_config
  created-Keeps now id routes s fresh c i =
      elim (Bool-cases (in_use (s.idempo q.idempotency_key))) [
        | inl e ↦ let k = simp (keyed, e) at i in cc k
        | inr e ↦
            elim (Bool-cases
              (as_expected q.expected_version (current_version q.session_id s.configs))) [
                | inr f ↦ let k = simp (keyed, e, f) at i in cc k
                | inl f ↦
                    let config =
                      new_config now id (input_of q routes)
                        (current_version q.session_id s.configs) in
                    let same : clone_config config ≡ c = cc (simp (keyed, e, f) at i) in
                    let kept =
                      with_id-append id _ config
                        (with_id-supersede id q.session_id now s.configs fresh) refl in
                    simp (keyed, e, f)
                      (subst (Kept q _) same (record {
                        found = led q.idempotency_key id _ s.idempo config keyed kept;
                        same =
                            simp (printed, str_eq_refl q.session_id, str_eq_refl q.fingerprint)
                              refl;
                      }))
              ]
      ]

  -- The two ways that a write answers.
  write-Keeps :
      (env : Env) (routes : List OutputRoute) (s : Store)
      → with_id env.new_id s.configs ≡ none
      → Keeps q (write env q routes s)
  unfolding write
  write-Keeps env routes s fresh c i =
      let a = create_active_config env.now env.new_id (input_of q routes) s in
      let kept = created-Keeps env.now env.new_id routes s fresh in
      elim (answer-cases a.1) [
        | inr (d, e) ↦ let k = simp (e, write) at i in simp (e, write) (kept c (e ∙ cc k))
        | inl (idempotency_conflict, e) ↦
            elim (Option-cases (get_config_by_idempotency_key q.idempotency_key a.0)) [
              | inl f ↦ let k = simp (e, f, keyed, write) at i in cc k
              | inr (existing, f) ↦
                  simp (e, f, keyed, write)
                    (replayed-Keeps q a.0 existing f c (simp (e, f, keyed, write) at i))
            ]
        | inl (why, e) ↦ let k = simp (e, write) at i in cc k
      ]

  deliver_or_write-Keeps :
      (env : Env) (routes : List OutputRoute) (s : Store)
      → with_id env.new_id (env.meanwhile s).configs ≡ none
      → Keeps q (deliver_or_write env q routes s)
  unfolding deliver_or_write
  deliver_or_write-Keeps env routes s fresh c i = elim (Bool-cases (has_delivery_route routes)) [
    | inr e ↦ simp e (write-Keeps env routes (env.meanwhile s) fresh c (simp e at i))
    | inl e ↦ elim (answer-cases env.ready) [
      | inl (why, f) ↦ let k = simp (e, f, deliver_or_write) at i in cc k
      | inr (false, f) ↦ let k = simp (e, f, deliver_or_write) at i in cc k
      | inr (true, f) ↦
          simp (e, f, deliver_or_write)
            (write-Keeps env routes (env.meanwhile s) fresh c (simp (e, f, deliver_or_write) at i))
    ]
  ]

  create_valid-Keeps :
      (env : Env) (routes : List OutputRoute) (s : Store)
      → with_id env.new_id (env.meanwhile s).configs ≡ none
      → Keeps q (create_valid env q routes s)
  unfolding create_valid
  create_valid-Keeps env routes s fresh c i =
      elim (Option-cases (get_config_by_idempotency_key q.idempotency_key s)) [
        | inl e ↦
            simp (keyed, e, create_valid)
              (deliver_or_write-Keeps env routes s fresh c (simp (keyed, e, create_valid) at i))
        | inr (existing, e) ↦
            simp (keyed, e, create_valid)
              (replayed-Keeps q s existing e c (simp (keyed, e, create_valid) at i))
      ]

create_config-Keeps :
    (env : Env) (q : Request) (s : Store)
    → is_blank q.idempotency_key ≡ false
    → is_blank q.fingerprint ≡ false
    → with_id env.new_id (env.meanwhile s).configs ≡ none
    → Keeps q (create_config env q s)
unfolding create_config
create_config-Keeps env q s keyed printed fresh c i = elim (answer-cases (checked env q)) [
  | inl (e, f) ↦ let k = simp (f, create_config) at i in cc k
  | inr (routes, f) ↦
      simp (f, create_config)
        (create_valid-Keeps q keyed printed env routes s fresh c (simp (f, create_config) at i))
]

answers_again :
    (env : Env) (q : Request) (t : Store) (c : LanguageConfig) (routes : List OutputRoute)
    → is_blank q.idempotency_key ≡ false
    → checked env q ≡ inr routes
    → Kept q t c
    → create_config env q t ≡ (t, inr c)
unfolding create_config create_valid replayed
answers_again env q t c routes keyed passes k =
    rw (passes, create_config) (rw (keyed, k.found, create_valid) (rw (k.same, replayed) refl))

-- A request with a key and a fingerprint that was answered with a configuration gets the same answer and
-- changes nothing when it is sent again on the store that the first call left and still passes the checks,
-- whatever the owner's targets and the clock are by then. The identifier of the first call's write was
-- not in use.
pub create_config_retry :
    (env later : Env) (q : Request) (s : Store) (c : LanguageConfig) (routes : List OutputRoute)
    → is_blank q.idempotency_key ≡ false
    → is_blank q.fingerprint ≡ false
    → with_id env.new_id (env.meanwhile s).configs ≡ none
    → (create_config env q s).1 ≡ inr c
    → checked later q ≡ inr routes
    → create_config later q (create_config env q s).0 ≡ ((create_config env q s).0, inr c)
create_config_retry env later q s c routes keyed printed fresh i passes =
    answers_again later q _ c routes keyed passes
      (create_config-Keeps env q s keyed printed fresh c i)
