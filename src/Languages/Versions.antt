-- ===== src/Languages/Versions.antt =====
-- services/api/languages/memory_store.go: a session has one active configuration at most, the last one
-- that was written.
use xe6_tsy.Common.{
  ℕ, suc, ◌+◌, ◌≤◌, ◌≡◌, refl, ap, subst, ◌∙◌, true, false, not, ◌&&◌, Option, some, String, List,
  [], ◌∷◌, ◌++◌, inl, inr, if◌then◌else◌, arith, str_eq, str_eq_iff, str_eq_refl, is_blank,
  Bool-cases,
}
use xe6_tsy.Contract.Mode.{Time}
use xe6_tsy.Languages.Memory.{
  LanguageConfig, Input, Store, new_memory_store, clone_config, get_active_config,
  create_active_config, supersede, serves, current_version, as_expected, in_use, new_config,
}

abbrev pub actives : String → List LanguageConfig → ℕ
actives session [] = 0
actives session (c ∷ cs) = if serves session c then suc (actives session cs) else actives session cs

abbrev pub OneActive : Store → Type 0
OneActive s = (session : String) → actives session s.configs ≤ 1

actives-append :
    (session : String) (cs : List LanguageConfig) (c : LanguageConfig)
    → actives session (cs ++ c ∷ []) ≡ actives session cs + actives session (c ∷ [])
actives-append session [] c = omega arith
actives-append session (d ∷ cs) c = ground (arith, actives-append session cs c)

actives-supersede :
    (session : String) (now : Time) (cs : List LanguageConfig)
    → actives session cs ≤ 1
    → actives session (supersede session now cs) ≡ 0
unfolding supersede
actives-supersede session now [] h = refl
actives-supersede session now (c ∷ cs) h = elim (Bool-cases (serves session c)) [
  | inl e ↦ ground (arith, e, h)
  | inr e ↦ simp (e, supersede) (actives-supersede session now cs (simp e at h))
]

-- Another session's configurations stay.
serves_other :
    (session other : String) (c : LanguageConfig)
    → str_eq session other ≡ false
    → serves session c ≡ true
    → serves other c ≡ false
serves_other session other c h k = ground (
  arith,
  h,
  k,
  str_eq_iff c.session_id session,
  str_eq_iff c.session_id other,
  str_eq_iff session other,
)

actives-other :
    (session other : String) (now : Time) (cs : List LanguageConfig)
    → str_eq session other ≡ false
    → actives other (supersede session now cs) ≡ actives other cs
unfolding supersede
actives-other session other now [] h = refl
actives-other session other now (c ∷ cs) h = elim (Bool-cases (serves session c)) [
  | inl e ↦ ground (arith, e, serves_other session other c h e)
  | inr e ↦ ground (arith, e, actives-other session other now cs h)
]

replaced-count :
    (now : Time) (id : String) (input : Input) (cs : List LanguageConfig) (current : Option ℕ)
    (session : String)
    → ((other : String) → actives other cs ≤ 1)
    → actives session (supersede input.session_id now cs ++ new_config now id input current ∷ [])
      ≤ 1
replaced-count now id input cs current session h =
    let added =
      actives-append session (supersede input.session_id now cs)
        (new_config now id input current) in
    elim (Bool-cases (str_eq input.session_id session)) [
      | inl e ↦
          let same = (str_eq_iff input.session_id session).0 e in
          let gone : actives session (supersede input.session_id now cs) ≡ 0 =
            subst (λ z. actives z (supersede input.session_id now cs) ≡ 0) same
              (actives-supersede input.session_id now cs (h input.session_id)) in
          ground (arith, added, gone, e)
      | inr e ↦ ground (arith, added, actives-other input.session_id session now cs e, h session, e)
    ]

create-OneActive :
    (now : Time) (id : String) (input : Input) (s : Store)
    → OneActive s
    → OneActive (create_active_config now id input s).0
unfolding create_active_config
create-OneActive now id input s h session =
    elim (Bool-cases
      (not (is_blank input.idempotency_key) && in_use (s.idempo input.idempotency_key))) [
        | inl e ↦ simp (e, create_active_config) (h session)
        | inr e ↦
            elim (Bool-cases
              (as_expected input.expected_version (current_version input.session_id s.configs))) [
                | inr f ↦ simp (e, f, create_active_config) (h session)
                | inl f ↦
                    simp (e, f, create_active_config)
                      (replaced-count now id input s.configs _ session h)
              ]
      ]

-- Writes one after the other, each with its time and its new identifier.
unfoldable pub write_all : List (Time × String × Input) → Store → Store
write_all [] s = s
write_all ((now, id, input) ∷ rest) s = write_all rest (create_active_config now id input s).0

write_all-OneActive :
    (writes : List (Time × String × Input)) (s : Store)
    → OneActive s
    → OneActive (write_all writes s)
unfolding write_all
write_all-OneActive [] s h = h
write_all-OneActive ((now, id, input) ∷ rest) s h =
    write_all-OneActive rest _ (create-OneActive now id input s h)

get_active-append :
    (session : String) (cs : List LanguageConfig) (c : LanguageConfig)
    → get_active_config session (cs ++ c ∷ [])
      ≡ (if serves session c then some (clone_config c) else get_active_config session cs)
unfolding get_active_config
get_active-append session [] c = refl
get_active-append session (d ∷ cs) c = elim (Bool-cases (serves session c)) [
  | inl e ↦ rw (get_active-append session cs c) (rw (e, get_active_config) refl)
  | inr e ↦ rw (get_active-append session cs c) (rw (e, get_active_config) refl)
]

-- However the store is written, each session has one active configuration at most, and after a write that
-- succeeds the active configuration of its session is the one that it answered.
pub writes_serve :
    (writes : List (Time × String × Input)) (now : Time) (id : String) (input : Input)
    (c : LanguageConfig)
    → (create_active_config now id input (write_all writes new_memory_store)).1 ≡ inr c
    → let s = write_all writes new_memory_store in
      OneActive s
      × (get_active_config input.session_id (create_active_config now id input s).0.configs
          ≡ some c)
unfolding create_active_config
writes_serve writes now id input c i =
    let s = write_all writes new_memory_store in
    (
      write_all-OneActive writes new_memory_store (λ session. omega arith),
      elim (Bool-cases
          (not (is_blank input.idempotency_key) && in_use (s.idempo input.idempotency_key))) [
            | inl e ↦ let k = simp (e, create_active_config) at i in cc k
            | inr e ↦
                elim (Bool-cases (
                  as_expected input.expected_version
                    (current_version input.session_id s.configs))) [
                      | inr f ↦ let k = simp (e, f, create_active_config) at i in cc k
                      | inl f ↦
                          let same : clone_config (
                                new_config now id input
                                  (current_version input.session_id s.configs))
                              ≡ c =
                            cc (simp (e, f, create_active_config) at i) in
                          simp (e, f, create_active_config)
                            (get_active-append input.session_id
                                (supersede input.session_id now s.configs)
                                (new_config now id input
                                  (current_version input.session_id s.configs))
                              ∙ simp (str_eq_refl input.session_id) (ap some same))
                    ]
          ],
    )
