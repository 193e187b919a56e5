-- ===== src/Projection/Replay.antt =====
-- services/api/internal/modeprojection: an event that the repository has seen.
use xe6_tsy.Common.{
  refl, sym, ap, subst, ◌∙◌, ◌≡◌, ◌≢◌, inl, inr, Bool, false, Option, none, some, String, arith,
  str_eq_iff, str_eq_refl, Option-cases,
}
use xe6_tsy.Contract.Mode.{Time, ModeChanged, validate}
use xe6_tsy.Projection.{Repository, conflict, record_event, settle_event, project, project_hashed}

settle_recorded :
    (now : Time) (e : ModeChanged) (h : String) (r s : Repository) (o : Option String)
    → r.events e.event_id ≡ o
    → settle_event now e h r o ≡ (s, none)
    → s.events e.event_id ≡ some h
unfolding settle_event record_event
settle_recorded now e h r s none i k = ground (arith, str_eq_refl e.event_id)
settle_recorded now e h r s (some previous) i k = ground (arith, str_eq_iff previous h)

module _ (hash : ModeChanged → Option String) where
  recorded :
      (ctx_done : Bool) (now : Time) (e : ModeChanged) (r s : Repository)
      → project hash ctx_done now e r ≡ (s, none)
      → (validate e ≡ none) × (hash e ≢ none) × (s.events e.event_id ≡ hash e)
  unfolding project project_hashed
  recorded ctx_done now e r s h = elim (Option-cases (hash e)) [
    | inl n ↦ ground arith
    | inr (x, i) ↦ ground (arith, settle_recorded now e x r s (r.events e.event_id) refl)
  ]

  seen_again :
      (now : Time) (e : ModeChanged) (h : String) (s : Repository)
      → validate e ≡ none
      → hash e ≡ some h
      → s.events e.event_id ≡ some h
      → project hash false now e s ≡ (s, none)
  unfolding project project_hashed settle_event
  seen_again now e h s v i k = ground (arith, str_eq_refl h)

  seen_other :
      (now : Time) (f : ModeChanged) (g h : String) (s : Repository)
      → validate f ≡ none
      → hash f ≡ some g
      → s.events f.event_id ≡ some h
      → g ≢ h
      → project hash false now f s ≡ (s, some conflict)
  unfolding project project_hashed settle_event
  seen_other now f g h s v i k d = ground (arith, str_eq_iff h g)

  -- An event that was projected is accepted again at any time and changes nothing, and a valid event
  -- with another hash under its identity is refused with a conflict and changes nothing.
  pub project_again :
      (ctx_done : Bool) (now later : Time) (e : ModeChanged) (r s : Repository)
      → project hash ctx_done now e r ≡ (s, none)
      → (project hash false later e s ≡ (s, none))
        × ((f : ModeChanged)
            → f.event_id ≡ e.event_id
            → validate f ≡ none
            → hash f ≢ none
            → hash f ≢ hash e
            → project hash false later f s ≡ (s, some conflict))
  project_again ctx_done now later e r s h =
      let k = recorded ctx_done now e r s h in
      elim (Option-cases (hash e)) [
        | inl n ↦ absurd (k.1 n)
        | inr (x, i) ↦ (
          seen_again later e x s k.0 i (k.2 ∙ i),
          λ f same v some_hash other. elim (Option-cases (hash f)) [
            | inl n ↦ absurd (some_hash n)
            | inr (y, j) ↦
                seen_other later f y x s v j (subst (λ a. s.events a ≡ some x) (sym same) (k.2 ∙ i))
                  (λ d. other (j ∙ ap some d ∙ sym i))
          ],
        )
      ]
