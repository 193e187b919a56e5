-- ===== src/Projection/Order.antt =====
-- services/api/internal/modeprojection: the projection of a runtime whose events arrive in any order
-- and any number of times.
use xe6_tsy.Common.{
  ℕ, ◌<◌, ◌≤◌, ◌≡◌, ◌≢◌, ◌⊎◌, inl, inr, ap, ◌∙◌, Bool, false, Option, none, some, String, List, [],
  ◌∷◌, arith, ltb, less, sign_bit, if◌then◌else◌, All, ◌++◌, str_eq, str_eq_iff, str_eq_refl,
  Bool-cases, Option-cases,
}
use xe6_tsy.Contract.Mode.{Time, ModeState, ModeChanged, validate}
use xe6_tsy.Projection.{
  Projection, Repository, advances, should_advance, projection_of, record_event, settle_event,
  project, project_hashed, Payload, blank, malformed, event, process_once, settle_message, Delivery,
  consume,
}

less_small : (x y : ℕ) → x < sign_bit → y < sign_bit → less x y ≡ ltb x y
less_small x y h k = ground arith

-- The projection is of the runtime in state `s` and not ahead of it.
abbrev pub Bounded : ModeState → Option Projection → Type 0
Bounded s none = Unit {0}
Bounded s (some p) =
    (p.runtime_instance_id ≡ s.runtime_instance_id)
    × (p.generation ≤ s.generation)
    × (p.generation ≡ s.generation → p.active_mode ≡ s.active_mode)

-- The projection shows the mode and the generation of `s`.
abbrev pub Reports : ModeState → Option Projection → Type 0
Reports s none = ⊥
Reports s (some p) = (p.active_mode ≡ s.active_mode) × (p.generation ≡ s.generation)

-- An event of the runtime in state `s` that the state has passed or is the outcome of.
abbrev pub Passed : ModeState → ModeChanged → Type 0
Passed s e =
    (e.runtime_instance_id ≡ s.runtime_instance_id)
    × (e.resulting_generation ≤ s.generation)
    × (e.resulting_generation ≡ s.generation → e.to_mode ≡ s.active_mode)

advance_lem :
    (now : Time) (s : ModeState) (e : ModeChanged) (o : Option Projection)
    → s.generation < sign_bit
    → Passed s e
    → Bounded s o
    → let next = if advances o e then some (projection_of e now) else o in
      Bounded s next
      × (Reports s o → Reports s next)
      × (e.resulting_generation ≡ s.generation → Reports s next)
unfolding advances should_advance
advance_lem now s e none small h k = (h, λ r. elim r [ ], λ g. (h.2 g, g))
advance_lem now s e (some p) small h k = ground (
  arith,
  less_small p.generation e.resulting_generation,
  str_eq_iff p.runtime_instance_id e.runtime_instance_id,
)

-- An event of another session, or one that `s` has passed; the identity of `latest` is its alone.
pub record Fits (s : ModeState) (newest e : ModeChanged) : Type 0 where
  pub unique : e.event_id ≡ newest.event_id → e ≡ newest
  pub placed : e.session_id ≡ s.session_id → Passed s e

-- The repository is not ahead of `s`, and shows `s` once it has seen the newest event.
pub record Tracks (s : ModeState) (newest : ModeChanged) (r : Repository) : Type 0 where
  pub bounded : Bounded s (r.projections s.session_id)
  pub reached : (r.events newest.event_id ≡ none) ⊎ Reports s (r.projections s.session_id)

-- The newest event is the one that led to `s`.
pub record Newest (s : ModeState) (e : ModeChanged) : Type 0 where
  pub session : e.session_id ≡ s.session_id
  pub instance_id : e.runtime_instance_id ≡ s.runtime_instance_id
  pub counted : e.resulting_generation ≡ s.generation
  pub entered : e.to_mode ≡ s.active_mode

module _ (s : ModeState) (newest : ModeChanged) (small : s.generation < sign_bit)
    (fresh : Newest s newest) where
  own-record_event :
      (now : Time) (e : ModeChanged) (h : String) (r : Repository)
      → e.session_id ≡ s.session_id
      → (record_event now e h r).projections s.session_id ≡ (
          if advances (r.projections s.session_id) e
          then some (projection_of e now)
          else r.projections s.session_id)
  unfolding record_event
  own-record_event now e h r i = ground (arith, str_eq_iff e.session_id s.session_id)

  other-record_event :
      (now : Time) (e : ModeChanged) (h : String) (r : Repository)
      → e.session_id ≢ s.session_id
      → (record_event now e h r).projections s.session_id ≡ r.projections s.session_id
  unfolding record_event
  other-record_event now e h r i = ground (arith, str_eq_iff e.session_id s.session_id)

  seen-record_event :
      (now : Time) (e : ModeChanged) (h : String) (r : Repository) (k : String)
      → e.event_id ≢ k
      → (record_event now e h r).events k ≡ r.events k
  unfolding record_event
  seen-record_event now e h r k i = ground (arith, str_eq_iff e.event_id k)

  stranger-Tracks :
      (now : Time) (e : ModeChanged) (h : String) (r : Repository)
      → e.session_id ≢ s.session_id
      → Fits s newest e
      → Tracks s newest r
      → Tracks s newest (record_event now e h r)
  stranger-Tracks now e h r i f t =
      let k : e.event_id ≢ newest.event_id =
        λ same. i (ap (λ x. x.session_id) (f.unique same) ∙ fresh.session) in
      record {
        bounded = rw (other-record_event now e h r i) t.bounded;
        reached =
            rw (other-record_event now e h r i, seen-record_event now e h r newest.event_id k)
              t.reached;
      }

  Passed-Tracks :
      (now : Time) (e : ModeChanged) (h : String) (r : Repository)
      → Passed s e
      → e.session_id ≡ s.session_id
      → Fits s newest e
      → Tracks s newest r
      → Tracks s newest (record_event now e h r)
  Passed-Tracks now e h r p i f t =
      let a = advance_lem now s e (r.projections s.session_id) small p t.bounded in
      record {
        bounded = rw (own-record_event now e h r i) a.0;
        reached =
            rw (own-record_event now e h r i)
              (elim (Bool-cases (str_eq e.event_id newest.event_id)) [
                | inl same ↦ inr (
                    a.2 (
                      ap (λ x. x.resulting_generation)
                        (f.unique ((str_eq_iff e.event_id newest.event_id).0 same))
                      ∙ fresh.counted))
                | inr differs ↦
                    let k : e.event_id ≢ newest.event_id =
                      λ same. cc (differs, (str_eq_iff e.event_id newest.event_id).1 same) in
                    elim t.reached [
                      | inl unseen ↦ inl (rw (seen-record_event now e h r newest.event_id k) unseen)
                      | inr there ↦ inr (a.1 there)
                    ]
              ]);
      }

  record_event-Tracks :
      (now : Time) (e : ModeChanged) (h : String) (r : Repository)
      → Fits s newest e
      → Tracks s newest r
      → Tracks s newest (record_event now e h r)
  record_event-Tracks now e h r f t = elim (Bool-cases (str_eq e.session_id s.session_id)) [
    | inl same ↦
        let i = (str_eq_iff e.session_id s.session_id).0 same in
        Passed-Tracks now e h r (f.placed i) i f t
    | inr differs ↦
        stranger-Tracks now e h r (λ i. cc (differs, (str_eq_iff e.session_id s.session_id).1 i)) f
          t
  ]

module _ (hash : ModeChanged → Option String) where
  unhashed_kept :
      (ctx_done : Bool) (now : Time) (e : ModeChanged) (r : Repository)
      → hash e ≡ none
      → (process_once hash ctx_done now (event e) r).repository ≡ r
  unfolding process_once settle_message project project_hashed
  unhashed_kept ctx_done now e r n = ground arith

  hashed_records :
      (ctx_done : Bool) (now : Time) (e : ModeChanged) (h : String) (r : Repository)
      → hash e ≡ some h
      → ((process_once hash ctx_done now (event e) r).repository ≡ r)
        ⊎ ((process_once hash ctx_done now (event e) r).repository ≡ record_event now e h r)
  unfolding process_once settle_message project project_hashed settle_event
  hashed_records ctx_done now e h r i = ground arith

  -- A message leaves the repository as it is or records its event.
  process_once-records :
      (ctx_done : Bool) (now : Time) (e : ModeChanged) (r : Repository)
      → ((process_once hash ctx_done now (event e) r).repository ≡ r)
        ⊎ ((h : String) × ((process_once hash ctx_done now (event e) r).repository
              ≡ record_event now e h r))
  process_once-records ctx_done now e r = elim (Option-cases (hash e)) [
    | inl n ↦ inl (unhashed_kept ctx_done now e r n)
    | inr (h, i) ↦ elim (hashed_records ctx_done now e h r i) [ inl k ↦ inl k | inr k ↦ inr (h, k) ]
  ]

  process_once-sees :
      (now : Time) (e : ModeChanged) (h : String) (r : Repository)
      → validate e ≡ none
      → hash e ≡ some h
      → (process_once hash false now (event e) r).repository.events e.event_id ≢ none
  unfolding process_once settle_message project project_hashed settle_event record_event
  process_once-sees now e h r v i = ground (arith, str_eq_refl e.event_id)

  record_event-keeps :
      (now : Time) (e : ModeChanged) (h k : String) (r : Repository)
      → r.events k ≢ none
      → (record_event now e h r).events k ≢ none
  unfolding record_event
  record_event-keeps now e h k r i = ground arith

  process_once-keeps :
      (ctx_done : Bool) (now : Time) (m : Payload) (r : Repository) (k : String)
      → r.events k ≢ none
      → (process_once hash ctx_done now m r).repository.events k ≢ none
  unfolding process_once
  process_once-keeps ctx_done now blank r k h = h
  process_once-keeps ctx_done now malformed r k h = h
  process_once-keeps ctx_done now (event e) r k h = elim (process_once-records ctx_done now e r) [
    | inl i ↦ rw i h
    | inr (x, i) ↦ rw i (record_event-keeps now e x k r h)
  ]

-- The event of a message, if it has one, is as `P` says.
abbrev pub Holds {ℓ} : (ModeChanged → Type ℓ) → Payload → Type ℓ
Holds P blank = Unit
Holds P malformed = Unit
Holds P (event e) = P e

abbrev pub Carries {ℓ} : (ModeChanged → Type ℓ) → Delivery → Type ℓ
Carries P d = Holds P d.payload

module _ (hash : ModeChanged → Option String) (s : ModeState) (newest : ModeChanged)
    (small : s.generation < sign_bit) (fresh : Newest s newest) where
  process_once-Tracks :
      (ctx_done : Bool) (now : Time) (m : Payload) (r : Repository)
      → Carries (Fits s newest) (record { ctx_done = ctx_done; now = now; payload = m })
      → Tracks s newest r
      → Tracks s newest (process_once hash ctx_done now m r).repository
  unfolding process_once
  process_once-Tracks ctx_done now blank r f t = t
  process_once-Tracks ctx_done now malformed r f t = t
  process_once-Tracks ctx_done now (event e) r f t =
      elim (process_once-records hash ctx_done now e r) [
        | inl i ↦ rw i t
        | inr (x, i) ↦ rw i (record_event-Tracks s newest small fresh now e x r f t)
      ]

  -- However messages come in, the repository is never ahead of the runtime, and once it has seen the newest event it
  -- shows the runtime's mode.
  pub consume-Tracks :
      (ds : List Delivery) (r : Repository)
      → All (Carries (Fits s newest)) ds
      → Tracks s newest r
      → Tracks s newest (consume hash ds r)
  unfolding consume
  consume-Tracks [] r f t = t
  consume-Tracks (d ∷ ds) r f t =
      consume-Tracks ds _ f.1 (process_once-Tracks d.ctx_done d.now d.payload r f.0 t)

  consume-keeps :
      (ds : List Delivery) (r : Repository)
      → r.events newest.event_id ≢ none
      → (consume hash ds r).events newest.event_id ≢ none
  unfolding consume
  consume-keeps [] r h = h
  consume-keeps (d ∷ ds) r h =
      consume-keeps ds _ (process_once-keeps hash d.ctx_done d.now d.payload r newest.event_id h)

  consume-sees :
      (before after : List Delivery) (now : Time) (h : String) (r : Repository)
      → validate newest ≡ none
      → hash newest ≡ some h
      → (consume hash
            (before ++ record { ctx_done = false; now = now; payload = event newest } ∷ after)
            r).events
          newest.event_id
        ≢ none
  unfolding consume
  consume-sees [] after now h r v i =
      consume-keeps after _ (process_once-sees hash now newest h r v i)
  consume-sees (d ∷ before) after now h r v i = consume-sees before after now h _ v i

  pub consume-Reports :
      (before after : List Delivery) (now : Time) (h : String) (r : Repository)
      → let ds = before ++ record { ctx_done = false; now = now; payload = event newest } ∷ after in
        All (Carries (Fits s newest)) ds
        → Tracks s newest r
        → validate newest ≡ none
        → hash newest ≡ some h
        → Reports s ((consume hash ds r).projections s.session_id)
  consume-Reports before after now h r f t v i = elim (consume-Tracks _ r f t).reached [
    | inl unseen ↦ absurd (consume-sees before after now h r v i unseen)
    | inr there ↦ there
  ]
