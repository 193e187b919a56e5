-- ===== src/Projection/Live.antt =====
-- services/realtime-audio/runtime/mode.go and services/api/internal/modeprojection together: what the
-- API reads of a runtime's mode once the runtime's events have come through the stream.
use mathlib.Core.List.{Memᴰ}
use xe6_tsy.Common.{
  ◌+◌, ◌<◌, ◌≡◌, ◌≢◌, sym, subst, Bool, false, Option, none, some, String, List, [], ◌∷◌, ◌++◌,
  arith, length, All, sign_bit, refl, is_blank, inl, inr, Option-cases,
}
use xe6_tsy.Contract.Mode.{Time, Mode, ModeState, ModeChanged, SwitchCommand, validate}
use xe6_tsy.Coordinator.{Coordinator, Env, ok, new, run}
use xe6_tsy.Coordinator.Faithful.{Faithful, accepted-Faithful, generation_small, Follows-last}
use xe6_tsy.Coordinator.History.{Follows, accepted-Follows}
use xe6_tsy.Projection.{
  Projection, Repository, new_repository, Payload, blank, malformed, event, Delivery, consume,
  latest,
}
use xe6_tsy.Projection.Order.{Passed, Fits, Newest, Reports, Holds, Carries, consume-Reports}

-- A message of the stream: an event of another session, or one that the coordinator's sink has
-- acknowledged. No other event has the identity of the newest.
pub record Genuine (c : Coordinator) (newest e : ModeChanged) : Type 0 where
  pub unique : e.event_id ≡ newest.event_id → e ≡ newest
  pub acknowledged : e.session_id ≡ c.state.session_id → Memᴰ e c.accepted

All-Mem {ℓ κ} : {A : Type ℓ} (P : A → Type κ) (xs : List A) (x : A) → All P xs → Memᴰ x xs → P x
All-Mem P [] x h k = elim k [ ]
All-Mem P (y ∷ xs) x h (Memᴰ.head i) = subst P (sym i) h.0
All-Mem P (y ∷ xs) x h (Memᴰ.tail k) = All-Mem P xs x h.1 k

Mem-last {ℓ} : {A : Type ℓ} (xs : List A) (x : A) → Memᴰ x (xs ++ x ∷ [])
Mem-last [] x = Memᴰ.head refl
Mem-last (y ∷ xs) x = Memᴰ.tail (Mem-last xs x)

Faithful-Passed : (s : ModeState) (e : ModeChanged) → Faithful s e → Passed s e
Faithful-Passed s e f = (f.issued.instance_id, f.told.behind, f.told.current)

Genuine-Fits :
    (c : Coordinator) (newest e : ModeChanged)
    → All (Faithful c.state) c.accepted
    → Genuine c newest e
    → Fits c.state newest e
Genuine-Fits c newest e f g = record {
  unique = g.unique;
  placed =
      λ i. Faithful-Passed c.state e (All-Mem (Faithful c.state) c.accepted e f (g.acknowledged i));
}

Genuine-Holds :
    (c : Coordinator) (newest : ModeChanged) (m : Payload)
    → All (Faithful c.state) c.accepted
    → Holds (Genuine c newest) m
    → Holds (Fits c.state newest) m
Genuine-Holds c newest blank f g = tt
Genuine-Holds c newest malformed f g = tt
Genuine-Holds c newest (event e) f g = Genuine-Fits c newest e f g

Genuine-Carries :
    (c : Coordinator) (newest : ModeChanged) (ds : List Delivery)
    → All (Faithful c.state) c.accepted
    → All (Carries (Genuine c newest)) ds
    → All (Carries (Fits c.state newest)) ds
Genuine-Carries c newest [] f g = tt
Genuine-Carries c newest (d ∷ ds) f g =
    (Genuine-Holds c newest d.payload f g.0, Genuine-Carries c newest ds f g.1)

Reports-latest :
    (s : ModeState) (r : Repository)
    → is_blank s.session_id ≡ false
    → Reports s (r.projections s.session_id)
    → (p : Projection) × (latest false s.session_id r ≡ (some p, none))
      × (p.active_mode ≡ s.active_mode)
      × (p.generation ≡ s.generation)
unfolding latest
Reports-latest s r b h = elim (Option-cases (r.projections s.session_id)) [
  | inl e ↦ absurd (rw e at h)
  | inr (p, e) ↦ let k : Reports s (some p) = rw e at h in (p, simp (b, e) refl, k.0, k.1)
]

valid_named : (e : ModeChanged) → validate e ≡ none → is_blank e.session_id ≡ false
unfolding validate
valid_named e h = ground arith

module _ (sha256_hex : String → String) (session_id instance_id : String) (m : Mode)
    (modes : List Mode) (wired : Bool) (start : Time) (c : Coordinator)
    (built : new session_id instance_id m modes wired start ≡ ok c)
    (calls : List (Env × SwitchCommand)) (ticking : All (λ call. call.0.now ≢ 0) calls)
    (small : length (run sha256_hex calls c).accepted + 1 < sign_bit) where
  abbrev live : Coordinator
  live = run sha256_hex calls c

  faithful : All (Faithful live.state) live.accepted
  faithful =
      accepted-Faithful sha256_hex session_id instance_id m modes wired start c built calls ticking
        small

  module _ (early : List ModeChanged) (newest : ModeChanged)
      (ends : live.accepted ≡ early ++ newest ∷ []) where
    last-Faithful : Faithful live.state newest
    last-Faithful =
        All-Mem (Faithful live.state) live.accepted newest faithful
          (subst (Memᴰ newest) (sym ends) (Mem-last early newest))

    last-Newest : Newest live.state newest
    last-Newest =
        let l = Follows-last m 1 early newest live.state (
          subst (λ es. Follows m 1 es live.state) ends
            (accepted-Follows sha256_hex session_id instance_id m modes wired start c built
              calls)) in
        record {
          session = last-Faithful.issued.session;
          instance_id = last-Faithful.issued.instance_id;
          counted = l.0;
          entered = l.1;
        }

    session_named : is_blank live.state.session_id ≡ false
    session_named =
        subst (λ x. is_blank x ≡ false) last-Faithful.issued.session
          (valid_named newest last-Faithful.valid_event)

    -- Whatever order and however often the acknowledged events of a coordinator come through the
    -- stream, mixed with events of other sessions and with messages that are rejected or handed back,
    -- once the newest of them has come with a live context the API shows the coordinator's mode and
    -- generation. The coordinator is a new one after any calls, the clock never read the zero time,
    -- fewer than 2 ^ 63 - 1 switches were acknowledged, and no other event carries the identity of
    -- the newest, which has a hash.
    pub projection_shows_mode :
        (hash : ModeChanged → Option String) (h : String) (before after : List Delivery)
        (now : Time)
        → hash newest ≡ some h
        → let ds =
            before ++ record { ctx_done = false; now = now; payload = event newest } ∷ after in
          All (Carries (Genuine live newest)) ds
          → (p : Projection) × (latest false live.state.session_id (consume hash ds new_repository)
              ≡ (some p, none))
            × (p.active_mode ≡ live.state.active_mode)
            × (p.generation ≡ live.state.generation)
    projection_shows_mode hash h before after now i g = Reports-latest live.state _ session_named (
        consume-Reports hash live.state newest
          (generation_small sha256_hex session_id instance_id m modes wired start c built calls
            ticking small)
          last-Newest before after now h new_repository (Genuine-Carries live newest _ faithful g)
          (record { bounded = tt; reached = inl refl }) last-Faithful.valid_event i)
