-- ===== src/Playback/Service.antt =====
-- services/realtime-audio/playback/service.go: the playbacks of the sessions that share a track, and
-- the reservations of the track. The steps below are what the methods do while they hold `mu`.
use xe6_tsy.Common.{
  ◌≡◌, ◌≢◌, ◌⊎◌, refl, sym, ◌∙◌, Bool, true, false, not, ◌&&◌, ◌||◌, Option, none, some, String,
  arith, if◌then◌else◌, str_eq, str_eq_iff, str_eq_refl, is_blank, Map, insert, delete, Bool-cases,
  inl, inr,
}
use xe6_tsy.Playback.{
  Playback, Snapshot, AudioChunk, Error, session_required, playback_required, playback_not_active,
  context_done, idle, is_playing, opened,
}

pub record Service : Type 0 where
  pub current : Map Playback
  pub reservations : Map String

-- A missing reservation is the empty text.
unfoldable pub reserved_for : Option String → String
reserved_for none = ""
reserved_for (some id) = id

-- Whether a playback plays, and whether it plays under the ID.
unfoldable pub plays : Option Playback → Bool
plays none = false
plays (some p) = is_playing p.snapshot.state

unfoldable pub plays_as : String → Option Playback → Bool
plays_as id none = false
plays_as id (some p) = is_playing p.snapshot.state && str_eq p.snapshot.playback_id id

-- `busy` of `WaitForAvailable`, of the session's playback and its reservation.
unfoldable pub busy : String → Option Playback → Option String → Bool
busy id current reserved =
    plays current && not (plays_as id current)
    || not (is_blank (reserved_for reserved)) && not (str_eq (reserved_for reserved) id)

-- Whether a round of `WaitForAvailable` reserves the track.
unfoldable pub grants : String → Option Playback → Option String → Bool
grants id current reserved =
    not (busy id current reserved) && is_blank (reserved_for reserved) && not (plays_as id current)

-- One round of `WaitForAvailable`: whether the track is busy; if not, it is reserved.
unfoldable pub try_reserve : String → String → Service → Service × Bool
try_reserve session id s = (
  if grants id (s.current session) (s.reservations session)
      then record s { reservations = insert session id s.reservations }
      else s,
  busy id (s.current session) (s.reservations session),
)

unfoldable pub release : Bool → String → String → Service → Service × Option Error
release ctx_done session id s =
    if is_blank session
    then (s, some session_required)
    else if is_blank id
    then (s, some playback_required)
    else if ctx_done
    then (s, some context_done)
    else if str_eq (reserved_for (s.reservations session)) id
    then (record s { reservations = delete session s.reservations }, none)
    else (s, none)

-- `Publish` on the session's playback refuses a chunk of it once it has ended, and a chunk of another
-- one while it plays.
unfoldable pub refused : AudioChunk → Option Playback → Bool
refused c none = false
refused c (some p) =
    if str_eq p.snapshot.playback_id c.playback_id
    then not (is_playing p.snapshot.state)
    else is_playing p.snapshot.state

unfoldable pub open_playback : AudioChunk → Service → Service
open_playback c s = record {
  current = insert c.session_id (opened c) s.current;
  reservations =
      if str_eq (reserved_for (s.reservations c.session_id)) c.playback_id
      then delete c.session_id s.reservations
      else s.reservations;
}

-- `Publish` on a chunk that is valid up to `current.opMu.Lock()`.
unfoldable pub claimed : AudioChunk → Option Playback → Option String → Bool
claimed c current reserved =
    not
      (not (is_blank (reserved_for reserved)) && not (str_eq (reserved_for reserved) c.playback_id))
    && not (refused c current)

unfoldable pub claim : AudioChunk → Service → Service × Option Error
claim c s =
    if not (claimed c (s.current c.session_id) (s.reservations c.session_id))
    then (s, some playback_not_active)
    else if not (plays (s.current c.session_id))
    then (open_playback c s, none)
    else (s, none)

-- The playback that `InterruptCurrent` looks up.
unfoldable pub interrupted_id : Option Playback → Option String
interrupted_id none = none
interrupted_id (some p) = if is_playing p.snapshot.state then some p.snapshot.playback_id else none

-- `Snapshot`.
unfoldable pub snapshot : String → Service → Snapshot
snapshot session s = elim (s.current session) [
  | some p ↦ p.snapshot
  | none ↦ record {
    session_id = session;
    turn_id = "";
    playback_id = "";
    state = idle;
    last_sequence = 0;
  }
]

busy_other :
    (id other : String) (o : Option Playback) (r : Option String)
    → id ≢ ""
    → other ≢ id
    → busy id o r ≡ false
    → busy other o (if grants id o r then some id else r) ≡ true
unfolding busy grants plays plays_as reserved_for
busy_other id other none none p d f =
    ground (arith, str_eq_refl id, str_eq_refl "", str_eq_iff id "", str_eq_iff id other)
busy_other id other none (some x) p d f = ground (
  arith,
  str_eq_refl id,
  str_eq_refl "",
  str_eq_iff id "",
  str_eq_iff id other,
  str_eq_iff x id,
  str_eq_iff x other,
  str_eq_iff x "",
)
busy_other id other (some q) none p d f = ground (
  arith,
  str_eq_refl id,
  str_eq_refl "",
  str_eq_iff id "",
  str_eq_iff id other,
  str_eq_iff q.snapshot.playback_id id,
  str_eq_iff q.snapshot.playback_id other,
)
busy_other id other (some q) (some x) p d f = ground (
  arith,
  str_eq_refl id,
  str_eq_refl "",
  str_eq_iff id "",
  str_eq_iff id other,
  str_eq_iff x id,
  str_eq_iff x other,
  str_eq_iff x "",
  str_eq_iff q.snapshot.playback_id id,
  str_eq_iff q.snapshot.playback_id other,
)

busy_refuses :
    (c : AudioChunk) (o : Option Playback) (r : Option String)
    → busy c.playback_id o r ≡ true
    → claimed c o r ≡ false
unfolding busy claimed refused plays plays_as
busy_refuses c none r f = ground (arith, f)
busy_refuses c (some q) r f = ground (arith, f)

reservations-try_reserve :
    (session id : String) (s : Service)
    → ((try_reserve session id s).0.current session ≡ s.current session)
      × ((try_reserve session id s).0.reservations session ≡ (
          if grants id (s.current session) (s.reservations session)
          then some id
          else s.reservations session))
unfolding try_reserve
reservations-try_reserve session id s = ground (arith, str_eq_refl session)

busy-try_reserve :
    (session id : String) (s : Service)
    → (try_reserve session id s).1 ≡ busy id (s.current session) (s.reservations session)
unfolding try_reserve
busy-try_reserve session id s = refl

busy-claim :
    (c : AudioChunk) (s : Service)
    → busy c.playback_id (s.current c.session_id) (s.reservations c.session_id) ≡ true
    → claim c s ≡ (s, some playback_not_active)
unfolding claim
busy-claim c s h = simp (busy_refuses c _ _ h, claim) refl

-- A playback that was told that the track is free has it to itself: while nothing else happens, every
-- other playback of the session finds the track busy, and its chunks are refused.
pub reserved_exclusive :
    (id : String) (c : AudioChunk) (s : Service)
    → id ≢ ""
    → c.playback_id ≢ id
    → (try_reserve c.session_id id s).1 ≡ false
    → let t = (try_reserve c.session_id id s).0 in
      ((try_reserve c.session_id c.playback_id t).1 ≡ true)
      × (claim c t ≡ (t, some playback_not_active))
reserved_exclusive id c s present differs free =
    let k = reservations-try_reserve c.session_id id s in
    let t = (try_reserve c.session_id id s).0 in
    let held : busy c.playback_id (t.current c.session_id) (t.reservations c.session_id) ≡ true =
      rw (k.0, k.1)
        (busy_other id c.playback_id _ _ present differs
          (sym (busy-try_reserve c.session_id id s) ∙ free)) in
    (busy-try_reserve c.session_id c.playback_id t ∙ held, busy-claim c t held)

claimed_plays :
    (c : AudioChunk) (o : Option Playback) (r : Option String)
    → claimed c o r ≡ true
    → plays o ≡ true
    → plays_as c.playback_id o ≡ true
unfolding claimed refused plays plays_as
claimed_plays c none r h p = ground arith
claimed_plays c (some q) r h p = ground arith

-- A chunk is refused and changes nothing, or it belongs to the playback that plays in its session
-- afterwards.
pub claim-Plays :
    (c : AudioChunk) (s : Service)
    → ((claim c s).1 ≡ none) × (plays_as c.playback_id ((claim c s).0.current c.session_id) ≡ true)
      ⊎ (claim c s ≡ (s, some playback_not_active))
unfolding claim open_playback plays_as
claim-Plays c s =
    elim (Bool-cases (claimed c (s.current c.session_id) (s.reservations c.session_id))) [
      | inr e ↦ inr (simp (e, claim) refl)
      | inl e ↦ elim (Bool-cases (plays (s.current c.session_id))) [
        | inl p ↦ inl (simp (e, p, claim) (refl, claimed_plays c _ _ e p))
        | inr p ↦
            inl
              (simp (e, p, claim, str_eq_refl c.session_id, str_eq_refl c.playback_id) (refl, refl))
      ]
    ]
