-- ===== src/Lifecycle/Locks.antt =====
-- services/realtime-audio/session/service.go: `keyedLocker`, one mutex for each key that is in use. A
-- caller's way through it is four steps, which the callers interleave in any order; each of them is
-- under the locker's own mutex, or is one operation of the entry's mutex.
pub mod Counts
pub mod Exclusion
use xe6_tsy.Common.{
  ℕ, ◌+◌, ◌-◌, ◌≤◌, ◌<◌, ◌≡◌, ◌≢◌, refl, sym, ap, subst, ◌∙◌, Bool, true, false, not, ◌&&◌, Option,
  none, some, String, List, [], ◌∷◌, ◌++◌, arith, if◌then◌else◌, ◌==◌, ==_iff, str_eq, str_eq_iff,
  str_eq_refl, Map, empty, insert, delete, All, All-append, Bool-cases, Option-cases, inl, inr,
}

-- A caller waits for its entry's mutex, holds it, or has let it go and not left yet.
pub data Phase : Type 0 where
  waiting holding leaving : Phase

pub record Caller : Type 0 where
  pub key : String
  pub entry : ℕ
  pub phase : Phase

-- Entries are known by numbers, as pointers are by addresses; `next` was never given out. `references`,
-- `locked` and `owner` are by entry: its count, its mutex, and the key that it was made for.
pub record Locker : Type 0 where
  pub locks : Map ℕ
  pub references : ℕ → ℕ
  pub locked : ℕ → Bool
  pub owner : ℕ → String
  pub next : ℕ
  pub callers : List Caller

abbrev pub put {ℓ} : {A : Type ℓ} → ℕ → A → (ℕ → A) → ℕ → A
put e v f j = if e == j then v else f j

-- `lock` up to `l.mu.Unlock()`, on the key's entry.
unfoldable pub enter : String → Option ℕ → Locker → Locker
enter key (some e) s = record s {
  references = put e (s.references e + 1) s.references;
  callers = record { key = key; entry = e; phase = waiting } ∷ s.callers;
}
enter key none s = record s {
  locks = insert key s.next s.locks;
  references = put s.next 1 s.references;
  locked = put s.next false s.locked;
  owner = put s.next key s.owner;
  next = s.next + 1;
  callers = record { key = key; entry = s.next; phase = waiting } ∷ s.callers;
}

-- `entry.mutex.Lock()` returns to `c`, among the callers between `before` and `after`.
unfoldable pub acquire : List Caller → Caller → List Caller → Locker → Locker
acquire before c after s = record s {
  locked = put c.entry true s.locked;
  callers = before ++ record c { phase = holding } ∷ after;
}

-- `entry.mutex.Unlock()`.
unfoldable pub unlock : List Caller → Caller → List Caller → Locker → Locker
unlock before c after s = record s {
  locked = put c.entry false s.locked;
  callers = before ++ record c { phase = leaving } ∷ after;
}

abbrev pub points_to : Option ℕ → ℕ → Bool
points_to none e = false
points_to (some d) e = d == e

-- The rest of the function that `lock` returns.
unfoldable pub leave : List Caller → Caller → List Caller → Locker → Locker
leave before c after s = record s {
  references = put c.entry (s.references c.entry - 1) s.references;
  locks =
      if (s.references c.entry - 1) == 0 && points_to (s.locks c.key) c.entry
      then delete c.key s.locks
      else s.locks;
  callers = before ++ after;
}

-- The steps that callers take. A mutex is only taken while it is free.
pub data Step : Locker → Locker → Type 0 where
  entering : (key : String) (s : Locker) → Step s (enter key (s.locks key) s)
  acquiring :
      (before : List Caller) (c : Caller) (after : List Caller) (s : Locker)
      → s.callers ≡ before ++ c ∷ after
      → c.phase ≡ waiting
      → s.locked c.entry ≡ false
      → Step s (acquire before c after s)
  unlocking :
      (before : List Caller) (c : Caller) (after : List Caller) (s : Locker)
      → s.callers ≡ before ++ c ∷ after
      → c.phase ≡ holding
      → Step s (unlock before c after s)
  departing :
      (before : List Caller) (c : Caller) (after : List Caller) (s : Locker)
      → s.callers ≡ before ++ c ∷ after
      → c.phase ≡ leaving
      → Step s (leave before c after s)

abbrev pub new_keyed_locker : Locker
new_keyed_locker = record {
  locks = empty;
  references = λ e. 0;
  locked = λ e. false;
  owner = λ e. "";
  next = 0;
  callers = [];
}

pub data Reachable : Locker → Type 0 where
  first : Reachable new_keyed_locker
  further : {s t : Locker} → Reachable s → Step s t → Reachable t
