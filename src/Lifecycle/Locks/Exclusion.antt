-- ===== src/Lifecycle/Locks/Exclusion.antt =====
-- services/realtime-audio/session/service.go: at most one caller of `keyedLocker` holds a key, and an
-- entry goes when its last caller leaves.
use xe6_tsy.Common.{
  ℕ, ◌+◌, ◌-◌, ◌≤◌, ◌<◌, ◌≡◌, refl, sym, ap, subst, ◌∙◌, Bool, true, false, ◌&&◌, none, some,
  String, List, [], ◌∷◌, ◌++◌, arith, ◌==◌, ==_iff, str_eq, str_eq_iff, All, All-append, Bool-cases,
  Option-cases, inl, inr,
}
use xe6_tsy.Lifecycle.Locks.Counts.{
  one_if, holds, users, holders, key_holders, users-append, holders-append, Placed, Counted,
  initial-Counted, All-split, All-move, enter-Counted,
}
use xe6_tsy.Lifecycle.Locks.{
  Phase, waiting, holding, leaving, Caller, Locker, acquire, unlock, leave, points_to, Step,
  entering, acquiring, unlocking, departing, Reachable, first, further,
}

Placed-same :
    (s t : Locker) (cs : List Caller)
    → t.locks ≡ s.locks
    → t.owner ≡ s.owner
    → t.next ≡ s.next
    → All (Placed s) cs
    → All (Placed t) cs
Placed-same s t cs i j k =
    All-move (Placed s) (Placed t)
      (λ x p. record {
        found = ap (λ f. f x.key) i ∙ p.found;
        owned = ap (λ f. f x.entry) j ∙ p.owned;
        old = omega (arith, p.old, k);
      })
      cs

module _ (before : List Caller) (c : Caller) (rest : List Caller) (s : Locker)
    (i : s.callers ≡ before ++ c ∷ rest) (h : Counted s) where
  parts : All (Placed s) before × Placed s c × All (Placed s) rest
  parts = All-split (Placed s) before rest c (subst (All (Placed s)) i h.placed)

  users_now : (e : ℕ) → s.references e ≡ users e before + (one_if (c.entry == e) + users e rest)
  users_now e = h.counts e ∙ ap (users e) i ∙ users-append e before (c ∷ rest)

  holders_now :
      (e : ℕ)
      → one_if (s.locked e) ≡ holders e before + (one_if (holds c && c.entry == e) + holders e rest)
  holders_now e = sym (h.mutex e) ∙ ap (holders e) i ∙ holders-append e before (c ∷ rest)

  moved :
      (t : Locker) (q : Phase)
      → t.locks ≡ s.locks
      → t.owner ≡ s.owner
      → t.next ≡ s.next
      → All (Placed t) (before ++ record c { phase = q } ∷ rest)
  moved t q x y z = Placed-same s t (before ++ record c { phase = q } ∷ rest) x y z (
      All-append (Placed s) before (record c { phase = q } ∷ rest) parts.0
        (record { found = parts.1.found; owned = parts.1.owned; old = parts.1.old }, parts.2))

  acquire-Counted : c.phase ≡ waiting → s.locked c.entry ≡ false → Counted (acquire before c rest s)
  unfolding acquire
  acquire-Counted p l = record {
    placed = moved _ holding refl refl refl;
    counts = λ e.
        omega (arith, users_now e, users-append e before (record c { phase = holding } ∷ rest));
    mutex = λ e. ground (
      arith,
      p,
      l,
      holders_now e,
      holders_now c.entry,
      ==_iff c.entry e,
      holders-append e before (record c { phase = holding } ∷ rest),
    );
    used = λ k d j. h.used k d j;
  }

  unlock-Counted : c.phase ≡ holding → Counted (unlock before c rest s)
  unfolding unlock
  unlock-Counted p = record {
    placed = moved _ leaving refl refl refl;
    counts = λ e.
        omega (arith, users_now e, users-append e before (record c { phase = leaving } ∷ rest));
    mutex = λ e. ground (
      arith,
      p,
      holders_now e,
      holders_now c.entry,
      ==_iff c.entry e,
      holders-append e before (record c { phase = leaving } ∷ rest),
    );
    used = λ k d j. h.used k d j;
  }

  -- Whether the entry goes with the caller.
  abbrev dropped : Bool
  dropped = (s.references c.entry - 1) == 0 && points_to (s.locks c.key) c.entry

  kept_apart :
      (x : Caller) (n : ℕ)
      → Placed s x
      → one_if (x.entry == c.entry) + n ≡ 0
      → str_eq c.key x.key ≡ false
  kept_apart x n p z = ground (
    arith,
    p.found,
    parts.1.found,
    str_eq_iff c.key x.key,
    λ (k : c.key ≡ x.key). ap s.locks k,
    ==_iff x.entry c.entry,
  )

  Placed-dropped :
      dropped ≡ true
      → (cs : List Caller) → All (Placed s) cs
      → users c.entry cs ≡ 0
      → All (Placed (leave before c rest s)) cs
  unfolding leave
  Placed-dropped drop [] h z = tt
  Placed-dropped drop (x ∷ cs) h z = (
    record {
      found = simp (drop, kept_apart x (users c.entry cs) h.0 z) h.0.found;
      owned = h.0.owned;
      old = h.0.old;
    },
    Placed-dropped drop cs h.1 (omega (arith, z)),
  )

  last_user : dropped ≡ true → (users c.entry before ≡ 0) × (users c.entry rest ≡ 0)
  last_user drop = ground (arith, users_now c.entry, ==_iff c.entry c.entry)

  Placed-leave : All (Placed (leave before c rest s)) (before ++ rest)
  unfolding leave
  Placed-leave = elim (Bool-cases dropped) [
    | inl e ↦
        let u = last_user e in
        All-append _ before rest (Placed-dropped e before parts.0 u.0)
          (Placed-dropped e rest parts.2 u.1)
    | inr e ↦
        All-append _ before rest (Placed-same s _ before (simp e refl) refl refl parts.0)
          (Placed-same s _ rest (simp e refl) refl refl parts.2)
  ]

  used-leave :
      (k : String) (d : ℕ)
      → (leave before c rest s).locks k ≡ some d
      → (s.owner d ≡ k) × (0 < (leave before c rest s).references d) × (d < s.next)
  unfolding leave
  used-leave k d j = elim (Bool-cases dropped) [
    | inl e ↦ elim (Bool-cases (str_eq c.key k)) [
      | inl f ↦ let j' = simp (e, f) at j in cc j'
      | inr f ↦
          let j' = simp (e, f) at j in
          let v = h.used k d j' in
          (
            v.0,
            ground (
              arith,
              v,
              parts.1.owned,
              ==_iff c.entry d,
              str_eq_iff c.key k,
              λ (z : c.entry ≡ d). ap s.owner z,
            ),
            v.2,
          )
    ]
    | inr e ↦
        let j' = simp e at j in
        let v = h.used k d j' in
        (
          v.0,
          ground (
            arith,
            v,
            e,
            parts.1.found,
            ==_iff c.entry d,
            ==_iff c.entry c.entry,
            ==_iff (s.references c.entry - 1) 0,
          ),
          v.2,
        )
  ]

  leave-Counted : c.phase ≡ leaving → Counted (leave before c rest s)
  unfolding leave
  leave-Counted p = record {
    placed = Placed-leave;
    counts = λ e.
        ground
          (arith, users_now e, users_now c.entry, ==_iff c.entry e, users-append e before rest);
    mutex = λ e. ground (arith, p, holders_now e, holders-append e before rest);
    used = used-leave;
  }

step-Counted : {s t : Locker} → Step s t → Counted s → Counted t
step-Counted (entering key s) h = enter-Counted key s h
step-Counted (acquiring before c rest s i p l) h = acquire-Counted before c rest s i h p l
step-Counted (unlocking before c rest s i p) h = unlock-Counted before c rest s i h p
step-Counted (departing before c rest s i p) h = leave-Counted before c rest s i h p

Reachable-Counted : {s : Locker} → Reachable s → Counted s
Reachable-Counted first = initial-Counted
Reachable-Counted (further r t) = step-Counted t (Reachable-Counted r)

key_holders-le :
    (s : Locker) (key : String) (e : ℕ) (cs : List Caller)
    → All (Placed s) cs
    → s.locks key ≡ some e
    → key_holders key cs ≤ holders e cs
key_holders-le s key e [] h i = omega arith
key_holders-le s key e (c ∷ cs) h i = ground (
  arith,
  key_holders-le s key e cs h.1 i,
  str_eq_iff c.key key,
  h.0.found,
  λ (k : c.key ≡ key). ap s.locks k,
)

one_if-le : (b : Bool) → one_if b ≤ 1
one_if-le true = omega arith
one_if-le false = omega arith

unheld :
    (s : Locker) (key : String) (cs : List Caller)
    → All (Placed s) cs
    → s.locks key ≡ none
    → key_holders key cs ≡ 0
unheld s key [] h i = refl
unheld s key (c ∷ cs) h i = ground (
  arith,
  unheld s key cs h.1 i,
  str_eq_iff c.key key,
  h.0.found,
  λ (k : c.key ≡ key). ap s.locks k,
)

-- However the callers' steps interleave, from a new locker on, at most one caller holds a key.
pub at_most_one_holder : (s : Locker) (key : String) → Reachable s → key_holders key s.callers ≤ 1
at_most_one_holder s key r =
    let h = Reachable-Counted r in
    elim (Option-cases (s.locks key)) [
      | inl i ↦ omega (arith, unheld s key s.callers h.placed i)
      | inr (e, i) ↦
          omega
            (arith, key_holders-le s key e s.callers h.placed i, h.mutex e, one_if-le (s.locked e))
    ]

-- However the callers' steps interleave, from a new locker on, a key's entry has a caller that has not
-- left it, and counts exactly the callers that have not.
pub entry_counts_users :
    (s : Locker) (key : String) (e : ℕ)
    → Reachable s
    → s.locks key ≡ some e
    → (0 < users e s.callers) × (s.references e ≡ users e s.callers)
entry_counts_users s key e r i =
    let h = Reachable-Counted r in (omega (arith, (h.used key e i).1, h.counts e), h.counts e)
