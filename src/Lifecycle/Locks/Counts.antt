-- ===== src/Lifecycle/Locks/Counts.antt =====
-- services/realtime-audio/session/service.go: what the entries of `keyedLocker` count, and a caller that
-- comes.
use xe6_tsy.Common.{
  ℕ, ◌+◌, ◌<◌, ◌≡◌, refl, sym, ap, subst, Bool, true, false, ◌&&◌, none, some, String, List, [],
  ◌∷◌, ◌++◌, arith, ◌==◌, ==_iff, str_eq, str_eq_iff, str_eq_refl, All, Bool-cases, Option-cases,
  inl, inr,
}
use xe6_tsy.Lifecycle.Locks.{holding, Caller, Locker, enter, new_keyed_locker}

abbrev pub one_if : Bool → ℕ
one_if true = 1
one_if false = 0

abbrev pub holds : Caller → Bool
holds c = elim c.phase [ holding ↦ true | _ ↦ false ]

-- How many callers have the entry, how many hold it, and how many hold the key.
abbrev pub users : ℕ → List Caller → ℕ
users e [] = 0
users e (c ∷ cs) = one_if (c.entry == e) + users e cs

abbrev pub holders : ℕ → List Caller → ℕ
holders e [] = 0
holders e (c ∷ cs) = one_if (holds c && c.entry == e) + holders e cs

abbrev pub key_holders : String → List Caller → ℕ
key_holders key [] = 0
key_holders key (c ∷ cs) = one_if (holds c && str_eq c.key key) + key_holders key cs

pub users-append : (e : ℕ) (cs ds : List Caller) → users e (cs ++ ds) ≡ users e cs + users e ds
users-append e [] ds = omega arith
users-append e (c ∷ cs) ds = omega (arith, users-append e cs ds)

pub holders-append :
    (e : ℕ) (cs ds : List Caller) → holders e (cs ++ ds) ≡ holders e cs + holders e ds
holders-append e [] ds = omega arith
holders-append e (c ∷ cs) ds = omega (arith, holders-append e cs ds)

-- A caller's entry is the one that its key leads to, and was made for its key.
pub record Placed (s : Locker) (c : Caller) : Type 0 where
  pub found : s.locks c.key ≡ some c.entry
  pub owned : s.owner c.entry ≡ c.key
  pub old : c.entry < s.next

pub record Counted (s : Locker) : Type 0 where
  pub placed : All (Placed s) s.callers
  pub counts : (e : ℕ) → s.references e ≡ users e s.callers
  pub mutex : (e : ℕ) → holders e s.callers ≡ one_if (s.locked e)
  pub used :
      (key : String) (e : ℕ)
      → s.locks key ≡ some e
      → (s.owner e ≡ key) × (0 < s.references e) × (e < s.next)

pub initial-Counted : Counted new_keyed_locker
initial-Counted = record {
  placed = tt;
  counts = λ e. refl;
  mutex = λ e. refl;
  used = λ key e h. cc;
}

pub All-split {ℓ κ} :
    {A : Type ℓ} (P : A → Type κ) (xs ys : List A) (x : A)
    → All P (xs ++ x ∷ ys)
    → All P xs × P x × All P ys
All-split P [] ys x h = (tt, h.0, h.1)
All-split P (y ∷ xs) ys x h = let k = All-split P xs ys x h.1 in ((h.0, k.0), k.1, k.2)

pub All-move {ℓ κ} :
    {A : Type ℓ} (P Q : A → Type κ) → ((x : A) → P x → Q x) → (xs : List A) → All P xs → All Q xs
All-move P Q f [] h = tt
All-move P Q f (x ∷ xs) h = (f x h.0, All-move P Q f xs h.1)

enter_found-Counted :
    (key : String) (e : ℕ) (s : Locker)
    → s.locks key ≡ some e
    → Counted s
    → Counted (enter key (some e) s)
unfolding enter
enter_found-Counted key e s i h =
    let u = h.used key e i in
    record {
      placed = (
        record { found = i; owned = u.0; old = u.2 },
        All-move _ _ (λ x p. record { found = p.found; owned = p.owned; old = p.old }) s.callers
            h.placed,
      );
      counts = λ d. ground (arith, h.counts d, h.counts e, ==_iff e d);
      mutex = λ d. omega (arith, h.mutex d);
      used = λ k d j. let v = h.used k d j in (v.0, ground (arith, v.1), v.2);
    }

fresh_unused :
    (s : Locker) (cs : List Caller)
    → All (Placed s) cs
    → (users s.next cs ≡ 0) × (holders s.next cs ≡ 0)
fresh_unused s [] h = (refl, refl)
fresh_unused s (c ∷ cs) h = ground (arith, h.0.old, fresh_unused s cs h.1)

Placed-enter :
    (key : String) (s : Locker) (x : Caller)
    → s.locks key ≡ none
    → Placed s x
    → Placed (enter key none s) x
unfolding enter
Placed-enter key s x i p = record {
  found = ground (arith, p.found, str_eq_iff key x.key, λ (k : key ≡ x.key). ap s.locks k);
  owned = ground (arith, p.old, p.owned);
  old = omega (arith, p.old);
}

enter_new-Counted :
    (key : String) (s : Locker) → s.locks key ≡ none → Counted s → Counted (enter key none s)
unfolding enter
enter_new-Counted key s i h = record {
  placed = (
    record { found = simp (str_eq_refl key) refl; owned = ground arith; old = omega arith },
    All-move _ _ (λ x p. Placed-enter key s x i p) s.callers h.placed,
  );
  counts = λ d. ground (arith, h.counts d, fresh_unused s s.callers h.placed);
  mutex = λ d. ground (arith, h.mutex d, fresh_unused s s.callers h.placed);
  used = λ k d j. elim (Bool-cases (str_eq key k)) [
    | inl e ↦ let j' = simp e at j in ground (arith, (str_eq_iff key k).0 e)
    | inr e ↦ let j' = simp e at j in ground (arith, h.used k d j')
  ];
}

pub enter-Counted : (key : String) (s : Locker) → Counted s → Counted (enter key (s.locks key) s)
enter-Counted key s h = elim (Option-cases (s.locks key)) [
  | inl i ↦ subst (λ o. Counted (enter key o s)) (sym i) (enter_new-Counted key s i h)
  | inr (e, i) ↦ subst (λ o. Counted (enter key o s)) (sym i) (enter_found-Counted key e s i h)
]
