-- ===== src/Gate/Recent.antt =====
-- Lists of command IDs, for those that services/realtime-audio/command/gate.go remembers.
use xe6_tsy.Common.{
  ℕ, zero, suc, ◌-◌, ◌≤◌, Bool, true, false, not, ◌&&◌, ◌||◌, ◌≡◌, refl, ap, ◌∙◌, sym, subst, inl,
  inr, String, List, [], ◌∷◌, ◌++◌, if◌then◌else◌, ◌==◌, arith, Bool-cases, leb, length,
  length-append, drop, str_eq, str_eq_iff,
}

abbrev pub contains : String → List String → Bool
contains id [] = false
contains id (x ∷ xs) = str_eq x id || contains id xs

-- The last `n` of a list.
abbrev pub newest {ℓ} : {A : Type ℓ} → ℕ → List A → List A
newest n xs = drop (length xs - n) xs

abbrev pub tail {ℓ} : {A : Type ℓ} → List A → List A
tail [] = []
tail (x ∷ xs) = xs

module _ {ℓ} {A : Type ℓ} where
  length-drop : (n : ℕ) (xs : List A) → length (drop n xs) ≡ length xs - n
  length-drop zero xs = omega arith
  length-drop (suc n) [] = omega arith
  length-drop (suc n) (x ∷ xs) = omega (arith, length-drop n xs)

  tail-drop : (n : ℕ) (xs : List A) → tail (drop n xs) ≡ drop (suc n) xs
  tail-drop zero [] = refl
  tail-drop zero (x ∷ xs) = refl
  tail-drop (suc n) [] = refl
  tail-drop (suc n) (x ∷ xs) = tail-drop n xs

  drop-snoc :
      (n : ℕ) (xs : List A) (x : A) → n ≤ length xs → drop n (xs ++ x ∷ []) ≡ drop n xs ++ x ∷ []
  drop-snoc zero xs x h = refl
  drop-snoc (suc n) [] x h = ground (arith, h)
  drop-snoc (suc n) (y ∷ xs) x h = drop-snoc n xs x (omega (arith, h))

  -- One more element drives the oldest out of a full list.
  pub newest-snoc :
      (n : ℕ) (xs : List A) (x : A)
      → 1 ≤ n
      → newest n (xs ++ x ∷ [])
        ≡ (if length (newest n xs) == n then tail (newest n xs) else newest n xs) ++ x ∷ []
  newest-snoc n xs x h = elim (Bool-cases (leb n (length xs))) [
    | inl e ↦
        let full : (length (newest n xs) == n) ≡ true =
          ground (arith, length-drop (length xs - n) xs, e) in
        let one : length (xs ++ x ∷ []) - n ≡ suc (length xs - n) =
          ground (arith, length-append xs (x ∷ []), e) in
        rw (full, one)
          (drop-snoc (suc (length xs - n)) xs x (ground (arith, e, h))
            ∙ ap (λ ys. ys ++ x ∷ []) (sym (tail-drop (length xs - n) xs)))
    | inr e ↦
        let none_left : length xs - n ≡ 0 = ground (arith, e) in
        let room : (length xs == n) ≡ false = ground (arith, e) in
        let still : length (xs ++ x ∷ []) - n ≡ 0 = ground (arith, length-append xs (x ∷ []), e) in
        rw (still, none_left) (rw room refl)
  ]

pub contains-append :
    (id : String) (xs ys : List String)
    → contains id (xs ++ ys) ≡ (contains id xs || contains id ys)
contains-append id [] ys = refl
contains-append id (x ∷ xs) ys =
    rw (contains-append id xs ys) (or_assoc (str_eq x id) (contains id xs) (contains id ys))
  where
    or_assoc : (a b c : Bool) → (a || (b || c)) ≡ ((a || b) || c)
    or_assoc true b c = refl
    or_assoc false b c = refl

abbrev pub Distinct : List String → Type 0
Distinct [] = Unit
Distinct (x ∷ xs) = (contains x xs ≡ false) × Distinct xs

str_eq_comm : (a b : String) → str_eq a b ≡ false → str_eq b a ≡ false
str_eq_comm a b h = elim (Bool-cases (str_eq b a)) [
  | inr e ↦ e
  | inl e ↦ let same : str_eq a b ≡ true = (str_eq_iff a b).1 (sym ((str_eq_iff b a).0 e)) in cc
]

pub no_part : (a b : Bool) → (a || b) ≡ false → (a ≡ false) × (b ≡ false)
no_part true b h = cc
no_part false b h = (refl, h)

pub Distinct-snoc :
    (xs : List String) (x : String) → Distinct xs → contains x xs ≡ false → Distinct (xs ++ x ∷ [])
Distinct-snoc [] x h k = (refl, tt)
Distinct-snoc (y ∷ ys) x h k =
    let parts = no_part (str_eq y x) (contains x ys) k in
    (
      contains-append y ys (x ∷ []) ∙ rw (h.0, str_eq_comm y x parts.0) refl,
      Distinct-snoc ys x h.1 parts.1,
    )

-- Forgetting the oldest of distinct IDs leaves the others.
pub forget-contains :
    (id oldest : String) (rest : List String)
    → contains oldest rest ≡ false
    → (not (str_eq oldest id) && (str_eq oldest id || contains id rest)) ≡ contains id rest
forget-contains id oldest rest h = elim (Bool-cases (str_eq oldest id)) [
  | inr e ↦ rw e refl
  | inl e ↦ rw e (sym (subst (λ x. contains x rest ≡ false) ((str_eq_iff oldest id).0 e) h))
]
