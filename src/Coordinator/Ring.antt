-- ===== src/Coordinator/Ring.antt =====
-- Lists as ring buffers, and lists without repetition: what the replay window of
-- services/realtime-audio/runtime/mode.go is made of.
use xe6_tsy.Common.{
  ℕ, zero, suc, ◌<◌, ◌≡◌, refl, sym, ap, Bool, true, false, not, ◌&&◌, ◌||◌, some, String, List, [],
  ◌∷◌, ◌++◌, append-nil, append_assoc, arith, length, get_elem?, set, take, drop, str_eq,
  str_eq_iff,
}

module _ {ℓ} {A : Type ℓ} where
  abbrev pub tail : List A → List A
  tail [] = []
  tail (x ∷ xs) = xs

  -- The contents of a ring whose oldest entry stands at index `i`.
  abbrev pub rotate : ℕ → List A → List A
  rotate i xs = drop i xs ++ take i xs

  pub drop-length : (xs : List A) → drop (length xs) xs ≡ []
  drop-length [] = refl
  drop-length (x ∷ xs) = drop-length xs

  pub take-length : (xs : List A) → take (length xs) xs ≡ xs
  take-length [] = refl
  take-length (x ∷ xs) = ap (◌∷◌ x) (take-length xs)

  drop-set :
      (xs : List A) (i : ℕ) (v : A) → i < length xs → drop (suc i) (set xs i v) ≡ tail (drop i xs)
  drop-set [] i v h = elim h [ ]
  drop-set (x ∷ xs) zero v h = refl
  drop-set (x ∷ xs) (suc i) v h = drop-set xs i v (omega arith)

  take-set :
      (xs : List A) (i : ℕ) (v : A)
      → i < length xs
      → take (suc i) (set xs i v) ≡ take i xs ++ v ∷ []
  take-set [] i v h = elim h [ ]
  take-set (x ∷ xs) zero v h = refl
  take-set (x ∷ xs) (suc i) v h = ap (◌∷◌ x) (take-set xs i v (omega arith))

  tail-drop :
      (xs ys : List A) (i : ℕ) → i < length xs → tail (drop i xs ++ ys) ≡ tail (drop i xs) ++ ys
  tail-drop [] ys i h = elim h [ ]
  tail-drop (x ∷ xs) ys zero h = refl
  tail-drop (x ∷ xs) ys (suc i) h = tail-drop xs ys i (omega arith)

  -- Overwriting the oldest entry drops it and adds the new one at the end.
  pub rotate-set :
      (xs : List A) (i : ℕ) (v : A)
      → i < length xs
      → rotate (suc i) (set xs i v) ≡ tail (rotate i xs) ++ v ∷ []
  rotate-set xs i v h =
      rw (drop-set xs i v h, take-set xs i v h, tail-drop xs (take i xs) i h)
        (sym (append_assoc (tail (drop i xs)) (take i xs) (v ∷ [])))

  pub rotate-length : (xs : List A) (n : ℕ) → length xs ≡ n → rotate n xs ≡ rotate 0 xs
  rotate-length xs n h = rw (← h, drop-length xs, take-length xs, append-nil xs)

  pub get_elem?-total : (xs : List A) (i : ℕ) → i < length xs → (x : A) × (get_elem? xs i ≡ some x)
  get_elem?-total [] i h = elim h [ ]
  get_elem?-total (x ∷ xs) zero h = (x, refl)
  get_elem?-total (x ∷ xs) (suc i) h = get_elem?-total xs i (omega arith)

abbrev pub contains : String → List String → Bool
contains k [] = false
contains k (x ∷ xs) = str_eq x k || contains k xs

abbrev pub Distinct : List String → Type 0
Distinct [] = Unit {0}
Distinct (x ∷ xs) = (contains x xs ≡ false) × Distinct xs

pub contains-append :
    (k v : String) (xs : List String) → contains k (xs ++ v ∷ []) ≡ contains k xs || str_eq v k
contains-append k v [] = ground arith
contains-append k v (x ∷ xs) = ground (arith, contains-append k v xs)

pub Distinct-append :
    (v : String) (xs : List String) → contains v xs ≡ false → Distinct xs → Distinct (xs ++ v ∷ [])
Distinct-append v [] h d = (refl, tt)
Distinct-append v (x ∷ xs) h d = (
  ground (arith, contains-append x v xs, str_eq_iff x v, str_eq_iff v x),
  Distinct-append v xs (ground arith) d.1,
)

contains_of_get_elem? :
    (e : String) (xs : List String) (i : ℕ) → get_elem? xs i ≡ some e → contains e xs ≡ true
contains_of_get_elem? e [] i g = cc
contains_of_get_elem? e (x ∷ xs) zero g = ground (arith, str_eq_iff x e)
contains_of_get_elem? e (x ∷ xs) (suc i) g = ground (arith, contains_of_get_elem? e xs i g)

contains-set_of_absent :
    (k v : String) (xs : List String) (i : ℕ)
    → contains k xs ≡ false
    → str_eq v k ≡ false
    → contains k (set xs i v) ≡ false
contains-set_of_absent k v [] i h n = refl
contains-set_of_absent k v (x ∷ xs) zero h n = ground arith
contains-set_of_absent k v (x ∷ xs) (suc i) h n = ground (arith, contains-set_of_absent k v xs i)

-- Membership after the entry at `i`, which is `e`, is overwritten by `v`.
pub contains-set :
    (k v e : String) (xs : List String) (i : ℕ)
    → Distinct xs
    → get_elem? xs i ≡ some e
    → contains k (set xs i v) ≡ str_eq v k || (contains k xs && not (str_eq e k))
contains-set k v e [] i d g = cc
contains-set k v e (x ∷ xs) zero d g = ground (arith, str_eq_iff x k, str_eq_iff e k)
contains-set k v e (x ∷ xs) (suc i) d g = ground (
  arith,
  contains-set k v e xs i d.1 g,
  contains_of_get_elem? e xs i g,
  str_eq_iff x k,
  str_eq_iff e k,
)

pub Distinct-set :
    (v : String) (xs : List String) (i : ℕ)
    → contains v xs ≡ false
    → Distinct xs
    → Distinct (set xs i v)
Distinct-set v [] i h d = tt
Distinct-set v (x ∷ xs) zero h d = (ground arith, d.1)
Distinct-set v (x ∷ xs) (suc i) h d = (
  contains-set_of_absent x v xs i d.0 (ground (arith, str_eq_iff x v, str_eq_iff v x)),
  Distinct-set v xs i (ground arith) d.1,
)
