-- ===== src/Languages/Pairs.antt =====
-- services/api/languages/validate.go: which pairs are accepted, and what the accepted routes are.
use xe6_tsy.Common.{
  suc, ◌+◌, ◌≤◌, ◌≡◌, ◌≢◌, refl, sym, ap, subst, true, false, not, none, String, List, [], ◌∷◌, ◌⊎◌,
  inl, inr, ltb, ◌==◌, arith, length, str_eq, str_eq_iff, is_blank, Bool-cases, Option-cases,
}
use xe6_tsy.Languages.Validate.{
  LanguagePair, OutputRoute, Catalog, usable_source, usable_target, lookup, is_known, contains,
  check_pair, check_pairs, covered, mutual_inverses, validate_p0_language_pairs, targets_of,
  default_routes, check_route, check_routes, routed, all_in, tts_routes, delivery_routes,
  normalize_output_routes, unset, output_mode_for_routes,
}

-- Two named languages, each of which can be translated into the other.
pub record Opposite (catalog : Catalog) (p q : LanguagePair) : Type 0 where
  pub named : (is_blank p.source ≡ false) × (is_blank p.target ≡ false)
  pub differ : p.source ≢ p.target
  pub back : (q.source ≡ p.target) × (q.target ≡ p.source)
  pub usable : (usable_source (catalog p.source) ≡ true) × (usable_target (catalog p.target) ≡ true)
  pub usable_back :
      (usable_source (catalog q.source) ≡ true) × (usable_target (catalog q.target) ≡ true)

-- A pair that passes its round.
record Passed (catalog : Catalog) (seen : List LanguagePair) (p : LanguagePair) : Type 0 where
  named : (is_blank p.source ≡ false) × (is_blank p.target ≡ false)
  differ : str_eq p.source p.target ≡ false
  unseen : is_known (lookup p.source seen) ≡ false
  usable : (usable_source (catalog p.source) ≡ true) × (usable_target (catalog p.target) ≡ true)

check_pair-Passed :
    (catalog : Catalog) (seen : List LanguagePair) (p : LanguagePair)
    → check_pair catalog seen p ≡ none
    → Passed catalog seen p
unfolding check_pair
check_pair-Passed catalog seen p h = record {
  named = (ground (arith, h), ground (arith, h));
  differ = ground (arith, h);
  unseen = ground (arith, h);
  usable = (ground (arith, h), ground (arith, h));
}

check_pairs-two :
    (catalog : Catalog) (p q : LanguagePair)
    → check_pairs catalog [] (p ∷ q ∷ []) ≡ none
    → Passed catalog [] p × Passed catalog (p ∷ []) q
unfolding check_pairs
check_pairs-two catalog p q h = elim (Option-cases (check_pair catalog [] p)) [
  | inr (e, i) ↦ let k = simp (i, check_pairs) at h in cc k
  | inl i ↦ elim (Option-cases (check_pair catalog (p ∷ []) q)) [
    | inr (e, j) ↦ let k = simp (i, j, check_pairs) at h in cc k
    | inl j ↦ (check_pair-Passed catalog [] p i, check_pair-Passed catalog (p ∷ []) q j)
  ]
]

inverse :
    (p q : LanguagePair)
    → str_eq p.source p.target ≡ false
    → mutual_inverses (p ∷ q ∷ []) (p ∷ q ∷ []) ≡ true
    → (q.source ≡ p.target) × (q.target ≡ p.source)
inverse p q d h = (
  ground (arith, h, d, str_eq_iff q.source p.target, str_eq_iff q.target p.source),
  ground (arith, h, d, str_eq_iff q.source p.target, str_eq_iff q.target p.source),
)

-- The pairs that are accepted are two opposite directions between two languages of the catalog.
pub validate_p0_language_pairs-Opposite :
    (pairs : List LanguagePair) (catalog : Catalog)
    → validate_p0_language_pairs pairs catalog ≡ none
    → (p : LanguagePair) × (q : LanguagePair) × (pairs ≡ p ∷ q ∷ []) × Opposite catalog p q
unfolding validate_p0_language_pairs
validate_p0_language_pairs-Opposite [] catalog h = cc h
validate_p0_language_pairs-Opposite (p ∷ []) catalog h = cc h
validate_p0_language_pairs-Opposite (p ∷ q ∷ r ∷ rs) catalog h =
    let long : (length (p ∷ q ∷ r ∷ rs) == 2) ≡ false = ground arith in
    let k = simp (long, validate_p0_language_pairs) at h in cc k
validate_p0_language_pairs-Opposite (p ∷ q ∷ []) catalog h =
    elim (Option-cases (check_pairs catalog [] (p ∷ q ∷ []))) [
      | inr (e, i) ↦ let k = simp (i, validate_p0_language_pairs) at h in cc k
      | inl i ↦ elim (Bool-cases (mutual_inverses (p ∷ q ∷ []) (p ∷ q ∷ []))) [
        | inr j ↦ elim (Bool-cases (length (covered (p ∷ q ∷ [])) == 2)) [
          | inl c ↦ let k = simp (i, j, c, validate_p0_language_pairs) at h in cc k
          | inr c ↦ let k = simp (i, c, validate_p0_language_pairs) at h in cc k
        ]
        | inl j ↦
            let (a, b) = check_pairs-two catalog p q i in
            (
              p,
              q,
              refl,
              record {
                named = a.named;
                differ = λ e. ground (arith, a.differ, (str_eq_iff p.source p.target).1 e);
                back = inverse p q a.differ j;
                usable = a.usable;
                usable_back = b.usable;
              },
            )
      ]
    ]

-- A route that passes its round enables one output.
check_route-one :
    (targets seen : List String) (r : OutputRoute)
    → check_route targets seen r ≡ none
    → r.delivery_enabled ≡ not r.tts_enabled
unfolding check_route
check_route-one targets seen r h = ground (arith, h)

check_routes-one :
    (targets seen : List String) (rs : List OutputRoute)
    → check_routes targets seen rs ≡ none
    → tts_routes rs + delivery_routes rs ≡ length rs
unfolding check_routes
check_routes-one targets seen [] h = omega arith
check_routes-one targets seen (r ∷ rs) h = elim (Option-cases (check_route targets seen r)) [
  | inr (e, i) ↦ let k = simp (i, check_routes) at h in cc k
  | inl i ↦
      let k = simp (i, check_routes) at h in
      ground (
        arith,
        check_route-one targets seen r i,
        check_routes-one targets (r.target_language ∷ seen) rs k,
      )
]

default_routes-one :
    (used : List String) (ps : List LanguagePair)
    → (tts_routes (default_routes used ps) ≡ length (default_routes used ps))
      × (delivery_routes (default_routes used ps) ≡ 0)
unfolding default_routes
default_routes-one used [] = (refl, refl)
default_routes-one used (p ∷ ps) =
    let h = default_routes-one (p.target ∷ used) ps in
    elim (Bool-cases (contains p.target used)) [
      | inl e ↦ simp e h
      | inr e ↦ simp e (ap suc h.0, h.1)
    ]

counted-mode :
    (routes : List OutputRoute)
    → tts_routes routes + delivery_routes routes ≡ length routes
    → delivery_routes routes ≤ 1
    → (length routes ≢ 2) ⊎ (output_mode_for_routes routes ≢ unset)
unfolding output_mode_for_routes
counted-mode routes h k = elim (Bool-cases (length routes == 2)) [
  | inr e ↦ inl (ground (arith, e))
  | inl e ↦ inr (ground (arith, e, h, k))
]

abbrev Modal : List OutputRoute → Type 0
Modal routes =
    (tts_routes routes + delivery_routes routes ≡ length routes)
    × (delivery_routes routes ≤ 1)
    × ((length routes ≢ 2) ⊎ (output_mode_for_routes routes ≢ unset))

-- Routes that are accepted, or put in where none are given, enable one output each, and at most one of
-- them delivers; two of them have an output mode.
pub normalize_output_routes-mode :
    (pairs : List LanguagePair) (given routes : List OutputRoute)
    → normalize_output_routes pairs given ≡ inr routes
    → (tts_routes routes + delivery_routes routes ≡ length routes)
      × (delivery_routes routes ≤ 1)
      × ((length routes ≢ 2) ⊎ (output_mode_for_routes routes ≢ unset))
unfolding normalize_output_routes
normalize_output_routes-mode pairs [] routes h =
    let i : default_routes [] pairs ≡ routes = cc h in
    let d = default_routes-one [] pairs in
    let k : tts_routes routes + delivery_routes routes ≡ length routes =
      simp (sym i) (omega (arith, d)) in
    let l : delivery_routes routes ≤ 1 = simp (sym i) (omega (arith, d)) in
    (k, l, counted-mode routes k l)
normalize_output_routes-mode pairs (r ∷ rs) routes h =
    elim (Option-cases (check_routes (targets_of pairs) [] (r ∷ rs))) [
      | inr (e, i) ↦ let k = simp (i, normalize_output_routes) at h in cc k
      | inl i ↦ elim (Bool-cases (all_in (targets_of pairs) (routed (r ∷ rs)))) [
        | inr a ↦ let k = simp (i, a, normalize_output_routes) at h in cc k
        | inl a ↦ elim (Bool-cases (ltb 1 (delivery_routes (r ∷ rs)))) [
          | inl b ↦ let k = simp (i, a, b, normalize_output_routes) at h in cc k
          | inr b ↦
              let same : r ∷ rs ≡ routes = cc (simp (i, a, b, normalize_output_routes) at h) in
              let k = check_routes-one (targets_of pairs) [] (r ∷ rs) i in
              let l : delivery_routes (r ∷ rs) ≤ 1 = ground (arith, b) in
              subst Modal same (k, l, counted-mode (r ∷ rs) k l)
        ]
      ]
    ]
