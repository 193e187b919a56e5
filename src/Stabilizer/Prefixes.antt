-- ===== src/Stabilizer/Prefixes.antt =====
-- services/realtime-audio/pipeline/phrase_stabilizer.go: the cuts of a text are cuts, and the common
-- prefix of two texts is the longest.
use xe6_tsy.Common.{
  ℕ, zero, suc, ◌+◌, ◌-◌, ◌≤◌, ◌<◌, ◌≡◌, refl, sym, ap, subst, ◌∙◌, ◌↔◌, ◌⊎◌, append_assoc,
  append-nil, leb→le, Bool, true, false, ◌&&◌, none, some, if◌then◌else◌, [], ◌∷◌, ◌++◌, arith,
  ◌==◌, ==_iff, leb, length, take, get_elem?, Bool-cases, Option-cases, inl, inr,
}
use xe6_tsy.Stabilizer.Scan.{
  Text, is_space, trim_space, skipped, skip, strip_prefix, common_phrase_prefix, phrase_boundary,
  cut_at_boundary,
}
use xe6_tsy.Stabilizer.{word_cut, take_stable_phrase_runes}

-- The first text begins the second.
abbrev pub Begins : Text → Text → Type 0
Begins p text = (rest : Text) × (p ++ rest ≡ text)

pub strip_prefix-joins : (p text rest : Text) → strip_prefix p text ≡ some rest → p ++ rest ≡ text
strip_prefix-joins [] text rest h = cc h
strip_prefix-joins (c ∷ p) [] rest h = cc h
strip_prefix-joins (c ∷ p) (d ∷ text) rest h = elim (Bool-cases (c == d)) [
  | inl e ↦ let k = simp e at h in cc (strip_prefix-joins p text rest k, (==_iff c d).0 e)
  | inr e ↦ let k = simp e at h in cc k
]

pub strip_prefix-append : (p rest : Text) → strip_prefix p (p ++ rest) ≡ some rest
strip_prefix-append [] rest = refl
strip_prefix-append (c ∷ p) rest = simp ((==_iff c c).1 refl, strip_prefix-append p rest) refl

-- The common prefix of two texts begins both.
common_phrase_prefix-Begins :
    (a b : Text) → Begins (common_phrase_prefix a b) a × Begins (common_phrase_prefix a b) b
unfolding common_phrase_prefix
common_phrase_prefix-Begins [] b = ((_, refl), (_, refl))
common_phrase_prefix-Begins (c ∷ a) [] = ((_, refl), (_, refl))
common_phrase_prefix-Begins (c ∷ a) (d ∷ b) = elim (Bool-cases (c == d)) [
  | inl e ↦
      let ((x, i), (y, j)) = common_phrase_prefix-Begins a b in
      simp e ((x, ap (λ t. c ∷ t) i), (y, cc (j, (==_iff c d).0 e)))
  | inr e ↦ simp e ((_, refl), (_, refl))
]

-- A text that begins both begins the common prefix.
common_phrase_prefix-longest :
    (p a b : Text) → Begins p a → Begins p b → Begins p (common_phrase_prefix a b)
unfolding common_phrase_prefix
common_phrase_prefix-longest [] a b h k = (_, refl)
common_phrase_prefix-longest (c ∷ p) a b (x, h) (y, k) =
    let (z, i) = common_phrase_prefix-longest p (p ++ x) (p ++ y) (x, refl) (y, refl) in
    (z, simp (sym h, sym k, (==_iff c c).1 refl, i) refl)

Begins-trans : (p q text : Text) → Begins p q → Begins q text → Begins p text
Begins-trans p q text (x, i) (y, j) = (x ++ y, sym (append_assoc p x y) ∙ ap (λ t. t ++ y) i ∙ j)

-- A text begins what `commonPhrasePrefix` gives exactly if it begins both of its arguments.
pub common_phrase_prefix_lem :
    (p a b : Text) → Begins p (common_phrase_prefix a b) ↔ (Begins p a × Begins p b)
common_phrase_prefix_lem p a b =
    let (h, k) = common_phrase_prefix-Begins a b in
    (
      λ q. (Begins-trans p _ a q h, Begins-trans p _ b q k),
      λ q. common_phrase_prefix-longest p a b q.0 q.1,
    )

skipped-skip : (kind : ℕ → Bool) (text : Text) → skipped kind text ++ skip kind text ≡ text
skipped-skip kind [] = refl
skipped-skip kind (c ∷ cs) = elim (Bool-cases (kind c)) [
  | inl e ↦ simp e (ap (λ t. c ∷ t) (skipped-skip kind cs))
  | inr e ↦ simp e refl
]

length-skip : (kind : ℕ → Bool) (text : Text) → length (skip kind text) ≤ length text
length-skip kind [] = omega arith
length-skip kind (c ∷ cs) = ground (arith, length-skip kind cs)

pub cut_at_boundary-joins :
    (text segment rest : Text)
    → cut_at_boundary text ≡ some (segment, rest)
    → (segment ++ rest ≡ text) × (length rest < length text)
unfolding cut_at_boundary
cut_at_boundary-joins [] segment rest h = cc h
cut_at_boundary-joins (c ∷ cs) segment rest h = elim (Bool-cases (phrase_boundary c)) [
  | inl e ↦
      let k = simp (e, cut_at_boundary) at h in
      let a : c ∷ skipped is_space cs ≡ segment = cc k in
      let b : skip is_space cs ≡ rest = cc k in
      (cc (a, b, skipped-skip is_space cs), omega (arith, length-skip is_space cs, ap length b))
  | inr e ↦ elim (Option-cases (cut_at_boundary cs)) [
    | inl f ↦ let k = simp (e, f, cut_at_boundary) at h in cc k
    | inr ((s, r), f) ↦
        let k = simp (e, f, cut_at_boundary) at h in
        let (i, j) = cut_at_boundary-joins cs s r f in
        let a : c ∷ s ≡ segment = cc k in
        let b : r ≡ rest = cc k in (cc (a, b, i), omega (arith, j, ap length b))
  ]
]

take-joins : (n : ℕ) (text : Text) → Begins (take n text) text
take-joins zero text = (text, refl)
take-joins (suc n) [] = ([], refl)
take-joins (suc n) (c ∷ cs) = let (rest, i) = take-joins n cs in (rest, ap (λ t. c ∷ t) i)

length-take : (n : ℕ) (text : Text) → n ≤ length text → length (take n text) ≡ n
length-take zero text h = refl
length-take (suc n) [] h = omega (arith, h)
length-take (suc n) (c ∷ cs) h = ap suc (length-take n cs (omega (arith, h)))

-- A word ends at the position: a space stands there, and enough text, trimmed, up to it.
abbrev pub word_ends : Text → ℕ → ℕ → Bool
word_ends text minimum k = elim (get_elem? text k) [
  | none ↦ false
  | some c ↦ is_space c && leb minimum (length (trim_space (take (k + 1) text)))
]

-- No word ends at the `d` positions from `from`.
abbrev pub NoWord : Text → ℕ → ℕ → ℕ → Type 0
NoWord text minimum from zero = Unit {0}
NoWord text minimum from (suc d) =
    (word_ends text minimum (from + d) ≡ false) × NoWord text minimum from d

-- The last word end before the position `n`.
record LastWord (text : Text) (minimum n : ℕ) (cut : Text) : Type 0 where
  at : ℕ
  after : ℕ
  place : n ≡ (at + 1) + after
  taken : cut ≡ take (at + 1) text
  word : word_ends text minimum at ≡ true
  last : NoWord text minimum (at + 1) after

word_cut-step :
    (text : Text) (minimum n : ℕ)
    → word_cut text minimum (suc n)
      ≡ (if word_ends text minimum n then some (take (n + 1) text) else word_cut text minimum n)
unfolding word_cut
word_cut-step text minimum n = elim (Option-cases (get_elem? text n)) [
  | inl e ↦ ground (arith, e)
  | inr (c, e) ↦ ground (arith, e)
]

word_cut-none :
    (text : Text) (minimum n : ℕ) → word_cut text minimum n ≡ none → NoWord text minimum 0 n
unfolding word_cut
word_cut-none text minimum zero h = tt
word_cut-none text minimum (suc n) h = elim (Bool-cases (word_ends text minimum n)) [
  | inl e ↦ let i = sym (word_cut-step text minimum n) ∙ h in let k = simp e at i in cc k
  | inr e ↦
      let i = sym (word_cut-step text minimum n) ∙ h in
      let k = simp e at i in
      (
        subst (λ j. word_ends text minimum j ≡ false) (omega arith) e,
        word_cut-none text minimum n k,
      )
]

word_cut-LastWord :
    (text : Text) (minimum n : ℕ) (cut : Text)
    → word_cut text minimum n ≡ some cut
    → LastWord text minimum n cut
unfolding word_cut
word_cut-LastWord text minimum zero cut h = cc h
word_cut-LastWord text minimum (suc n) cut h = elim (Bool-cases (word_ends text minimum n)) [
  | inl e ↦
      let i = sym (word_cut-step text minimum n) ∙ h in
      let k = simp e at i in
      record { at = n; after = 0; place = omega arith; taken = cc k; word = e; last = tt }
  | inr e ↦
      let i = sym (word_cut-step text minimum n) ∙ h in
      let k = simp e at i in
      let w = word_cut-LastWord text minimum n cut k in
      record {
        at = w.at;
        after = suc w.after;
        place = omega (arith, w.place);
        taken = w.taken;
        word = w.word;
        last = (subst (λ j. word_ends text minimum j ≡ false) w.place e, w.last);
      }
]

positive_limit : (limit : ℕ) → 0 < limit → (limit == 0) ≡ false
positive_limit limit h = ground arith

-- Where a live chunk ends: with the text if that is within the limit, or else behind the last word that
-- ends within the limit with enough before it, or else at the limit.
abbrev pub Ends : Text → ℕ → ℕ → Text → Type 0
Ends text minimum limit cut =
    ((length text ≤ limit) × (cut ≡ text))
    ⊎ ((limit < length text)
        × (((length cut ≡ limit) × NoWord text minimum 0 limit)
            ⊎ ((after : ℕ) × (limit ≡ length cut + after)
                × (word_ends text minimum (length cut - 1) ≡ true)
                × NoWord text minimum (length cut) after)))

-- With a limit, a live chunk of a text that is not empty begins the text, is not empty and no longer than
-- the limit. It is the whole text if that is within the limit; or else it ends with the last space within
-- the limit that has the minimum of text, trimmed, up to it; or else, where there is no such space, it has
-- the length of the limit.
pub take_stable_phrase_runes-Ends :
    (text : Text) (minimum limit : ℕ)
    → 0 < limit
    → 0 < length text
    → let cut = take_stable_phrase_runes text minimum limit in
      Begins cut text × (0 < length cut) × (length cut ≤ limit) × Ends text minimum limit cut
unfolding take_stable_phrase_runes
take_stable_phrase_runes-Ends text minimum limit h k = elim (Bool-cases (leb (length text) limit)) [
  | inl e ↦
      let short = leb→le (length text) limit e in
      simp (e, positive_limit limit h) (([], append-nil text), k, short, inl (short, refl))
  | inr e ↦
      let long : limit < length text = ground (arith, e) in
      elim (Option-cases (word_cut text minimum limit)) [
        | inl f ↦
            let size = length-take limit text (omega (arith, long)) in
            simp (e, f, positive_limit limit h, take_stable_phrase_runes)
              (
                take-joins limit text,
                omega (arith, size, h),
                omega (arith, size),
                inr (long, inl (size, word_cut-none text minimum limit f)),
              )
        | inr (cut, f) ↦
            let w = word_cut-LastWord text minimum limit cut f in
            let size = length-take (w.at + 1) text (omega (arith, w.place, long)) in
            let same : length cut ≡ w.at + 1 = ap length w.taken ∙ size in
            let before : w.at ≡ length cut - 1 = omega (arith, same) in
            simp (e, f, positive_limit limit h, take_stable_phrase_runes)
              (
                subst (λ c. Begins c text) (sym w.taken) (take-joins (w.at + 1) text),
                omega (arith, same),
                omega (arith, same, w.place),
                inr (
                  long,
                  inr (
                    w.after,
                    omega (arith, same, w.place),
                    subst (λ j. word_ends text minimum j ≡ true) before w.word,
                    subst (λ j. NoWord text minimum j w.after) (sym same) w.last,
                  ),
                ),
              )
      ]
]
