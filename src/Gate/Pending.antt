-- ===== src/Gate/Pending.antt =====
-- services/realtime-audio/command/gate.go: a worker that gets another phase, and what is owed to its attempt.
use xe6_tsy.Common.{
  ℕ, ◌+◌, true, false, ◌&&◌, ◌≡◌, refl, ap, ◌∙◌, sym, inl, inr, some, List, [], ◌∷◌, ◌==◌, ==_iff,
  arith, Bool-cases,
}
use xe6_tsy.Gate.{Phase, Worker, Gate}
use xe6_tsy.Gate.Recognition.{find, set_phase, remove, enter}
use xe6_tsy.Gate.Weight.{Kind, tells, pending, count_if, weight}

abbrev pub owing : Kind → Phase → ℕ → ℕ → ℕ
owing k p a b = count_if (tells p k && a == b)

find_here :
    (k : Kind) (a : ℕ) (v w : Worker) (ws : List Worker)
    → (v.attempt == a) ≡ true
    → find a (v ∷ ws) ≡ some w
    → (b : ℕ) → owing k v.phase v.attempt b ≡ owing k w.phase a b
find_here k a v w ws e h b =
    let here : some v ≡ some w = sym (rw e refl) ∙ h in
    let same : v ≡ w = cc in
    ap (λ x. owing k x.phase v.attempt b) same
    ∙ ap (λ n. owing k w.phase n b) ((==_iff v.attempt a).0 e)

find_there :
    (a : ℕ) (v w : Worker) (ws : List Worker)
    → (v.attempt == a) ≡ false
    → find a (v ∷ ws) ≡ some w
    → find a ws ≡ some w
find_there a v w ws e h = sym (rw e refl) ∙ h

pending-set_phase :
    (k : Kind) (a b : ℕ) (p : Phase) (ws : List Worker) (w : Worker)
    → find a ws ≡ some w
    → pending k b (set_phase a p ws) + owing k w.phase a b ≡ pending k b ws + owing k p a b
pending-set_phase k a b p [] w h = cc
pending-set_phase k a b p (v ∷ ws) w h = elim (Bool-cases (v.attempt == a)) [
  | inl e ↦
      let here = find_here k a v w ws e h b in
      let same : owing k p v.attempt b ≡ owing k p a b =
        ap (λ n. owing k p n b) ((==_iff v.attempt a).0 e) in
      rw e (omega (arith, here, same))
  | inr e ↦ rw e (omega (arith, pending-set_phase k a b p ws w (find_there a v w ws e h)))
]

pub pending-remove :
    (k : Kind) (a b : ℕ) (ws : List Worker) (w : Worker)
    → find a ws ≡ some w
    → pending k b (remove a ws) + owing k w.phase a b ≡ pending k b ws
pending-remove k a b [] w h = cc
pending-remove k a b (v ∷ ws) w h = elim (Bool-cases (v.attempt == a)) [
  | inl e ↦ rw e (omega (arith, find_here k a v w ws e h b))
  | inr e ↦ rw e (omega (arith, pending-remove k a b ws w (find_there a v w ws e h)))
]

-- A step that keeps the tasks, and then gives its worker a phase.
pub weight-enter :
    (k : Kind) (a b : ℕ) (r : Gate × Phase) (w : Worker)
    → find a r.0.tasks ≡ some w
    → weight k b (enter a r) + owing k w.phase a b ≡ weight k b r.0 + owing k r.1 a b
weight-enter k a b (g, p) w h = omega (arith, pending-set_phase k a b p g.tasks w h)
