-- ===== src/Coordinator/Retention.antt =====
-- The replay window of services/realtime-audio/runtime/mode.go, while operations are added behind one
-- that it holds.
use xe6_tsy.Common.{
  ℕ, zero, suc, ◌+◌, ◌≤◌, ◌<◌, ◌≡◌, refl, sym, ap, ◌∙◌, true, false, ◌||◌, Option, none, some,
  String, List, [], ◌∷◌, ◌++◌, append_assoc, arith, ltb, length, length-append, take, drop,
  str_eq_iff, str_eq_refl, Bool-cases, Option-cases, inl, inr,
}
use xe6_tsy.Contract.Mode.{SwitchCommand, SwitchResult}
use xe6_tsy.Coordinator.{
  Coordinator, OperationRecord, Pending, Env, retention_limit, evict, remember, commit_pending,
  stay,
}
use xe6_tsy.Coordinator.Ring.{tail, rotate, contains}
use xe6_tsy.Coordinator.History.{remember_keeps}
use xe6_tsy.Coordinator.Window.{
  is_some, recent, enqueue, IsWindow, recent-remember, known-remember, IsWindow-same,
  IsWindow-commit_pending, IsWindow-stay,
}

contains-concat :
    (k : String) (xs ys : List String) → contains k (xs ++ ys) ≡ contains k xs || contains k ys
contains-concat k [] ys = refl
contains-concat k (x ∷ xs) ys = ground (arith, contains-concat k xs ys)

contains-drop :
    (k : String) (i : ℕ) (xs : List String)
    → contains k (drop i xs) || contains k (take i xs) ≡ contains k xs
contains-drop k zero xs = ground arith
contains-drop k (suc i) [] = refl
contains-drop k (suc i) (x ∷ xs) = ground (arith, contains-drop k i xs)

contains-rotate : (k : String) (i : ℕ) (xs : List String) → contains k (rotate i xs) ≡ contains k xs
contains-rotate k i xs = contains-concat k (drop i xs) (take i xs) ∙ contains-drop k i xs

contains_middle : (k : String) (xs ys : List String) → contains k (xs ++ k ∷ ys) ≡ true
contains_middle k xs ys = ground (arith, contains-concat k xs (k ∷ ys), str_eq_refl k)

-- What is queued next goes behind an operation that stays.
enqueue-behind :
    (k op : String) (older newer : List String)
    → length newer < 255
    → (kept : List String) × (enqueue k (older ++ op ∷ newer) ≡ kept ++ op ∷ (newer ++ k ∷ []))
enqueue-behind k op older newer h =
    elim (Bool-cases (ltb (length (older ++ op ∷ newer)) retention_limit)) [
      | inl e ↦ (older, rw e (append_assoc older (op ∷ newer) (k ∷ [])))
      | inr e ↦ full older e
    ]
  where
    full :
        (older : List String)
        → ltb (length (older ++ op ∷ newer)) retention_limit ≡ false
        → (kept : List String) × (enqueue k (older ++ op ∷ newer) ≡ kept ++ op ∷ (newer ++ k ∷ []))
    full [] e = absurd (ground (arith, h, e))
    full (x ∷ xs) e = (xs, rw e (append_assoc xs (op ∷ newer) (k ∷ [])))

pub enqueue-last :
    (k : String) (xs : List String) → (kept : List String) × (enqueue k xs ≡ kept ++ k ∷ [])
enqueue-last k xs = elim (Bool-cases (ltb (length xs) retention_limit)) [
  | inl e ↦ (xs, rw e refl)
  | inr e ↦ (tail xs, rw e refl)
]

-- A record of another operation that is still there is the same.
entry-remember :
    (op : String) (e : OperationRecord) (q : SwitchCommand) (r : SwitchResult) (c : Coordinator)
    → c.operations op ≡ some e
    → c.operations q.operation_id ≡ none
    → is_some ((remember q r c).operations op) ≡ true
    → (remember q r c).operations op ≡ some e
unfolding remember evict
entry-remember op e q r c h new k = ground (arith, h, new, k, str_eq_iff q.operation_id op)

remember-behind :
    (op : String) (e : OperationRecord) (older newer : List String) (q : SwitchCommand)
    (r : SwitchResult) (c : Coordinator)
    → IsWindow c
    → c.operations q.operation_id ≡ none
    → recent c ≡ older ++ op ∷ newer
    → c.operations op ≡ some e
    → length newer < 255
    → (kept : List String) × (recent (remember q r c) ≡ kept ++ op ∷ (newer ++ q.operation_id ∷ []))
      × ((remember q r c).operations op ≡ some e)
remember-behind op e older newer q r c w new place entry h =
    let (kept, queued) = enqueue-behind q.operation_id op older newer h in
    let next : recent (remember q r c) ≡ kept ++ op ∷ (newer ++ q.operation_id ∷ []) =
      recent-remember q r c w ∙ ap (enqueue q.operation_id) place ∙ queued in
    let there : contains op (remember q r c).operation_order ≡ true =
      sym (contains-rotate op (remember q r c).operation_cursor (remember q r c).operation_order)
      ∙ ap (contains op) next
      ∙ contains_middle op kept (newer ++ q.operation_id ∷ []) in
    (kept, next, entry-remember op e q r c entry new (sym (known-remember q r c w new op) ∙ there))

abbrev pub frozen : Option Pending → ℕ
frozen none = 0
frozen (some p) = 1

-- The operation is remembered, with at most `n` newer ones that are remembered or frozen.
pub record Retains (op : String) (e : OperationRecord) (n : ℕ) (c : Coordinator) : Type 0 where
  pub window : IsWindow c
  pub older : List String
  pub newer : List String
  pub place : recent c ≡ older ++ op ∷ newer
  pub room : length newer + frozen c.pending ≤ n
  pub entry : c.operations op ≡ some e

pub Retains-weaken :
    (op : String) (e : OperationRecord) (n m : ℕ) (c : Coordinator)
    → n ≤ m
    → Retains op e n c
    → Retains op e m c
Retains-weaken op e n m c l h = record {
  window = h.window;
  older = h.older;
  newer = h.newer;
  place = h.place;
  room = omega (arith, l, h.room);
  entry = h.entry;
}

pub commit-Retains :
    (op : String) (e : OperationRecord) (n : ℕ) (env : Env) (p : Pending) (c : Coordinator)
    → n < 256
    → Retains op e n c
    → c.pending ≡ some p
    → Retains op e n (commit_pending env p c).0
unfolding commit_pending
commit-Retains op e n env p c l h i = elim (Option-cases (env.publish p.event)) [
  | inr (why, f) ↦ rw (f, commit_pending) h
  | inl f ↦
      let fresh = rw i at h.window.fresh in
      let held : frozen c.pending ≡ 1 = ap frozen i in
      let (kept, next, there) =
        remember-behind op e h.older h.newer p.command p.result
          (record c { state = p.result.state })
          (IsWindow-same c _ refl refl refl h.window.fresh h.window) fresh.0 h.place h.entry
          (omega (arith, l, held, h.room)) in
      let window = IsWindow-commit_pending env p c h.window i in
      let window' = rw (f, commit_pending) at window in
      rw (f, commit_pending)
        (record {
          window = window';
          older = kept;
          newer = h.newer ++ p.command.operation_id ∷ [];
          place = next;
          room = omega (arith, length-append h.newer (p.command.operation_id ∷ []), held, h.room);
          entry = there;
        })
]

pub stay-Retains :
    (op : String) (e : OperationRecord) (n : ℕ) (env : Env) (q : SwitchCommand) (c : Coordinator)
    → n < 255
    → Retains op e n c
    → c.operations q.operation_id ≡ none
    → c.pending ≡ none
    → Retains op e (n + 1) (stay env.now q c).0
unfolding stay
stay-Retains op e n env q c l h new i =
    let (kept, next, there) =
      remember-behind op e h.older h.newer q _ (record c { state = _ })
        (IsWindow-same c _ refl refl refl h.window.fresh h.window) new h.place h.entry
        (omega (arith, l, h.room)) in
    let held : frozen (stay env.now q c).0.pending ≡ 0 = ap frozen ((remember_keeps q _ _).1 ∙ i) in
    record {
      window = IsWindow-stay env q c h.window new i;
      older = kept;
      newer = h.newer ++ q.operation_id ∷ [];
      place = next;
      room = omega (arith, length-append h.newer (q.operation_id ∷ []), held, h.room);
      entry = there;
    }
