-- ===== src/Coordinator/Window.antt =====
-- The replay window of services/realtime-audio/runtime/mode.go is a bounded queue of operations.
use xe6_tsy.Common.{
  ℕ, zero, suc, ◌+◌, ◌%◌, ◌<◌, ◌≤◌, ◌≡◌, refl, sym, ap, ◌∙◌, Bool, true, false, Option, none, some,
  String, List, [], ◌∷◌, ◌++◌, append-nil, arith, ltb, length, length-append, length-set, set, take,
  drop, str_eq_iff, Bool-cases, Option-cases, inl, inr, if◌then◌else◌, Map, empty,
}
use xe6_tsy.Contract.Mode.{Mode, SwitchCommand, SwitchResult}
use xe6_tsy.Coordinator.{
  Coordinator, OperationRecord, Pending, Env, ok, retention_limit, evict, remember, commit_pending,
  prepare, stay, new, switch, run,
}
use xe6_tsy.Coordinator.Ring.{
  tail, rotate, rotate-set, rotate-length, get_elem?-total, contains, Distinct, contains-append,
  Distinct-append, contains-set, Distinct-set,
}
use xe6_tsy.Coordinator.Induction.{switch_rule}
use xe6_tsy.Coordinator.History.{remember_keeps}

abbrev pub is_some {ℓ} : {A : Type ℓ} → Option A → Bool
is_some none = false
is_some (some a) = true

-- The remembered operations, the oldest first.
abbrev pub recent : Coordinator → List String
recent c = rotate c.operation_cursor c.operation_order

-- A queue of at most `retention_limit` entries that forgets the oldest.
abbrev pub enqueue : String → List String → List String
enqueue k ks = if ltb (length ks) retention_limit then ks ++ k ∷ [] else tail ks ++ k ∷ []

abbrev pub IsFiled : Map OperationRecord → Type 0
IsFiled m =
    (k : String) (e : OperationRecord)
    → m k ≡ some e
    → (e.command.operation_id ≡ k) × (e.result.operation_id ≡ k)

abbrev pub IsFresh : Map OperationRecord → Option Pending → Type 0
IsFresh m none = Unit {0}
IsFresh m (some p) =
    (m p.command.operation_id ≡ none) × (p.result.operation_id ≡ p.command.operation_id)

pub record IsWindow (c : Coordinator) : Type 0 where
  -- The ring fits its bound, and its cursor moves only once it is full.
  pub bounded : length c.operation_order ≤ retention_limit
  pub cursor_bounded : c.operation_cursor < retention_limit
  pub cursor_idle : length c.operation_order < retention_limit → c.operation_cursor ≡ 0
  -- The ring names each operation of the map once, and no other.
  pub distinct : Distinct c.operation_order
  pub known : (k : String) → contains k c.operation_order ≡ is_some (c.operations k)
  -- An operation is filed under its own name, and a frozen one is not filed yet.
  pub filed : IsFiled c.operations
  pub fresh : IsFresh c.operations c.pending

length-rotate : (i : ℕ) (xs : List String) → length (rotate i xs) ≡ length xs
length-rotate zero xs = ap length (append-nil xs)
length-rotate (suc i) [] = refl
length-rotate (suc i) (x ∷ xs) = omega (
  arith,
  length-append (drop i xs) (x ∷ take i xs),
  length-append (drop i xs) (take i xs),
  length-rotate i xs,
)

full_index :
    (c : Coordinator)
    → IsWindow c
    → ltb (length c.operation_order) retention_limit ≡ false
    → length c.operation_order ≡ retention_limit
full_index c w e = ground (arith, w.bounded)

recent_full :
    (c : Coordinator) (v : String)
    → IsWindow c
    → length c.operation_order ≡ retention_limit
    → rotate
        ((c.operation_cursor + 1) % retention_limit)
        (set c.operation_order c.operation_cursor v)
      ≡ tail (recent c) ++ v ∷ []
recent_full c v w e = elim (Bool-cases (ltb (c.operation_cursor + 1) retention_limit)) [
  | inl low ↦
      let next : (c.operation_cursor + 1) % retention_limit ≡ suc c.operation_cursor =
        ground arith in
      rw next (rotate-set c.operation_order c.operation_cursor v (omega (arith, w.cursor_bounded)))
  | inr high ↦
      let next : (c.operation_cursor + 1) % retention_limit ≡ 0 =
        ground (arith, w.cursor_bounded) in
      let end : suc c.operation_cursor ≡ retention_limit = ground (arith, w.cursor_bounded) in
      rw
        (
          next,
          ← rotate-length (set c.operation_order c.operation_cursor v) (suc c.operation_cursor)
              (length-set c.operation_order c.operation_cursor v ∙ e ∙ sym end),
        )
        (rotate-set c.operation_order c.operation_cursor v (omega (arith, w.cursor_bounded)))
]

-- Remembering an operation adds it to the queue of remembered operations: the newest comes last, and
-- once 256 are remembered the oldest is forgotten.
pub recent-remember :
    (q : SwitchCommand) (r : SwitchResult) (c : Coordinator)
    → IsWindow c
    → recent (remember q r c) ≡ enqueue q.operation_id (recent c)
unfolding remember
recent-remember q r c w = elim (Bool-cases (ltb (length c.operation_order) retention_limit)) [
  | inl low ↦
      let idle : c.operation_cursor ≡ 0 = w.cursor_idle (ground arith) in
      rw (length-rotate c.operation_cursor c.operation_order, low, remember)
        (rw (idle, append-nil c.operation_order)
          (append-nil (c.operation_order ++ q.operation_id ∷ [])))
  | inr full ↦
      rw (length-rotate c.operation_cursor c.operation_order, full, remember)
        (recent_full c q.operation_id w (full_index c w full))
]

pub known-remember :
    (q : SwitchCommand) (r : SwitchResult) (c : Coordinator)
    → IsWindow c
    → c.operations q.operation_id ≡ none
    → (k : String)
    → contains k (remember q r c).operation_order ≡ is_some ((remember q r c).operations k)
unfolding remember evict
known-remember q r c w new k = elim (Bool-cases (ltb (length c.operation_order) retention_limit)) [
  | inl low ↦
      rw (low, remember)
        (ground (arith, contains-append k q.operation_id c.operation_order, w.known k))
  | inr full ↦
      let (e, found) =
        get_elem?-total c.operation_order c.operation_cursor
          (omega (arith, full_index c w full, w.cursor_bounded)) in
      rw (full, remember, found)
        (ground (
          arith,
          contains-set k q.operation_id e c.operation_order c.operation_cursor w.distinct found,
          w.known k,
        ))
]

Distinct-remember :
    (q : SwitchCommand) (r : SwitchResult) (c : Coordinator)
    → IsWindow c
    → c.operations q.operation_id ≡ none
    → Distinct (remember q r c).operation_order
unfolding remember
Distinct-remember q r c w new =
    let absent : contains q.operation_id c.operation_order ≡ false =
      ground (arith, w.known q.operation_id) in
    elim (Bool-cases (ltb (length c.operation_order) retention_limit)) [
      | inl low ↦
          rw (low, remember) (Distinct-append q.operation_id c.operation_order absent w.distinct)
      | inr full ↦
          rw (full, remember)
            (Distinct-set q.operation_id c.operation_order c.operation_cursor absent w.distinct)
    ]

IsFiled-remember :
    (q : SwitchCommand) (r : SwitchResult) (c : Coordinator)
    → IsFiled c.operations
    → r.operation_id ≡ q.operation_id
    → IsFiled (remember q r c).operations
unfolding remember evict
IsFiled-remember q r c w same k e h = ground (arith, w k e, str_eq_iff q.operation_id k)

IsWindow-remember :
    (q : SwitchCommand) (r : SwitchResult) (c : Coordinator)
    → IsWindow c
    → c.operations q.operation_id ≡ none
    → r.operation_id ≡ q.operation_id
    → IsWindow (record (remember q r c) { pending = none })
IsWindow-remember q r c w new same = record {
  bounded =
      unfold remember in
      ground (
        arith,
        w.bounded,
        length-append c.operation_order (q.operation_id ∷ []),
        length-set c.operation_order c.operation_cursor q.operation_id,
      );
  cursor_bounded = unfold remember in ground (arith, w.cursor_bounded);
  cursor_idle =
      unfold remember in
      ground (
        arith,
        w.cursor_idle,
        length-append c.operation_order (q.operation_id ∷ []),
        length-set c.operation_order c.operation_cursor q.operation_id,
      );
  distinct = Distinct-remember q r c w new;
  known = known-remember q r c w new;
  filed = IsFiled-remember q r c w.filed same;
  fresh = tt;
}

-- The window reads the ring, the map and the frozen transition only.
pub IsWindow-same :
    (c d : Coordinator)
    → d.operations ≡ c.operations
    → d.operation_order ≡ c.operation_order
    → d.operation_cursor ≡ c.operation_cursor
    → IsFresh c.operations d.pending
    → IsWindow c
    → IsWindow d
IsWindow-same c d m o i fresh w = record {
  bounded = rw o w.bounded;
  cursor_bounded = rw i w.cursor_bounded;
  cursor_idle = rw (o, i) w.cursor_idle;
  distinct = rw o w.distinct;
  known = rw (m, o) w.known;
  filed = rw m w.filed;
  fresh = rw m fresh;
}

pub IsWindow-commit_pending :
    (env : Env) (p : Pending) (c : Coordinator)
    → IsWindow c
    → c.pending ≡ some p
    → IsWindow (commit_pending env p c).0
unfolding commit_pending
IsWindow-commit_pending env p c w i = elim (Option-cases (env.publish p.event)) [
  | inr (why, e) ↦ rw (e, commit_pending) w
  | inl e ↦
      let fresh = rw i at w.fresh in
      rw (e, commit_pending)
        (IsWindow-same _ _ refl refl refl tt (
          IsWindow-remember p.command p.result (record c { state = p.result.state })
            (IsWindow-same c _ refl refl refl w.fresh w) fresh.0 fresh.1))
]

pub IsWindow-stay :
    (env : Env) (q : SwitchCommand) (c : Coordinator)
    → IsWindow c
    → c.operations q.operation_id ≡ none
    → c.pending ≡ none
    → IsWindow (stay env.now q c).0
unfolding stay
IsWindow-stay env q c w new i =
    IsWindow-same _ _ refl refl refl (rw ((remember_keeps q _ _).1, i) tt)
      (IsWindow-remember q _ _ (IsWindow-same c _ refl refl refl w.fresh w) new refl)

-- Every call of `Switch` keeps the replay window in order: the ring holds at most 256 operations and
-- its cursor stays inside, it names exactly the operations of the map, each once, every record is
-- filed under its own operation, and a frozen transition is not yet remembered.
pub switch-IsWindow :
    (sha256_hex : String → String) (env : Env) (q : SwitchCommand) (c : Coordinator)
    → IsWindow c
    → IsWindow (switch sha256_hex env q c).0
unfolding prepare
switch-IsWindow sha256_hex env q c h =
    switch_rule sha256_hex env q IsWindow (λ a. IsWindow a.0) (λ e c w. w) (λ previous c w u e. w)
      (λ p c w i d. IsWindow-commit_pending env p c w i)
      (λ p c w i e. IsWindow-commit_pending env p c w i)
      (λ c w u i e f g k. IsWindow-same c _ refl refl refl (u, refl) w)
      (λ c w u i e f g k. IsWindow-stay env q c w u i) c (λ e. h) (λ f k. h)

run-IsWindow :
    (sha256_hex : String → String) (calls : List (Env × SwitchCommand)) (c : Coordinator)
    → IsWindow c
    → IsWindow (run sha256_hex calls c)
unfolding run
run-IsWindow sha256_hex [] c w = w
run-IsWindow sha256_hex ((env, q) ∷ rest) c w =
    run-IsWindow sha256_hex rest (switch sha256_hex env q c).0
      (switch-IsWindow sha256_hex env q c w)

new_window :
    (session_id instance_id : String) (m : Mode) (modes : List Mode) (wired : Bool) (now : ℕ)
    (c : Coordinator)
    → new session_id instance_id m modes wired now ≡ ok c
    → (c.operations ≡ empty)
      × (c.operation_order ≡ [])
      × (c.operation_cursor ≡ 0)
      × (c.pending ≡ none)
unfolding new
new_window session_id instance_id m modes wired now c h = ground arith

pub new-IsWindow :
    (session_id instance_id : String) (m : Mode) (modes : List Mode) (wired : Bool) (now : ℕ)
    (c : Coordinator)
    → new session_id instance_id m modes wired now ≡ ok c
    → IsWindow c
new-IsWindow session_id instance_id m modes wired now c h =
    let (m, o, i, p) = new_window session_id instance_id m modes wired now c h in
    record {
      bounded = rw o (omega arith);
      cursor_bounded = rw i (omega arith);
      cursor_idle = λ l. i;
      distinct = rw o tt;
      known = rw (m, o) (λ k. refl);
      filed = rw m (λ k e f. cc);
      fresh = rw p tt;
    }
