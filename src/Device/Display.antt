-- ===== src/Device/Display.antt =====
-- sdks/device/state.go: an identity that was replaced is never shown again.
use xe6_tsy.Common.{
  ◌≡◌, ◌≢◌, refl, sym, ap, subst, ◌∙◌, Bool, true, false, not, ◌||◌, Option, none, some, String,
  List, [], ◌∷◌, ◌⊎◌, inl, inr, arith, str_eq, str_eq_iff, is_blank, ◌==◌, Bool-cases, Option-cases,
}
use xe6_tsy.Contract.Mode.{ModeState}
use xe6_tsy.Contract.Runtime.{RuntimeSnapshot}
use xe6_tsy.Device.{
  ConnectionSnapshot, valid_state, Slot, replaces, retire, apply, StateStore, connection_newer,
  connection_later, apply_connection, runtime_later, apply_runtime, mode_later, mode_newer,
  valid_mode_state, apply_mode, new_state_store, untouched,
}

module _ {A : Type 0} (identity : A → String) where
  -- What is shown was never replaced; before anything is shown nothing was.
  abbrev pub Fresh : Option A → (String → Bool) → Type 0
  Fresh none retired = (id : String) → retired id ≡ false
  Fresh (some x) retired = retired (identity x) ≡ false

  abbrev pub Current : Slot A → Type 0
  Current s = Fresh s.shown s.retired

  -- From one time to a later one: nothing comes back, and what was shown is still shown or retired.
  pub record Onward (s t : Slot A) : Type 0 where
    pub current : Current s → Current t
    pub keeps : (id : String) → s.retired id ≡ true → t.retired id ≡ true
    pub leaves :
        (x : A)
        → s.shown ≡ some x
        → (t.retired (identity x) ≡ true)
          ⊎ ((y : A) × (t.shown ≡ some y) × (identity y ≡ identity x))

  stay : (s : Slot A) → Onward s s
  stay s = record { current = λ h. h; keeps = λ id h. h; leaves = λ x h. inr (x, h, refl) }

  go_on : (s t u : Slot A) → Onward s t → Onward t u → Onward s u
  go_on s t u h k = record {
    current = λ z. k.current (h.current z);
    keeps = λ id z. k.keeps id (h.keeps id z);
    leaves = λ x z. elim (h.leaves x z) [
      | inl r ↦ inl (k.keeps (identity x) r)
      | inr (y, i, j) ↦ elim (k.leaves y i) [
        | inl r ↦ inl (subst (λ id. u.retired id ≡ true) j r)
        | inr (w, l, m) ↦ inr (w, l, m ∙ j)
      ]
    ];
  }

  replaced :
      (newer later : A → A → Bool) (previous next : A) (s : Slot A)
      → s.shown ≡ some previous
      → replaces identity newer later previous next s.retired ≡ true
      → Onward s (record {
        shown = some next;
        retired = retire identity newer later previous next s.retired;
      })
  unfolding replaces
  replaced newer later previous next s e f = record {
    current = λ h. ground (
      arith,
      f,
      subst (λ o. Fresh o s.retired) e h,
      str_eq_iff (identity previous) (identity next),
      λ (i : identity previous ≡ identity next). ap s.retired i,
    );
    keeps = λ id h. ground (arith, h);
    leaves = λ x h.
        let same : previous ≡ x = cc (sym e ∙ h) in
        elim (Bool-cases (str_eq (identity previous) (identity next))) [
          | inl g ↦ inr (
            next,
            refl,
            sym ((str_eq_iff (identity previous) (identity next)).0 g) ∙ ap identity same,
          )
          | inr g ↦ inl (
              ground (arith, g, (str_eq_iff (identity previous) (identity x)).1 (ap identity same)))
        ];
  }

  apply-Onward :
      (newer later : A → A → Bool) (next : A) (s : Slot A)
      → Onward s (apply identity newer later next s)
  unfolding apply
  apply-Onward newer later next s = elim (Option-cases s.shown) [
    | inl e ↦
        rw (e, apply)
          (record { current = λ h. h (identity next); keeps = λ id h. h; leaves = λ x h. cc h })
    | inr (previous, e) ↦
        elim (Bool-cases (replaces identity newer later previous next s.retired)) [
          | inr f ↦ simp (e, f, apply) (stay s)
          | inl f ↦ simp (e, f, apply) (replaced newer later previous next s e f)
        ]
  ]

  -- What two slots show that follow one another never comes back once it differs.
  never_back :
      (s t u : Slot A) (x y z : A)
      → Current s
      → Onward s t
      → Onward t u
      → s.shown ≡ some x
      → t.shown ≡ some y
      → u.shown ≡ some z
      → identity x ≢ identity y
      → identity z ≢ identity x
  never_back s t u x y z h a b i j k differ same = elim (a.leaves x i) [
    | inr (w, l, m) ↦ let e : w ≡ y = cc (l, j) in absurd (differ (sym m ∙ ap identity e))
    | inl r ↦
        let gone = b.keeps (identity x) r in
        let here = subst (λ o. Fresh o u.retired) k (b.current (a.current h)) in
        cc (gone, here, same)
  ]

pub data Observation : Type 0 where
  of_connection : ConnectionSnapshot → Observation
  of_runtime : RuntimeSnapshot → Observation
  of_mode : ModeState → Observation

unfoldable pub step : (String → Bool) → Observation → StateStore → StateStore
step blank (of_connection c) s = apply_connection c s
step blank (of_runtime r) s = apply_runtime blank r s
step blank (of_mode m) s = apply_mode blank m s

unfoldable pub run : (String → Bool) → List Observation → StateStore → StateStore
run blank [] s = s
run blank (o ∷ os) s = run blank os (step blank o s)

abbrev connection_of : ConnectionSnapshot → String
connection_of c = c.connection_id

abbrev operation_of : RuntimeSnapshot → String
operation_of r = r.start_operation_id

abbrev instance_of : ModeState → String
instance_of m = m.runtime_instance_id

-- From one time to a later one, for all three.
abbrev StoreOnward : StateStore → StateStore → Type 0
StoreOnward s t =
    Onward connection_of s.connection t.connection
    × Onward operation_of s.runtime t.runtime
    × Onward instance_of s.mode t.mode

step-StoreOnward :
    (blank : String → Bool) (o : Observation) (s : StateStore) → StoreOnward s (step blank o s)
unfolding step apply_connection apply_runtime apply_mode
step-StoreOnward blank (of_connection c) s =
    elim (Bool-cases (
      not (str_eq c.session_id s.session)
      || is_blank c.connection_id
      || not (valid_state c.state))) [
        | inl e ↦
            simp e (
              stay connection_of s.connection,
              stay operation_of s.runtime,
              stay instance_of s.mode,
            )
        | inr e ↦ simp e (
          apply-Onward connection_of connection_newer connection_later c s.connection,
          stay operation_of s.runtime,
          stay instance_of s.mode,
        )
      ]
step-StoreOnward blank (of_runtime r) s =
    elim (Bool-cases
      (not (str_eq r.session_id s.session) || blank r.start_operation_id || r.updated_at == 0)) [
        | inl e ↦
            simp e (
              stay connection_of s.connection,
              stay operation_of s.runtime,
              stay instance_of s.mode,
            )
        | inr e ↦ simp e (
          stay connection_of s.connection,
          apply-Onward operation_of runtime_later runtime_later r s.runtime,
          stay instance_of s.mode,
        )
      ]
step-StoreOnward blank (of_mode m) s =
    elim (Bool-cases
      (not (str_eq m.session_id s.session) || not (valid_mode_state blank m s.session))) [
        | inl e ↦
            simp e (
              stay connection_of s.connection,
              stay operation_of s.runtime,
              stay instance_of s.mode,
            )
        | inr e ↦ simp e (
          stay connection_of s.connection,
          stay operation_of s.runtime,
          apply-Onward instance_of mode_newer mode_later m s.mode,
        )
      ]

run-StoreOnward :
    (blank : String → Bool) (os : List Observation) (s : StateStore)
    → StoreOnward s (run blank os s)
unfolding run
run-StoreOnward blank [] s =
    (stay connection_of s.connection, stay operation_of s.runtime, stay instance_of s.mode)
run-StoreOnward blank (o ∷ os) s =
    let (a, b, c) = step-StoreOnward blank o s in
    let (x, y, z) = run-StoreOnward blank os (step blank o s) in
    (go_on connection_of _ _ _ a x, go_on operation_of _ _ _ b y, go_on instance_of _ _ _ c z)

new_mode :
    (blank : String → Bool) (session : String) (s : StateStore)
    → new_state_store blank session ≡ some s
    → Current instance_of s.mode
unfolding new_state_store
new_mode blank session s h = elim (Bool-cases (blank session)) [
  | inl e ↦ let k = simp e at h in cc k
  | inr e ↦
      let fresh : StateStore = record {
        session = session;
        connection = untouched;
        runtime = untouched;
        mode = untouched;
      } in
      let same : fresh ≡ s = cc (simp e at h) in
      subst (λ t. Current instance_of t.mode) same (λ id. refl)
]

-- Whatever observations come in whatever order, once a device shows another mode runtime than it did, it
-- never shows the old one again.
pub old_instance_gone :
    (blank : String → Bool) (session : String) (s : StateStore)
    (before between after : List Observation) (x y z : ModeState)
    → new_state_store blank session ≡ some s
    → (run blank before s).mode.shown ≡ some x
    → (run blank between (run blank before s)).mode.shown ≡ some y
    → x.runtime_instance_id ≢ y.runtime_instance_id
    → (run blank after (run blank between (run blank before s))).mode.shown ≡ some z
    → z.runtime_instance_id ≢ x.runtime_instance_id
old_instance_gone blank session s before between after x y z start i j differ k =
    never_back instance_of _ _ _ x y z
      ((run-StoreOnward blank before s).2.current (new_mode blank session s start))
      (run-StoreOnward blank between (run blank before s)).2
      (run-StoreOnward blank after (run blank between (run blank before s))).2 i j k differ
