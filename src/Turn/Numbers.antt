-- ===== src/Turn/Numbers.antt =====
-- What services/realtime-audio/pipeline/turn.go guarantees of the Turns that it opens.
use xe6_tsy.Common.{
  ℕ, ◌+◌, ◌<◌, ◌≤◌, ◌≡◌, ap, true, false, some, String, List, [], ◌∷◌, arith, length, incr,
  positive, str_eq_iff, is_blank, ◌⊎◌, sign_bit,
}
use xe6_tsy.Contract.Mode.{valid}
use xe6_tsy.Turn.{
  Turn, OpenEnv, OpenRequest, opened, Sequences, last_sequence, next, allocated_turn,
  capture_config, capture_mode, valid_language_config, open_turn, found,
}

module _ (trim_space : String → String) (turn_id : String → ℕ → String) where
  -- What an opened Turn holds, by the request, the readers' answers and the counter before.
  pub record IsOpened (env : OpenEnv) (request : OpenRequest) (before : Sequences) (t : Turn)
      : Type 0 where
    pub numbered : t.sequence_no ≡ incr (last_sequence (before request.session_id))
    pub named : t.id ≡ turn_id request.session_id t.sequence_no
    pub session : t.session_id ≡ request.session_id
    pub session_given : is_blank request.session_id ≡ false
    pub config_read : env.config ≡ found t.language_config
    pub config_session : t.language_config.session_id ≡ request.session_id
    pub config_valid : valid_language_config trim_space t.language_config ≡ true
    pub mode_read : env.mode ≡ found t.mode
    pub mode_session : t.mode.session_id ≡ request.session_id
    pub mode_instance : is_blank t.mode.runtime_instance_id ≡ false
    pub mode_valid : valid t.mode.mode ≡ true
    pub mode_generation : positive t.mode.generation ≡ true

  -- A Turn that opens took the next number of its session, and holds the configuration and the mode
  -- that the readers gave, both of its own session and both checked.
  pub open_turn-IsOpened :
      (env : OpenEnv) (request : OpenRequest) (before after : Sequences) (t : Turn)
      → open_turn trim_space turn_id env request before ≡ (after, opened t)
      → IsOpened env request before t
  unfolding open_turn allocated_turn capture_config capture_mode next
  open_turn-IsOpened env request before after t h = ground (
    arith,
    str_eq_iff t.language_config.session_id request.session_id,
    str_eq_iff t.mode.session_id request.session_id,
  )

  -- The counters after an attempt: only an attempt of the session with a live context moves its
  -- counter, by one, also when the Turn then fails to open.
  pub open_turn-sequences :
      (env : OpenEnv) (request : OpenRequest) (before : Sequences) (k : String)
      → let after = (open_turn trim_space turn_id env request before).0 in
        ((after k ≡ before k)
          ⊎ ((k ≡ request.session_id) × (after k ≡ some (incr (last_sequence (before k))))))
  unfolding open_turn allocated_turn next
  open_turn-sequences env request before k = ground (arith, str_eq_iff request.session_id k)

  -- Attempts one after the other.
  unfoldable pub open_all : List (OpenEnv × OpenRequest) → Sequences → Sequences
  open_all [] sequences = sequences
  open_all ((env, request) ∷ rest) sequences =
      open_all rest (open_turn trim_space turn_id env request sequences).0

  open_turn-grows :
      (env : OpenEnv) (request : OpenRequest) (before : Sequences) (k : String)
      → last_sequence (before k) + 1 < sign_bit
      → (last_sequence (before k)
          ≤ last_sequence ((open_turn trim_space turn_id env request before).0 k))
        × (last_sequence ((open_turn trim_space turn_id env request before).0 k)
            ≤ last_sequence (before k) + 1)
  open_turn-grows env request before k small =
      ground (arith, open_turn-sequences env request before k)

  open_all-grows :
      (calls : List (OpenEnv × OpenRequest)) (before : Sequences) (k : String)
      → last_sequence (before k) + length calls < sign_bit
      → (last_sequence (before k) ≤ last_sequence (open_all calls before k))
        × (last_sequence (open_all calls before k) ≤ last_sequence (before k) + length calls)
  unfolding open_all
  open_all-grows [] before k small = omega arith
  open_all-grows ((env, request) ∷ rest) before k small =
      let now = open_turn-grows env request before k (omega arith) in
      omega (
        arith,
        now,
        open_all-grows rest (open_turn trim_space turn_id env request before).0 k
            (omega (arith, now)),
      )

  opened_counter :
      (env : OpenEnv) (request : OpenRequest) (before after : Sequences) (t : Turn)
      → open_turn trim_space turn_id env request before ≡ (after, opened t)
      → after request.session_id ≡ some t.sequence_no
  unfolding open_turn allocated_turn capture_config capture_mode next
  opened_counter env request before after t h =
      ground (arith, str_eq_iff request.session_id request.session_id)

  -- Of two Turns of one session the later one has the larger number, whatever was attempted between
  -- them, while the counter stays below 2 ^ 63.
  pub later_turn_number :
      (env env' : OpenEnv) (request request' : OpenRequest) (before after last : Sequences)
      (t t' : Turn) (between : List (OpenEnv × OpenRequest))
      → open_turn trim_space turn_id env request before ≡ (after, opened t)
      → open_turn trim_space turn_id env' request' (open_all between after) ≡ (last, opened t')
      → request'.session_id ≡ request.session_id
      → last_sequence (before request.session_id) + length between + 2 < sign_bit
      → t.sequence_no < t'.sequence_no
  later_turn_number env env' request request' before after last t t' between h h' same small =
      let first = (open_turn-IsOpened env request before after t h).numbered in
      let second =
        rw same at
          (open_turn-IsOpened env' request' (open_all between after) last t' h').numbered in
      let counter = ap last_sequence (opened_counter env request before after t h) in
      omega (
        arith,
        first,
        second,
        counter,
        open_all-grows between after request.session_id (omega (arith, first, counter)),
      )
