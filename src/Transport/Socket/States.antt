-- ===== src/Transport/Socket/States.antt =====
-- What a change of the state changes, and what it leaves alone.
use ezra.Common.{true, [], ◌∷◌, ◌++◌, ◌≡◌, refl, inl, inr, arith, Bool-cases}
use ezra.Ops.Health.{TransportState, open_state, connecting, closed, logged_out}
use ezra.Transport.Socket.{Adapter, set_state, answer_waiters, same_state}

-- What a change of the state leaves alone.
pub record Unmoved (s t : Adapter) : Type 0 where
  pub intentional_close : t.intentional_close ≡ s.intentional_close
  pub retry_attempts : t.retry_attempts ≡ s.retry_attempts
  pub connect_attempt : t.connect_attempt ≡ s.connect_attempt
  pub watchdog : t.watchdog ≡ s.watchdog
  pub in_flight : t.in_flight ≡ s.in_flight
  pub sleeping : t.sleeping ≡ s.sleeping
  pub falling : t.falling ≡ s.falling
  pub reports : t.reports ≡ s.reports

answer_waiters-Unmoved : (state : TransportState) (s : Adapter) → Unmoved s (answer_waiters state s)
unfolding answer_waiters
answer_waiters-Unmoved open_state s = ground arith
answer_waiters-Unmoved connecting s = ground arith
answer_waiters-Unmoved closed s = ground arith
answer_waiters-Unmoved logged_out s = ground arith

pub set_state-Unmoved : (state : TransportState) (s : Adapter) → Unmoved s (set_state state s)
unfolding set_state
set_state-Unmoved state s = elim (Bool-cases (same_state state s.state)) [
  | inl e ↦ rw e (ground arith)
  | inr e ↦ rw e (
      ground (
        arith,
        answer_waiters-Unmoved state (record s { state = state; told = s.told ++ state ∷ [] }),
      ))
]

same_state-eq : (a b : TransportState) → same_state a b ≡ true → b ≡ a
same_state-eq open_state open_state h = refl
same_state-eq connecting connecting h = refl
same_state-eq closed closed h = refl
same_state-eq logged_out logged_out h = refl
same_state-eq open_state b h = ground arith
same_state-eq connecting b h = ground arith
same_state-eq closed b h = ground arith
same_state-eq logged_out b h = ground arith

answer_waiters-state :
    (state : TransportState) (s : Adapter) → (answer_waiters state s).state ≡ s.state
unfolding answer_waiters
answer_waiters-state open_state s = refl
answer_waiters-state connecting s = refl
answer_waiters-state closed s = refl
answer_waiters-state logged_out s = refl

pub set_state-state : (state : TransportState) (s : Adapter) → (set_state state s).state ≡ state
unfolding set_state
set_state-state state s = elim (Bool-cases (same_state state s.state)) [
  | inl e ↦ rw e (same_state-eq state s.state e)
  | inr e ↦
      rw e (answer_waiters-state state (record s { state = state; told = s.told ++ state ∷ [] }))
]
