-- ===== src/Transport/Resilient/Budget.antt =====
-- The retry loop ends within its budget, and gives up only for a reason.
use ezra.Common.{
  ℕ, zero, suc, ◌+◌, ◌*◌, ◌≤◌, ◌<◌, min, String, false, not, ◌||◌, Option, some, List, [], ◌∷◌, leb,
  Attempt, returned, threw, ◌≡◌, refl, ◌⊎◌, subst, inl, inr, arith, Bool-cases,
}
use ezra.Transport.SendClass.{is_transient_send_error}
use ezra.Transport.Resilient.{
  ResilientSendConfig, Sending, slept, take_send, send_loop, resilient_send,
}

abbrev pub sum : List ℕ → ℕ
sum [] = 0
sum (x ∷ xs) = x + sum xs

-- Each delay is between one millisecond and the cap.
pub record IsSane (config : ResilientSendConfig) : Type 0 where
  pub base_positive : 1 ≤ config.base_delay_ms
  pub base_capped : config.base_delay_ms ≤ config.max_delay_ms
  pub rate_positive : 1 ≤ config.backoff_rate

module _ {W : Type 0} (config : ResilientSendConfig) (send : W → Attempt String × W)
    (on_retry : ℕ → ℕ → ℕ → String → W → W) where
  -- Why a call that slept `elapsed` gave up, if it did.
  abbrev pub GivenUp : ℕ → Attempt String → Type 0
  GivenUp elapsed (returned id) = Unit
  GivenUp elapsed (threw error) =
      (is_transient_send_error error ≡ false) ⊎ (config.max_elapsed_ms ≤ elapsed)

  -- A call that ended, having slept `elapsed` before.
  pub record Ends (elapsed : ℕ) (o : Option (Sending W)) : Type 0 where
    pub sending : Sending W
    pub ended : o ≡ some sending
    pub bounded : elapsed + sum sending.sleeps ≤ config.max_elapsed_ms + config.max_delay_ms
    pub given_up : GivenUp (elapsed + sum sending.sleeps) sending.result

  GivenUp-same : (a b : ℕ) (r : Attempt String) → a ≡ b → GivenUp a r → GivenUp b r
  GivenUp-same a b r e g = subst (λ n. GivenUp n r) e g

  slept-Ends :
      (delay elapsed : ℕ) (o : Option (Sending W))
      → Ends (elapsed + delay) o
      → Ends elapsed (slept delay o)
  slept-Ends delay elapsed o e = record {
    sending = record (e.sending) { sleeps = delay ∷ e.sending.sleeps };
    ended = rw e.ended;
    bounded = omega (arith, e.bounded);
    given_up =
        GivenUp-same (elapsed + delay + sum e.sending.sleeps)
          (elapsed + (delay + sum e.sending.sleeps)) e.sending.result (omega arith) e.given_up;
  }

  next-delay : (delay rate cap : ℕ) → 1 ≤ delay → 1 ≤ rate → 1 ≤ cap → 1 ≤ min (delay * rate) cap
  next-delay delay rate cap d r c = grind arith

  stopped-Ends :
      (elapsed : ℕ) (r : Attempt String) (w : W)
      → elapsed ≤ config.max_elapsed_ms + config.max_delay_ms
      → GivenUp elapsed r
      → Ends elapsed (some (record { result = r; sleeps = []; world = w }))
  stopped-Ends elapsed r w b why = record {
    sending = record { result = r; sleeps = []; world = w };
    ended = refl;
    bounded = omega arith;
    given_up = GivenUp-same elapsed (elapsed + 0) r (omega arith) why;
  }

  take_send-Ends :
      (elapsed : ℕ) (again : String → W → Option (Sending W)) (r : Attempt String × W)
      → elapsed ≤ config.max_elapsed_ms + config.max_delay_ms
      → (elapsed < config.max_elapsed_ms → (error : String) (w : W) → Ends elapsed (again error w))
      → Ends elapsed (take_send config elapsed again r)
  unfolding take_send
  take_send-Ends elapsed again (returned id, w) b later = stopped-Ends elapsed _ w b tt
  take_send-Ends elapsed again (threw error, w) b later =
      elim (Bool-cases (not (is_transient_send_error error) || leb config.max_elapsed_ms elapsed)) [
        | inl stop ↦ rw stop (stopped-Ends elapsed _ w b (ground arith))
        | inr on ↦ rw on (later (ground arith) error w)
      ]

  send_loop-Ends :
      (fuel attempt delay elapsed : ℕ) (w : W)
      → IsSane config
      → 1 ≤ delay
      → delay ≤ config.max_delay_ms
      → 1 ≤ fuel
      → config.max_elapsed_ms + 1 ≤ elapsed + fuel
      → elapsed ≤ config.max_elapsed_ms + config.max_delay_ms
      → Ends elapsed (send_loop config send on_retry fuel attempt delay elapsed w)
  unfolding send_loop
  send_loop-Ends zero attempt delay elapsed w sane d c f m b = absurd (omega arith)
  send_loop-Ends (suc fuel) attempt delay elapsed w sane d c f m b =
      take_send-Ends elapsed _ (send w) b (λ early error w'. slept-Ends delay elapsed _ (
        send_loop-Ends fuel (suc attempt) (min (delay * config.backoff_rate) config.max_delay_ms)
          (elapsed + delay) (on_retry attempt delay elapsed error w') sane
          (next-delay delay config.backoff_rate config.max_delay_ms d sane.rate_positive
            (omega arith))
          (omega arith) (omega arith) (omega arith) (omega arith)))

  -- With sane delays the loop ends within its fuel, having slept no longer than the budget and one
  -- more delay, and it throws only an error that is not transient, or after the whole budget.
  pub resilient_send-Ends : IsSane config → (w : W) → Ends 0 (resilient_send config send on_retry w)
  unfolding resilient_send
  resilient_send-Ends sane w =
      send_loop-Ends (config.max_elapsed_ms + 2) 1 config.base_delay_ms 0 w sane sane.base_positive
        sane.base_capped (omega arith) (omega arith) (omega arith)
