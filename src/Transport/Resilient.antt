-- ===== src/Transport/Resilient.antt =====
-- `makeResilientSend` of src/transport/send-class.ts: a send that waits out a transient disconnect.
-- Durations are milliseconds; the backoff rate is a natural number.
pub mod Budget
use ezra.Common.{
  ℕ, zero, suc, ◌+◌, ◌*◌, min, String, Bool, true, false, not, ◌||◌, Option, none, some, List, [],
  ◌∷◌, leb, if◌then◌else◌, Attempt, returned, threw,
}
use ezra.Transport.SendClass.{is_transient_send_error}

pub record ResilientSendConfig : Type 0 where
  pub max_elapsed_ms : ℕ
  pub base_delay_ms : ℕ
  pub backoff_rate : ℕ
  pub max_delay_ms : ℕ

abbrev pub default_resilient_send_config : ResilientSendConfig
default_resilient_send_config = record {
  max_elapsed_ms = 300_000;
  base_delay_ms = 500;
  backoff_rate = 2;
  max_delay_ms = 5_000;
}

-- How a call ends, what it slept, and the world after it.
pub record Sending (W : Type 0) : Type 0 where
  pub result : Attempt String
  pub sleeps : List ℕ
  pub world : W

abbrev pub slept : {W : Type 0} → ℕ → Option (Sending W) → Option (Sending W)
slept delay none = none
slept delay (some s) = some (record s { sleeps = delay ∷ s.sleeps })

-- The `catch` of one attempt: `again` is the rest of the loop.
unfoldable pub take_send :
    {W : Type 0}
    → ResilientSendConfig
    → ℕ
    → (String → W → Option (Sending W))
    → Attempt String × W
    → Option (Sending W)
take_send config elapsed again (returned id, w) =
    some (record { result = returned id; sleeps = []; world = w })
take_send config elapsed again (threw error, w) =
    if not (is_transient_send_error error) || leb config.max_elapsed_ms elapsed
    then some (record { result = threw error; sleeps = []; world = w })
    else again error w

module _ {W : Type 0} (config : ResilientSendConfig) (send : W → Attempt String × W)
    (on_retry : ℕ → ℕ → ℕ → String → W → W) where
  -- The loop from one attempt on. `none`: out of fuel.
  unfoldable pub send_loop : ℕ → ℕ → ℕ → ℕ → W → Option (Sending W)
  unfolding take_send
  send_loop zero attempt delay elapsed w = none
  send_loop (suc fuel) attempt delay elapsed w =
      take_send config elapsed
        (λ error w'. slept delay (
          send_loop fuel (suc attempt) (min (delay * config.backoff_rate) config.max_delay_ms)
            (elapsed + delay) (on_retry attempt delay elapsed error w')))
        (send w)

  -- Every retry sleeps at least a millisecond, so the budget bounds the rounds.
  unfoldable pub resilient_send : W → Option (Sending W)
  unfolding send_loop
  resilient_send w = send_loop (config.max_elapsed_ms + 2) 1 config.base_delay_ms 0 w
