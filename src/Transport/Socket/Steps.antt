-- ===== src/Transport/Socket/Steps.antt =====
-- The adapter of src/transport/baileys.ts among its sockets, timers and promises.
use ezra.Common.{ℕ, suc, Bool, Option, some, List, ◌∷◌, ◌++◌, ◌≡◌}
use ezra.Transport.Socket.{
  Adapter, InFlight, connect, force_reconnect, disconnect, on_created, on_rejected,
  on_connect_timeout, on_woken, on_fell_forward, on_opened, on_closed,
}

-- What happens next: a call of the transport, or something that is under way comes due. Sockets may
-- speak up at any time, also those that the adapter has walked away from.
pub data Step (max_attempts : ℕ) (s : Adapter) : Adapter → Type 0 where
  connects : Step max_attempts s (connect s)
  reconnects : Step max_attempts s (force_reconnect s)
  disconnects : Step max_attempts s (disconnect s)
  created :
      (c : InFlight) (before after : List InFlight)
      → s.in_flight ≡ before ++ c ∷ after
      → Step max_attempts s (on_created c.id (record s { in_flight = before ++ after }))
  rejected :
      (delay : ℕ → ℕ) (c : InFlight) (before after : List InFlight)
      → s.in_flight ≡ before ++ c ∷ after
      → Step max_attempts s
          (on_rejected max_attempts delay c.background (record s { in_flight = before ++ after }))
  timed_out :
      (delay : ℕ → ℕ) (id : ℕ)
      → s.watchdog ≡ some id
      → Step max_attempts s (on_connect_timeout max_attempts delay id s)
  woken : (n : ℕ) → s.sleeping ≡ suc n → Step max_attempts s (on_woken (record s { sleeping = n }))
  fell_forward :
      (delay : ℕ → ℕ) (adopted : Bool) (code : Option ℕ) (before after : List (Option ℕ))
      → s.falling ≡ before ++ code ∷ after
      → Step max_attempts s
          (on_fell_forward max_attempts delay code adopted (record s { falling = before ++ after }))
  opened : (id : ℕ) → Step max_attempts s (on_opened id s)
  closes :
      (delay : ℕ → ℕ) (id : ℕ) (code : Option ℕ)
      → Step max_attempts s (on_closed max_attempts delay id code s)

pub data Reach (max_attempts : ℕ) (s : Adapter) : Adapter → Type 0 where
  here : Reach max_attempts s s
  next : {t u : Adapter} → Reach max_attempts s t → Step max_attempts t u → Reach max_attempts s u
