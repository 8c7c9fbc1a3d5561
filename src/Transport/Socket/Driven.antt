-- ===== src/Transport/Socket/Driven.antt =====
-- A connection that is being made is never forgotten: something under way will come back to it.
use ezra.Common.{
  ◌≢◌, ◌∙◌, ℕ, suc, Bool, true, false, Option, none, some, List, ◌∷◌, ltb, ◌==◌, ◌≡◌, refl, inl,
  inr, ap, sym, Bool-cases,
}
use ezra.Ops.Health.{TransportState, open_state, connecting, closed, logged_out}
use ezra.Transport.Content.{
  DisconnectAction, re_pair, restart, retry, version_rejected, classify_disconnect,
}
use ezra.Transport.Socket.States.{set_state-Unmoved, set_state-state}
use ezra.Transport.Socket.{
  disconnected, connect_timeout, connect_failed, Adapter, new_adapter, set_state, start_socket,
  schedule_retry, on_connect_timeout, act_on, handle_close, on_fell_forward, on_woken, on_created,
  on_rejected, on_opened, on_closed, connect, force_reconnect, disconnect, RetryReason,
}
use ezra.Transport.Socket.Steps.{
  Step, Reach, here, next, connects, reconnects, disconnects, created, rejected, timed_out, woken,
  fell_forward, opened, closes,
}

-- The watchdog of the attempt is set, a backoff sleeps, or the version source is being asked.
pub data Drives (s : Adapter) : Type 0 where
  watched : s.watchdog ≡ some s.connect_attempt → Drives s
  sleeps : (n : ℕ) → s.sleeping ≡ suc n → Drives s
  asks : (code : Option ℕ) (rest : List (Option ℕ)) → s.falling ≡ code ∷ rest → Drives s

abbrev pub IsDriven : Adapter → Type 0
IsDriven s = s.state ≡ connecting → s.intentional_close ≡ false → Drives s

start_socket-IsDriven : (background : Bool) (s : Adapter) → IsDriven (start_socket background s)
unfolding start_socket
start_socket-IsDriven background s _ _ =
    watched (ap some (sym (set_state-Unmoved connecting _).connect_attempt))

-- A step that leaves what drives the connection alone.
carried :
    (s t : Adapter)
    → t.watchdog ≡ s.watchdog
    → t.connect_attempt ≡ s.connect_attempt
    → t.sleeping ≡ s.sleeping
    → t.falling ≡ s.falling
    → Drives s
    → Drives t
carried s t w c n f (watched e) = watched (rw (w, c) e)
carried s t w c n f (sleeps k e) = sleeps k (rw n e)
carried s t w c n f (asks code rest e) = asks code rest (rw f e)

resting : (state : TransportState) (s : Adapter) → state ≢ connecting → IsDriven (set_state state s)
resting state s ne now _ = absurd (ne (sym (sym now ∙ set_state-state state s)))

module _ (max_attempts : ℕ) (delay : ℕ → ℕ) where
  schedule_retry-IsDriven :
      (code : Option ℕ) (reason : RetryReason) (s : Adapter)
      → IsDriven (schedule_retry max_attempts delay code reason s)
  unfolding schedule_retry
  schedule_retry-IsDriven code reason s =
      elim (Bool-cases (ltb max_attempts (suc s.retry_attempts))) [
        | inl e ↦ rw e (resting closed _ (λ h. cc))
        | inr e ↦ rw e (λ _ _. sleeps s.sleeping refl)
      ]

  on_connect_timeout-IsDriven :
      (id : ℕ) (s : Adapter) → IsDriven s → IsDriven (on_connect_timeout max_attempts delay id s)
  unfolding on_connect_timeout
  on_connect_timeout-IsDriven id s h = elim (Bool-cases (id == s.connect_attempt)) [
    | inl e ↦ rw e (schedule_retry-IsDriven none connect_timeout _)
    | inr e ↦ rw e h
  ]

  act_on-IsDriven :
      (action : DisconnectAction) (code : Option ℕ) (s : Adapter)
      → IsDriven (act_on max_attempts delay action code s)
  unfolding act_on
  act_on-IsDriven re_pair code s = resting logged_out _ (λ h. cc)
  act_on-IsDriven restart code s = start_socket-IsDriven true _
  act_on-IsDriven version_rejected code s = λ _ _. asks code s.falling refl
  act_on-IsDriven retry code s = schedule_retry-IsDriven code (disconnected retry) s

  handle_close-IsDriven :
      (code : Option ℕ) (s : Adapter) → IsDriven (handle_close max_attempts delay code s)
  unfolding handle_close
  handle_close-IsDriven code s = elim (Bool-cases s.intentional_close) [
    | inl e ↦ rw e (resting closed _ (λ h. cc))
    | inr e ↦ rw e (elim (Bool-cases s.force_restart) [
      | inl f ↦ rw f (start_socket-IsDriven true _)
      | inr f ↦ rw f (act_on-IsDriven (classify_disconnect code) code _)
    ])
  ]

  on_closed-IsDriven :
      (id : ℕ) (code : Option ℕ) (s : Adapter)
      → IsDriven s
      → IsDriven (on_closed max_attempts delay id code s)
  unfolding on_closed
  on_closed-IsDriven id code s h = elim (Bool-cases (id == s.connect_attempt)) [
    | inl e ↦ rw e (handle_close-IsDriven code s)
    | inr e ↦ rw e h
  ]

  on_fell_forward-IsDriven :
      (code : Option ℕ) (adopted : Bool) (s : Adapter)
      → IsDriven (on_fell_forward max_attempts delay code adopted s)
  unfolding on_fell_forward
  on_fell_forward-IsDriven code adopted s = elim (Bool-cases s.intentional_close) [
    | inl e ↦ rw e (λ _ open_. cc)
    | inr e ↦ rw e (elim (Bool-cases adopted) [
      | inl f ↦ rw f (start_socket-IsDriven true _)
      | inr f ↦ rw f (schedule_retry-IsDriven code (disconnected version_rejected) _)
    ])
  ]

  on_rejected-IsDriven :
      (background : Bool) (s : Adapter)
      → IsDriven s
      → IsDriven (on_rejected max_attempts delay background s)
  unfolding on_rejected
  on_rejected-IsDriven false s h = h
  on_rejected-IsDriven true s h = elim (Bool-cases s.intentional_close) [
    | inl e ↦ rw e (λ _ open_. cc)
    | inr e ↦ rw e (schedule_retry-IsDriven none connect_failed _)
  ]

on_woken-IsDriven : (s : Adapter) → IsDriven (on_woken s)
unfolding on_woken
on_woken-IsDriven s = elim (Bool-cases s.intentional_close) [
  | inl e ↦ rw e (λ _ open_. cc)
  | inr e ↦ rw e (start_socket-IsDriven true _)
]

on_created-IsDriven : (id : ℕ) (s : Adapter) → IsDriven s → IsDriven (on_created id s)
unfolding on_created
on_created-IsDriven id s h = elim (Bool-cases (id == s.connect_attempt)) [
  | inl e ↦ rw e (λ now open_. carried s _ refl refl refl refl (h now open_))
  | inr e ↦ rw e (λ now open_. carried s _ refl refl refl refl (h now open_))
]

on_opened-IsDriven : (id : ℕ) (s : Adapter) → IsDriven s → IsDriven (on_opened id s)
unfolding on_opened
on_opened-IsDriven id s h = elim (Bool-cases (id == s.connect_attempt)) [
  | inl e ↦ rw e (resting open_state _ (λ h. cc))
  | inr e ↦ rw e h
]

module _ (max_attempts : ℕ) where
  Step-IsDriven : {s t : Adapter} → Step max_attempts s t → IsDriven s → IsDriven t
  unfolding connect force_reconnect disconnect
  Step-IsDriven connects h = start_socket-IsDriven false _
  Step-IsDriven {s} reconnects h = λ now open_. carried s _ refl refl refl refl (h now open_)
  Step-IsDriven disconnects h = resting closed _ (λ h. cc)
  Step-IsDriven {s} (created c before after e) h =
      on_created-IsDriven c.id _ (λ now open_. carried s _ refl refl refl refl (h now open_))
  Step-IsDriven {s} (rejected delay c before after e) h =
      on_rejected-IsDriven max_attempts delay c.background _
        (λ now open_. carried s _ refl refl refl refl (h now open_))
  Step-IsDriven {s} (timed_out delay id e) h = on_connect_timeout-IsDriven max_attempts delay id s h
  Step-IsDriven (woken n e) h = on_woken-IsDriven _
  Step-IsDriven (fell_forward delay adopted code before after e) h =
      on_fell_forward-IsDriven max_attempts delay code adopted _
  Step-IsDriven {s} (opened id) h = on_opened-IsDriven id s h
  Step-IsDriven {s} (closes delay id code) h = on_closed-IsDriven max_attempts delay id code s h

  reached : {s : Adapter} → Reach max_attempts new_adapter s → IsDriven s
  reached here = λ now. cc
  reached (next r step) = Step-IsDriven step (reached r)

  -- Over any steps of a new adapter, whenever it is connecting and nobody has disconnected it, the
  -- watchdog of its attempt is set, or a backoff sleeps, or the version source is being asked: it
  -- never waits for nothing.
  pub Reach-Drives :
      {s : Adapter}
      → Reach max_attempts new_adapter s
      → s.state ≡ connecting
      → s.intentional_close ≡ false
      → Drives s
  Reach-Drives r now kept = reached r now kept
