-- ===== src/Transport/Socket/Idle.antt =====
-- What may still happen after a disconnect, and what may not.
use ezra.Common.{
  ℕ, Bool, true, false, Option, none, List, ◌==◌, ◌≡◌, refl, arith, sym, Bool-cases, inl, inr,
}
use ezra.Ops.Health.{TransportState, open_state, closed}
use ezra.Transport.Socket.States.{set_state-Unmoved, set_state-state}
use ezra.Transport.Socket.{
  Adapter, DisconnectInfo, set_state, handle_close, on_fell_forward, on_woken, on_created,
  on_rejected, on_opened, on_closed, force_reconnect, disconnect,
}
use ezra.Transport.Socket.Steps.{
  Step, connects, reconnects, disconnects, created, rejected, timed_out, woken, fell_forward,
  opened, closes,
}

-- Nobody has called `connect` since: this is attempt `n`, and so much has been reported.
pub record IsIdle (n : ℕ) (log : List DisconnectInfo) (s : Adapter) : Type 0 where
  pub intentional_close : s.intentional_close ≡ true
  pub connect_attempt : s.connect_attempt ≡ n
  pub watchdog : s.watchdog ≡ none
  pub reports : s.reports ≡ log

abbrev pub is_connect : {max_attempts : ℕ} {s t : Adapter} → Step max_attempts s t → Bool
is_connect connects = true
is_connect reconnects = false
is_connect disconnects = false
is_connect (created c before after e) = false
is_connect (rejected delay c before after e) = false
is_connect (timed_out delay id e) = false
is_connect (woken n e) = false
is_connect (fell_forward delay adopted code before after e) = false
is_connect (opened id) = false
is_connect (closes delay id code) = false

-- Steps of which none is a call of `connect`.
pub data Later (max_attempts : ℕ) (s : Adapter) : Adapter → Type 0 where
  here : Later max_attempts s s
  next :
      {t u : Adapter}
      → Later max_attempts s t
      → (step : Step max_attempts t u) → is_connect step ≡ false
      → Later max_attempts s u

module _ (n : ℕ) (log : List DisconnectInfo) where
  set_state-IsIdle :
      (state : TransportState) (s : Adapter) → IsIdle n log s → IsIdle n log (set_state state s)
  set_state-IsIdle state s h = ground (arith, set_state-Unmoved state s)

  on_woken-IsIdle : (s : Adapter) → IsIdle n log s → IsIdle n log (on_woken s)
  unfolding on_woken
  on_woken-IsIdle s h = ground arith

  on_created-IsIdle : (id : ℕ) (s : Adapter) → IsIdle n log s → IsIdle n log (on_created id s)
  unfolding on_created
  on_created-IsIdle id s h = ground arith

  on_opened-IsIdle : (id : ℕ) (s : Adapter) → IsIdle n log s → IsIdle n log (on_opened id s)
  unfolding on_opened
  on_opened-IsIdle id s h = elim (Bool-cases (id == s.connect_attempt)) [
    | inl e ↦ rw e (set_state-IsIdle open_state _ (ground arith))
    | inr e ↦ rw e h
  ]

  closing-IsIdle :
      (s : Adapter) → s.connect_attempt ≡ n → s.reports ≡ log → IsIdle n log (disconnect s)
  unfolding disconnect
  closing-IsIdle s a l = set_state-IsIdle closed _ (ground arith)

  module _ (max_attempts : ℕ) (delay : ℕ → ℕ) where
    on_rejected-IsIdle :
        (background : Bool) (s : Adapter)
        → IsIdle n log s
        → IsIdle n log (on_rejected max_attempts delay background s)
    unfolding on_rejected
    on_rejected-IsIdle false s h = h
    on_rejected-IsIdle true s h = ground arith

    on_fell_forward-IsIdle :
        (code : Option ℕ) (adopted : Bool) (s : Adapter)
        → IsIdle n log s
        → IsIdle n log (on_fell_forward max_attempts delay code adopted s)
    unfolding on_fell_forward
    on_fell_forward-IsIdle code adopted s h = ground arith

    handle_close-IsIdle :
        (code : Option ℕ) (s : Adapter)
        → IsIdle n log s
        → IsIdle n log (handle_close max_attempts delay code s)
    unfolding handle_close
    handle_close-IsIdle code s h =
        ground (arith, set_state-IsIdle closed (record s { watchdog = none }) (ground arith))

    on_closed-IsIdle :
        (id : ℕ) (code : Option ℕ) (s : Adapter)
        → IsIdle n log s
        → IsIdle n log (on_closed max_attempts delay id code s)
    unfolding on_closed
    on_closed-IsIdle id code s h = elim (Bool-cases (id == s.connect_attempt)) [
      | inl e ↦ rw e (handle_close-IsIdle code s h)
      | inr e ↦ rw e h
    ]

  module _ (max_attempts : ℕ) where
    Step-IsIdle :
        {s t : Adapter} (step : Step max_attempts s t)
        → is_connect step ≡ false
        → IsIdle n log s
        → IsIdle n log t
    unfolding force_reconnect
    Step-IsIdle connects e h = cc
    Step-IsIdle reconnects e h = ground arith
    Step-IsIdle {s} disconnects e h = closing-IsIdle s h.connect_attempt h.reports
    Step-IsIdle (created c before after e) _ h = on_created-IsIdle c.id _ (ground arith)
    Step-IsIdle (rejected delay c before after e) _ h =
        on_rejected-IsIdle max_attempts delay c.background _ (ground arith)
    Step-IsIdle (timed_out delay id e) _ h = cc (h.watchdog, e)
    Step-IsIdle (woken k e) _ h = on_woken-IsIdle _ (ground arith)
    Step-IsIdle (fell_forward delay adopted code before after e) _ h =
        on_fell_forward-IsIdle max_attempts delay code adopted _ (ground arith)
    Step-IsIdle {s} (opened id) _ h = on_opened-IsIdle id s h
    Step-IsIdle {s} (closes delay id code) _ h = on_closed-IsIdle max_attempts delay id code s h

    Later-IsIdle : {s t : Adapter} → Later max_attempts s t → IsIdle n log s → IsIdle n log t
    Later-IsIdle here h = h
    Later-IsIdle (next r step e) h = Step-IsIdle step e (Later-IsIdle r h)

-- After a disconnect, over any steps but a call of `connect`, whatever timers, promises and sockets
-- come due: no attempt begins, no watchdog is set and nothing is reported.
pub disconnect-IsIdle :
    (max_attempts : ℕ) (s : Adapter) {t : Adapter}
    → Later max_attempts (disconnect s) t
    → IsIdle s.connect_attempt s.reports t
disconnect-IsIdle max_attempts s run =
    Later-IsIdle s.connect_attempt s.reports max_attempts run
      (closing-IsIdle s.connect_attempt s.reports s refl refl)

-- The socket of the attempt opens.
opened-state : (id : ℕ) (s : Adapter) → id ≡ s.connect_attempt → (on_opened id s).state ≡ open_state
unfolding on_opened
opened-state id s e = elim (Bool-cases (id == s.connect_attempt)) [
  | inl f ↦ rw f (set_state-state open_state _)
  | inr f ↦ absurd (ground arith)
]

-- A disconnect does not call off the attempt under way: if its socket opens after all, the
-- connection stands open although it was closed on purpose.
disconnect-opened : (s : Adapter) → (on_opened s.connect_attempt (disconnect s)).state ≡ open_state
unfolding disconnect
disconnect-opened s =
    opened-state s.connect_attempt (disconnect s) (sym (set_state-Unmoved closed _).connect_attempt)
