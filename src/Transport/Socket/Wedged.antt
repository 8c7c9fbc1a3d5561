-- ===== src/Transport/Socket/Wedged.antt =====
-- A connection that never opens and never closes: only the timers come due, and the adapter gives up
-- once its budget is spent.
use ezra.Common.{
  ℕ, zero, suc, ◌+◌, ◌≤◌, true, false, Option, none, some, List, [], ◌∷◌, ◌++◌, if◌then◌else◌, ◌≡◌,
  refl, arith, append_assoc, ap, sym, ◌∙◌, subst, ◌<◌,
}
use ezra.Ops.Health.{connecting, closed}
use ezra.Transport.Socket.States.{set_state-Unmoved, set_state-state}
use ezra.Transport.Socket.{
  Adapter, DisconnectInfo, connect_timeout, info, report, set_state, start_socket, schedule_retry,
  on_connect_timeout, on_woken, end_socket,
}

pub record IsWedged (r : ℕ) (log : List DisconnectInfo) (s : Adapter) : Type 0 where
  pub state : s.state ≡ connecting
  pub intentional_close : s.intentional_close ≡ false
  pub sleeping : s.sleeping ≡ 0
  pub retry_attempts : s.retry_attempts ≡ r
  pub reports : s.reports ≡ log
  pub watchdog : s.watchdog ≡ some s.connect_attempt

module _ (max_attempts : ℕ) (delay : ℕ → ℕ) where
  -- The backoff that sleeps, if one does, is over.
  abbrev pub pass_backoff : ℕ → Adapter → Adapter
  pass_backoff zero s = s
  pass_backoff (suc n) s = on_woken (record s { sleeping = n })

  -- The timer of the watchdog comes due, if it runs.
  abbrev pub fire_watchdog : Option ℕ → Adapter → Adapter
  fire_watchdog none s = s
  fire_watchdog (some id) s = on_connect_timeout max_attempts delay id s

  abbrev pub time_out : Adapter → Adapter
  time_out s = fire_watchdog s.watchdog s

  -- The watchdog goes off, and the backoff passes, so many times.
  unfoldable pub wedge : ℕ → Adapter → Adapter
  wedge zero s = s
  wedge (suc n) s = wedge n (pass_backoff (time_out s).sleeping (time_out s))

  abbrev pub told_of : ℕ → DisconnectInfo
  told_of r = info none connect_timeout (suc r) (some (delay r)) false

  abbrev pub gave_up : ℕ → DisconnectInfo
  gave_up r = info none connect_timeout (suc r) none true

  -- The retries from attempt `r` on, and the report that the budget is spent.
  abbrev pub timeouts : ℕ → ℕ → List DisconnectInfo
  timeouts r zero = gave_up r ∷ []
  timeouts r (suc n) = told_of r ∷ timeouts (suc r) n

  abandon : Adapter → Adapter
  abandon s = record (end_socket s) {
    watchdog = none;
    connect_attempt = suc s.connect_attempt;
    socket = none;
  }

  time_out_lem :
      (s : Adapter)
      → s.watchdog ≡ some s.connect_attempt
      → time_out s ≡ schedule_retry max_attempts delay none connect_timeout (abandon s)
  unfolding on_connect_timeout abandon
  time_out_lem s armed = ap (λ w. fire_watchdog w s) armed ∙ ground arith

  start_socket-IsWedged :
      (r : ℕ) (log : List DisconnectInfo) (s : Adapter)
      → s.intentional_close ≡ false
      → s.sleeping ≡ 0
      → s.retry_attempts ≡ r
      → s.reports ≡ log
      → IsWedged r log (start_socket true s)
  unfolding start_socket
  start_socket-IsWedged r log s i n a l =
      let u = set_state-Unmoved connecting (record s { connect_attempt = suc s.connect_attempt }) in
      record {
        state = set_state-state connecting (record s { connect_attempt = suc s.connect_attempt });
        intentional_close = u.intentional_close ∙ i;
        sleeping = u.sleeping ∙ n;
        retry_attempts = u.retry_attempts ∙ a;
        reports = u.reports ∙ l;
        watchdog = ap some (sym u.connect_attempt);
      }

  on_woken-IsWedged :
      (r : ℕ) (log : List DisconnectInfo) (s : Adapter)
      → s.intentional_close ≡ false
      → s.sleeping ≡ 0
      → s.retry_attempts ≡ r
      → s.reports ≡ log
      → IsWedged r log (on_woken s)
  unfolding on_woken
  on_woken-IsWedged r log s i n a l =
      subst (λ b. IsWedged r log (if b then s else start_socket true s)) (sym i)
        (start_socket-IsWedged r log s i n a l)

  schedule_retried :
      (s : Adapter)
      → suc s.retry_attempts ≤ max_attempts
      → schedule_retry max_attempts delay none connect_timeout s
        ≡ record (report (told_of s.retry_attempts) s) {
          retry_attempts = suc s.retry_attempts;
          sleeping = suc s.sleeping;
        }
  unfolding schedule_retry
  schedule_retried s h = ground arith

  schedule_spent :
      (s : Adapter)
      → max_attempts < suc s.retry_attempts
      → schedule_retry max_attempts delay none connect_timeout s
        ≡ set_state closed
            (record (report (gave_up s.retry_attempts) s) { retry_attempts = suc s.retry_attempts })
  unfolding schedule_retry
  schedule_spent s h = ground arith

  retried :
      (r : ℕ) (log : List DisconnectInfo) (s : Adapter)
      → suc r ≤ max_attempts
      → IsWedged r log s
      → IsWedged (suc r) (log ++ told_of r ∷ []) (pass_backoff (time_out s).sleeping (time_out s))
  unfolding abandon
  retried r log s h w =
      subst (λ t. IsWedged (suc r) (log ++ told_of r ∷ []) (pass_backoff t.sleeping t))
        (sym (
          time_out_lem s w.watchdog
          ∙ schedule_retried (abandon s) (omega (arith, h, w.retry_attempts))))
        (on_woken-IsWedged (suc r) (log ++ told_of r ∷ []) _ w.intentional_close w.sleeping
          (ap suc w.retry_attempts) (cc (w.reports, w.retry_attempts)))

  given_up :
      (r : ℕ) (log : List DisconnectInfo) (s : Adapter)
      → r ≡ max_attempts
      → IsWedged r log s
      → ((time_out s).state ≡ closed)
        × ((time_out s).sleeping ≡ 0)
        × ((time_out s).reports ≡ log ++ gave_up r ∷ [])
  unfolding abandon
  given_up r log s spent w =
      let t = record (report (gave_up s.retry_attempts) (abandon s)) {
        retry_attempts = suc s.retry_attempts;
      } in
      subst (λ t. (t.state ≡ closed) × (t.sleeping ≡ 0) × (t.reports ≡ log ++ gave_up r ∷ []))
        (sym (
          time_out_lem s w.watchdog
          ∙ schedule_spent (abandon s) (omega (arith, spent, w.retry_attempts))))
        (
          set_state-state closed t,
          (set_state-Unmoved closed t).sleeping ∙ w.sleeping,
          (set_state-Unmoved closed t).reports ∙ cc (w.reports, w.retry_attempts),
        )

  wedge-from :
      (n r : ℕ) (log : List DisconnectInfo) (s : Adapter)
      → r + n ≡ max_attempts
      → IsWedged r log s
      → ((wedge (suc n) s).state ≡ closed) × ((wedge (suc n) s).reports ≡ log ++ timeouts r n)
  unfolding wedge
  wedge-from zero r log s e w =
      let (shut, still, said) = given_up r log s (omega (arith, e)) w in
      subst
        (λ k.
          let t = pass_backoff k (time_out s) in
          (t.state ≡ closed) × (t.reports ≡ log ++ gave_up r ∷ []))
        (sym still) (shut, said)
  wedge-from (suc n) r log s e w =
      let (shut, said) =
        wedge-from n (suc r) (log ++ told_of r ∷ []) _ (omega (arith, e))
          (retried r log s (omega (arith, e)) w) in
      (shut, said ∙ append_assoc log (told_of r ∷ []) (timeouts (suc r) n))

  -- If an attempt is being made with its watchdog running, nobody has disconnected the adapter, no
  -- backoff sleeps and at most the whole budget is spent, and if nothing but the watchdog and the backoffs ever comes due, then
  -- after the retries that are left and one more timeout the adapter is closed and has reported each
  -- of them, the last as giving up.
  pub wedge-gives_up :
      (n : ℕ) (s : Adapter)
      → s.state ≡ connecting
      → s.intentional_close ≡ false
      → s.sleeping ≡ 0
      → s.retry_attempts + n ≡ max_attempts
      → s.watchdog ≡ some s.connect_attempt
      → ((wedge (suc n) s).state ≡ closed)
        × ((wedge (suc n) s).reports ≡ s.reports ++ timeouts s.retry_attempts n)
  wedge-gives_up n s c i z e armed = wedge-from n s.retry_attempts s.reports s e (record {
    state = c;
    intentional_close = i;
    sleeping = z;
    retry_attempts = refl;
    reports = refl;
    watchdog = armed;
  })
