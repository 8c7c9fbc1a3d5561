-- ===== src/Ops/WaVersionWatch/Told.antt =====
-- How often a standing condition is told.
use ezra.Common.{
  ℕ, zero, suc, ◌+◌, ◌≤◌, ◌<◌, true, false, not, ◌&&◌, List, [], ◌∷◌, ◌++◌, leb, ◌≡◌, refl, arith,
  Bool-cases, inl, inr, append-nil, sym, ap, ◌∙◌, if◌then◌else◌,
}
use ezra.Transport.WaVersion.{WaVersionEvent, probe_failed}
use ezra.Ops.WaVersionWatch.{Watch, Alert, blind, on_event, on_events, count_failure}

-- Failed probes in a row.
abbrev pub failures : ℕ → List WaVersionEvent
failures zero = []
failures (suc n) = probe_failed ∷ failures n

-- A failure that is not told.
abbrev counted : ℕ → Watch → Watch
counted k w = record w { consecutive_probe_failures = k }

-- One that is.
abbrev told : ℕ → Watch → Watch
told k w = record w {
  consecutive_probe_failures = k;
  notified_blind = true;
  alerts = w.alerts ++ blind k ∷ [];
}

count-quiet :
    (k : ℕ) (w : Watch)
    → (leb 7 k && not w.notified_blind) ≡ false
    → count_failure k w ≡ counted k w
count-quiet k w h = rw h refl

count-loud :
    (k : ℕ) (w : Watch) → (leb 7 k && not w.notified_blind) ≡ true → count_failure k w ≡ told k w
count-loud k w h = rw h refl

abbrev alerts_after : ℕ → Watch → List Alert
unfolding on_events
alerts_after n w = (on_events (failures n) w).alerts

failures-quiet : (n : ℕ) (w : Watch) → w.notified_blind ≡ true → alerts_after n w ≡ w.alerts
unfolding on_events alerts_after on_event
failures-quiet zero w b = refl
failures-quiet (suc n) w b =
    let k = w.consecutive_probe_failures + 1 in
    ap (alerts_after n) (count-quiet k w (ground arith)) ∙ failures-quiet n (counted k w) b

-- The alert about `m` failures in a row.
abbrev pub blind_alerts : ℕ → List Alert
blind_alerts m = if leb 7 m then blind 7 ∷ [] else []

blind_low : (m : ℕ) → m < 7 → blind_alerts m ≡ []
blind_low m h = ground arith

blind_high : (m : ℕ) → 7 ≤ m → blind_alerts m ≡ blind 7 ∷ []
blind_high m h = ground arith

same_sum : (k n : ℕ) → k + 1 + n ≡ k + suc n
same_sum k n = omega arith

seven : (k : ℕ) → k < 7 → leb 7 (k + 1) ≡ true → k + 1 ≡ 7
seven k lt h = ground arith

failures-told :
    (n : ℕ) (w : Watch)
    → w.consecutive_probe_failures < 7
    → w.notified_blind ≡ false
    → alerts_after n w ≡ w.alerts ++ blind_alerts (w.consecutive_probe_failures + n)
unfolding on_events alerts_after on_event
failures-told zero w lt b = sym (
    ap (λ x. w.alerts ++ x) (blind_low (w.consecutive_probe_failures + 0) (omega (arith, lt)))
    ∙ append-nil w.alerts)
failures-told (suc n) w lt b =
    let k = w.consecutive_probe_failures + 1 in
    elim (Bool-cases (leb 7 k)) [
      | inl h ↦
          ap (alerts_after n) (count-loud k w (ground arith))
          ∙ failures-quiet n (told k w) refl
          ∙ ap (λ x. w.alerts ++ x)
              (ap (λ m. blind m ∷ []) (seven w.consecutive_probe_failures lt h)
                ∙ sym (blind_high (w.consecutive_probe_failures + suc n) (ground arith)))
      | inr h ↦
          ap (alerts_after n) (count-quiet k w (ground arith))
          ∙ failures-told n (counted k w) (ground arith) b
          ∙ ap (λ m. w.alerts ++ blind_alerts m) (same_sum w.consecutive_probe_failures n)
    ]

from_zero : (k n : ℕ) → k ≡ 0 → k + n ≡ n
from_zero k n z = omega (arith, z)

-- After a probe that reached upstream, a run of failed probes is told exactly once if it is at least
-- seven long, at the seventh, and not at all if it is shorter.
pub on_events-failures :
    (n : ℕ) (w : Watch)
    → w.consecutive_probe_failures ≡ 0
    → w.notified_blind ≡ false
    → (on_events (failures n) w).alerts ≡ w.alerts ++ blind_alerts n
unfolding alerts_after
on_events-failures n w z b =
    failures-told n w (omega (arith, z)) b
    ∙ ap (λ m. w.alerts ++ blind_alerts m) (from_zero w.consecutive_probe_failures n z)
