-- ===== src/Metrics/Examples.antt =====
-- Given counters, and the theorem on app/metrics.py at them.
use keekars_pi_vpn.Base.{◌≡◌, ◌+◌, refl, some, List, [], ◌∷◌, arith, ℕ, All}
use keekars_pi_vpn.Base.Text.{codes, text_operations}
use keekars_pi_vpn.Base.Dict.{Dict, lookup}
use keekars_pi_vpn.Metrics.NetRates.{Counters, NetRates, Snapshot, sample_run}
use keekars_pi_vpn.Metrics.Conserve.{
  sending, IsRising, done, next, total, sample_run-conserves, IsBounded,
}

abbrev counters : ℕ → Dict Counters
counters n = (codes "wlan0", record { bytes_sent = n; bytes_recv = 7 }) ∷ []

abbrev snapshot : ℕ → ℕ → Snapshot
snapshot now n = record { now = now; counters = counters n }

abbrev start : NetRates
start = record { counters = counters 100; time = 50 }

abbrev snapshots : List Snapshot
snapshots = snapshot 60 250 ∷ snapshot 60 300 ∷ []

there :
    (n : ℕ) → lookup (codes "wlan0") (counters n) ≡ some (record { bytes_sent = n; bytes_recv = 7 })
unfolding lookup text_operations
there n = refl

rising : IsRising sending (codes "wlan0") 100 snapshots 300
rising =
    next (snapshot 60 250) (record { bytes_sent = 250; bytes_recv = 7 }) (there 250) (omega arith)
      (next (snapshot 60 300) (record { bytes_sent = 300; bytes_recv = 7 }) (there 300)
        (omega arith) done)

sample_run-conserves_example :
    (100 + total sending (codes "wlan0") (sample_run snapshots start) ≡ 300)
    × All (λ d. All (λ e. IsBounded e.1) d) (sample_run snapshots start)
sample_run-conserves_example =
    sample_run-conserves sending (codes "wlan0") start (record { bytes_sent = 100; bytes_recv = 7 })
      (there 100) rising
