-- ===== src/Metrics/NetRates.antt =====
-- app/metrics.py: `NetRates`. Times are whole microseconds.
use keekars_pi_vpn.Base.{ℕ, ◌-◌, Option, none, some, List, [], ◌∷◌, if◌then◌else◌, ltb}
use keekars_pi_vpn.Base.Dict.{Dict, lookup}

-- Two of psutil's counters of an interface
pub record Counters : Type 0 where
  pub bytes_sent : ℕ
  pub bytes_recv : ℕ

-- A number of bytes in a number of microseconds
pub record Rate : Type 0 where
  pub bytes : ℕ
  pub elapsed : ℕ

pub record Sampled : Type 0 where
  pub bytes_sent : ℕ
  pub bytes_recv : ℕ
  pub sent_rate : Rate
  pub recv_rate : Rate

-- `self._counters` and `self._time`
pub record NetRates : Type 0 where
  pub counters : Dict Counters
  pub time : ℕ

-- What one call of `sample` reads
pub record Snapshot : Type 0 where
  pub now : ℕ
  pub counters : Dict Counters

-- `max(now - self._time, 1e-6)`
unfoldable pub elapsed_since : ℕ → ℕ → ℕ
elapsed_since before now = if ltb 1 (now - before) then now - before else 1

-- `max((c - prev) / elapsed, 0) if prev else 0`; the difference of naturals stops at 0.
unfoldable pub rate_since : ℕ → ℕ → Option ℕ → Rate
rate_since elapsed c none = record { bytes = 0; elapsed = elapsed }
rate_since elapsed c (some prev) = record { bytes = c - prev; elapsed = elapsed }

abbrev pub sent_of : Option Counters → Option ℕ
sent_of none = none
sent_of (some c) = some c.bytes_sent

abbrev pub recv_of : Option Counters → Option ℕ
recv_of none = none
recv_of (some c) = some c.bytes_recv

-- One interface of the sample, and its counters the last time
unfoldable pub sampled : ℕ → Counters → Option Counters → Sampled
unfolding rate_since
sampled elapsed c prev = record {
  bytes_sent = c.bytes_sent;
  bytes_recv = c.bytes_recv;
  sent_rate = rate_since elapsed c.bytes_sent (sent_of prev);
  recv_rate = rate_since elapsed c.bytes_recv (recv_of prev);
}

unfoldable pub sample_all : ℕ → Dict Counters → Dict Counters → Dict Sampled
unfolding sampled
sample_all elapsed prev [] = []
sample_all elapsed prev ((name, c) ∷ rest) =
    (name, sampled elapsed c (lookup name prev)) ∷ sample_all elapsed prev rest

-- `sample`: its result, and what it keeps for the next time
unfoldable pub sample : Snapshot → NetRates → Dict Sampled × NetRates
unfolding sample_all elapsed_since
sample s r = (
  sample_all (elapsed_since r.time s.now) r.counters s.counters,
  record { counters = s.counters; time = s.now },
)

-- Successive calls of `sample`
unfoldable pub sample_run : List Snapshot → NetRates → List (Dict Sampled)
unfolding sample
sample_run [] r = []
sample_run (s ∷ ss) r = (sample s r).0 ∷ sample_run ss (sample s r).1
