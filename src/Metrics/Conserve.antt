-- ===== src/Metrics/Conserve.antt =====
-- What the rates of `NetRates` add up to.
use keekars_pi_vpn.Base.{ℕ, ◌≡◌, ◌≤◌, ◌+◌, ◌-◌, refl, Option, none, some, List, [], ◌∷◌, All, arith}
use keekars_pi_vpn.Base.Text.{Text, text_eq_iff}
use keekars_pi_vpn.Base.Dict.{Dict, lookup}
use keekars_pi_vpn.Metrics.NetRates.{
  Counters, Rate, Sampled, NetRates, Snapshot, elapsed_since, rate_since, sampled, sample_all,
  sample, sample_run,
}

pub data Direction : Type 0 where
  sending receiving : Direction

abbrev pub counter_of : Direction → Counters → ℕ
counter_of sending c = c.bytes_sent
counter_of receiving c = c.bytes_recv

abbrev pub rate_of : Direction → Sampled → Rate
rate_of sending s = s.sent_rate
rate_of receiving s = s.recv_rate

-- Every snapshot has the interface, with a counter that has not gone back.
pub data IsRising (direction : Direction) (name : Text) : ℕ → List Snapshot → ℕ → Type 0 where
  done : {n : ℕ} → IsRising direction name n [] n
  next :
      {n last : ℕ} {ss : List Snapshot} (s : Snapshot) (c : Counters)
      → lookup name s.counters ≡ some c
      → n ≤ counter_of direction c
      → IsRising direction name (counter_of direction c) ss last
      → IsRising direction name n (s ∷ ss) last

abbrev bytes_of : Direction → Option Sampled → ℕ
bytes_of direction none = 0
bytes_of direction (some s) = (rate_of direction s).bytes

-- The bytes that the samples report for an interface, added up
unfoldable pub total : Direction → Text → List (Dict Sampled) → ℕ
total direction name [] = 0
total direction name (d ∷ ds) = bytes_of direction (lookup name d) + total direction name ds

lookup-sample_all :
    (elapsed : ℕ) (prev counters : Dict Counters) (name : Text) (c : Counters)
    → lookup name counters ≡ some c
    → lookup name (sample_all elapsed prev counters) ≡ some (sampled elapsed c (lookup name prev))
unfolding lookup sample_all
lookup-sample_all elapsed prev [] name c h = ground (arith, h)
lookup-sample_all elapsed prev ((j, d) ∷ rest) name c h =
    ground (arith, text_eq_iff j name, lookup-sample_all elapsed prev rest name c)

bytes-sampled :
    (direction : Direction) (elapsed : ℕ) (c prev : Counters)
    → (rate_of direction (sampled elapsed c (some prev))).bytes
      ≡ counter_of direction c - counter_of direction prev
unfolding sampled rate_since
bytes-sampled sending elapsed c prev = refl
bytes-sampled receiving elapsed c prev = refl

total-IsRising :
    (direction : Direction) (name : Text) {n last : ℕ} {ss : List Snapshot} (r : NetRates)
    (first : Counters)
    → lookup name r.counters ≡ some first
    → n ≡ counter_of direction first
    → IsRising direction name n ss last
    → n + total direction name (sample_run ss r) ≡ last
unfolding total sample_run sample
total-IsRising direction name r first h same done = omega arith
total-IsRising direction name r first h same (next {last = last} {ss = ss} s c there up rest) =
    let kept : NetRates = record { counters = s.counters; time = s.now } in
    let elapsed = elapsed_since r.time s.now in
    let later : counter_of direction c + total direction name (sample_run ss kept) ≡ last =
      total-IsRising direction name kept c there refl rest in
    rw
      (
        lookup-sample_all elapsed r.counters s.counters name c there,
        h,
        bytes-sampled direction elapsed c first,
      )
      (omega (arith, later, up, same))

-- No rate is over no time, and no rate is above its counter.
abbrev pub IsBounded : Sampled → Type 0
IsBounded s =
    ((1 ≤ s.sent_rate.elapsed) × (s.sent_rate.bytes ≤ s.bytes_sent))
    × ((1 ≤ s.recv_rate.elapsed) × (s.recv_rate.bytes ≤ s.bytes_recv))

sampled-IsBounded :
    (elapsed : ℕ) (c : Counters) (prev : Option Counters)
    → 1 ≤ elapsed
    → IsBounded (sampled elapsed c prev)
unfolding sampled rate_since
sampled-IsBounded elapsed c none h = ((h, omega arith), (h, omega arith))
sampled-IsBounded elapsed c (some prev) h = ((h, omega arith), (h, omega arith))

sample_all-IsBounded :
    (elapsed : ℕ) (prev counters : Dict Counters)
    → 1 ≤ elapsed
    → All (λ e. IsBounded e.1) (sample_all elapsed prev counters)
unfolding sample_all
sample_all-IsBounded elapsed prev [] h = tt
sample_all-IsBounded elapsed prev ((name, c) ∷ rest) h =
    (sampled-IsBounded elapsed c (lookup name prev) h, sample_all-IsBounded elapsed prev rest h)

sample-IsBounded : (s : Snapshot) (r : NetRates) → All (λ e. IsBounded e.1) (sample s r).0
unfolding sample elapsed_since
sample-IsBounded s r = sample_all-IsBounded _ r.counters s.counters (ground arith)

sample_run-IsBounded :
    (ss : List Snapshot) (r : NetRates) → All (λ d. All (λ e. IsBounded e.1) d) (sample_run ss r)
unfolding sample_run
sample_run-IsBounded [] r = tt
sample_run-IsBounded (s ∷ ss) r = (sample-IsBounded s r, sample_run-IsBounded ss (sample s r).1)

-- Over successive samples in all of which an interface has a counter that does not go back, the
-- bytes behind the reported rates add up to the last counter less the first; and in every sample
-- each rate is over at least one microsecond and at most its counter's bytes.
pub sample_run-conserves :
    {ss : List Snapshot} {last : ℕ} (direction : Direction) (name : Text) (r : NetRates)
    (first : Counters)
    → lookup name r.counters ≡ some first
    → IsRising direction name (counter_of direction first) ss last
    → (counter_of direction first + total direction name (sample_run ss r) ≡ last)
      × All (λ d. All (λ e. IsBounded e.1) d) (sample_run ss r)
sample_run-conserves {ss = ss} direction name r first h rising =
    (total-IsRising direction name r first h refl rising, sample_run-IsBounded ss r)
