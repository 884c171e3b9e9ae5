-- ===== src/Tsc/Reads.antt =====
-- Sequences of exits: the guest's clock over many readings of the host's counter.
use pve_anti_detection.Prelude.{
  ℕ, ◌+◌, ◌-◌, ◌*◌, ◌^◌, ◌≤◌, ◌<◌, ◌≡◌, ◌≢◌, List, [], ◌∷◌, arith, length, refl,
}
use pve_anti_detection.Tsc.{Clock, loaded, tick, run}
use pve_anti_detection.Tsc.Bounds.{IsBehind, tick-IsBehind, tick-prev, tick-forward, tick-first}

-- The readings do not go back, and fit 64 bits; `low` is the one before.
abbrev pub Forward : ℕ → List ℕ → Type 0
Forward low [] = Unit {0}
Forward low (r ∷ rs) = (low ≤ r) × (r < 2 ^ 64) × Forward r rs

abbrev pub last : ℕ → List ℕ → ℕ
last low [] = low
last low (r ∷ rs) = last r rs

-- After `n` exits the fake counter has advanced by a sixteenth of the host's cycles, and has lost
-- less than one of its own cycles at each exit.
abbrev pub Tracks : Clock → Clock → ℕ → Type 0
Tracks c d n =
    (c.rdtsc_fake ≤ d.rdtsc_fake)
    × (16 * d.rdtsc_fake ≤ 16 * c.rdtsc_fake + (d.rdtsc_prev - c.rdtsc_prev))
    × (16 * c.rdtsc_fake + (d.rdtsc_prev - c.rdtsc_prev) ≤ 16 * d.rdtsc_fake + 15 * n)

last-ge : (low : ℕ) (rs : List ℕ) → Forward low rs → low ≤ last low rs
last-ge low [] f = omega arith
last-ge low (r ∷ rs) f = omega (arith, last-ge r rs f.2)

run_from :
    (c : Clock) (low : ℕ) (rs : List ℕ)
    → c.rdtsc_prev ≡ low
    → IsBehind c
    → low ≢ 0
    → Forward low rs
    → IsBehind (run c rs) × ((run c rs).rdtsc_prev ≡ last low rs) × Tracks c (run c rs) (length rs)
unfolding run
run_from c low [] e i nz f = (i, e, omega arith)
run_from c low (r ∷ rs) e i nz f =
    let step = tick-forward c r i (omega arith) (omega arith) f.1 in
    let prev = tick-prev c r in
    let rest = run_from (tick c r) r rs prev (tick-IsBehind c r f.1) (omega arith) f.2 in
    let far = last-ge r rs f.2 in (rest.0, rest.1, omega arith)

-- While the host's counter does not go back, and was not 0, the guest's clock does not either, never passes the
-- host's, and runs at a sixteenth of its speed, up to one cycle lost at each exit.
pub run-Tracks :
    (c : Clock) (rs : List ℕ)
    → IsBehind c
    → c.rdtsc_prev ≢ 0
    → Forward c.rdtsc_prev rs
    → IsBehind (run c rs)
      × ((run c rs).rdtsc_prev ≡ last c.rdtsc_prev rs)
      × Tracks c (run c rs) (length rs)
run-Tracks c rs i nz f = run_from c c.rdtsc_prev rs refl i nz f

-- From the loading of the module on: the first exit, at reading `first`, shows the host's counter,
-- and what the guest has seen pass since then is a sixteenth of the host's cycles, up to one cycle
-- for each later exit.
pub run-loaded :
    (first : ℕ) (rs : List ℕ)
    → first ≢ 0
    → first < 2 ^ 64
    → Forward first rs
    → let d = run loaded (first ∷ rs) in
      (d.rdtsc_prev ≡ last first rs)
      × (d.rdtsc_fake ≤ d.rdtsc_prev)
      × (first ≤ d.rdtsc_fake)
      × (16 * (d.rdtsc_fake - first) ≤ d.rdtsc_prev - first)
      × (d.rdtsc_prev - first ≤ 16 * (d.rdtsc_fake - first) + 15 * length rs)
unfolding run
run-loaded first rs nz lt f =
    let prev = tick-prev loaded first in
    let fake = tick-first loaded first refl refl in
    let (i, e, t) =
      run_from (tick loaded first) first rs prev (tick-IsBehind loaded first lt) nz f in
    (e, i.behind, omega arith, omega arith, omega arith)

-- Readings less than sixteen cycles apart.
abbrev pub Dense : ℕ → List ℕ → Type 0
Dense low [] = Unit {0}
Dense low (r ∷ rs) = (low ≤ r) × (r < low + 16) × (r < 2 ^ 64) × Dense r rs

frozen_from :
    (c : Clock) (low : ℕ) (rs : List ℕ)
    → c.rdtsc_prev ≡ low
    → IsBehind c
    → low ≢ 0
    → Dense low rs
    → (run c rs).rdtsc_fake ≡ c.rdtsc_fake
unfolding run
frozen_from c low [] e i nz f = refl
frozen_from c low (r ∷ rs) e i nz f =
    let step = tick-forward c r i (omega arith) (omega arith) f.2 in
    let rest =
      frozen_from (tick c r) r rs (tick-prev c r) (tick-IsBehind c r f.2) (omega arith) f.3 in
    omega arith

-- A guest whose reads are all less than sixteen host cycles apart sees its clock stand still, however
-- many they are: the remainders are dropped at every exit.
pub run_frozen :
    (c : Clock) (rs : List ℕ)
    → IsBehind c
    → c.rdtsc_prev ≢ 0
    → Dense c.rdtsc_prev rs
    → (run c rs).rdtsc_fake ≡ c.rdtsc_fake
run_frozen c rs i nz f = frozen_from c c.rdtsc_prev rs refl i nz f
