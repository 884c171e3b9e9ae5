-- ===== src/Tsc/Tests.antt =====
-- Runs of the handlers, and the theorems at concrete readings.
use pve_anti_detection.Prelude.{ℕ, ◌+◌, ◌-◌, ◌*◌, ◌≤◌, ◌^◌, ◌≡◌, refl, false, List, [], ◌∷◌, arith}
use pve_anti_detection.Tsc.{Clock, Vcpu, loaded, tick, run, handle_rdtsc, handle_rdtsc_interception}
use pve_anti_detection.Tsc.Bounds.{
  IsBehind, handle_rdtsc-le, handle_rdtsc-handle_rdtsc_interception,
}
use pve_anti_detection.Tsc.Reads.{Forward, Tracks, run-Tracks, run-loaded}

-- The clock after exits at 1000 and 1320.
abbrev running : Clock
running = record { print_once = false; rdtsc_fake = 1020; rdtsc_prev = 1320 }

abbrev blank : Vcpu
blank = record { rax = 0; rdx = 0 }

abbrev skip_ok : Vcpu → ℕ
skip_ok v = 1

abbrev skip_failed : Vcpu → ℕ
skip_failed v = 0

run_two : run loaded (1000 ∷ 1320 ∷ []) ≡ running
unfolding run tick
run_two = refl

running-IsBehind : IsBehind running
running-IsBehind = record { started = refl; behind = omega arith; fits = omega arith }

handle_rdtsc-le_example :
    let v' = (handle_rdtsc skip_ok running blank (2 ^ 40)).1 in
    (v'.rdx * 2 ^ 32 + v'.rax ≡ (tick running (2 ^ 40)).rdtsc_fake)
    × (v'.rdx * 2 ^ 32 + v'.rax ≤ 2 ^ 40)
handle_rdtsc-le_example = handle_rdtsc-le skip_ok running blank (2 ^ 40) (omega arith)

handle_rdtsc-handle_rdtsc_interception_example :
    let (c', v', r) = handle_rdtsc skip_ok running blank 1400 in
    let (d', w', t) = handle_rdtsc_interception skip_failed running blank 1400 in
    (c' ≡ d') × (v' ≡ w') × (r ≡ 1) × (t ≡ 0)
handle_rdtsc-handle_rdtsc_interception_example =
    handle_rdtsc-handle_rdtsc_interception skip_ok skip_failed running blank 1400

abbrev readings : List ℕ
readings = 1400 ∷ 1415 ∷ 4000 ∷ []

readings-Forward : Forward 1320 readings
readings-Forward = omega arith

run-Tracks_example :
    IsBehind (run running readings)
    × ((run running readings).rdtsc_prev ≡ 4000)
    × Tracks running (run running readings) 3
run-Tracks_example = run-Tracks running readings running-IsBehind (omega arith) readings-Forward

run-loaded_example :
    let d = run loaded (1320 ∷ readings) in
    (d.rdtsc_prev ≡ 4000)
    × (d.rdtsc_fake ≤ d.rdtsc_prev)
    × (1320 ≤ d.rdtsc_fake)
    × (16 * (d.rdtsc_fake - 1320) ≤ d.rdtsc_prev - 1320)
    × (d.rdtsc_prev - 1320 ≤ 16 * (d.rdtsc_fake - 1320) + 15 * 3)
run-loaded_example = run-loaded 1320 readings (omega arith) (omega arith) readings-Forward
