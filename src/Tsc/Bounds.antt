-- ===== src/Tsc/Bounds.antt =====
-- What one exit does to the counter that the guest sees.
use pve_anti_detection.Prelude.{
  ℕ, ◌+◌, ◌-◌, ◌*◌, ◌/◌, ◌^◌, ◌≤◌, ◌<◌, ◌≡◌, ◌≢◌, min, true, false, arith, refl,
}
use pve_anti_detection.Tsc.{Clock, Vcpu, tick, write_tsc, handle_rdtsc, handle_rdtsc_interception}

-- After an exit the fake counter is at most the real one, which fits 64 bits.
pub record IsBehind (c : Clock) : Type 0 where
  pub started : c.print_once ≡ false
  pub behind : c.rdtsc_fake ≤ c.rdtsc_prev
  pub fits : c.rdtsc_prev < 2 ^ 64

pub tick-IsBehind : (c : Clock) (real : ℕ) → real < 2 ^ 64 → IsBehind (tick c real)
unfolding tick
tick-IsBehind c real h = ground arith

pub tick-prev : (c : Clock) (real : ℕ) → (tick c real).rdtsc_prev ≡ real
unfolding tick
tick-prev c real = ground arith

-- Between two exits the fake counter advances by a sixteenth of the host's cycles, rounded down, if
-- the host's counter has not gone back and was not 0: neither the 64-bit addition nor the clamp
-- changes the result.
pub tick-forward :
    (c : Clock) (real : ℕ)
    → IsBehind c
    → c.rdtsc_prev ≢ 0
    → c.rdtsc_prev ≤ real
    → real < 2 ^ 64
    → (tick c real).rdtsc_fake ≡ c.rdtsc_fake + (real - c.rdtsc_prev) / 16
unfolding tick
tick-forward c real i nz le h = ground arith

-- Where the host's counter has gone back, as on another physical CPU, the fake counter stays,
-- unless it is ahead of the host's: then it goes back with it.
pub tick-backward :
    (c : Clock) (real : ℕ)
    → IsBehind c
    → real < c.rdtsc_prev
    → (tick c real).rdtsc_fake ≡ min c.rdtsc_fake real
unfolding tick
tick-backward c real i h = ground arith

-- The first exit shows the guest the host's counter itself.
pub tick-first :
    (c : Clock) (real : ℕ)
    → c.print_once ≡ true
    → c.rdtsc_prev ≡ 0
    → (tick c real).rdtsc_fake ≡ real
unfolding tick
tick-first c real once prev = ground arith

-- EDX:EAX hold the counter whole.
pub write_tsc-value :
    (v : Vcpu) (fake : ℕ)
    → fake < 2 ^ 64
    → ((write_tsc v fake).rdx * 2 ^ 32 + (write_tsc v fake).rax ≡ fake)
      × ((write_tsc v fake).rax < 2 ^ 32)
      × ((write_tsc v fake).rdx < 2 ^ 32)
unfolding write_tsc
write_tsc-value v fake h = omega arith

-- The guest reads a 64-bit value in EDX:EAX that is at most the host's counter, whatever the static
-- variables held.
pub handle_rdtsc-le :
    (skip : Vcpu → ℕ) (c : Clock) (v : Vcpu) (real : ℕ)
    → real < 2 ^ 64
    → let v' = (handle_rdtsc skip c v real).1 in
      (v'.rdx * 2 ^ 32 + v'.rax ≡ (tick c real).rdtsc_fake) × (v'.rdx * 2 ^ 32 + v'.rax ≤ real)
unfolding handle_rdtsc
handle_rdtsc-le skip c v real h =
    let b = tick-IsBehind c real h in
    let e = tick-prev c real in
    let w = write_tsc-value v (tick c real).rdtsc_fake (omega arith) in (w.0, omega (arith, w.0))

-- From the same static variables and registers, the Intel and the AMD handler leave the same static variables
-- and registers, whatever the two functions that skip the instruction, which are not the same, return; each
-- returns what its own function does for those registers.
pub handle_rdtsc-handle_rdtsc_interception :
    (skip_emulated_instruction svm_skip_emulated_instruction : Vcpu → ℕ) (c : Clock) (v : Vcpu)
    (real : ℕ)
    → let (c', v', r) = handle_rdtsc skip_emulated_instruction c v real in
      let (d', w', t) = handle_rdtsc_interception svm_skip_emulated_instruction c v real in
      (c' ≡ d')
      × (v' ≡ w')
      × (r ≡ skip_emulated_instruction v')
      × (t ≡ svm_skip_emulated_instruction v')
unfolding handle_rdtsc handle_rdtsc_interception tick
handle_rdtsc-handle_rdtsc_interception skip svm_skip c v real =
    (ground arith, ground arith, refl, ground arith)
