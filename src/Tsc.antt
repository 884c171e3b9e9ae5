-- ===== src/Tsc.antt =====
-- The time-stamp handlers that the project adds to KVM: `handle_rdtsc` of vmx.c (lines 6082 to 6114)
-- and `handle_rdtsc_interception` of svm.c (lines 3245 to 3277), with the static variables that they
-- keep between two exits. The host's counter, `rdtsc()`, and the instruction skip come from the
-- kernel: the reading is an argument. Each backend skips the instruction by a function of its own, which
-- is a section's parameter: it changes the instruction pointer, which is not modelled, and its result is
-- that of the handler.
pub mod Bounds
pub mod Reads
mod Tests
use pve_anti_detection.Prelude.{
  ℕ, ◌+◌, ◌-◌, ◌/◌, ◌^◌, Bool, true, false, not, List, [], ◌∷◌, ltb, ◌==◌, if◌then◌else◌, u32, u64,
}

-- `print_once`, `rdtsc_fake` and `rdtsc_prev`: one copy for the whole module, shared by every vCPU.
pub record Clock : Type 0 where
  pub print_once : Bool
  pub rdtsc_fake : ℕ
  pub rdtsc_prev : ℕ

-- As the module is loaded.
abbrev pub loaded : Clock
loaded = record { print_once = true; rdtsc_fake = 0; rdtsc_prev = 0 }

-- The two registers of `vcpu->arch.regs` that the handlers write.
pub record Vcpu : Type 0 where
  pub rax : ℕ
  pub rdx : ℕ

-- The first exit prints its message and starts the fake counter at the real one.
start : Clock → ℕ → Clock
start c real = if c.print_once then record c { print_once = false; rdtsc_fake = real } else c

-- A sixteenth of the cycles since the last exit is added.
slow : Clock → ℕ → Clock
slow c real =
    if not (c.rdtsc_prev == 0)
    then (if ltb c.rdtsc_prev real
        then record c { rdtsc_fake = u64 (c.rdtsc_fake + (real - c.rdtsc_prev) / 16) }
        else c)
    else c

-- The fake counter does not pass the real one, which is kept for the next exit.
clamp : Clock → ℕ → Clock
clamp c real = record c {
  rdtsc_fake = if ltb real c.rdtsc_fake then real else c.rdtsc_fake;
  rdtsc_prev = real;
}

-- What an exit at the host's time `real` does to the static variables, on Intel.
unfoldable pub tick : Clock → ℕ → Clock
unfolding start slow clamp
tick c real = clamp (slow (start c real) real) real

-- EDX:EAX as RDTSC leaves them: `rdtsc_fake & -1u` and `(rdtsc_fake >> 32) & -1u`.
unfoldable pub write_tsc : Vcpu → ℕ → Vcpu
write_tsc v fake = record v { rax = u32 fake; rdx = u32 (fake / 2 ^ 32) }

module _ (skip_emulated_instruction : Vcpu → ℕ) where
  unfoldable pub handle_rdtsc : Clock → Vcpu → ℕ → Clock × Vcpu × ℕ
  handle_rdtsc c v real =
      let c' = tick c real in
      let v' = write_tsc v c'.rdtsc_fake in (c', v', skip_emulated_instruction v')

module _ (svm_skip_emulated_instruction : Vcpu → ℕ) where
  -- The AMD handler, with static variables of its own.
  unfoldable pub handle_rdtsc_interception : Clock → Vcpu → ℕ → Clock × Vcpu × ℕ
  handle_rdtsc_interception c v real =
      let started = if c.print_once then real else c.rdtsc_fake in
      let advanced =
        if c.rdtsc_prev == 0
        then started
        else (if ltb c.rdtsc_prev real
            then u64 (started + (real - c.rdtsc_prev) / 16)
            else started) in
      let fake = if ltb real advanced then real else advanced in
      let v' = write_tsc v fake in
      (
        record { print_once = false; rdtsc_fake = fake; rdtsc_prev = real },
        v',
        svm_skip_emulated_instruction v',
      )

-- Exits one after another, at the given readings of the host's counter.
unfoldable pub run : Clock → List ℕ → Clock
run c [] = c
run c (r ∷ rs) = run (tick c r) rs
