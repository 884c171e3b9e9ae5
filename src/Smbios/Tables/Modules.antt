-- ===== src/Smbios/Tables/Modules.antt =====
-- The memory modules of types 17 and 19: how many, and how large.
use native.Mathlib.Nat.{add-div_right, mul-div_cancel, div-add-mod'}
use native.Mathlib.Numerals.{add-one}
use pve_anti_detection.Prelude.{
  ℕ, zero, suc, ◌+◌, ◌-◌, ◌*◌, ◌/◌, ◌%◌, ◌^◌, ◌≤◌, ◌<◌, ◌≡◌, ◌∙◌, arith, u32,
}
use pve_anti_detection.Smbios.Qemu.{Qemu}
use pve_anti_detection.Smbios.Assumptions.{AlignsUp}
use pve_anti_detection.Smbios.Build.Processor.{Machine}
use pve_anti_detection.Smbios.Tables.{dimm_size, dimm_count}

-- The sizes of the `k` modules from index `i` on, added up.
abbrev pub total_size : Machine → ℕ → ℕ → ℕ → ℕ
total_size ms cnt zero i = 0
total_size ms cnt (suc k) i = dimm_size ms cnt i + total_size ms cnt k (suc i)

total_size_from :
    (ms : Machine) (cnt k i : ℕ)
    → i + suc k ≡ cnt
    → total_size ms cnt (suc k) i
      ≡ k * ms.memory_device_size + ((ms.ram_size - 1) % ms.memory_device_size + 1)
unfolding dimm_size
total_size_from ms cnt zero i e = ground arith
total_size_from ms cnt (suc k) i e = ground (arith, total_size_from ms cnt k (suc i))

-- `n / d`, rounded up, for a positive `n`.
div_up : (n d : ℕ) → 0 < n → 0 < d → (n + (d - 1)) / d ≡ suc ((n - 1) / d)
div_up n d hn hd =
    let shifted : n + (d - 1) ≡ n - 1 + d = omega arith in
    rw shifted (add-div_right (n - 1) hd ∙ add-one _)

pub dimm_count-div :
    (q : Qemu) (ms : Machine)
    → AlignsUp q
    → 0 < ms.ram_size
    → 0 < ms.memory_device_size
    → ms.ram_size + ms.memory_device_size ≤ 2 ^ 64
    → dimm_count q ms ≡ u32 (suc ((ms.ram_size - 1) / ms.memory_device_size))
unfolding dimm_count
dimm_count-div q ms a hr hd fits = rw (
  a.align_up_lem ms.ram_size ms.memory_device_size hd fits,
  mul-div_cancel ((ms.ram_size + (ms.memory_device_size - 1)) / ms.memory_device_size) hd,
  div_up ms.ram_size ms.memory_device_size hr hd,
)

-- The modules of the type 17 structures together hold the machine's memory, to the byte, if there are
-- fewer than 2 ^ 32 of them, neither size is 0, and the rounding up fits 64 bits.
pub total_size-ram_size :
    (q : Qemu) (ms : Machine)
    → AlignsUp q
    → 0 < ms.ram_size
    → 0 < ms.memory_device_size
    → ms.ram_size + ms.memory_device_size ≤ 2 ^ 64
    → (ms.ram_size - 1) / ms.memory_device_size + 1 < 2 ^ 32
    → total_size ms (dimm_count q ms) (dimm_count q ms) 0 ≡ ms.ram_size
total_size-ram_size q ms a hr hd fits few =
    let rounds = (ms.ram_size - 1) / ms.memory_device_size in
    let count : dimm_count q ms ≡ suc rounds = dimm_count-div q ms a hr hd fits ∙ omega arith in
    rw count (
      total_size_from ms (suc rounds) rounds 0 (omega arith)
      ∙ omega (arith, div-add-mod' (ms.ram_size - 1) ms.memory_device_size))
