-- ===== src/Smbios/Assumptions.antt =====
-- What the properties assume of the parameter `Qemu`: the documented behaviour of the macros of
-- smbios_build.h and of QEMU's helpers.
use pve_anti_detection.Prelude.{ℕ, ◌+◌, ◌-◌, ◌*◌, ◌/◌, ◌^◌, ◌≤◌, ◌<◌, ◌≡◌, Bool, u16}
use pve_anti_detection.Smbios.Qemu.{Qemu}
use pve_anti_detection.Smbios.State.{Smbios}
use pve_anti_detection.Smbios.Select.{smbios_skip_table}

-- `SMBIOS_BUILD_TABLE_PRE` leaves the function exactly where `smbios_skip_table` says so.
pub record SkipsTables (q : Qemu) : Type 0 where
  pub skips_lem :
      (s : Smbios) (type : ℕ) (required : Bool)
      → q.skips s type required ≡ smbios_skip_table s type required

-- It writes the type, the length and the 16-bit handle into the header.
pub record WritesHeaders (q : Qemu) : Type 0 where
  pub header_lem :
      (type len handle : ℕ)
      → q.header type len handle ≡ record { type = type; length = len; handle = u16 handle }

-- `QEMU_ALIGN_UP` rounds up to a multiple, below the 64-bit limit.
pub record AlignsUp (q : Qemu) : Type 0 where
  pub align_up_lem : (n m : ℕ) → 0 < m → n + m ≤ 2 ^ 64 → q.align_up n m ≡ (n + (m - 1)) / m * m
