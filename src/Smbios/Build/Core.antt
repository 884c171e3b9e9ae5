-- ===== src/Smbios/Build/Core.antt =====
-- What the build functions share: the bases of the handles, and the frame of the macros
-- `SMBIOS_BUILD_TABLE_PRE` and `SMBIOS_BUILD_TABLE_POST` around a structure.
use pve_anti_detection.Prelude.{ℕ, Bool, [], ◌∷◌, ◌++◌, if◌then◌else◌}
use pve_anti_detection.Smbios.Table.{Structure}
use pve_anti_detection.Smbios.State.{Smbios}
use pve_anti_detection.Smbios.Qemu.{Qemu}

abbrev pub t0_base : ℕ
t0_base = 0x000

abbrev pub t1_base : ℕ
t1_base = 0x100

abbrev pub t2_base : ℕ
t2_base = 0x200

abbrev pub t3_base : ℕ
t3_base = 0x300

abbrev pub t4_base : ℕ
t4_base = 0x400

abbrev pub t7_base : ℕ
t7_base = 0x700

abbrev pub t9_base : ℕ
t9_base = 0x900

abbrev pub t11_base : ℕ
t11_base = 0xe00

abbrev pub t16_base : ℕ
t16_base = 0x1000

abbrev pub t17_base : ℕ
t17_base = 0x1100

abbrev pub t19_base : ℕ
t19_base = 0x1300

abbrev pub t20_base : ℕ
t20_base = 0x1400

abbrev pub t22_base : ℕ
t22_base = 0x1600

abbrev pub t26_base : ℕ
t26_base = 0x1A00

abbrev pub t27_base : ℕ
t27_base = 0x1B00

abbrev pub t28_base : ℕ
t28_base = 0x1C00

abbrev pub t29_base : ℕ
t29_base = 0x1D00

abbrev pub t32_base : ℕ
t32_base = 0x2000

abbrev pub t37_base : ℕ
t37_base = 0x2500

abbrev pub t39_base : ℕ
t39_base = 0x2700

abbrev pub t41_base : ℕ
t41_base = 0x2900

abbrev pub t127_base : ℕ
t127_base = 0x7F00

module _ (q : Qemu) where
  -- `SMBIOS_BUILD_TABLE_POST`, with the structure added to the history.
  abbrev pub emit : Smbios → Structure → Smbios
  emit s x = record s {
    tables = record (q.finish s.tables x) { built = s.tables.built ++ (x ∷ []) };
  }

  -- The function returned between the two macros.
  abbrev pub abandon : Smbios → ℕ → ℕ → Smbios
  abandon s type len = record s {
    tables = record (q.unfinished s.tables type len) { built = s.tables.built };
  }

  -- A function that is one structure between the two macros.
  abbrev pub build : Smbios → ℕ → Bool → Structure → Smbios
  build s type required x = if q.skips s type required then s else emit s x
