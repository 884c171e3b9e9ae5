-- ===== src/Smbios/Build/Handles.antt =====
-- The handles of the structures: which are told apart, and which are not.
use pve_anti_detection.Prelude.{ℕ, ◌+◌, ◌^◌, ◌≤◌, ◌<◌, ◌≡◌, ◌↔◌, arith, u16, u32, ap}
use pve_anti_detection.Smbios.Layout.System.{SmbiosStructureHeader}
use pve_anti_detection.Smbios.Table.{handle_of}
use pve_anti_detection.Smbios.State.{Smbios}
use pve_anti_detection.Smbios.Qemu.{Qemu}
use pve_anti_detection.Smbios.Assumptions.{WritesHeaders}
use pve_anti_detection.Smbios.Build.System.{type_0_structure}
use pve_anti_detection.Smbios.Build.Devices.{type_8_structure}
use pve_anti_detection.Smbios.Build.Memory.{type_17_structure, type_19_structure, type_20_structure}
use pve_anti_detection.Smbios.Tables.{handle_offset}

module _ (q : Qemu) (w : WritesHeaders q) where
  written : (type len handle : ℕ) → (q.header type len handle).handle ≡ u16 handle
  written type len handle =
      ap (λ (h : SmbiosStructureHeader). h.handle) (w.header_lem type len handle)

  -- Every module's structure of type 17 has a smaller handle than every one of type 19: the offset
  -- moves the latter up by as much as is needed, as long as the handles fit 16 bits.
  pub handle_offset-separates :
      (cnt i j : ℕ) (size start area : ℕ) (s : Smbios)
      → i < cnt
      → j < cnt
      → 0x1300 + handle_offset cnt + cnt ≤ 2 ^ 16
      → handle_of (type_17_structure q i size s)
        < handle_of (type_19_structure q j (handle_offset cnt) start area)
  unfolding type_17_structure type_19_structure handle_offset
  handle_offset-separates cnt i j size start area s hi hj fits =
      ground
        (arith, written 17 40 (0x1100 + i), written 19 31 (u32 (0x1300 + handle_offset cnt + j)))

  -- With more than 256 modules, and up to 512, a structure of type 19 has the handle that every
  -- structure of type 20 has.
  pub type_19-type_20_clash :
      (cnt start size start' size' : ℕ)
      → 256 < cnt
      → cnt ≤ 512
      → handle_of (type_19_structure q 256 (handle_offset cnt) start size)
        ≡ handle_of (type_20_structure q start' size')
  unfolding type_19_structure type_20_structure handle_offset
  type_19-type_20_clash cnt start size start' size' lo hi =
      ground (arith, written 19 31 (u32 (0x1300 + handle_offset cnt + 256)), written 20 19 0x1400)

  -- Of the first 2 ^ 16 ports, the first one's structure has the handle of the BIOS information, and no
  -- other's has.
  pub type_8-type_0_clash :
      (n : ℕ) (s : Smbios)
      → n < 2 ^ 16
      → (handle_of (type_8_structure q n) ≡ handle_of (type_0_structure q s)) ↔ (n ≡ 0)
  unfolding type_8_structure type_0_structure
  type_8-type_0_clash n s h = ground (arith, written 8 9 n, written 0 24 0)
