-- ===== src/Smbios/Tables/Sockets.antt =====
-- The structures of type 4: one for each socket.
use pve_anti_detection.Smbios.Table.{Structure, type_4}
use pve_anti_detection.Smbios.Layout.Devices.{SmbiosType4}
use pve_anti_detection.Prelude.{
  List, [], ◌∷◌, u16, if◌then◌else◌, Bool, false, ℕ, ◌+◌, ◌<◌, ◌≡◌, ◌⊎◌, true, false,
}
use pve_anti_detection.Smbios.State.{Smbios, EntryPointType, entry_point_64}
use pve_anti_detection.Smbios.Qemu.{Qemu}
use pve_anti_detection.Smbios.Build.Processor.{Machine, type_4_structure, type_4_len}
use pve_anti_detection.Smbios.Build.Core.{emit}

abbrev is_64 : EntryPointType → Bool
is_64 ep_type = elim ep_type [ entry_point_64 ↦ true | _ ↦ false ]

-- A structure of type 4 for socket `i`: with its own handle, and the cores and threads of the machine.
abbrev pub IsSocket : Qemu → Machine → EntryPointType → ℕ → Structure → Type 0
IsSocket q ms ep_type i x =
    (t : SmbiosType4) × (x.table ≡ type_4 t)
    × (t.header ≡ q.header 4 (if is_64 ep_type then 48 else 42) (0x400 + i))
    × (t.core_count2 ≡ u16 ms.cores_per_socket)
    × (t.thread_count2 ≡ u16 ms.threads_per_socket)

-- These are structures of type 4, for the sockets from `i` on, with the handles in their order.
abbrev pub AreSockets : Qemu → Machine → EntryPointType → ℕ → List Structure → Type 0
AreSockets q ms ep_type i [] = Unit
AreSockets q ms ep_type i (x ∷ xs) = IsSocket q ms ep_type i x × AreSockets q ms ep_type (i + 1) xs

-- The counts fit the structure of this entry point.
abbrev pub CountsFit : Machine → EntryPointType → Type 0
CountsFit ms ep_type =
    (ep_type ≡ entry_point_64) ⊎ ((ms.cores_per_socket < 255) × (ms.threads_per_socket < 255))

-- The state after one structure of type 4.
abbrev counted : Qemu → Machine → EntryPointType → ℕ → Smbios → Smbios
counted q ms ep_type i s = record (emit q s (type_4_structure q ms i (type_4_len ep_type) s)) {
  type4_count = s.type4_count + 1;
}
