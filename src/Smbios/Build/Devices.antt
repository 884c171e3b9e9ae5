-- ===== src/Smbios/Build/Devices.antt =====
-- smbios.c: the structures of ports, slots, OEM strings and onboard devices, types 8, 9, 11 and 41
-- (lines 910 to 1009 and 1118 to 1163).
use pve_anti_detection.Prelude.{
  ℕ, ◌+◌, true, Option, none, some, List, [], ◌∷◌, Text, text, u8, length, if◌then◌else◌,
}
use pve_anti_detection.Prelude.Outcome.{Outcome, done, ◌>>=◌}
use pve_anti_detection.Smbios.Layout.Devices.{
  SmbiosType8, SmbiosType9, SmbiosType11, SmbiosType41, sizeof_type_8, sizeof_type_9,
  sizeof_type_11, sizeof_type_41,
}
use pve_anti_detection.Smbios.Table.{Structure, type_8, type_9, type_11, type_41}
use pve_anti_detection.Smbios.State.{
  Smbios, Error, Type8Instance, Type9Instance, Type41Instance, no_pci_device, not_on_root_bus,
}
use pve_anti_detection.Smbios.Qemu.{Qemu, PciDevice}
use pve_anti_detection.Smbios.Build.Core.{emit, abandon, t0_base, t9_base, t11_base, t41_base}

-- Where a structure says that its device is, or why it cannot be said.
pub data Place : Type 0 where
  at : (segment bus device : ℕ) → Place
  nowhere : Error → Place

-- Each string is freed, and its pointer set to NULL, once it is in the structure.
unfoldable pub cleared : List (Option (List ℕ)) → List (Option (List ℕ))
cleared [] = []
cleared (value ∷ rest) = none ∷ cleared rest

-- Only a device on a root bus has a place.
unfoldable pub place_of : Option PciDevice → Text → Place
place_of none name = nowhere (no_pci_device name)
place_of (some dev) name =
    if dev.on_root_bus then at 0 (u8 dev.bus_num) (u8 dev.devfn) else nowhere (not_on_root_bus name)

module _ (q : Qemu) where
  open q use {header, set_str}

  unfoldable pub place : Option Text → Place → Place
  unfolding place_of
  place none without = without
  place (some name) without = place_of (q.find_pci_device name) name

  unfoldable pub type_8_structure : ℕ → Structure
  type_8_structure instance_number =
      let (internal, p1) = set_str [] (some (text "FAN")) in
      let (external, p2) = set_str p1 (some (text "CPU FAN")) in
      let filled : SmbiosType8 = record {
        header = header 8 sizeof_type_8 (t0_base + instance_number);
        internal_reference_str = internal;
        internal_connector_type = 0x0;
        external_reference_str = external;
        external_connector_type = 0xFF;
        port_type = 0xFF;
      } in
      record { table = type_8 filled; strings = p2 }

  unfoldable pub type_8_loop : ℕ → List Type8Instance → Smbios → Smbios
  unfolding type_8_structure
  type_8_loop n [] s = s
  type_8_loop n (t8 ∷ rest) s =
      if q.skips s 8 true then s else type_8_loop (n + 1) rest (emit q s (type_8_structure n))

  unfoldable pub smbios_build_type_8_table : Smbios → Smbios
  unfolding type_8_loop
  smbios_build_type_8_table s = type_8_loop 0 s.type8 s

  unfoldable pub type_9_structure : ℕ → Type9Instance → ℕ → ℕ → ℕ → Structure
  type_9_structure instance_number t9 segment bus device =
      let (designation, p1) = set_str [] t9.slot_designation in
      let filled : SmbiosType9 = record {
        header = header 9 sizeof_type_9 (t9_base + instance_number);
        slot_designation = designation;
        slot_type = t9.slot_type;
        slot_data_bus_width = t9.slot_data_bus_width;
        current_usage = t9.current_usage;
        slot_length = t9.slot_length;
        slot_id = t9.slot_id;
        slot_characteristics1 = t9.slot_characteristics1;
        slot_characteristics2 = t9.slot_characteristics2;
        segment_group_number = segment;
        bus_number = bus;
        device_number = device;
      } in
      record { table = type_9 filled; strings = p1 }

  unfoldable pub type_9_loop :
      ℕ → List Type9Instance → Smbios → Option Error → Outcome (Smbios × Option Error)
  unfolding type_9_structure place
  type_9_loop n [] s errp = done (s, errp)
  type_9_loop n (t9 ∷ rest) s errp =
      let stop : Error → Outcome (Smbios × Option Error) =
        λ e. q.error_setg errp e >>= λ errp'. done (abandon q s 9 sizeof_type_9, errp') in
      let next : ℕ → ℕ → ℕ → Outcome (Smbios × Option Error) = λ segment bus device.
        type_9_loop (n + 1) rest (emit q s (type_9_structure n t9 segment bus device)) errp in
      if q.skips s 9 true then done (s, errp) else elim (place t9.pcidev (at 0xff 0xff 0xff)) [
        | at segment bus device ↦ next segment bus device
        | nowhere e ↦ stop e
      ]

  unfoldable pub smbios_build_type_9_table : Smbios → Option Error → Outcome (Smbios × Option Error)
  unfolding type_9_loop
  smbios_build_type_9_table s errp = type_9_loop 0 s.type9 s errp

  unfoldable pub oem_strings : List Text → List (Option (List ℕ)) → List Text
  oem_strings p [] = p
  oem_strings p (value ∷ rest) = oem_strings (q.set_str_list p value) rest

  unfoldable pub type_11_structure : List (Option (List ℕ)) → Structure
  unfolding oem_strings
  type_11_structure values =
      let filled : SmbiosType11 = record {
        header = header 11 sizeof_type_11 t11_base;
        count = u8 (length values);
      } in
      record { table = type_11 filled; strings = oem_strings [] values }

  unfoldable pub type_11_from : List (Option (List ℕ)) → Smbios → Smbios
  unfolding type_11_structure cleared
  type_11_from [] s = s
  type_11_from (value ∷ rest) s =
      let values = value ∷ rest in
      if q.skips s 11 true
      then s
      else emit q (record s { type11 = cleared values }) (type_11_structure values)

  unfoldable pub smbios_build_type_11_table : Smbios → Smbios
  unfolding type_11_from
  smbios_build_type_11_table s = type_11_from s.type11 s

  unfoldable pub type_41_structure : ℕ → Type41Instance → ℕ → ℕ → ℕ → Structure
  type_41_structure instance_number t41 segment bus device =
      let (designation, p1) = set_str [] t41.designation in
      let filled : SmbiosType41 = record {
        header = header 41 sizeof_type_41 (t41_base + instance_number);
        reference_designation_str = designation;
        device_type = t41.kind;
        device_type_instance = t41.instance_number;
        segment_group_number = segment;
        bus_number = bus;
        device_number = device;
      } in
      record { table = type_41 filled; strings = p1 }

  unfoldable pub type_41_loop :
      ℕ → List Type41Instance → Smbios → Option Error → Outcome (Smbios × Option Error)
  unfolding type_41_structure place
  type_41_loop n [] s errp = done (s, errp)
  type_41_loop n (t41 ∷ rest) s errp =
      let stop : Error → Outcome (Smbios × Option Error) =
        λ e. q.error_setg errp e >>= λ errp'. done (abandon q s 41 sizeof_type_41, errp') in
      let next : ℕ → ℕ → ℕ → Outcome (Smbios × Option Error) = λ segment bus device.
        type_41_loop (n + 1) rest (emit q s (type_41_structure n t41 segment bus device)) errp in
      if q.skips s 41 true then done (s, errp) else elim (place t41.pcidev (at 0 0 0)) [
        | at segment bus device ↦ next segment bus device
        | nowhere e ↦ stop e
      ]

  unfoldable pub smbios_build_type_41_table :
      Smbios → Option Error → Outcome (Smbios × Option Error)
  unfolding type_41_loop
  smbios_build_type_41_table s errp = type_41_loop 0 s.type41 s errp
