-- ===== src/Smbios/Entry/Fields.antt =====
-- smbios.c: the cases of `smbios_entry_add` that save the fields of one type (lines 1620 to 1778).
use Prim.Native.String.{String}
use pve_anti_detection.Prelude.{
  ℕ, ◌+◌, Bool, true, false, not, ◌||◌, Option, none, some, List, [], ◌∷◌, ◌++◌, Text, u8, u16, u64,
  bit_or, ltb, if◌then◌else◌,
}
use pve_anti_detection.Smbios.Options.{
  qemu_smbios_type0_opts, qemu_smbios_type1_opts, qemu_smbios_type2_opts, qemu_smbios_type3_opts,
  qemu_smbios_type4_opts, qemu_smbios_type8_opts, qemu_smbios_type9_opts, qemu_smbios_type11_opts,
  qemu_smbios_type17_opts, qemu_smbios_type41_opts,
}
use pve_anti_detection.Smbios.State.{
  Smbios, Error, Type8Instance, Type9Instance, Type41Instance, invalid_option, invalid_release,
  invalid_uuid, invalid_kind, speed_too_large, default_cpu_speed,
}
use pve_anti_detection.Smbios.Qemu.{Qemu}
use pve_anti_detection.Smbios.Entry.Strings.{save_opt, save_opt_list}

abbrev pub Result : Type 0
Result = Smbios × Option Error

-- `type41_kind_lookup`
abbrev pub type41_kinds : List String
type41_kinds =
    "other" ∷ "unknown" ∷ "video" ∷ "scsi" ∷ "ethernet" ∷ "tokenring" ∷ "sound" ∷ "pata" ∷ "sata"
    ∷ "sas" ∷ []

-- What `sscanf` converted is stored also where it did not convert both numbers.
abbrev pub stored : Option ℕ → ℕ → ℕ
stored none old = old
stored (some n) old = u8 n

abbrev pub converted : Option ℕ → Bool
converted none = false
converted (some n) = true

module _ (q : Qemu) (opts : q.Opts) where
  -- An option that is given replaces the value that was there.
  abbrev saved : Option Text → String → Option Text
  saved dest name = save_opt q dest opts name

  abbrev number : String → ℕ → ℕ
  number name default_value = q.opt_get_number opts name default_value

  unfoldable pub save_release : Option Text → Smbios → Result
  save_release none s = (s, none)
  save_release (some val) s =
      let (major, minor) = q.scan_release val in
      let t = s.type0 in
      let scanned = record t { major = stored major t.major; minor = stored minor t.minor } in
      if not (converted minor)
      then (record s { type0 = scanned }, some invalid_release)
      else (record s { type0 = record scanned { have_major_minor = true } }, none)

  unfoldable pub add_type_0 : Smbios → Result
  unfolding save_release
  add_type_0 s =
      if not (q.opts_validate opts qemu_smbios_type0_opts)
      then (s, some invalid_option)
      else save_release (q.opt_get opts "release") (record s {
        type0 = record (s.type0) {
          vendor = saved s.type0.vendor "vendor";
          version = saved s.type0.version "version";
          date = saved s.type0.date "date";
          uefi = q.opt_get_bool opts "uefi" false;
        };
      })

  unfoldable pub save_uuid : Option Text → Smbios → Result
  save_uuid none s = (s, none)
  save_uuid (some val) s =
      let (parsed, uuid) = q.uuid_parse val s.qemu_uuid in
      if parsed
      then (record s { qemu_uuid = uuid; qemu_uuid_set = true }, none)
      else (record s { qemu_uuid = uuid }, some invalid_uuid)

  unfoldable pub add_type_1 : Smbios → Result
  unfolding save_uuid
  add_type_1 s =
      if not (q.opts_validate opts qemu_smbios_type1_opts)
      then (s, some invalid_option)
      else save_uuid (q.opt_get opts "uuid") (record s {
        type1 = record (s.type1) {
          manufacturer = saved s.type1.manufacturer "manufacturer";
          product = saved s.type1.product "product";
          version = saved s.type1.version "version";
          serial = saved s.type1.serial "serial";
          sku = saved s.type1.sku "sku";
          family = saved s.type1.family "family";
        };
      })

  unfoldable pub add_type_2 : Smbios → Result
  add_type_2 s =
      if not (q.opts_validate opts qemu_smbios_type2_opts) then (s, some invalid_option) else (
        record s {
          type2 = record (s.type2) {
            manufacturer = saved s.type2.manufacturer "manufacturer";
            product = saved s.type2.product "product";
            version = saved s.type2.version "version";
            serial = saved s.type2.serial "serial";
            asset = saved s.type2.asset "asset";
            location = saved s.type2.location "location";
          };
        },
        none,
      )

  unfoldable pub add_type_3 : Smbios → Result
  add_type_3 s =
      if not (q.opts_validate opts qemu_smbios_type3_opts) then (s, some invalid_option) else (
        record s {
          type3 = record (s.type3) {
            manufacturer = saved s.type3.manufacturer "manufacturer";
            version = saved s.type3.version "version";
            serial = saved s.type3.serial "serial";
            asset = saved s.type3.asset "asset";
            sku = saved s.type3.sku "sku";
          };
        },
        none,
      )

  -- A speed that is too large is stored all the same.
  unfoldable pub add_type_4 : Smbios → Result
  add_type_4 s =
      let max_speed = u64 (number "max-speed" default_cpu_speed) in
      let current_speed = u64 (number "current-speed" default_cpu_speed) in
      if not (q.opts_validate opts qemu_smbios_type4_opts) then (s, some invalid_option) else (
        record s {
          type4 = record (s.type4) {
            sock_pfx = saved s.type4.sock_pfx "sock_pfx";
            processor_family = u16 (number "processor-family" 0x01);
            manufacturer = saved s.type4.manufacturer "manufacturer";
            version = saved s.type4.version "version";
            serial = saved s.type4.serial "serial";
            asset = saved s.type4.asset "asset";
            part = saved s.type4.part "part";
            processor_id = u64 (number "processor-id" 0);
            max_speed = max_speed;
            current_speed = current_speed;
          };
        },
        if ltb 0xFFFF max_speed || ltb 0xFFFF current_speed then some speed_too_large else none,
      )

  unfoldable pub type_8_instance : Type8Instance
  type_8_instance = record {
    internal_reference = saved none "internal_reference";
    external_reference = saved none "external_reference";
    connector_type = u8 (number "connector_type" 0);
    port_type = u8 (number "port_type" 0);
  }

  unfoldable pub add_type_8 : Smbios → Result
  unfolding type_8_instance
  add_type_8 s =
      if not (q.opts_validate opts qemu_smbios_type8_opts)
      then (s, some invalid_option)
      else (record s { type8 = s.type8 ++ (type_8_instance ∷ []) }, none)

  unfoldable pub type_9_instance : Type9Instance
  type_9_instance = record {
    slot_designation = saved none "slot_designation";
    pcidev = saved none "pcidev";
    slot_type = u8 (number "slot_type" 0);
    slot_data_bus_width = u8 (number "slot_data_bus_width" 0);
    current_usage = u8 (number "current_usage" 0);
    slot_length = u8 (number "slot_length" 0);
    slot_characteristics1 = u8 (number "slot_characteristics1" 0);
    slot_characteristics2 = u8 (number "slot_characteristics2" 0);
    slot_id = u16 (number "slot_id" 0);
  }

  unfoldable pub add_type_9 : Smbios → Result
  unfolding type_9_instance
  add_type_9 s =
      if not (q.opts_validate opts qemu_smbios_type9_opts)
      then (s, some invalid_option)
      else (record s { type9 = s.type9 ++ (type_9_instance ∷ []) }, none)

  unfoldable pub add_type_11 : Smbios → Result
  add_type_11 s =
      let (values, errp) = save_opt_list q s.type11 (q.opt_items opts) in
      if not (q.opts_validate opts qemu_smbios_type11_opts)
      then (s, some invalid_option)
      else (record s { type11 = values }, errp)

  unfoldable pub add_type_17 : Smbios → Result
  add_type_17 s =
      if not (q.opts_validate opts qemu_smbios_type17_opts) then (s, some invalid_option) else (
        record s {
          type17 = record {
            loc_pfx = saved s.type17.loc_pfx "loc_pfx";
            bank = saved s.type17.bank "bank";
            manufacturer = saved s.type17.manufacturer "manufacturer";
            serial = saved s.type17.serial "serial";
            asset = saved s.type17.asset "asset";
            part = saved s.type17.part "part";
            speed = u16 (number "speed" 0);
          };
        },
        none,
      )

  -- The kind is one more than its place in the list, with bit 7 set: enabled.
  unfoldable pub add_type_41 : Smbios → Result
  add_type_41 s =
      let (index, wrong) = q.enum_parse type41_kinds (q.opt_get opts "kind") 0 in
      let added : Type41Instance = record {
        designation = saved none "designation";
        pcidev = saved none "pcidev";
        instance_number = u8 (number "instance" 1);
        kind = bit_or (u8 (index + 1)) 0x80;
      } in
      if not (q.opts_validate opts qemu_smbios_type41_opts)
      then (s, some invalid_option)
      else (if wrong
          then (s, some invalid_kind)
          else (record s { type41 = s.type41 ++ (added ∷ []) }, none))
