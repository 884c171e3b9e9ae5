-- ===== src/Smbios/Tables.antt =====
-- smbios.c: the entry point and `smbios_get_tables`, which build all structures in order (lines 1209
-- to 1454). The caller's `mem_array_size` is the length of `mem_array`, and its error is not set.
pub mod Verdict
pub mod Modules
pub mod Areas
pub mod Retry
pub mod Sockets
pub mod Anchors
use pve_anti_detection.Prelude.{
  ℕ, zero, suc, ◌+◌, ◌-◌, ◌*◌, ◌/◌, ◌%◌, ◌<◌, Bool, true, false, Option, none, some, List, [], ◌∷◌,
  ◌&&◌, text, u16, u32, ltb, leb, ◌==◌, if◌then◌else◌, get_elem?, length, take, replicate,
}
use pve_anti_detection.Prelude.Outcome.{Outcome, done, aborted, stray, assert, ◌>>=◌, ◌>>◌}
use pve_anti_detection.Smbios.Layout.Anchor.{
  Smbios21EntryPoint, Smbios30EntryPoint, sizeof_entry_point_21, sizeof_entry_point_30,
}
use pve_anti_detection.Smbios.State.{
  Smbios, Tables, Error, EntryPoint, empty, ep21, ep30, EntryPointType, entry_point_auto,
  entry_point_32, entry_point_64,
}
use pve_anti_detection.Smbios.Qemu.{Qemu}
use pve_anti_detection.Smbios.Select.{smbios_check_type4_count, smbios_validate_table}
use pve_anti_detection.Smbios.Build.Core.{t17_base, t19_base, t32_base}
use pve_anti_detection.Smbios.Build.System.{
  smbios_build_type_0_table, smbios_build_type_1_table, smbios_build_type_2_table,
  smbios_build_type_3_table, smbios_build_type_32_table, smbios_build_type_127_table,
}
use pve_anti_detection.Smbios.Build.Processor.{
  Machine, smbios_build_type_4_table, smbios_build_type_7_table,
}
use pve_anti_detection.Smbios.Build.Devices.{
  smbios_build_type_8_table, smbios_build_type_9_table, smbios_build_type_11_table,
  smbios_build_type_41_table,
}
use pve_anti_detection.Smbios.Build.Memory.{
  smbios_build_type_16_table, smbios_build_type_17_table, smbios_build_type_19_table,
  smbios_build_type_20_table, smbios_build_type_37_table,
}
use pve_anti_detection.Smbios.Build.Sensors.{
  smbios_build_type_22_table, smbios_build_type_26_table, smbios_build_type_27_table,
  smbios_build_type_28_table, smbios_build_type_29_table, smbios_build_type_39_table,
}

-- `struct smbios_phys_mem_area`
pub record SmbiosPhysMemArea : Type 0 where
  pub address : ℕ
  pub length : ℕ

-- `*tables`, `*tables_len`, `*anchor` and `*anchor_len`
pub record Output : Type 0 where
  pub tables : List ℕ
  pub tables_len : ℕ
  pub anchor : EntryPoint
  pub anchor_len : ℕ

-- What a run leaves: the variables, the error, and the output if it returned true.
abbrev pub Run : Type 0
Run = Outcome (Smbios × Option Error × Option Output)

-- What `ep.ep21` and `ep.ep30` are filled with.
unfoldable pub entry_point_21 : Smbios → Smbios21EntryPoint
entry_point_21 s = record {
  anchor_string = text "_SM_";
  checksum = 0;
  length = sizeof_entry_point_21;
  smbios_major_version = 2;
  smbios_minor_version = 8;
  max_structure_size = u16 s.tables.table_max;
  entry_point_revision = 0;
  formatted_area = replicate 5 0;
  intermediate_anchor_string = text "_DMI_";
  intermediate_checksum = 0;
  structure_table_length = u16 s.tables.tables_len;
  structure_table_address = 0;
  number_of_structures = u16 s.tables.table_cnt;
  smbios_bcd_revision = 0x28;
}

unfoldable pub entry_point_30 : Smbios → Smbios30EntryPoint
entry_point_30 s = record {
  anchor_string = text "_SM3_";
  checksum = 0;
  length = sizeof_entry_point_30;
  smbios_major_version = 3;
  smbios_minor_version = 0;
  smbios_doc_rev = 0;
  entry_point_revision = 1;
  reserved = 0;
  structure_table_max_size = u32 s.tables.tables_len;
  structure_table_address = 0;
}

unfoldable pub smbios_entry_point_setup : EntryPointType → Smbios → Outcome Smbios
unfolding entry_point_21 entry_point_30
smbios_entry_point_setup entry_point_32 s = done (record s { ep = ep21 (entry_point_21 s) })
smbios_entry_point_setup entry_point_64 s = done (record s { ep = ep30 (entry_point_30 s) })
smbios_entry_point_setup entry_point_auto s = aborted

-- The tables start as the user's blobs.
unfoldable pub start_tables : Smbios → Smbios
start_tables s = record s {
  type4_count = 0;
  tables = record {
    blob = take s.usr_blobs_len s.usr_blobs;
    tables_len = s.usr_blobs_len;
    table_max = s.usr_table_max;
    table_cnt = s.usr_table_cnt;
    built = [];
  };
}

-- `err_exit`
unfoldable pub drop_tables : Smbios → Smbios
drop_tables s = record s { tables = record (s.tables) { blob = []; built = [] } }

abbrev pub same : List ℕ → List ℕ → Bool
same [] [] = true
same [] (y ∷ ys) = false
same (x ∷ xs) [] = false
same (x ∷ xs) (y ∷ ys) = x == y && same xs ys

abbrev pub anchor_of : EntryPoint → List ℕ
anchor_of empty = []
anchor_of (ep21 e) = e.anchor_string
anchor_of (ep30 e) = e.anchor_string

unfoldable pub anchor_len : EntryPoint → Outcome ℕ
anchor_len e =
    if same (take 4 (anchor_of e)) (text "_SM_")
    then done sizeof_entry_point_21
    else (if same (take 5 (anchor_of e)) (text "_SM3_")
        then done sizeof_entry_point_30
        else aborted)

-- `GET_DIMM_SZ`: all modules are whole but the last.
unfoldable pub dimm_size : Machine → ℕ → ℕ → ℕ
dimm_size ms dimm_cnt i =
    if ltb i (dimm_cnt - 1)
    then ms.memory_device_size
    else (ms.ram_size - 1) % ms.memory_device_size + 1

-- Handles of type 17 beyond the 512 before those of type 19 move the latter up.
unfoldable pub handle_offset : ℕ → ℕ
handle_offset dimm_cnt =
    if ltb (t19_base - t17_base) dimm_cnt then dimm_cnt - (t19_base - t17_base) else 0

module _ (q : Qemu) where
  unfoldable pub dimm_count : Machine → ℕ
  dimm_count ms = u32 (q.align_up ms.ram_size ms.memory_device_size / ms.memory_device_size)

  unfoldable pub type_4_loop :
      Machine → EntryPointType → ℕ → ℕ → Smbios → Option Error → Outcome (Smbios × Option Error)
  type_4_loop ms ep_type zero i s errp = done (s, errp)
  type_4_loop ms ep_type (suc k) i s errp =
      smbios_build_type_4_table q ms i ep_type s errp >>= λ (s', errp'). elim errp' [
        | none ↦ type_4_loop ms ep_type k (i + 1) s' none
        | some e ↦ done (s', some e)
      ]

  unfoldable pub build_caches : Machine → Smbios → Smbios
  build_caches ms s0 =
      let cores = ms.cores_per_socket in
      let s1 = smbios_build_type_7_table q 0 "L1 Cache" 0x180 (u32 (cores * 0x20)) 0x4 0x4 0x7 s0 in
      let s2 = smbios_build_type_7_table q 1 "L1 Cache" 0x180 (u32 (cores * 0x20)) 0x4 0x3 0x7 s1 in
      let s3 =
        smbios_build_type_7_table q 2 "L2 Cache" 0x181 (u32 (cores * 0x200)) 0x5 0x5 0x8 s2 in
      smbios_build_type_7_table q 3 "L3 Cache" 0x182 0x4000 0x6 0x5 0x8 s3

  unfoldable pub type_17_loop : Machine → ℕ → ℕ → ℕ → Smbios → Outcome Smbios
  type_17_loop ms cnt zero i s = done s
  type_17_loop ms cnt (suc k) i s = smbios_build_type_17_table q i (dimm_size ms cnt i) s >>= λ s'.
      type_17_loop ms cnt k (i + 1) s'

  -- One structure of type 19 and one of type 20 for each module. The loop runs over the modules, and
  -- reads the memory area of the same index.
  unfoldable pub type_19_loop :
      Machine → List SmbiosPhysMemArea → ℕ → ℕ → ℕ → Smbios → Outcome Smbios
  type_19_loop ms mem_array cnt zero i s = done s
  type_19_loop ms mem_array cnt (suc k) i s = elim (get_elem? mem_array i) [
    | none ↦ stray
    | some area ↦
        smbios_build_type_19_table q i (handle_offset cnt) area.address (dimm_size ms cnt i) s
        >>= λ s1. smbios_build_type_20_table q area.address (dimm_size ms cnt i) s1 >>= λ s2.
            type_19_loop ms mem_array cnt k (i + 1) s2
  ]

  unfoldable pub build_dimms : Machine → List SmbiosPhysMemArea → Smbios → Outcome Smbios
  unfolding handle_offset
  build_dimms ms mem_array s =
      let cnt = dimm_count ms in
      type_17_loop ms cnt cnt 0 (smbios_build_type_16_table q ms cnt s) >>= λ s1.
      type_19_loop ms mem_array cnt cnt 0 s1 >>= λ s2.
      let s3 = smbios_build_type_22_table q s2 in
      assert (ltb (u32 (length mem_array + handle_offset cnt)) (t32_base - t19_base)) >> done s3

  abbrev pub build_type_38 : Smbios → Smbios
  build_type_38 s = record s { tables = record (q.build_type_38 s) { built = s.tables.built } }

  unfoldable pub build_sensors : Smbios → Smbios
  build_sensors s0 =
      let s1 = smbios_build_type_26_table q 0 "LM78A" 0x6A s0 in
      let s2 = smbios_build_type_26_table q 1 "LM78A-1" 0x67 s1 in
      let s3 = smbios_build_type_27_table q 0 "CPU FAN" 0x67 s2 in
      let s4 = smbios_build_type_28_table q 0 "LM78A" 0x63 s3 in
      let s5 = smbios_build_type_28_table q 1 "LM78A-1" 0x67 s4 in
      let s6 = smbios_build_type_29_table q s5 in
      let s7 = smbios_build_type_32_table q s6 in
      let s8 = smbios_build_type_37_table q s7 in smbios_build_type_39_table q (build_type_38 s8)

  unfoldable pub build_board : Smbios → Smbios
  build_board s =
      smbios_build_type_3_table q
        (smbios_build_type_2_table q (smbios_build_type_1_table q (smbios_build_type_0_table q s)))

  -- From the caches to the end of the tables. The errors of types 9 and 41 are not looked at.
  unfoldable pub build_rest :
      Machine → List SmbiosPhysMemArea → Smbios → Option Error → Outcome (Smbios × Option Error)
  build_rest ms mem_array s errp =
      smbios_build_type_9_table q (smbios_build_type_8_table q (build_caches ms s)) errp
      >>= λ (s1, errp1). build_dimms ms mem_array (smbios_build_type_11_table q s1) >>= λ s2.
          smbios_build_type_41_table q (build_sensors s2) errp1 >>= λ (s3, errp3).
          done (smbios_build_type_127_table q s3, errp3)

  fail : Smbios → Option Error → Error → Run
  unfolding drop_tables
  fail s errp e = q.error_setg errp e >>= λ errp'. done (drop_tables s, errp', none)

  -- The two checks, the entry point, and the output.
  unfoldable pub conclude : Machine → EntryPointType → Smbios → Option Error → Run
  unfolding fail smbios_entry_point_setup anchor_len
  conclude ms ep_type s errp = elim (smbios_check_type4_count s ms.sockets) [
    | some e ↦ fail s errp e
    | none ↦ elim (smbios_validate_table s ep_type) [
      | some e ↦ fail s errp e
      | none ↦ smbios_entry_point_setup ep_type s >>= λ s'. anchor_len s'.ep >>= λ len.
          let out : Output = record {
            tables = s'.tables.blob;
            tables_len = s'.tables.tables_len;
            anchor = s'.ep;
            anchor_len = len;
          } in
          done (s', errp, some out)
    ]
  ]

  -- The entry point is of version 2.1 or 3.0.
  abbrev is_version : EntryPointType → Bool
  is_version ep_type = elim ep_type [
    | entry_point_32 ↦ true
    | entry_point_64 ↦ true
    | entry_point_auto ↦ false
  ]

  unfoldable pub smbios_get_tables_ep :
      Machine → EntryPointType → List SmbiosPhysMemArea → Smbios → Option Error → Run
  unfolding drop_tables
  smbios_get_tables_ep ms ep_type mem_array s errp =
      let s0 = build_board (start_tables s) in
      assert (is_version ep_type)
      >> (assert (leb 1 ms.sockets)
          >> (type_4_loop ms ep_type ms.sockets 0 s0 errp >>= λ (s1, errp1). elim errp1 [
            | some e ↦ done (drop_tables s1, some e, none)
            | none ↦ build_rest ms mem_array s1 none >>= λ (s2, errp2). conclude ms ep_type s2 errp2
          ]))

  -- `error_propagate` happens only where the run was not valid.
  abbrev pub propagate : Smbios × Option Error × Option Output → Run
  propagate (s, errp, none) = done (s, errp, none)
  propagate (s, errp, some out) = done (s, none, some out)

  -- Version 2.1 is tried first; where the caller leaves the choice and it fails, version 3.0.
  unfoldable pub smbios_get_tables :
      Machine → EntryPointType → List SmbiosPhysMemArea → Smbios → Run
  smbios_get_tables ms entry_point_64 mem_array s =
      smbios_get_tables_ep ms entry_point_64 mem_array s none >>= propagate
  smbios_get_tables ms entry_point_32 mem_array s =
      smbios_get_tables_ep ms entry_point_32 mem_array s none >>= propagate
  smbios_get_tables ms entry_point_auto mem_array s =
      smbios_get_tables_ep ms entry_point_32 mem_array s none >>= λ (s1, errp, out). elim out [
        | some o ↦ propagate (s1, errp, some o)
        | none ↦ smbios_get_tables_ep ms entry_point_64 mem_array s1 none >>= propagate
      ]
