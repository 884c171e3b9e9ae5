-- ===== src/Smbios/Build/Sizes.antt =====
-- The sizes and addresses that the memory and cache structures announce, as a reader of the tables
-- takes them: where a short field is full, the extended one counts.
use pve_anti_detection.Prelude.{
  ℕ, ◌+◌, ◌*◌, ◌/◌, ◌%◌, ◌^◌, ◌≤◌, ◌<◌, ◌≡◌, ◌↔◌, arith, ◌==◌, if◌then◌else◌,
}
use pve_anti_detection.Smbios.Table.{Table, type_7, type_16, type_17, type_19, type_20}
use pve_anti_detection.Smbios.State.{Smbios}
use pve_anti_detection.Smbios.Qemu.{Qemu}
use pve_anti_detection.Smbios.Assumptions.{AlignsUp}
use pve_anti_detection.Smbios.Build.Processor.{Machine, type_7_structure}
use pve_anti_detection.Smbios.Build.Memory.{
  kib, mib, max_t17_ext_sz, area_end, type_16_structure, type_17_structure, type_19_structure,
  type_20_structure,
}

-- The size of a module, in megabytes.
abbrev pub module_mb : Table → ℕ
module_mb (type_17 t) = if t.size == 0x7FFF then t.extended_size else t.size
module_mb _ = 0

-- The capacity of the memory array, in bytes.
abbrev pub capacity : Table → ℕ
capacity (type_16 t) =
    if t.maximum_capacity == 0x80000000
    then t.extended_maximum_capacity
    else t.maximum_capacity * 1024
capacity _ = 0

-- The first and the last kilobyte of an area.
abbrev pub first_kb : Table → ℕ
first_kb (type_19 t) =
    if t.starting_address == 0xFFFFFFFF
    then t.extended_starting_address / 1024
    else t.starting_address
first_kb (type_20 t) = t.starting_address
first_kb _ = 0

abbrev pub last_kb : Table → ℕ
last_kb (type_19 t) =
    if t.starting_address == 0xFFFFFFFF then t.extended_ending_address / 1024 else t.ending_address
last_kb (type_20 t) = t.ending_address
last_kb _ = 0

-- The size of a cache, in kilobytes.
abbrev pub cache_kb : Table → ℕ
cache_kb (type_7 t) = t.max_cache_size
cache_kb _ = 0

-- A reader finds the size of a module, rounded up to megabytes, in either field, below 2P.
pub module_mb-type_17 :
    (q : Qemu) (n size : ℕ) (s : Smbios)
    → q.align_up size mib / mib < max_t17_ext_sz
    → module_mb (type_17_structure q n size s).table ≡ q.align_up size mib / mib
unfolding type_17_structure
module_mb-type_17 q n size s h = ground arith

-- A reader finds the machine's memory, to the byte, as the capacity, if it is whole kilobytes
-- and the rounding up fits 64 bits.
pub capacity-type_16 :
    (q : Qemu) (ms : Machine) (n : ℕ)
    → AlignsUp q
    → ms.ram_size % 1024 ≡ 0
    → ms.ram_size + 1024 ≤ 2 ^ 64
    → capacity (type_16_structure q ms n).table ≡ ms.ram_size
unfolding type_16_structure
capacity-type_16 q ms n a whole fits =
    let kb : q.align_up ms.ram_size kib / kib ≡ ms.ram_size / 1024 =
      rw (a.align_up_lem ms.ram_size 1024 (omega arith) fits) (omega arith) in
    ground arith

-- A reader finds the first and the last kilobyte of an area, on either side of 4T, if
-- the area is not empty and does not reach past 64 bits.
pub first_kb-last_kb-type_19 :
    (q : Qemu) (n offset start size : ℕ)
    → start < 2 ^ 64
    → start < area_end start size
    → let t = (type_19_structure q n offset start size).table in
      (first_kb t ≡ start / 1024) × (last_kb t ≡ area_end start size / 1024)
unfolding type_19_structure
first_kb-last_kb-type_19 q n offset start size h lt = ground arith

-- The project's type 20 has no extended fields: the last kilobyte that it announces is the area's
-- exactly if the area ends below 4T.
pub last_kb-type_20 :
    (q : Qemu) (start size : ℕ)
    → (last_kb (type_20_structure q start size).table ≡ area_end start size / 1024)
      ↔ (area_end start size < 2 ^ 42)
unfolding type_20_structure
last_kb-type_20 q start size = ground arith

-- The cache of level 2 has a size for each core of a socket, in a 16-bit field: `kb` kilobytes for each
-- of `cores` are announced exactly as long as they are less than 64M.
pub cache_kb-type_7 :
    (q : Qemu) (n cores kb correction kind associativity : ℕ)
    → (cache_kb
          (type_7_structure q n "L2 Cache" 0x181 (cores * kb) correction kind associativity).table
        ≡ cores * kb)
      ↔ (cores * kb < 2 ^ 16)
unfolding type_7_structure
cache_kb-type_7 q n cores kb correction kind associativity = ground arith
