-- ===== src/Smbios/Qemu.antt =====
-- What smbios.c takes from the rest of QEMU, as a parameter: the option parser, files, PCI devices,
-- `error_setg`, and the macros of smbios_build.h, none of which stand in this repository.
use Prim.Native.String.{String}
use pve_anti_detection.Prelude.{ℕ, Bool, Option, List, Text}
use pve_anti_detection.Prelude.Outcome.{Outcome}
use pve_anti_detection.Smbios.Options.{QemuOptDesc}
use pve_anti_detection.Smbios.Layout.System.{SmbiosStructureHeader}
use pve_anti_detection.Smbios.Layout.Sensors.{SmbiosType22}
use pve_anti_detection.Smbios.Table.{Structure}
use pve_anti_detection.Smbios.State.{Error, Tables, Smbios}

-- `PCIDevice`: whether its bus is a root bus, the bus number, and `devfn`.
pub record PciDevice : Type 0 where
  pub on_root_bus : Bool
  pub bus_num : ℕ
  pub devfn : ℕ

-- What one `read` of a file returns: some bytes, or -1. The end of the file is the end of the list.
pub data Chunk : Type 0 where
  bytes : List ℕ → Chunk
  failed : Chunk

pub record Qemu : Type 1 where
  -- `qemu_opt_get`, `qemu_opt_get_bool`, `qemu_opt_get_number`, whether `qemu_opts_validate` accepts
  -- the options, and the order in which `qemu_opt_foreach` visits them
  pub Opts : Type 0
  pub opt_get : Opts → String → Option Text
  pub opt_get_bool : Opts → String → Bool → Bool
  pub opt_get_number : Opts → String → ℕ → ℕ
  pub opts_validate : Opts → List QemuOptDesc → Bool
  pub opt_items : Opts → List (String × Text)
  -- `strtoul(val, NULL, 0)`; the numbers that `sscanf` converts; `qemu_uuid_parse`, which says whether
  -- it succeeds, with the UUID after it; `qapi_enum_parse`, with whether it reports an error
  pub strtoul : Text → ℕ
  pub scan_release : Text → Option ℕ × Option ℕ
  pub uuid_parse : Text → List ℕ → Bool × List ℕ
  pub enum_parse : List String → Option Text → ℕ → ℕ × Bool
  -- `get_image_size`, where `none` is -1; what `load_image_size` puts in memory; `qemu_open` and the
  -- reads that follow
  pub image_size : Text → Option ℕ
  pub load_image : Text → ℕ → List ℕ
  pub open_file : Text → Option (List Chunk)
  -- `pci_qdev_find_device`
  pub find_pci_device : Text → Option PciDevice
  -- `error_setg`, and whether the caller's error was set before
  pub error_setg : Option Error → Error → Outcome (Option Error)
  -- `QEMU_ALIGN_UP`
  pub align_up : ℕ → ℕ → ℕ
  -- `SMBIOS_BUILD_TABLE_PRE`: whether it leaves the function, and the header that it writes for a
  -- type, a length and a handle. The memory of the new structure is what it finds.
  pub skips : Smbios → ℕ → Bool → Bool
  pub header : ℕ → ℕ → ℕ → SmbiosStructureHeader
  pub fresh_type_22 : Tables → SmbiosType22
  -- `SMBIOS_TABLE_SET_STR` and `SMBIOS_TABLE_SET_STR_LIST`: the number that the field gets, and the
  -- strings of the structure
  pub set_str : List Text → Option Text → ℕ × List Text
  pub set_str_list : List Text → Option (List ℕ) → List Text
  -- `SMBIOS_BUILD_TABLE_POST`, and the tables where the function returns without it, for a type and
  -- a length
  pub finish : Tables → Structure → Tables
  pub unfinished : Tables → ℕ → ℕ → Tables
  -- `smbios_build_type_38_table`
  pub build_type_38 : Smbios → Tables
