-- ===== src/Smbios/Sample.antt =====
-- A small emulator to run the model against: options are a list of names and values, every macro of
-- smbios_build.h does what its documentation says in the plainest way.
use Prim.Native.String.{String}
use package.text.Mathlib.Text.{◌==◌ as str_eq}
use pve_anti_detection.Prelude.{
  ◌||◌, ℕ, ◌+◌, ◌-◌, ◌*◌, ◌/◌, refl, Bool, true, false, ◌&&◌, Option, none, some, List, [], ◌∷◌,
  ◌++◌, Text, text, u16, length, if◌then◌else◌, ltb,
}
use pve_anti_detection.Prelude.Outcome.{Outcome, done, aborted}
use pve_anti_detection.Smbios.Options.{QemuOptDesc}
use pve_anti_detection.Smbios.Table.{table_bytes}
use pve_anti_detection.Smbios.State.{Smbios, Tables, Error, initial}
use pve_anti_detection.Smbios.Qemu.{Qemu, bytes}
use pve_anti_detection.Smbios.Select.{smbios_skip_table}
use pve_anti_detection.Smbios.Assumptions.{SkipsTables, WritesHeaders, AlignsUp}
use pve_anti_detection.Smbios.Build.Processor.{Machine}

abbrev pub Opts : Type 0
Opts = List (String × Text)

abbrev pub find_opt : Opts → String → Option Text
find_opt [] name = none
find_opt ((k, v) ∷ rest) name = if str_eq k name then some v else find_opt rest name

-- One of the descriptors has the name.
abbrev named : String → List QemuOptDesc → Bool
named name [] = false
named name (d ∷ ds) = elim d.name [ none ↦ named name ds | some n ↦ str_eq n name || named name ds ]

abbrev pub all_named : Opts → List QemuOptDesc → Bool
all_named [] ds = true
all_named ((k, v) ∷ rest) ds = named k ds && all_named rest ds

abbrev put : List Text → Option Text → ℕ × List Text
put p none = (0, p)
put p (some []) = (0, p)
put p (some (c ∷ t)) = (length p + 1, p ++ ((c ∷ t) ∷ []))

abbrev put_list : List Text → Option (List ℕ) → List Text
put_list p none = p
put_list p (some t) = p ++ (t ∷ [])

-- The strings behind a structure, each terminated, and one more terminator.
abbrev string_area : List Text → List ℕ
string_area [] = 0 ∷ []
string_area (t ∷ ts) = (t ++ (0 ∷ [])) ++ string_area ts

abbrev grow : Tables → List ℕ → Tables
grow t more = record t {
  blob = t.blob ++ more;
  tables_len = t.tables_len + length more;
  table_max = if ltb t.table_max (length more) then length more else t.table_max;
  table_cnt = t.table_cnt + 1;
}

abbrev report : Option Error → Error → Outcome (Option Error)
report none e = done (some e)
report (some old) e = aborted

abbrev first_digit : Text → ℕ
first_digit [] = 0
first_digit (c ∷ cs) = c - 48

-- One blob of four bytes can be loaded, of type 5; no file and no device is there.
abbrev pub sample : Qemu
sample = record {
  Opts = Opts;
  opt_get = find_opt;
  opt_get_bool = λ opts name d. d;
  opt_get_number = λ opts name d. d;
  opts_validate = all_named;
  opt_items = λ opts. opts;
  strtoul = first_digit;
  scan_release = λ t. (some (first_digit t), none);
  uuid_parse = λ t u. (false, u);
  enum_parse = λ names t d. (d, false);
  image_size = λ t. some 4;
  load_image = λ t size. 5 ∷ 4 ∷ 0 ∷ 0 ∷ [];
  open_file = λ t. some (bytes (104 ∷ 105 ∷ []) ∷ []);
  find_pci_device = λ t. none;
  error_setg = report;
  align_up = λ n m. (n + (m - 1)) / m * m;
  skips = smbios_skip_table;
  header = λ type len handle. record { type = type; length = len; handle = u16 handle };
  fresh_type_22 = λ t. record {
    header = record { type = 0; length = 0; handle = 0 };
    location = 0;
    manufacturer = 0;
    manufacturer_date = 0;
    serial_number = 0;
    device_name = 0;
    device_chemistry = 0;
    design_capacity = 0;
    design_voltage = 0;
    sbds_version_number = 0;
    maximum_error_in_battery_data = 0;
    sbds_serial_number = 0;
    sbds_manufacture_date = 0;
    sbds_device_chemistry = 0;
    design_capacity_multiplier = 0;
    oem_specific = 0;
  };
  set_str = put;
  set_str_list = put_list;
  finish = λ t x. grow t (table_bytes x.table ++ string_area x.strings);
  unfinished = λ t type len. t;
  build_type_38 = λ s. s.tables;
}

pub sample-SkipsTables : SkipsTables sample
sample-SkipsTables = record { skips_lem = λ s type required. refl }

pub sample-WritesHeaders : WritesHeaders sample
sample-WritesHeaders = record { header_lem = λ type len handle. refl }

pub sample-AlignsUp : AlignsUp sample
sample-AlignsUp = record { align_up_lem = λ n m h fits. refl }

-- Two sockets of four cores, and 5000 MiB in modules of 2048 MiB.
abbrev pub board : Machine
board = record {
  sockets = 2;
  threads_per_socket = 8;
  cores_per_socket = 4;
  ram_size = 5242880000;
  memory_device_size = 2147483648;
}

-- The variables as the program starts, with a UUID of zeros.
abbrev pub start : Smbios
start = initial (0 ∷ 0 ∷ 0 ∷ 0 ∷ 0 ∷ 0 ∷ 0 ∷ 0 ∷ 0 ∷ 0 ∷ 0 ∷ 0 ∷ 0 ∷ 0 ∷ 0 ∷ 0 ∷ [])
