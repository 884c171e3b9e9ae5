-- ===== src/Smbios/Tables/Verdict.antt =====
-- What it means that a run succeeds, and the errors that it does not report.
use pve_anti_detection.Prelude.{◌≤◌, ◌≡◌, ◌≢◌, refl, ◌⊎◌, Option, none, some, List, arith, le→leb}
use pve_anti_detection.Prelude.Outcome.{done}
use pve_anti_detection.Smbios.State.{
  Smbios, Error, ep30, EntryPointType, entry_point_auto, entry_point_32, entry_point_64,
}
use pve_anti_detection.Smbios.Qemu.{Qemu}
use pve_anti_detection.Smbios.Layout.Anchor.{sizeof_entry_point_30}
use pve_anti_detection.Smbios.Select.{smbios_check_type4_count, smbios_validate_table}
use pve_anti_detection.Smbios.Build.Processor.{Machine}
use pve_anti_detection.Smbios.Tables.{
  SmbiosPhysMemArea, Output, start_tables, build_board, type_4_loop, build_rest, conclude,
  smbios_get_tables_ep, smbios_get_tables, entry_point_30,
}

-- If the run ends with an output, then as many structures of type 4 were built as there are sockets,
-- or none; the tables fit a 2.1 entry point, if that is asked for; and the output is the tables,
-- with their length. The error that was set before is still set.
pub conclude-output :
    (q : Qemu) (ms : Machine) (ep_type : EntryPointType) (s s' : Smbios) (errp errp' : Option Error)
    (out : Output)
    → conclude q ms ep_type s errp ≡ done (s', errp', some out)
    → ((s.type4_count ≡ 0) ⊎ (s.type4_count ≡ ms.sockets))
      × ((ep_type ≢ entry_point_32) ⊎ (s.tables.tables_len ≤ 0xffff))
      × (out.tables ≡ s.tables.blob)
      × (out.tables_len ≡ s.tables.tables_len)
      × (errp' ≡ errp)
unfolding conclude smbios_check_type4_count smbios_validate_table
conclude-output q ms entry_point_32 s s' errp errp' out e = ground arith
conclude-output q ms entry_point_64 s s' errp errp' out e = ground arith
conclude-output q ms entry_point_auto s s' errp errp' out e = ground arith

validate_64 : (s : Smbios) → smbios_validate_table s entry_point_64 ≡ none
unfolding smbios_validate_table
validate_64 s = refl

-- The state and the output of a run that ends with a 3.0 entry point.
abbrev pub anchored : Smbios → Smbios
anchored s = record s { ep = ep30 (entry_point_30 s) }

abbrev pub result : Smbios → Output
result s = record {
  tables = s.tables.blob;
  tables_len = s.tables.tables_len;
  anchor = ep30 (entry_point_30 s);
  anchor_len = sizeof_entry_point_30;
}

conclude_64 :
    (q : Qemu) (ms : Machine) (s : Smbios) (errp : Option Error)
    → smbios_check_type4_count s ms.sockets ≡ none
    → (s' : Smbios) × (out : Output) × (conclude q ms entry_point_64 s errp
        ≡ done (s', errp, some out))
      × (out.tables ≡ s.tables.blob)
unfolding conclude
conclude_64 q ms s errp count =
    (anchored s, result s, rw (conclude, count, validate_64 s) refl, refl)

-- An error set after the structures of type 4, as for type 9 or 41, does not keep a run with a 3.0
-- entry point from succeeding, and is not reported: if the rest of the tables was built and the count
-- of type 4 is right, the caller gets the tables and no error.
pub smbios_get_tables_unreported :
    (q : Qemu) (ms : Machine) (mem_array : List SmbiosPhysMemArea) (s s1 s2 : Smbios) (e : Error)
    → 1 ≤ ms.sockets
    → type_4_loop q ms entry_point_64 ms.sockets 0 (build_board q (start_tables s)) none
      ≡ done (s1, none)
    → build_rest q ms mem_array s1 none ≡ done (s2, some e)
    → smbios_check_type4_count s2 ms.sockets ≡ none
    → (s' : Smbios) × (out : Output) × (smbios_get_tables q ms entry_point_64 mem_array s
        ≡ done (s', none, some out))
      × (out.tables ≡ s2.tables.blob)
unfolding smbios_get_tables smbios_get_tables_ep conclude smbios_validate_table
smbios_get_tables_unreported q ms mem_array s s1 s2 e h four rest count =
    let (s', out, e', same) = conclude_64 q ms s2 (some e) count in
    (s', out, rw (le→leb 1 ms.sockets h, four, rest, e') refl, same)
