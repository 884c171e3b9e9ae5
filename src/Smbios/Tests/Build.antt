-- ===== src/Smbios/Tests/Build.antt =====
-- The theorems on the structures at concrete sizes and handles.
use pve_anti_detection.Smbios.State.{Type9Instance, Type41Instance}
use pve_anti_detection.Prelude.{none, some, text}

-- A card in a slot, and one on the board.
abbrev card : Type9Instance
card = record {
  slot_designation = some (text "J1");
  pcidev = none;
  slot_type = 1;
  slot_data_bus_width = 2;
  current_usage = 3;
  slot_length = 4;
  slot_characteristics1 = 5;
  slot_characteristics2 = 6;
  slot_id = 7;
}

abbrev onboard : Type41Instance
onboard = record { designation = none; pcidev = none; instance_number = 1; kind = 4 }
