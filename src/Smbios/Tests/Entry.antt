-- ===== src/Smbios/Tests/Entry.antt =====
-- The theorems on `smbios_entry_add` at concrete options.
use pve_anti_detection.Prelude.{ℕ, List, refl, [], ◌∷◌, text, arith}
use pve_anti_detection.Smbios.Sample.{Opts, sample, start}
use pve_anti_detection.Smbios.Entry.{smbios_entry_add}
use pve_anti_detection.Smbios.Entry.Bitmaps.{IsExclusive, smbios_entry_add-IsExclusive}
use pve_anti_detection.Smbios.Entry.Blobs.{AreBlobs, Follows, smbios_entry_add-AreBlobs}

-- A blob for type 5, and fields for type 3.
abbrev blob_option : Opts
blob_option = ("file", text "blob.bin") ∷ []

abbrev field_option : Opts
field_option = ("type", text "3") ∷ ("version", text "2") ∷ []

smbios_entry_add-IsExclusive_example : IsExclusive (smbios_entry_add sample blob_option start).0
smbios_entry_add-IsExclusive_example =
    smbios_entry_add-IsExclusive sample blob_option start (λ t. refl)

start-AreBlobs : AreBlobs [] start
start-AreBlobs = record {
  contents = refl;
  whole = refl;
  sized = refl;
  counted = refl;
  bounded = tt;
}

smbios_entry_add-AreBlobs_example :
    (blobs : List (List ℕ)) × AreBlobs blobs (smbios_entry_add sample blob_option start).0
    × Follows sample blob_option [] blobs (smbios_entry_add sample blob_option start).1
smbios_entry_add-AreBlobs_example =
    smbios_entry_add-AreBlobs sample blob_option [] start (λ val size e. ground (arith, e))
      start-AreBlobs
