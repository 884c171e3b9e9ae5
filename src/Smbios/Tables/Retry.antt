-- ===== src/Smbios/Tables/Retry.antt =====
-- The strings of type 11 in a second attempt of `smbios_get_tables`, which comes with version 3.0 after
-- the first one failed.
use pve_anti_detection.Prelude.{
  ℕ, suc, ◌≡◌, ◌≢◌, refl, true, false, Option, none, List, [], ◌∷◌, length, u8, ap,
}
use pve_anti_detection.Smbios.Table.{Table, type_11}
use pve_anti_detection.Smbios.State.{Smbios}
use pve_anti_detection.Smbios.Qemu.{Qemu}
use pve_anti_detection.Smbios.Build.Devices.{
  cleared, oem_strings, type_11_structure, type_11_from, smbios_build_type_11_table,
}

length-cleared : (values : List (Option (List ℕ))) → length (cleared values) ≡ length values
unfolding cleared
length-cleared [] = refl
length-cleared (v ∷ vs) = ap suc (length-cleared vs)

cleared-cleared : (values : List (Option (List ℕ))) → cleared (cleared values) ≡ cleared values
unfolding cleared
cleared-cleared [] = refl
cleared-cleared (v ∷ vs) = ap (λ r. none ∷ r) (cleared-cleared vs)

-- The count that a structure of type 11 announces.
abbrev pub oem_count : Table → ℕ
oem_count (type_11 t) = t.count
oem_count _ = 0

-- A list of NULL pointers adds no string.
oem_strings-cleared :
    (q : Qemu)
    → ((p : List (List ℕ)) → q.set_str_list p none ≡ p)
    → (p : List (List ℕ)) (values : List (Option (List ℕ))) → oem_strings q p (cleared values) ≡ p
unfolding oem_strings cleared
oem_strings-cleared q h p [] = refl
oem_strings-cleared q h p (v ∷ vs) = rw (oem_strings, h p) (oem_strings-cleared q h p vs)

-- Once the structure of type 11 is built, the strings are gone: a second attempt announces as many
-- of them as before, and holds none, if the macro adds no string for NULL.
pub smbios_build_type_11_table_twice :
    (q : Qemu) (s : Smbios)
    → ((p : List (List ℕ)) → q.set_str_list p none ≡ p)
    → s.type11 ≢ []
    → q.skips s 11 true ≡ false
    → let again = type_11_structure q (smbios_build_type_11_table q s).type11 in
      (oem_count again.table ≡ oem_count (type_11_structure q s.type11).table)
      × (again.strings ≡ [])
unfolding smbios_build_type_11_table type_11_structure
smbios_build_type_11_table_twice q s h ne build = twice s.type11 ne
  where
    twice :
        (values : List (Option (List ℕ)))
        → values ≢ []
        → let again = type_11_structure q (type_11_from q values s).type11 in
          (oem_count again.table ≡ oem_count (type_11_structure q values).table)
          × (again.strings ≡ [])
    twice [] n = absurd (n refl)
    twice (v ∷ vs) n =
        rw (build, type_11_from)
          (ap u8 (length-cleared (v ∷ vs)), oem_strings-cleared q h [] (v ∷ vs))
