-- ===== src/Smbios/Entry/Unchanged.antt =====
-- Saving the fields of a type leaves the bitmaps and the user's blobs alone.
use pve_anti_detection.Prelude.{ℕ, ◌≡◌, refl, Option, none, some, Text, arith, Bool-cases, inl, inr}
use pve_anti_detection.Smbios.Options.{qemu_smbios_type0_opts, qemu_smbios_type1_opts}
use pve_anti_detection.Smbios.State.{Smbios, Error}
use pve_anti_detection.Smbios.Qemu.{Qemu}
use pve_anti_detection.Smbios.Entry.{add_fields}
use pve_anti_detection.Smbios.Entry.Fields.{
  save_release, add_type_0, save_uuid, add_type_1, add_type_2, add_type_3, add_type_4, add_type_8,
  add_type_9, add_type_11, add_type_17, add_type_41,
}

-- The step leaves the bitmaps and the blobs alone.
abbrev pub Keeps : Smbios → Smbios × Option Error → Type 0
Keeps s r =
    (r.0.have_binfile ≡ s.have_binfile)
    × (r.0.have_fields ≡ s.have_fields)
    × (r.0.usr_blobs ≡ s.usr_blobs)
    × (r.0.usr_blobs_len ≡ s.usr_blobs_len)
    × (r.0.usr_table_max ≡ s.usr_table_max)
    × (r.0.usr_table_cnt ≡ s.usr_table_cnt)
    × (r.0.usr_blob_sizes ≡ s.usr_blob_sizes)

module _ (q : Qemu) (opts : q.Opts) (s : Smbios) where
  save_release-Keeps : (s' : Smbios) (val : Option Text) → Keeps s' (save_release q opts val s')
  unfolding save_release
  save_release-Keeps s' none = (refl, refl, refl, refl, refl, refl, refl)
  save_release-Keeps s' (some val) = ground arith

  save_uuid-Keeps : (s' : Smbios) (val : Option Text) → Keeps s' (save_uuid q opts val s')
  unfolding save_uuid
  save_uuid-Keeps s' none = (refl, refl, refl, refl, refl, refl, refl)
  save_uuid-Keeps s' (some val) = ground arith

  add_type_0-Keeps : Keeps s (add_type_0 q opts s)
  unfolding add_type_0
  add_type_0-Keeps = elim (Bool-cases (q.opts_validate opts qemu_smbios_type0_opts)) [
    | inl e ↦ rw (e, add_type_0) (save_release-Keeps _ _)
    | inr e ↦ rw (e, add_type_0) (refl, refl, refl, refl, refl, refl, refl)
  ]

  add_type_1-Keeps : Keeps s (add_type_1 q opts s)
  unfolding add_type_1
  add_type_1-Keeps = elim (Bool-cases (q.opts_validate opts qemu_smbios_type1_opts)) [
    | inl e ↦ rw (e, add_type_1) (save_uuid-Keeps _ _)
    | inr e ↦ rw (e, add_type_1) (refl, refl, refl, refl, refl, refl, refl)
  ]

  add_type_2-Keeps : Keeps s (add_type_2 q opts s)
  unfolding add_type_2
  add_type_2-Keeps = ground arith

  add_type_3-Keeps : Keeps s (add_type_3 q opts s)
  unfolding add_type_3
  add_type_3-Keeps = ground arith

  add_type_4-Keeps : Keeps s (add_type_4 q opts s)
  unfolding add_type_4
  add_type_4-Keeps = ground arith

  add_type_8-Keeps : Keeps s (add_type_8 q opts s)
  unfolding add_type_8
  add_type_8-Keeps = ground arith

  add_type_9-Keeps : Keeps s (add_type_9 q opts s)
  unfolding add_type_9
  add_type_9-Keeps = ground arith

  add_type_11-Keeps : Keeps s (add_type_11 q opts s)
  unfolding add_type_11
  add_type_11-Keeps = ground arith

  add_type_17-Keeps : Keeps s (add_type_17 q opts s)
  unfolding add_type_17
  add_type_17-Keeps = ground arith

  add_type_41-Keeps : Keeps s (add_type_41 q opts s)
  unfolding add_type_41
  add_type_41-Keeps = ground arith

  pub add_fields-Keeps : (type : ℕ) → Keeps s (add_fields q opts type s)
  unfolding add_fields
  add_fields-Keeps type = ground (
    arith, add_type_0-Keeps, add_type_1-Keeps, add_type_2-Keeps, add_type_3-Keeps, add_type_4-Keeps,
    add_type_8-Keeps, add_type_9-Keeps, add_type_11-Keeps, add_type_17-Keeps, add_type_41-Keeps,
  )
