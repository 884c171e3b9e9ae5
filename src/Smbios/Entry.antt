-- ===== src/Smbios/Entry.antt =====
-- smbios.c: `smbios_entry_add`, one `-smbios` option of the command line (lines 1456 to 1785). The
-- result is the state and the error, if one was set.
pub mod Strings
pub mod Fields
mod Unchanged
pub mod Bitmaps
pub mod Blobs
pub mod OemStrings
use pve_anti_detection.Prelude.{
  ℕ, ◌+◌, Bool, true, false, not, ◌&&◌, Option, none, some, List, [], ◌∷◌, ◌++◌, Text, ltb, leb,
  ◌==◌, if◌then◌else◌, get_elem?, length, u32,
}
use pve_anti_detection.Smbios.Options.{qemu_smbios_file_opts}
use pve_anti_detection.Smbios.State.{
  Smbios, Error, invalid_option, cannot_read_file, failed_to_load, fields_already_given,
  binary_already_loaded, out_of_range, must_specify, unknown_type, set_bit, smbios_max_type,
}
use pve_anti_detection.Smbios.Qemu.{Qemu}
use Fields.{
  add_type_0, add_type_1, add_type_2, add_type_3, add_type_4, add_type_8, add_type_9, add_type_11,
  add_type_17, add_type_41,
}

-- `sizeof(struct smbios_structure_header)`
abbrev pub header_size : ℕ
header_size = 4

-- `header->type` of a blob
abbrev pub blob_type : List ℕ → ℕ
blob_type [] = 0
blob_type (b ∷ bs) = b

-- A blob that was read is taken up.
unfoldable pub add_blob : List ℕ → ℕ → Smbios → Smbios
add_blob blob size s = record s {
  have_binfile =
      if leb (blob_type blob) smbios_max_type
      then set_bit (blob_type blob) s.have_binfile
      else s.have_binfile;
  type4_count = if blob_type blob == 4 then s.type4_count + 1 else s.type4_count;
  usr_blob_sizes = s.usr_blob_sizes ++ (size ∷ []);
  usr_blobs = s.usr_blobs ++ blob;
  usr_blobs_len = s.usr_blobs_len + size;
  usr_table_max = if ltb s.usr_table_max size then u32 size else s.usr_table_max;
  usr_table_cnt = u32 (s.usr_table_cnt + 1);
}

module _ (q : Qemu) where
  unfoldable pub load_blob : Text → ℕ → Smbios → Smbios × Option Error
  unfolding add_blob
  load_blob val size s =
      let blob = q.load_image val size in
      if not (length blob == size)
      then (s, some failed_to_load)
      else (if leb (blob_type blob) smbios_max_type && s.have_fields (blob_type blob)
          then (s, some (fields_already_given (blob_type blob)))
          else (add_blob blob size s, none))

  -- `file=`
  unfoldable pub add_file : q.Opts → Text → Smbios → Smbios × Option Error
  unfolding load_blob
  add_file opts val s =
      if not (q.opts_validate opts qemu_smbios_file_opts)
      then (s, some invalid_option)
      else elim (q.image_size val) [
        | none ↦ (s, some cannot_read_file)
        | some size ↦
            if ltb size header_size then (s, some cannot_read_file) else load_blob val size s
      ]

  -- The `switch` on the type.
  unfoldable pub add_fields : q.Opts → ℕ → Smbios → Smbios × Option Error
  add_fields opts type s =
      if type == 0
      then add_type_0 q opts s
      else (if type == 1
          then add_type_1 q opts s
          else (if type == 2
              then add_type_2 q opts s
              else (if type == 3
                  then add_type_3 q opts s
                  else (if type == 4
                      then add_type_4 q opts s
                      else (if type == 8
                          then add_type_8 q opts s
                          else (if type == 9
                              then add_type_9 q opts s
                              else (if type == 11
                                  then add_type_11 q opts s
                                  else (if type == 17
                                      then add_type_17 q opts s
                                      else (if type == 41
                                          then add_type_41 q opts s
                                          else (s, some (unknown_type type)))))))))))

  -- `type=`
  unfoldable pub add_type : q.Opts → ℕ → Smbios → Smbios × Option Error
  unfolding add_fields
  add_type opts type s =
      if ltb smbios_max_type type
      then (s, some out_of_range)
      else (if s.have_binfile type
          then (s, some binary_already_loaded)
          else add_fields opts type (record s { have_fields = set_bit type s.have_fields }))

  unfoldable pub smbios_entry_add : q.Opts → Smbios → Smbios × Option Error
  unfolding add_file add_type
  smbios_entry_add opts s = elim (q.opt_get opts "file") [
    | some val ↦ add_file opts val s
    | none ↦ elim (q.opt_get opts "type") [
      | some val ↦ add_type opts (q.strtoul val) s
      | none ↦ (s, some must_specify)
    ]
  ]

  -- The options of the command line, one after another, until one fails.
  unfoldable pub add_all : List q.Opts → Smbios → Smbios × Option Error
  unfolding smbios_entry_add
  add_all [] s = (s, none)
  add_all (opts ∷ rest) s =
      let (s', errp) = smbios_entry_add opts s in
      elim errp [ none ↦ add_all rest s' | some e ↦ (s', some e) ]
