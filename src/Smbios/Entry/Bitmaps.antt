-- ===== src/Smbios/Entry/Bitmaps.antt =====
-- The two bitmaps: a type has blobs or fields from the user, never both.
use pve_anti_detection.Prelude.{
  ℕ, ◌≡◌, refl, Bool, false, ◌&&◌, List, [], ◌∷◌, Text, arith, Option-cases, ap, inl, inr,
}
use pve_anti_detection.Smbios.State.{Smbios, set_bit, initial}
use pve_anti_detection.Smbios.Qemu.{Qemu}
use pve_anti_detection.Smbios.Entry.{load_blob, add_file, add_type, smbios_entry_add, add_all}
use pve_anti_detection.Smbios.Entry.Unchanged.{add_fields-Keeps}

-- No type has both bits set.
abbrev pub IsExclusive : Smbios → Type 0
IsExclusive s = (t : ℕ) → (s.have_binfile t && s.have_fields t) ≡ false

module _ (q : Qemu) where
  load_blob-IsExclusive :
      (val : Text) (size : ℕ) (s : Smbios) → IsExclusive s → IsExclusive (load_blob q val size s).0
  unfolding load_blob
  load_blob-IsExclusive val size s x t = ground (arith, x t)

  add_file-IsExclusive :
      (opts : q.Opts) (val : Text) (s : Smbios)
      → IsExclusive s
      → IsExclusive (add_file q opts val s).0
  unfolding add_file
  add_file-IsExclusive opts val s x t = elim (Option-cases (q.image_size val)) [
    | inl e ↦ rw (e, add_file) (ground (arith, x t))
    | inr (size, e) ↦ rw (e, add_file) (ground (arith, x t, load_blob-IsExclusive val size s x t))
  ]

  add_type-IsExclusive :
      (opts : q.Opts) (type : ℕ) (s : Smbios)
      → IsExclusive s
      → IsExclusive (add_type q opts type s).0
  unfolding add_type
  add_type-IsExclusive opts type s x t =
      let marked = record s { have_fields = set_bit type s.have_fields } in
      let kept = add_fields-Keeps q opts marked type in
      ground (arith, x t, ap (λ (f : ℕ → Bool). f t) kept.0, ap (λ (f : ℕ → Bool). f t) kept.1)

  -- One `-smbios` option, accepted or refused, keeps blobs and fields of a type apart: no type gets
  -- both bits.
  pub smbios_entry_add-IsExclusive :
      (opts : q.Opts) (s : Smbios) → IsExclusive s → IsExclusive (smbios_entry_add q opts s).0
  unfolding smbios_entry_add
  smbios_entry_add-IsExclusive opts s x = elim (Option-cases (q.opt_get opts "file")) [
    | inr (val, e) ↦ rw (e, smbios_entry_add) (add_file-IsExclusive opts val s x)
    | inl e ↦ elim (Option-cases (q.opt_get opts "type")) [
      | inr (val, e') ↦ rw (e, e', smbios_entry_add) (add_type-IsExclusive opts _ s x)
      | inl e' ↦ rw (e, e', smbios_entry_add) x
    ]
  ]

  add_all_from : (all : List q.Opts) (s : Smbios) → IsExclusive s → IsExclusive (add_all q all s).0
  unfolding add_all
  add_all_from [] s x = x
  add_all_from (opts ∷ rest) s x =
      let next = smbios_entry_add-IsExclusive opts s x in
      elim (Option-cases (smbios_entry_add q opts s).1) [
        | inl e ↦ rw (e, add_all) (add_all_from rest _ next)
        | inr (err, e) ↦ rw (e, add_all) next
      ]

  -- Whatever the command line holds, no type ends up with both a binary file and fields.
  pub add_all-initial :
      (all : List q.Opts) (uuid : List ℕ) → IsExclusive (add_all q all (initial uuid)).0
  add_all-initial all uuid = add_all_from all (initial uuid) (λ t. refl)
