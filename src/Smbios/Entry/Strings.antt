-- ===== src/Smbios/Entry/Strings.antt =====
-- smbios.c: options that are texts, and the OEM strings of type 11 (lines 1456 to 1533).
use Prim.Native.String.{String}
use text.Mathlib.Text.{◌==◌ as str_eq}
use pve_anti_detection.Prelude.{
  ℕ, Bool, false, ◌||◌, Option, none, some, List, [], ◌∷◌, ◌++◌, Text, ◌==◌, if◌then◌else◌,
}
use pve_anti_detection.Smbios.State.{
  Error, nul_in_oem_string, cannot_open_path, read_failed, unexpected_option,
}
use pve_anti_detection.Smbios.Qemu.{Qemu, Chunk, bytes, failed}

-- `type11.values`
abbrev pub OemValues : Type 0
OemValues = List (Option (List ℕ))

-- `memchr(buf, '\0', ret)`
unfoldable pub has_nul : List ℕ → Bool
has_nul [] = false
has_nul (b ∷ bs) = b == 0 || has_nul bs

-- What the loop over `read` ends with.
pub data Contents : Type 0 where
  content : List ℕ → Contents
  bad : Error → Contents

-- The array `data` grows by each piece; an empty piece is the end.
unfoldable pub read_loop : List ℕ → List Chunk → Contents
unfolding has_nul
read_loop acc [] = content acc
read_loop acc (failed ∷ rest) = bad read_failed
read_loop acc (bytes [] ∷ rest) = content acc
read_loop acc (bytes (b ∷ bs) ∷ rest) =
    let more = read_loop (acc ++ (b ∷ bs)) rest in
    if has_nul (b ∷ bs) then bad nul_in_oem_string else more

-- A copy of a C string, with its terminator.
abbrev pub strdup : Text → List ℕ
strdup t = t ++ (0 ∷ [])

module _ (q : Qemu) where
  unfoldable pub save_opt : Option Text → q.Opts → String → Option Text
  save_opt dest opts name = elim (q.opt_get opts name) [ none ↦ dest | some val ↦ some val ]

  unfoldable pub save_path : Option (List Chunk) → OemValues → OemValues × Option Error
  unfolding read_loop
  save_path none values = (values, some cannot_open_path)
  save_path (some chunks) values = elim (read_loop [] chunks) [
    | bad e ↦ (values, some e)
    | content block ↦ (values ++ (some block ∷ []), none)
  ]

  unfoldable pub save_opt_one : OemValues → String → Text → OemValues × Option Error
  unfolding save_path
  save_opt_one values name value =
      if str_eq name "path"
      then save_path (q.open_file value) values
      else (if str_eq name "value"
          then (values ++ (some (strdup value) ∷ []), none)
          else (if str_eq name "type" then (values, none) else (values, some unexpected_option)))

  -- The options are visited until one fails.
  unfoldable pub save_opt_list : OemValues → List (String × Text) → OemValues × Option Error
  unfolding save_opt_one
  save_opt_list values [] = (values, none)
  save_opt_list values ((name, value) ∷ rest) =
      let (values', errp) = save_opt_one values name value in
      elim errp [ none ↦ save_opt_list values' rest | some e ↦ (values', some e) ]
