-- ===== src/Smbios/Entry/OemStrings.antt =====
-- The OEM strings that `path=` reads from a file.
use mathlib.Core.List.{append_assoc, append-nil}
use pve_anti_detection.Prelude.{
  ℕ, ◌≡◌, refl, sym, ◌∙◌, ◌⊎◌, inl, inr, false, ◌||◌, none, some, List, [], ◌∷◌, ◌++◌, arith,
  Bool-cases,
}
use pve_anti_detection.Smbios.State.{Error}
use pve_anti_detection.Smbios.Qemu.{Qemu, Chunk, bytes, failed}
use pve_anti_detection.Smbios.Entry.Strings.{
  OemValues, Contents, content, bad, has_nul, read_loop, save_path,
}

-- What the reads return up to the end of the file, if none fails.
abbrev pub all_bytes : List Chunk → List ℕ
all_bytes [] = []
all_bytes (failed ∷ rest) = []
all_bytes (bytes [] ∷ rest) = []
all_bytes (bytes (b ∷ bs) ∷ rest) = (b ∷ bs) ++ all_bytes rest

has_nul-append : (xs ys : List ℕ) → has_nul (xs ++ ys) ≡ (has_nul xs || has_nul ys)
unfolding has_nul
has_nul-append [] ys = refl
has_nul-append (x ∷ xs) ys = ground (arith, has_nul-append xs ys)

Contents-cases :
    (c : Contents) → ((block : List ℕ) × (c ≡ content block)) ⊎ ((e : Error) × (c ≡ bad e))
Contents-cases (content block) = inl (block, refl)
Contents-cases (bad e) = inr (e, refl)

content-injective : {xs ys : List ℕ} → content xs ≡ content ys → xs ≡ ys
content-injective e = cc

whole :
    (acc : List ℕ) {block : List ℕ}
    → has_nul acc ≡ false
    → content acc ≡ content block
    → (block ≡ acc ++ []) × (has_nul block ≡ false)
whole acc h e = let same = content-injective e in (sym same ∙ sym (append-nil acc), rw (← same) h)

read_loop-content :
    (acc : List ℕ) (chunks : List Chunk) {block : List ℕ}
    → has_nul acc ≡ false
    → read_loop acc chunks ≡ content block
    → (block ≡ acc ++ all_bytes chunks) × (has_nul block ≡ false)
unfolding read_loop
read_loop-content acc [] h e = whole acc h e
read_loop-content acc (failed ∷ rest) h e = cc
read_loop-content acc (bytes [] ∷ rest) h e = whole acc h e
read_loop-content acc (bytes (b ∷ bs) ∷ rest) {block} h e = elim (Bool-cases (has_nul (b ∷ bs))) [
  | inl nul ↦ cc (rw nul at e)
  | inr clean ↦
      let (r, n) =
        read_loop-content (acc ++ (b ∷ bs)) rest {block = block}
          (rw (has_nul-append acc (b ∷ bs), h, clean)) (rw clean at e) in
      (r ∙ append_assoc acc (b ∷ bs) (all_bytes rest), n)
]

-- If the reading of a file succeeds, the string from it is what the file holds up to its end, and
-- nothing else: no byte of the block is a terminator, though the program goes on to use the block as
-- a C string.
pub save_path_unterminated :
    (q : Qemu) (chunks : List Chunk) (values : OemValues)
    → (save_path q (some chunks) values).1 ≡ none
    → ((save_path q (some chunks) values).0 ≡ values ++ (some (all_bytes chunks) ∷ []))
      × (has_nul (all_bytes chunks) ≡ false)
unfolding save_path
save_path_unterminated q chunks values e = elim (Contents-cases (read_loop [] chunks)) [
  | inl (block, r) ↦
      let (w, n) = read_loop-content [] chunks {block = block} refl r in
      rw (r, save_path, ← w) (refl, n)
  | inr (err, r) ↦ cc (rw (r, save_path) at e)
]
