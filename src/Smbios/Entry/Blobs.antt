-- ===== src/Smbios/Entry/Blobs.antt =====
-- The blobs that the user gave with `file=`: their lengths and counts, and what a refused option
-- leaves.
use mathlib.Core.List.{append-nil, append_assoc}
use pve_anti_detection.Prelude.{
  ap, sym, ◌∙◌, ◌<◌, ◌^◌, some, u32, ℕ, ◌≤◌, ◌≡◌, ◌≢◌, ◌⊎◌, refl, Option, none, List, [], ◌∷◌, ◌++◌,
  Text, All, All-append, length, length-append, arith, Option-cases, Bool-cases, ◌==◌, ==_iff, ltb,
  leb, ◌&&◌, inl, inr,
}
use pve_anti_detection.Smbios.Options.{qemu_smbios_file_opts}
use pve_anti_detection.Smbios.State.{Smbios, Error, set_bit, smbios_max_type}
use pve_anti_detection.Smbios.Qemu.{Qemu}
use pve_anti_detection.Smbios.Entry.{
  header_size, blob_type, add_blob, load_blob, add_file, add_type, smbios_entry_add,
}
use pve_anti_detection.Smbios.Entry.Unchanged.{add_fields-Keeps}

-- The blobs in a row, and their lengths.
abbrev pub joined : List (List ℕ) → List ℕ
joined [] = []
joined (x ∷ xs) = x ++ joined xs

abbrev pub lengths : List (List ℕ) → List ℕ
lengths [] = []
lengths (x ∷ xs) = length x ∷ lengths xs

joined-append : (xs : List (List ℕ)) (x : List ℕ) → joined (xs ++ (x ∷ [])) ≡ joined xs ++ x
joined-append [] x = append-nil x
joined-append (y ∷ ys) x =
    ap (λ zs. y ++ zs) (joined-append ys x) ∙ sym (append_assoc y (joined ys) x)

lengths-append :
    (xs : List (List ℕ)) (x : List ℕ) → lengths (xs ++ (x ∷ [])) ≡ lengths xs ++ (length x ∷ [])
lengths-append [] x = refl
lengths-append (y ∷ ys) x = ap (λ ns. length y ∷ ns) (lengths-append ys x)

-- A blob has room for a header, and is no larger than the largest.
abbrev pub InBounds : ℕ → List ℕ → Type 0
InBounds largest blob = (header_size ≤ length blob) × (length blob ≤ largest)

-- The state holds these blobs: their bytes in a row, with their total length, the length of each, their
-- 32-bit count, and a bound for the largest of them.
pub record AreBlobs (blobs : List (List ℕ)) (s : Smbios) : Type 0 where
  pub contents : s.usr_blobs ≡ joined blobs
  pub whole : s.usr_blobs_len ≡ length s.usr_blobs
  pub sized : s.usr_blob_sizes ≡ lengths blobs
  pub counted : s.usr_table_cnt ≡ u32 (length blobs)
  pub bounded : All (InBounds s.usr_table_max) blobs

All-InBounds_mono :
    (m n : ℕ) (xs : List (List ℕ)) → m ≤ n → All (InBounds m) xs → All (InBounds n) xs
All-InBounds_mono m n [] h a = tt
All-InBounds_mono m n (x ∷ xs) h a = (omega arith, All-InBounds_mono m n xs h a.1)

add_blob-AreBlobs :
    (blobs : List (List ℕ)) (blob : List ℕ) (size : ℕ) (s : Smbios)
    → header_size ≤ size
    → size < 2 ^ 32
    → length blob ≡ size
    → AreBlobs blobs s
    → AreBlobs (blobs ++ (blob ∷ [])) (add_blob blob size s)
unfolding add_blob
add_blob-AreBlobs blobs blob size s h fits e b = record {
  contents = ap (λ xs. xs ++ blob) b.contents ∙ sym (joined-append blobs blob);
  whole = omega (arith, length-append s.usr_blobs blob, b.whole);
  sized =
      ap (λ n. s.usr_blob_sizes ++ (n ∷ [])) (sym e)
      ∙ ap (λ ns. ns ++ (length blob ∷ [])) b.sized
      ∙ sym (lengths-append blobs blob);
  counted = omega (arith, length-append blobs (blob ∷ []), b.counted);
  bounded =
      All-append (InBounds largest) blobs (blob ∷ [])
        (All-InBounds_mono s.usr_table_max largest blobs (ground arith) b.bounded)
        ((omega arith, ground arith), tt);
}
  where
    largest : ℕ
    largest = (add_blob blob size s).usr_table_max

-- The blobs of the second state are those of the first.
abbrev SameBlobs : Smbios → Smbios → Type 0
SameBlobs s r =
    (r.usr_blobs ≡ s.usr_blobs)
    × (r.usr_blobs_len ≡ s.usr_blobs_len)
    × (r.usr_table_max ≡ s.usr_table_max)
    × (r.usr_table_cnt ≡ s.usr_table_cnt)
    × (r.usr_blob_sizes ≡ s.usr_blob_sizes)

AreBlobs-SameBlobs :
    (blobs : List (List ℕ)) (s r : Smbios) → SameBlobs s r → AreBlobs blobs s → AreBlobs blobs r
AreBlobs-SameBlobs blobs s r k b = record {
  contents = k.0 ∙ b.contents;
  whole = k.1 ∙ b.whole ∙ ap (λ xs. length xs) (sym k.0);
  sized = k.4 ∙ b.sized;
  counted = k.3 ∙ b.counted;
  bounded = rw k.2 b.bounded;
}

-- A step took up the whole of a blob of a plausible size, without an error; or it changed nothing
-- at all, and set one.
abbrev pub TakesAllOrNothing : Option ℕ → (ℕ → List ℕ) → Smbios → Smbios × Option Error → Type 0
TakesAllOrNothing known load s r =
    ((size : ℕ) × (r ≡ (add_blob (load size) size s, none))
      × (known ≡ some size)
      × (header_size ≤ size)
      × (length (load size) ≡ size))
    ⊎ ((r.0 ≡ s) × (r.1 ≢ none))

module _ (q : Qemu) (opts : q.Opts) where
  load_blob_cases :
      (val : Text) (size : ℕ) (s : Smbios)
      → header_size ≤ size
      → TakesAllOrNothing (some size) (q.load_image val) s (load_blob q val size s)
  unfolding load_blob
  load_blob_cases val size s h = elim (Bool-cases (length blob == size)) [
    | inr short ↦ rw (short, load_blob) (inr (refl, λ e. cc))
    | inl whole ↦
        elim (Bool-cases (leb (blob_type blob) smbios_max_type && s.have_fields (blob_type blob))) [
          | inl given ↦ rw (whole, given, load_blob) (inr (refl, λ e. cc))
          | inr free ↦ rw (whole, free, load_blob) (inl (size, refl, refl, h, (==_iff _ _).0 whole))
        ]
  ]
    where
      blob : List ℕ
      blob = q.load_image val size

  -- `file=` either takes the whole blob up, or fails and changes nothing at all.
  pub add_file_cases :
      (val : Text) (s : Smbios)
      → TakesAllOrNothing (q.image_size val) (q.load_image val) s (add_file q opts val s)
  unfolding add_file
  add_file_cases val s = elim (Bool-cases (q.opts_validate opts qemu_smbios_file_opts)) [
    | inr bad ↦ rw (bad, add_file) (inr (refl, λ e. cc))
    | inl ok ↦ elim (Option-cases (q.image_size val)) [
      | inl e ↦ rw (ok, e, add_file) (inr (refl, λ e. cc))
      | inr (size, e) ↦ elim (Bool-cases (ltb size header_size)) [
        | inl small ↦ rw (ok, e, small, add_file) (inr (refl, λ e. cc))
        | inr big ↦ rw (ok, e, big, add_file) (load_blob_cases val size s (ground arith))
      ]
    ]
  ]

  add_type-SameBlobs : (type : ℕ) (s : Smbios) → SameBlobs s (add_type q opts type s).0
  unfolding add_type
  add_type-SameBlobs type s =
      let marked = record s { have_fields = set_bit type s.have_fields } in
      let kept = add_fields-Keeps q opts marked type in ground arith

  -- The blobs after an option: one more, that of the file it names, or the same ones, where it names none or
  -- fails.
  abbrev pub Follows : List (List ℕ) → List (List ℕ) → Option Error → Type 0
  Follows before after err =
      ((val : Text) × (size : ℕ) × (q.opt_get opts "file" ≡ some val)
        × (q.image_size val ≡ some size)
        × (after ≡ before ++ (q.load_image val size ∷ []))
        × (err ≡ none))
      ⊎ ((after ≡ before) × ((q.opt_get opts "file" ≡ none) ⊎ (err ≢ none)))

  add_file-AreBlobs :
      (val : Text) (blobs : List (List ℕ)) (s : Smbios)
      → q.opt_get opts "file" ≡ some val
      → ((size : ℕ) → q.image_size val ≡ some size → size < 2 ^ 32)
      → AreBlobs blobs s
      → (blobs' : List (List ℕ)) × AreBlobs blobs' (add_file q opts val s).0
        × Follows blobs blobs' (add_file q opts val s).1
  add_file-AreBlobs val blobs s named small b = elim (add_file_cases val s) [
    | inl (size, e, known, h, l) ↦
        let blob = q.load_image val size in
        (
          blobs ++ (blob ∷ []),
          rw e (add_blob-AreBlobs blobs blob size s h (small size known) l b),
          inl (val, size, named, known, refl, ap (λ r. r.1) e),
        )
    | inr (e, err) ↦ (blobs, rw e b, inr (refl, inr err))
  ]

  -- The state holds the user's blobs through any `-smbios` option, if a file is shorter than 2 ^ 32 bytes: one
  -- that names a file and is accepted puts the file's contents behind the others, and one that names none
  -- or is refused leaves them as they were.
  pub smbios_entry_add-AreBlobs :
      (blobs : List (List ℕ)) (s : Smbios)
      → ((val : Text) (size : ℕ) → q.image_size val ≡ some size → size < 2 ^ 32)
      → AreBlobs blobs s
      → (blobs' : List (List ℕ)) × AreBlobs blobs' (smbios_entry_add q opts s).0
        × Follows blobs blobs' (smbios_entry_add q opts s).1
  unfolding smbios_entry_add
  smbios_entry_add-AreBlobs blobs s small b = elim (Option-cases (q.opt_get opts "file")) [
    | inr (val, e) ↦
        let same : smbios_entry_add q opts s ≡ add_file q opts val s =
          rw (e, smbios_entry_add) refl in
        rw same (add_file-AreBlobs val blobs s e (small val) b)
    | inl e ↦ elim (Option-cases (q.opt_get opts "type")) [
      | inr (val, e') ↦
          let same : smbios_entry_add q opts s ≡ add_type q opts (q.strtoul val) s =
            rw (e, e', smbios_entry_add) refl in
          (
            blobs,
            rw same (AreBlobs-SameBlobs blobs s _ (add_type-SameBlobs (q.strtoul val) s) b),
            inr (refl, inl e),
          )
      | inl e' ↦
          let same : (smbios_entry_add q opts s).0 ≡ s = rw (e, e', smbios_entry_add) refl in
          (blobs, rw same b, inr (refl, inl e))
    ]
  ]
