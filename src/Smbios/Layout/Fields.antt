-- ===== src/Smbios/Layout/Fields.antt =====
-- Packed structures in memory: fields of 1, 2, 4 or 8 bytes one after another, each stored with its
-- low byte first, as `QEMU_PACKED` structures with `cpu_to_le16` and the like are.
use mathlib.Core.List.{append_assoc}
use native.Mathlib.Nat.{pow-suc}
use pve_anti_detection.Prelude.{
  ℕ, zero, suc, ◌+◌, ◌/◌, ◌^◌, ◌<◌, ◌≡◌, refl, ap, ap₂, List, [], ◌∷◌, ◌++◌, arith, length,
  length-append, take, drop, le_bytes, le_value,
}

-- A width in bytes and the number that the field holds.
abbrev pub Field : Type 0
Field = ℕ × ℕ

-- An array of bytes.
abbrev pub byte_fields : List ℕ → List Field
byte_fields [] = []
byte_fields (b ∷ bs) = (1, b) ∷ byte_fields bs

-- The structure in memory.
unfoldable pub encode : List Field → List ℕ
encode [] = []
encode ((w, v) ∷ fs) = le_bytes w v ++ encode fs

-- `sizeof`
unfoldable pub size_of : List Field → ℕ
size_of [] = 0
size_of ((w, v) ∷ fs) = w + size_of fs

abbrev pub widths : List Field → List ℕ
widths [] = []
widths ((w, v) ∷ fs) = w ∷ widths fs

-- What a reader that knows the widths finds in memory.
unfoldable pub decode : List ℕ → List ℕ → List Field
decode [] bytes = []
decode (w ∷ ws) bytes = (w, le_value (take w bytes)) ∷ decode ws (drop w bytes)

-- Every number fits its field.
abbrev pub Fit : List Field → Type 0
Fit [] = Unit {0}
Fit ((w, v) ∷ fs) = (v < 256 ^ w) × Fit fs

length-le_bytes : (n v : ℕ) → length (le_bytes n v) ≡ n
length-le_bytes zero v = refl
length-le_bytes (suc n) v = omega (arith, length-le_bytes n (v / 256))

-- A structure takes `sizeof` bytes.
pub length-encode : (fs : List Field) → length (encode fs) ≡ size_of fs
unfolding encode size_of
length-encode [] = refl
length-encode ((w, v) ∷ fs) =
    omega (arith, length-append (le_bytes w v) (encode fs), length-le_bytes w v, length-encode fs)

take-le_bytes : (n v : ℕ) (rest : List ℕ) → take n (le_bytes n v ++ rest) ≡ le_bytes n v
take-le_bytes zero v rest = refl
take-le_bytes (suc n) v rest = ap₂ ◌∷◌ refl (take-le_bytes n (v / 256) rest)

drop-le_bytes : (n v : ℕ) (rest : List ℕ) → drop n (le_bytes n v ++ rest) ≡ rest
drop-le_bytes zero v rest = refl
drop-le_bytes (suc n) v rest = drop-le_bytes n (v / 256) rest

le_value-le_bytes : (n v : ℕ) → v < 256 ^ n → le_value (le_bytes n v) ≡ v
le_value-le_bytes zero v h = omega arith
le_value-le_bytes (suc n) v h =
    omega (arith, le_value-le_bytes n (v / 256) (omega (arith, pow-suc 256 n)))

-- A structure whose numbers fit their fields is read back as it was written.
pub decode-encode :
    (fs : List Field) (rest : List ℕ) → Fit fs → decode (widths fs) (encode fs ++ rest) ≡ fs
unfolding decode encode
decode-encode [] rest h = refl
decode-encode ((w, v) ∷ fs) rest h =
    rw
      (
        append_assoc (le_bytes w v) (encode fs) rest,
        take-le_bytes w v (encode fs ++ rest),
        drop-le_bytes w v (encode fs ++ rest),
      )
      (ap₂ ◌∷◌ (ap (λ n. (w, n)) (le_value-le_bytes w v h.0)) (decode-encode fs rest h.1))
