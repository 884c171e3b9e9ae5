-- ===== src/Msr/Filter.antt =====
-- The filter: the first range that covers a register decides.
use mathlib.Core.List.{append-nil}
use pve_anti_detection.Prelude.{
  ℕ, ◌-◌, ◌<◌, ◌≡◌, ◌⊎◌, refl, Bool, true, false, some, List, [], ◌∷◌, ◌++◌, All, arith,
}
use pve_anti_detection.Msr.{MsrBitmapRange, MsrFilter, covers, scan_ranges, kvm_msr_allowed}

-- No range covers the register.
abbrev pub NoneCovers : ℕ → ℕ → List MsrBitmapRange → Type 0
NoneCovers index type = All (λ r. covers r index type ≡ false)

scan_past :
    (allowed : Bool) (before rest : List MsrBitmapRange) (index type : ℕ)
    → NoneCovers index type before
    → scan_ranges allowed (before ++ rest) index type ≡ scan_ranges allowed rest index type
unfolding scan_ranges
scan_past allowed [] rest index type h = refl
scan_past allowed (r ∷ before) rest index type h =
    rw (h.0, scan_ranges) (scan_past allowed before rest index type h.1)

-- The first range that covers a register decides by its bitmap, whatever ranges come after it and
-- whatever the default, if the register is not one of the x2APIC's.
pub kvm_msr_allowed-first :
    (allow : Bool) (before after : List MsrBitmapRange) (r : MsrBitmapRange) (index type : ℕ)
    → (index < 0x800) ⊎ (0x8ff < index)
    → NoneCovers index type before
    → covers r index type ≡ true
    → kvm_msr_allowed
        (some (record { default_allow = allow; ranges = before ++ (r ∷ after) }))
        index
        type
      ≡ r.bitmap (index - r.base)
unfolding kvm_msr_allowed
kvm_msr_allowed-first allow before after r index type out none_before hit =
    let past = scan_past allow before (r ∷ after) index type none_before in
    ground (arith, rw (hit, scan_ranges) at past)

-- Where no range covers a register, the default decides, if the register is not one of the x2APIC's.
pub kvm_msr_allowed-default :
    (f : MsrFilter) (index type : ℕ)
    → (index < 0x800) ⊎ (0x8ff < index)
    → NoneCovers index type f.ranges
    → kvm_msr_allowed (some f) index type ≡ f.default_allow
unfolding kvm_msr_allowed scan_ranges
kvm_msr_allowed-default f index type out miss =
    let past = scan_past f.default_allow f.ranges [] index type miss in
    ground (arith, rw append-nil at past)
