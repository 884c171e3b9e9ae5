-- ===== src/Msr/Policy.antt =====
-- What an installed filter allows, as the user stated it.
use mathlib.Core.List.{append-nil, append_assoc}
use pve_anti_detection.Prelude.{
  Option, sym, ℕ, ◌+◌, ◌-◌, ◌^◌, ◌≤◌, ◌<◌, ◌≡◌, ◌≢◌, ◌⊎◌, inl, inr, refl, ◌∙◌, Bool, true, false,
  not, ◌&&◌, none, some, List, [], ◌∷◌, ◌++◌, All, arith, leb, ltb, ◌==◌, bit_and, if◌then◌else◌,
  Bool-cases, Option-cases, ap, ==_iff,
}
use pve_anti_detection.Msr.{MsrBitmapRange, MsrFilter, covers, scan_ranges, kvm_msr_allowed}
use pve_anti_detection.Msr.Install.{
  KvmMsrFilterRange, KvmMsrFilter, Abi, Kvm, Errno, is_refused, kvm_alloc_msr_filter,
  kvm_add_msr_filter, add_ranges, kvm_vm_ioctl_set_msr_filter,
}

-- The range speaks of this register and this kind of access.
abbrev pub speaks_of : KvmMsrFilterRange → ℕ → ℕ → Bool
speaks_of r index type =
    leb r.base index && ltb index (r.base + r.nmsrs) && not (bit_and r.flags type == 0)

-- The bit of a range for a register.
abbrev pub bit_of : KvmMsrFilterRange → ℕ → Bool
bit_of r index = elim r.bitmap [ none ↦ false | some bits ↦ bits (index - r.base) ]

-- The policy: the first of the user's ranges that speaks of the access decides it, else the default.
abbrev pub policy : Bool → List KvmMsrFilterRange → ℕ → ℕ → Bool
policy default_allow [] index type = default_allow
policy default_allow (r ∷ rs) index type =
    if speaks_of r index type then bit_of r index else policy default_allow rs index type

-- The range ends below the last register number.
abbrev pub EndsInTime : KvmMsrFilterRange → Type 0
EndsInTime r = r.base + r.nmsrs < 2 ^ 32

-- The range that the program keeps.
abbrev kept : KvmMsrFilterRange → (ℕ → Bool) → MsrBitmapRange
kept r bits = record { base = r.base; nmsrs = r.nmsrs; flags = r.flags; bitmap = bits }

covers-kept :
    (r : KvmMsrFilterRange) (bits : ℕ → Bool) (index type : ℕ)
    → EndsInTime r
    → covers (kept r bits) index type ≡ speaks_of r index type
unfolding covers
covers-kept r bits index type h = ground arith

-- A range that reaches the end of the 32-bit register numbers covers none of them: its end wraps
-- around to a number that is not above its start.
pub covers_wrapped :
    (r : MsrBitmapRange) (index type : ℕ)
    → r.base < 2 ^ 32
    → r.nmsrs < 2 ^ 32
    → 2 ^ 32 ≤ r.base + r.nmsrs
    → covers r index type ≡ false
unfolding covers
covers_wrapped r index type hb hn wraps = ground arith

scan_ranges-append :
    (d : Bool) (xs ys : List MsrBitmapRange) (index type : ℕ)
    → scan_ranges d (xs ++ ys) index type ≡ scan_ranges (scan_ranges d ys index type) xs index type
unfolding scan_ranges
scan_ranges-append d [] ys index type = refl
scan_ranges-append d (x ∷ xs) ys index type = ground (arith, scan_ranges-append d xs ys index type)

-- The ranges that are installed are those of the user: each that names registers, with its bitmap, in their
-- order, and no other.
abbrev pub IsInstalled : List KvmMsrFilterRange → List MsrBitmapRange → Type 0
IsInstalled [] ys = ys ≡ []
IsInstalled (r ∷ rs) ys =
    ((r.nmsrs ≡ 0) × IsInstalled rs ys)
    ⊎ ((r.nmsrs ≢ 0)
        × ((bits : ℕ → Bool) × (zs : List MsrBitmapRange) × (r.bitmap ≡ some bits)
            × (ys ≡ record { base = r.base; nmsrs = r.nmsrs; flags = r.flags; bitmap = bits } ∷ zs)
            × IsInstalled rs zs))

module _ (abi : Abi) where
  -- What is added where nothing refuses the range.
  kvm_add_msr_filter-kept :
      (f : MsrFilter) (r : KvmMsrFilterRange) (bits : ℕ → Bool)
      → (r.nmsrs == 0) ≡ false
      → is_refused abi r ≡ false
      → r.bitmap ≡ some bits
      → kvm_add_msr_filter abi f r ≡ (record f { ranges = f.ranges ++ (kept r bits ∷ []) }, none)
  unfolding kvm_add_msr_filter
  kvm_add_msr_filter-kept f r bits e taken b = simp (e, taken, b) refl

  -- A range that was added decides before what comes after it.
  kvm_add_msr_filter-scan :
      (f : MsrFilter) (r : KvmMsrFilterRange) (d : Bool) (index type : ℕ)
      → EndsInTime r
      → (kvm_add_msr_filter abi f r).1 ≡ none
      → (scan_ranges d (kvm_add_msr_filter abi f r).0.ranges index type
          ≡ scan_ranges (policy d (r ∷ []) index type) f.ranges index type)
        × ((kvm_add_msr_filter abi f r).0.default_allow ≡ f.default_allow)
  unfolding kvm_add_msr_filter scan_ranges
  kvm_add_msr_filter-scan f r d index type h ok = elim (Bool-cases (r.nmsrs == 0)) [
    | inl e ↦ (ground arith, ground arith)
    | inr e ↦ elim (Bool-cases (is_refused abi r)) [
      | inl refused ↦ cc (simp (e, refused) at ok)
      | inr taken ↦ elim (Option-cases r.bitmap) [
        | inl lost ↦ cc (simp (e, taken, lost) at ok)
        | inr (bits, b) ↦ rw (kvm_add_msr_filter-kept f r bits e taken b) (
          scan_ranges-append d f.ranges (kept r bits ∷ []) index type
              ∙ ap (λ x. scan_ranges x f.ranges index type)
                  (ground (arith, covers-kept r bits index type h)),
          refl,
        )
      ]
    ]
  ]

  add_ranges-scan :
      (f : MsrFilter) (rs : List KvmMsrFilterRange) (d : Bool) (index type : ℕ)
      → All EndsInTime rs
      → (add_ranges abi f rs).1 ≡ none
      → (scan_ranges d (add_ranges abi f rs).0.ranges index type
          ≡ scan_ranges (policy d rs index type) f.ranges index type)
        × ((add_ranges abi f rs).0.default_allow ≡ f.default_allow)
  unfolding add_ranges
  add_ranges-scan f [] d index type h ok = (refl, refl)
  add_ranges-scan f (r ∷ rs) d index type h ok =
      elim (Option-cases (kvm_add_msr_filter abi f r).1) [
        | inr (err, e) ↦ cc (rw (e, add_ranges) at ok)
        | inl e ↦
            let f' = (kvm_add_msr_filter abi f r).0 in
            let one = kvm_add_msr_filter-scan f r (policy d rs index type) index type h.0 e in
            let (all, same) = add_ranges-scan f' rs d index type h.1 (rw (e, add_ranges) at ok) in
            rw (e, add_ranges) (all ∙ one.0, same ∙ one.1)
      ]

  -- Once user space has installed a filter, an access to a register outside the x2APIC's is allowed
  -- exactly as the user's ranges and default say, if no range reaches the end of the register numbers.
  pub kvm_vm_ioctl_set_msr_filter-policy :
      (kvm : Kvm) (filter : KvmMsrFilter) (index type : ℕ)
      → All EndsInTime filter.ranges
      → (index < 0x800) ⊎ (0x8ff < index)
      → (kvm_vm_ioctl_set_msr_filter abi kvm filter).1 ≡ none
      → kvm_msr_allowed (kvm_vm_ioctl_set_msr_filter abi kvm filter).0.msr_filter index type
        ≡ policy (not (abi.has_default_deny filter.flags)) filter.ranges index type
  unfolding kvm_vm_ioctl_set_msr_filter kvm_alloc_msr_filter kvm_msr_allowed scan_ranges
  kvm_vm_ioctl_set_msr_filter-policy kvm filter index type h out ok =
      let fresh : MsrFilter = record {
        default_allow = not (abi.has_default_deny filter.flags);
        ranges = [];
      } in
      ground (
        arith,
        add_ranges-scan fresh filter.ranges (not (abi.has_default_deny filter.flags)) index type h,
      )

  -- A range that was taken up is added at the end, or it names no register.
  kvm_add_msr_filter-taken :
      (f : MsrFilter) (r : KvmMsrFilterRange)
      → (kvm_add_msr_filter abi f r).1 ≡ none
      → ((r.nmsrs ≡ 0) × (kvm_add_msr_filter abi f r ≡ (f, none)))
        ⊎ ((r.nmsrs ≢ 0)
            × ((bits : ℕ → Bool) × (r.bitmap ≡ some bits)
                × (kvm_add_msr_filter abi f r
                    ≡ (record f { ranges = f.ranges ++ (kept r bits ∷ []) }, none))))
  unfolding kvm_add_msr_filter
  kvm_add_msr_filter-taken f r ok = elim (Bool-cases (r.nmsrs == 0)) [
    | inl e ↦ inl ((==_iff _ _).0 e, simp (kvm_add_msr_filter, e) refl)
    | inr e ↦ elim (Bool-cases (is_refused abi r)) [
      | inl refused ↦ cc (simp (e, refused) at ok)
      | inr taken ↦ elim (Option-cases r.bitmap) [
        | inl lost ↦ cc (simp (e, taken, lost) at ok)
        | inr (bits, b) ↦
            inr (λ z. cc (rw z at e), (bits, b, kvm_add_msr_filter-kept f r bits e taken b))
      ]
    ]
  ]

  -- The filter with more ranges at its end, without an error.
  abbrev with_ranges : MsrFilter → List MsrBitmapRange → MsrFilter × Option Errno
  with_ranges f ys = (record f { ranges = f.ranges ++ ys }, none)

  -- The ranges that a run without an error adds.
  add_ranges-IsInstalled :
      (f : MsrFilter) (rs : List KvmMsrFilterRange)
      → (add_ranges abi f rs).1 ≡ none
      → (ys : List MsrBitmapRange) × (add_ranges abi f rs
          ≡ (record f { ranges = f.ranges ++ ys }, none))
        × IsInstalled rs ys
  unfolding add_ranges
  add_ranges-IsInstalled f [] ok = ([], rw (append-nil f.ranges) refl, refl)
  add_ranges-IsInstalled f (r ∷ rs) ok = elim (Option-cases (kvm_add_msr_filter abi f r).1) [
    | inr (err, e) ↦ cc (rw (e, add_ranges) at ok)
    | inl e ↦
        let f' = (kvm_add_msr_filter abi f r).0 in
        let step : add_ranges abi f (r ∷ rs) ≡ add_ranges abi f' rs = rw (e, add_ranges) refl in
        let (ys, all, installed) = add_ranges-IsInstalled f' rs (sym (ap (λ p. p.1) step) ∙ ok) in
        elim (kvm_add_msr_filter-taken f r e) [
          | inl (zero_there, same) ↦
              (ys, step ∙ all ∙ ap (λ p. with_ranges p.0 ys) same, inl (zero_there, installed))
          | inr (some_there, (bits, b, added)) ↦ (
            kept r bits ∷ ys,
            step
                ∙ all
                ∙ ap (λ p. with_ranges p.0 ys) added
                ∙ ap (λ zs. (record f { ranges = zs }, none))
                    (append_assoc f.ranges (kept r bits ∷ []) ys),
            inr (some_there, (bits, ys, b, refl, installed)),
          )
        ]
  ]

  -- A request for a filter either installs one and has the vCPUs told: then the filter has the default
  -- that the flags say, and each of the ranges that names a register, with its bitmap, in their order, and
  -- no other; or it reports an error and changes nothing at all.
  pub kvm_vm_ioctl_set_msr_filter_cases :
      (kvm : Kvm) (filter : KvmMsrFilter)
      → let after = kvm_vm_ioctl_set_msr_filter abi kvm filter in
        ((f : MsrFilter) × (after
            ≡ (record kvm { msr_filter = some f; filter_changed = true }, none))
          × (f.default_allow ≡ not (abi.has_default_deny filter.flags))
          × IsInstalled filter.ranges f.ranges)
        ⊎ ((after.0 ≡ kvm) × (after.1 ≢ none))
  unfolding kvm_vm_ioctl_set_msr_filter kvm_alloc_msr_filter
  kvm_vm_ioctl_set_msr_filter_cases kvm filter =
      let fresh : MsrFilter = record {
        default_allow = not (abi.has_default_deny filter.flags);
        ranges = [];
      } in
      elim (Option-cases (kvm_vm_ioctl_set_msr_filter abi kvm filter).1) [
        | inl e ↦
            let ok : (add_ranges abi fresh filter.ranges).1 ≡ none = ground arith in
            let (ys, all, installed) = add_ranges-IsInstalled fresh filter.ranges ok in
            inl (record fresh { ranges = ys }, ground arith, refl, installed)
        | inr (err, e) ↦ inr (ground arith, λ n. cc)
      ]
