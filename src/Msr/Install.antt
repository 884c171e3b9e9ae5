-- ===== src/Msr/Install.antt =====
-- x86.c: the installation of an MSR filter by user space (lines 6738 to 6839).
--
-- The constants of the kernel's headers, the copying of a bitmap from user space and the allocation
-- are the parameter `Abi`.
use pve_anti_detection.Prelude.{
  ℕ, Bool, true, not, ◌&&◌, ◌||◌, Option, none, some, List, [], ◌∷◌, ◌++◌, ltb, ◌==◌, if◌then◌else◌,
}
use pve_anti_detection.Msr.{MsrBitmapRange, MsrFilter}

-- `-EINVAL`, `-ENOMEM`, and what `memdup_user` reports.
pub data Errno : Type 0 where
  einval enomem efault : Errno

-- `struct kvm_msr_filter_range` and `struct kvm_msr_filter`. The pointer to the bitmap is the bits that
-- `memdup_user` finds there, or none where it fails.
pub record KvmMsrFilterRange : Type 0 where
  pub flags : ℕ
  pub nmsrs : ℕ
  pub base : ℕ
  pub bitmap : Option (ℕ → Bool)

pub record KvmMsrFilter : Type 0 where
  pub flags : ℕ
  pub ranges : List KvmMsrFilterRange

pub record Abi : Type 0 where
  -- `flags & ~KVM_MSR_FILTER_VALID_MASK`, `flags & KVM_MSR_FILTER_DEFAULT_DENY` and
  -- `flags & ~KVM_MSR_FILTER_RANGE_VALID_MASK`
  pub has_unknown_flags : ℕ → Bool
  pub has_default_deny : ℕ → Bool
  pub has_unknown_range_flags : ℕ → Bool
  -- `BITS_TO_LONGS(nmsrs) * sizeof(long)` and `KVM_MSR_FILTER_MAX_BITMAP_SIZE`
  pub bitmap_size : ℕ → ℕ
  pub max_bitmap_size : ℕ
  -- whether `kzalloc` finds memory
  pub has_memory : Bool

-- `kvm->arch.msr_filter`, and whether the vCPUs were told that it changed.
pub record Kvm : Type 0 where
  pub msr_filter : Option MsrFilter
  pub filter_changed : Bool

-- `empty &= !filter->ranges[i].nmsrs`
unfoldable pub is_empty : List KvmMsrFilterRange → Bool
is_empty [] = true
is_empty (r ∷ rs) = r.nmsrs == 0 && is_empty rs

module _ (abi : Abi) where
  unfoldable pub kvm_alloc_msr_filter : Bool → Option MsrFilter
  kvm_alloc_msr_filter default_allow =
      if abi.has_memory then some (record { default_allow = default_allow; ranges = [] }) else none

  -- The tests of a range before its bitmap is copied.
  unfoldable pub is_refused : KvmMsrFilterRange → Bool
  is_refused r =
      abi.has_unknown_range_flags r.flags
      || r.flags == 0
      || abi.bitmap_size r.nmsrs == 0
      || ltb abi.max_bitmap_size (abi.bitmap_size r.nmsrs)

  -- The filter with the range, or the error.
  unfoldable pub kvm_add_msr_filter : MsrFilter → KvmMsrFilterRange → MsrFilter × Option Errno
  unfolding is_refused
  kvm_add_msr_filter f r =
      if r.nmsrs == 0
      then (f, none)
      else (if is_refused r then (f, some einval) else elim r.bitmap [
        | none ↦ (f, some efault)
        | some bits ↦
            let added : MsrBitmapRange = record {
              base = r.base;
              nmsrs = r.nmsrs;
              flags = r.flags;
              bitmap = bits;
            } in
            (record f { ranges = f.ranges ++ (added ∷ []) }, none)
      ])

  -- The loop over the ranges ends at the first error.
  unfoldable pub add_ranges : MsrFilter → List KvmMsrFilterRange → MsrFilter × Option Errno
  unfolding kvm_add_msr_filter
  add_ranges f [] = (f, none)
  add_ranges f (r ∷ rs) =
      let (f', err) = kvm_add_msr_filter f r in
      elim err [ none ↦ add_ranges f' rs | some e ↦ (f', some e) ]

  unfoldable pub kvm_vm_ioctl_set_msr_filter : Kvm → KvmMsrFilter → Kvm × Option Errno
  unfolding is_empty kvm_alloc_msr_filter add_ranges
  kvm_vm_ioctl_set_msr_filter kvm filter =
      let default_allow = not (abi.has_default_deny filter.flags) in
      if abi.has_unknown_flags filter.flags
      then (kvm, some einval)
      else (if is_empty filter.ranges && not default_allow
          then (kvm, some einval)
          else elim (kvm_alloc_msr_filter default_allow) [
            | none ↦ (kvm, some enomem)
            | some fresh ↦
                let (f, err) = add_ranges fresh filter.ranges in
                elim err [
                  | some e ↦ (kvm, some e)
                  | none ↦ (record kvm { msr_filter = some f; filter_changed = true }, none)
                ]
          ])
