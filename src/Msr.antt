-- ===== src/Msr.antt =====
-- x86.c: the guest's accesses to model-specific registers: the filter that user space installs (lines
-- 1796 to 1836), reads and writes behind it (lines 325 to 340 and 1845 to 1979), and the emulation of
-- RDMSR and WRMSR with the project's changes (lines 2023 to 2145).
--
-- The vendor's operations, CPUID and the register numbers of the kernel's headers are the parameter
-- `Kernel`. A local variable of C that is not initialised is an argument of the function.
pub mod Filter
pub mod Install
pub mod Policy
pub mod Emulate
mod Tests
use pve_anti_detection.Prelude.{
  ℕ, ◌+◌, ◌-◌, ◌/◌, ◌*◌, ◌^◌, Bool, true, false, not, ◌&&◌, ◌||◌, Option, none, some, List, [], ◌∷◌,
  u32, leb, ltb, ◌==◌, bit_and, if◌then◌else◌,
}

-- An `int` that these functions return: 0, 1, `KVM_MSR_RET_INVALID`, `KVM_MSR_RET_FILTERED`, or a
-- negative error.
pub data MsrRet : Type 0 where
  success fault invalid filtered : MsrRet
  negative : ℕ → MsrRet

-- `!r`
abbrev pub is_success : MsrRet → Bool
is_success success = true
is_success _ = false

-- The cases of the `switch` of `__kvm_set_msr`.
pub data MsrClass : Type 0 where
  base_address sysenter_address tsc_aux other_msr : MsrClass

abbrev pub is_tsc_aux : MsrClass → Bool
is_tsc_aux tsc_aux = true
is_tsc_aux _ = false

pub data MsrReason : Type 0 where
  reason_unknown reason_filter reason_inval : MsrReason

pub data Completion : Type 0 where
  complete_fast_rdmsr complete_fast_msr_access : Completion

-- `struct msr_bitmap_range` and `struct kvm_x86_msr_filter`
pub record MsrBitmapRange : Type 0 where
  pub base : ℕ
  pub nmsrs : ℕ
  pub flags : ℕ
  pub bitmap : ℕ → Bool

pub record MsrFilter : Type 0 where
  pub default_allow : Bool
  pub ranges : List MsrBitmapRange

-- What user space is told of a failed access: `vcpu->run->msr` and the completion to call.
pub record MsrExit : Type 0 where
  pub is_write : Bool
  pub reason : MsrReason
  pub index : ℕ
  pub value : ℕ
  pub completion : Completion

-- The parts of a vCPU that this code reads and writes; the mask of the reasons that user space wants
-- is a function. `inner` is the rest.
pub record Vcpu (I : Type 0) : Type 0 where
  pub rax : ℕ
  pub rcx : ℕ
  pub rdx : ℕ
  pub filter : Option MsrFilter
  pub wants : MsrReason → Bool
  pub exit : Option MsrExit
  pub inner : I

pub record Kernel : Type 1 where
  pub Inner : Type 0
  pub classify : ℕ → MsrClass
  pub filter_read : ℕ
  pub filter_write : ℕ
  pub ignore_msrs : Bool
  pub supports_tsc_aux : Bool
  pub has_rdtscp : Inner → Bool
  pub has_rdpid : Inner → Bool
  pub is_intel : Inner → Bool
  pub is_noncanonical : ℕ → Inner → Bool
  pub canonical : ℕ → Inner → ℕ
  -- `kvm_x86_get_msr` and `kvm_x86_set_msr`: index, value, host-initiated
  pub get_msr : Inner → ℕ → Bool → MsrRet × ℕ × Inner
  pub set_msr : Inner → ℕ → ℕ → Bool → MsrRet × Inner
  -- `kvm_x86_complete_emulated_msr`
  pub complete : Vcpu Inner → MsrRet → Vcpu Inner × ℕ

-- The range covers the register, for this type of access.
unfoldable pub covers : MsrBitmapRange → ℕ → ℕ → Bool
covers r index type =
    leb r.base index && ltb index (u32 (r.base + r.nmsrs)) && not (bit_and r.flags type == 0)

-- The loop over the ranges ends at the first that covers the register.
unfoldable pub scan_ranges : Bool → List MsrBitmapRange → ℕ → ℕ → Bool
scan_ranges allowed [] index type = allowed
scan_ranges allowed (r ∷ rest) index type =
    if covers r index type then r.bitmap (index - r.base) else scan_ranges allowed rest index type

unfoldable pub kvm_msr_allowed : Option MsrFilter → ℕ → ℕ → Bool
unfolding scan_ranges
kvm_msr_allowed filter index type =
    if leb 0x800 index && leb index 0x8ff
    then true
    else elim filter [ none ↦ true | some f ↦ scan_ranges f.default_allow f.ranges index type ]

unfoldable pub kvm_msr_reason : MsrRet → MsrReason
kvm_msr_reason invalid = reason_unknown
kvm_msr_reason filtered = reason_filter
kvm_msr_reason _ = reason_inval

-- What the emulation of an instruction returns: 0 for an exit to user space, a negative error, or what
-- the vendor's completion returns.
pub data Verdict : Type 0 where
  to_user_space : Verdict
  error_code : MsrRet → Verdict
  from_vendor : ℕ → Verdict

-- `*data` after the vendor's read: written only on success.
abbrev pub stored : MsrRet → ℕ → ℕ → ℕ
stored success value old = value
stored _ value old = old

-- `*data` is cleared for a register that the vendor does not know.
abbrev pub cleared : MsrRet → ℕ → ℕ
cleared invalid value = 0
cleared _ value = value

-- The registers that the project shuts, and those that it opens.
abbrev pub force_read : ℕ → MsrRet → MsrRet
force_read ecx r =
    if ecx == 0x19c
    then success
    else (if ecx == 0x1a2
        then success
        else (if ecx == 0x1db then fault else (if ecx == 0x4b564d00 then fault else r)))

abbrev pub is_kept : ℕ → Bool
is_kept value = value == 0x4000 || value == 0x4001 || value == 0x4002 || value == 0x4003

-- What a write of IA32_DEBUGCTL that passed leaves in `data_1d9`.
abbrev pub shadow : ℕ → ℕ → ℕ
shadow value old =
    if value == 0x4000 || value == 0x4001
    then 0x4000
    else (if value == 0x4002 || value == 0x4003
        then 0x4002
        else (if value == 0x0 || value == 0x01
            then 0
            else (if value == 0x2 || value == 0x03 then 2 else old)))

module _ (k : Kernel) where
  open k use {Inner}

  -- Without RDTSCP and RDPID the guest cannot reach `MSR_TSC_AUX`.
  abbrev pub hides_tsc_aux : Inner → Bool → Bool
  hides_tsc_aux v host =
      not k.supports_tsc_aux || (not host && not (k.has_rdtscp v) && not (k.has_rdpid v))

  unfoldable pub set_msr_as : MsrClass → Inner → ℕ → ℕ → Bool → MsrRet × Inner
  set_msr_as base_address v index value host =
      if k.is_noncanonical value v then (fault, v) else k.set_msr v index value host
  set_msr_as sysenter_address v index value host = k.set_msr v index (k.canonical value v) host
  set_msr_as tsc_aux v index value host =
      if hides_tsc_aux v host
      then (fault, v)
      else (if k.is_intel v && not (value / 2 ^ 32 == 0)
          then (fault, v)
          else k.set_msr v index (u32 value) host)
  set_msr_as other_msr v index value host = k.set_msr v index value host

  -- `__kvm_set_msr` and `kvm_set_msr_ignored_check`
  unfoldable pub kvm_set_msr : Inner → ℕ → ℕ → Bool → MsrRet × Inner
  unfolding set_msr_as
  kvm_set_msr v index value host = set_msr_as (k.classify index) v index value host

  abbrev pub ignored : MsrRet → MsrRet
  ignored invalid = if k.ignore_msrs then success else invalid
  ignored success = success
  ignored fault = fault
  ignored filtered = filtered
  ignored (negative n) = negative n

  unfoldable pub kvm_set_msr_ignored_check : Inner → ℕ → ℕ → Bool → MsrRet × Inner
  unfolding kvm_set_msr
  kvm_set_msr_ignored_check v index value host =
      let (r, v') = kvm_set_msr v index value host in (ignored r, v')

  unfoldable pub kvm_set_msr_with_filter : Vcpu Inner → ℕ → ℕ → MsrRet × Vcpu Inner
  unfolding kvm_set_msr_ignored_check kvm_msr_allowed
  kvm_set_msr_with_filter v index value =
      let (r, inner') = kvm_set_msr_ignored_check v.inner index value false in
      if kvm_msr_allowed v.filter index k.filter_write
      then (r, record v { inner = inner' })
      else (filtered, v)

  unfoldable pub kvm_get_msr : Inner → ℕ → ℕ → Bool → MsrRet × ℕ × Inner
  kvm_get_msr v index old host =
      let (r, value, v') = k.get_msr v index host in
      if is_tsc_aux (k.classify index) && hides_tsc_aux v host
      then (fault, old, v)
      else (r, stored r value old, v')

  unfoldable pub kvm_get_msr_ignored_check : Inner → ℕ → ℕ → Bool → MsrRet × ℕ × Inner
  unfolding kvm_get_msr
  kvm_get_msr_ignored_check v index old host =
      let (r, value, v') = kvm_get_msr v index old host in (ignored r, cleared r value, v')

  unfoldable pub kvm_get_msr_with_filter : Vcpu Inner → ℕ → ℕ → MsrRet × ℕ × Vcpu Inner
  unfolding kvm_get_msr_ignored_check kvm_msr_allowed
  kvm_get_msr_with_filter v index old =
      let (r, value, inner') = kvm_get_msr_ignored_check v.inner index old false in
      if kvm_msr_allowed v.filter index k.filter_read
      then (r, value, record v { inner = inner' })
      else (filtered, old, v)

  -- `kvm_msr_user_space`: the exit is filled in where user space wants the reason.
  unfoldable pub kvm_msr_user_space :
      Vcpu Inner → Bool → ℕ → ℕ → Completion → MsrRet → Option (Vcpu Inner)
  unfolding kvm_msr_reason
  kvm_msr_user_space v is_write index value completion r =
      let why = kvm_msr_reason r in
      if v.wants why
      then some (record v {
        exit = some (record {
          is_write = is_write;
          reason = why;
          index = index;
          value = value;
          completion = completion;
        });
      })
      else none

  abbrev pub finish : Vcpu Inner × ℕ → ℕ → Vcpu Inner × ℕ × Verdict
  finish (v, n) data_1d9 = (v, data_1d9, from_vendor n)

  abbrev pub read_failed : Vcpu Inner → ℕ → ℕ → MsrRet → Vcpu Inner × ℕ × Verdict
  read_failed v data_1d9 ecx r = elim (kvm_msr_user_space v false ecx 0 complete_fast_rdmsr r) [
    | some v' ↦ (v', data_1d9, to_user_space)
    | none ↦ finish (k.complete v r) data_1d9
  ]

  -- `kvm_emulate_rdmsr`, with the static `data_1d9` and the value that the local `data` happens to
  -- hold at the start.
  unfoldable pub kvm_emulate_rdmsr : Vcpu Inner → ℕ → ℕ → Vcpu Inner × ℕ × Verdict
  unfolding kvm_get_msr_with_filter kvm_msr_user_space
  kvm_emulate_rdmsr v data_1d9 old =
      let ecx = u32 v.rcx in
      let (r, read, v') = kvm_get_msr_with_filter v ecx old in
      let value = if ecx == 0x1d9 then data_1d9 else read in
      if is_success (force_read ecx r)
      then finish
          (k.complete (record v' { rax = u32 value; rdx = u32 (value / 2 ^ 32) })
            (force_read ecx r))
          data_1d9
      else read_failed v' data_1d9 ecx (force_read ecx r)

  -- `kvm_read_edx_eax`
  abbrev pub edx_eax : Vcpu Inner → ℕ
  edx_eax v = u32 v.rax + 2 ^ 32 * u32 v.rdx

  -- The write itself, and its result: where IA32_DEBUGCTL is written with another value, the local `r`
  -- keeps what it happens to hold.
  unfoldable pub write_msr : Vcpu Inner → ℕ → ℕ → MsrRet → MsrRet × Vcpu Inner
  unfolding kvm_set_msr_with_filter
  write_msr v ecx value old =
      if ecx == 0x1d9
      then (if is_kept value then success else old, v)
      else kvm_set_msr_with_filter v ecx value

  -- A negative error goes to the caller; any other result to the vendor's completion.
  abbrev pub rejected : Vcpu Inner → ℕ → MsrRet → Vcpu Inner × ℕ × Verdict
  rejected v data_1d9 (negative n) = (v, data_1d9, error_code (negative n))
  rejected v data_1d9 r = finish (k.complete v r) data_1d9

  abbrev pub write_failed : Vcpu Inner → ℕ → ℕ → ℕ → MsrRet → Vcpu Inner × ℕ × Verdict
  write_failed v data_1d9 ecx value r =
      elim (kvm_msr_user_space v true ecx value complete_fast_msr_access r) [
        | some v' ↦ (v', data_1d9, to_user_space)
        | none ↦ rejected v data_1d9 r
      ]

  -- `kvm_emulate_wrmsr`, with the value that the local `r` happens to hold at the start.
  unfoldable pub kvm_emulate_wrmsr : Vcpu Inner → ℕ → MsrRet → Vcpu Inner × ℕ × Verdict
  unfolding write_msr kvm_msr_user_space
  kvm_emulate_wrmsr v data_1d9 old =
      let ecx = u32 v.rcx in
      let value = edx_eax v in
      let (r, v') = write_msr v ecx value old in
      if is_success r
      then finish (k.complete v' r) (if ecx == 0x1d9 then shadow value data_1d9 else data_1d9)
      else write_failed v' data_1d9 ecx value r
