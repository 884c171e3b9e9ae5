-- ===== src/GuestTsc/Page.antt =====
-- x86.c: the structure in guest memory that tells a guest the time (lines 3154 to 3206):
-- `kvm_setup_guest_pvclock`, as the sequence of its stores, which another vCPU of the guest may see
-- one by one.
--
-- The order in which `memcpy` stores the fields is a parameter. A page that is not active, or that
-- `kvm_gpc_refresh` cannot map, is left out by the caller.
pub mod Readers
pub mod Contents
use pve_anti_detection.Prelude.{
  ℕ, ◌+◌, ◌-◌, ◌*◌, ◌/◌, ◌%◌, ◌^◌, Bool, true, false, List, [], ◌∷◌, ◌++◌, map, ◌==◌, if◌then◌else◌,
  u32,
}

-- `struct pvclock_vcpu_time_info`, without its padding. The signed `tsc_shift` is a bit pattern.
pub record TimeInfo : Type 0 where
  pub version : ℕ
  pub tsc_timestamp : ℕ
  pub system_time : ℕ
  pub tsc_to_system_mul : ℕ
  pub tsc_shift : ℕ
  pub flags : ℕ

pub data Field : Type 0 where
  field_version field_tsc_timestamp field_system_time : Field
  field_tsc_to_system_mul field_tsc_shift field_flags : Field

abbrev pub load : TimeInfo → Field → ℕ
load p field_version = p.version
load p field_tsc_timestamp = p.tsc_timestamp
load p field_system_time = p.system_time
load p field_tsc_to_system_mul = p.tsc_to_system_mul
load p field_tsc_shift = p.tsc_shift
load p field_flags = p.flags

-- One store to the page.
pub record Write : Type 0 where
  pub field : Field
  pub value : ℕ

abbrev pub write : Field → ℕ → Write
write f x = record { field = f; value = x }

abbrev pub put : Field → ℕ → TimeInfo → TimeInfo
put field_version x p = record p { version = x }
put field_tsc_timestamp x p = record p { tsc_timestamp = x }
put field_system_time x p = record p { system_time = x }
put field_tsc_to_system_mul x p = record p { tsc_to_system_mul = x }
put field_tsc_shift x p = record p { tsc_shift = x }
put field_flags x p = record p { flags = x }

abbrev pub store : Write → TimeInfo → TimeInfo
store w p = put w.field w.value p

abbrev pub store_all : List Write → TimeInfo → TimeInfo
store_all [] p = p
store_all (w ∷ ws) p = store_all ws (store w p)

-- `x | 1`
abbrev pub or_one : ℕ → ℕ
or_one x = if x % 2 == 0 then x + 1 else x

-- `flags & PVCLOCK_GUEST_STOPPED`, the bit of weight 2, as a test
abbrev pub is_stopped : ℕ → Bool
is_stopped flags = flags / 2 % 2 == 1

-- `flags | PVCLOCK_GUEST_STOPPED`
abbrev pub set_stopped : ℕ → ℕ
set_stopped flags = if is_stopped flags then flags else flags + 2

-- `flags & ~PVCLOCK_TSC_STABLE_BIT`, the bit of weight 1
abbrev pub clear_stable : ℕ → ℕ
clear_stable flags = flags - flags % 2

-- The fields of `vcpu->arch` about the guest's clock.
pub record Clock : Type 0 where
  pub hv_clock : TimeInfo
  pub pvclock_set_guest_stopped_request : Bool
  pub hw_tsc_khz : ℕ

-- The flags that are published: those of the vCPU, and a mark of a stopped guest that the page has already
-- or that was requested.
unfoldable pub merged_flags : TimeInfo → Clock → ℕ
merged_flags page c =
    let kept = if is_stopped page.flags then set_stopped c.hv_clock.flags else c.hv_clock.flags in
    if c.pvclock_set_guest_stopped_request then set_stopped kept else kept

-- What is copied to the page: the vCPU's own structure, with an odd version.
unfoldable pub prepared : TimeInfo → Clock → TimeInfo
unfolding merged_flags
prepared page c = record c.hv_clock {
  version = or_one (u32 (page.version + 1));
  flags = merged_flags page c;
}

-- `memcpy`, field by field
unfoldable pub memcpy : List Field → TimeInfo → List Write
memcpy order info = map (λ f. write f (load info f)) order

-- The stores after the first one.
unfoldable pub remaining : List Field → TimeInfo → Bool → List Write
unfolding memcpy
remaining order info force_tsc_unstable =
    memcpy order info
    ++ ((if force_tsc_unstable then write field_flags (clear_stable info.flags) ∷ [] else [])
        ++ (write field_version (u32 (info.version + 1)) ∷ []))

-- The stores to the page, in their order, and the vCPU's clock afterwards.
unfoldable pub kvm_setup_guest_pvclock : List Field → TimeInfo → Clock → Bool → List Write × Clock
unfolding prepared remaining
kvm_setup_guest_pvclock order page c force_tsc_unstable =
    let info = prepared page c in
    (
      write field_version info.version ∷ remaining order info force_tsc_unstable,
      record c {
        hv_clock = record info { version = u32 (info.version + 1) };
        pvclock_set_guest_stopped_request = false;
      },
    )
