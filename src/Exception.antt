-- ===== src/Exception.antt =====
-- x86.c: the exceptions of a vCPU (lines 520 to 638): their classes and types, the slots that hold one on its
-- way to the guest, the delivery of a payload, and the exception that is to leave a nested guest.
--
-- Vectors are constructors: the numbers of the kernel's headers are not needed. Words that are only taken
-- apart by masks are functions from the number of a bit. The backends' functions, and the kernel's that
-- are not in the repository, are the parameter `Backend`. What is only traced or warned of is left out.
pub mod Raise
pub mod Payload
pub mod Inject
pub mod UserSpace
pub mod Lifecycle
mod Tests
use pve_anti_detection.Prelude.{
  ℕ, Bool, true, false, not, ◌&&◌, ◌||◌, Option, none, some, ◌==◌, if◌then◌else◌, differ,
}

-- `other` is any vector without a name below.
pub data Vector : Type 0 where
  de db nmi bp of ud df ts np ss gp pf mc : Vector
  other : ℕ → Vector

pub data Class : Type 0 where
  excpt_benign excpt_contributory excpt_pf : Class

pub data Kind : Type 0 where
  excpt_fault excpt_trap excpt_abort excpt_interrupt excpt_db : Kind

abbrev pub Word : Type 0
Word = ℕ → Bool

-- The word without a bit.
abbrev pub zeros : Word
zeros bit = false

-- `struct kvm_queued_exception`
pub record QueuedException : Type 0 where
  pub pending : Bool
  pub injected : Bool
  pub vector : Vector
  pub has_error_code : Bool
  pub error_code : ℕ
  pub has_payload : Bool
  pub payload : Word

-- The fields of a vCPU that this code reads and writes; `event`, `triple_fault` and
-- `nmi_requested` are requests, and
-- `dr7_gd` and `rflags_rf` single bits of registers.
pub record Vcpu : Type 0 where
  pub exception : QueuedException
  pub exception_vmexit : QueuedException
  pub exception_from_userspace : Bool
  pub is_guest_mode : Bool
  pub is_protmode : Bool
  pub event : Bool
  pub triple_fault : Bool
  pub dr6 : Word
  pub dr7_gd : Bool
  pub cr2 : Word
  pub rflags_rf : Bool
  pub pf_guest : ℕ
  pub nmi_requested : Bool
  pub nmi_queued : ℕ
  pub nmi_pending : ℕ
  pub nmi_injected : Bool
  pub interrupt_injected : Bool
  pub smi_pending : Bool
  pub smi_count : ℕ
  pub blocks_irq : Bool

pub record Backend : Type 0 where
  -- `is_exception_vmexit` of the nested backend
  pub is_exception_vmexit : Vector → ℕ → Bool
  -- the bits of `DR_TRAP_BITS` and of `DR6_ACTIVE_LOW`
  pub is_trap_bit : Word
  pub is_active_low : Word
  -- `vector > 31`
  pub is_beyond : Vector → Bool
  -- `kvm_exception_is_soft`
  pub is_soft : Vector → Bool

unfoldable pub exception_class : Vector → Class
exception_class v = elim v [
  | pf ↦ excpt_pf
  | de ↦ excpt_contributory
  | ts ↦ excpt_contributory
  | np ↦ excpt_contributory
  | ss ↦ excpt_contributory
  | gp ↦ excpt_contributory
  | _ ↦ excpt_benign
]

-- Bit `i` of `DR6` with the payload of a debug exception.
abbrev pub merged_dr6 : Backend → Word → Word → Word
merged_dr6 b dr6 payload i =
    let cleared = dr6 i && not (b.is_trap_bit i) in
    let set = (cleared || b.is_active_low i) || payload i in
    let flipped = differ set (payload i && b.is_active_low i) in flipped && not (i == 12)

module _ (b : Backend) where
  unfoldable pub exception_type : Vector → Kind
  exception_type v = if b.is_beyond v then excpt_interrupt else elim v [
    | nmi ↦ excpt_interrupt
    | db ↦ excpt_db
    | bp ↦ excpt_trap
    | of ↦ excpt_trap
    | df ↦ excpt_abort
    | mc ↦ excpt_abort
    | _ ↦ excpt_fault
  ]

  -- The registers that the payload of the exception changes.
  unfoldable pub payload_registers : Vcpu → QueuedException → Vcpu
  payload_registers v ex = elim ex.vector [
    | db ↦ record v { dr6 = merged_dr6 b v.dr6 ex.payload }
    | pf ↦ record v { cr2 = ex.payload }
    | _ ↦ v
  ]

  -- The vCPU, and the exception without its payload.
  unfoldable pub kvm_deliver_exception_payload : Vcpu → QueuedException → Vcpu × QueuedException
  unfolding payload_registers
  kvm_deliver_exception_payload v ex =
      if not ex.has_payload
      then (v, ex)
      else (payload_registers v ex, record ex { has_payload = false; payload = zeros })

-- The exception takes the slot of those that leave the nested guest.
unfoldable pub kvm_queue_exception_vmexit : Vcpu → Vector → Bool → ℕ → Bool → Word → Vcpu
kvm_queue_exception_vmexit v vector has_error_code error_code has_payload payload = record v {
  exception_vmexit = record {
    vector = vector;
    injected = false;
    pending = true;
    has_error_code = has_error_code;
    error_code = error_code;
    has_payload = has_payload;
    payload = payload;
  };
}
