-- ===== src/Exception/Raise.antt =====
-- x86.c: the queueing of an exception (lines 646 to 755, 779 to 794 and 824 to 855):
-- `kvm_multiple_exception`, and the functions that call it.
pub mod Paths
pub mod Escalation
use pve_anti_detection.Prelude.{
  ℕ, ◌+◌, Bool, true, false, not, ◌&&◌, ◌||◌, ◌==◌, leb, if◌then◌else◌,
}
use pve_anti_detection.Exception.{
  Vector, db, nmi, ud, df, gp, pf, Class, excpt_benign, excpt_contributory, excpt_pf, Word, zeros,
  QueuedException, Vcpu, Backend, exception_class, kvm_deliver_exception_payload,
  kvm_queue_exception_vmexit,
}

-- The arguments of `kvm_multiple_exception`.
pub record Raised : Type 0 where
  pub nr : Vector
  pub has_error : Bool
  pub error_code : ℕ
  pub has_payload : Bool
  pub payload : Word
  pub reinject : Bool

abbrev pub is_df : Vector → Bool
is_df v = elim v [ df ↦ true | _ ↦ false ]

-- The classes of an exception and a later one that make a double fault together.
unfoldable pub is_double : Class → Class → Bool
is_double excpt_contributory excpt_contributory = true
is_double excpt_pf excpt_contributory = true
is_double excpt_pf excpt_pf = true
is_double _ _ = false

-- What `kvm_queue_exception_e` asks for.
abbrev pub with_error : Vector → ℕ → Raised
with_error nr error_code = record {
  nr = nr;
  has_error = true;
  error_code = error_code;
  has_payload = false;
  payload = zeros;
  reinject = false;
}

-- The exception as it is put into the slot.
abbrev pub queued_as : Vcpu → Raised → QueuedException
queued_as v x = record {
  pending = if x.reinject then v.exception.pending else true;
  injected = x.reinject;
  vector = x.nr;
  has_error_code = x.has_error;
  error_code = x.error_code;
  has_payload = if x.reinject then false else x.has_payload;
  payload = if x.reinject && x.has_payload then zeros else x.payload;
}

-- The slot emptied for a double fault.
abbrev pub cleared : Vcpu → Vcpu
cleared v = record v { exception = record v.exception { injected = false; pending = false } }

module _ (b : Backend) where
  -- The code at the label `queue`.
  unfoldable pub queue : Vcpu → Raised → Vcpu
  queue v x =
      let queued = record v { exception = queued_as v x } in
      if not v.is_guest_mode
      then (let after = kvm_deliver_exception_payload b queued (queued_as v x) in
          record after.0 { exception = after.1 })
      else queued

  -- The code at the comment `to check exception`; `again` is the call for a double fault.
  unfoldable pub check_exception : (Vcpu → Vcpu) → Vcpu → Raised → Vcpu
  unfolding queue is_double
  check_exception again v x =
      let prev_nr = v.exception.vector in
      if is_df prev_nr
      then record v { triple_fault = true }
      else (if is_double (exception_class prev_nr) (exception_class x.nr)
          then again (cleared v)
          else queue v x)

  -- The body of `kvm_multiple_exception`.
  unfoldable pub raise : (Vcpu → Vcpu) → Vcpu → Raised → Vcpu
  unfolding check_exception
  raise again v x =
      let w = record v { event = true } in
      if not x.reinject && v.is_guest_mode && b.is_exception_vmexit x.nr x.error_code
      then kvm_queue_exception_vmexit w x.nr x.has_error x.error_code x.has_payload x.payload
      else (if not v.exception.pending && not v.exception.injected
          then queue w x
          else check_exception again w x)

  -- The call for a double fault finds an empty slot and calls no further.
  unfoldable pub kvm_multiple_exception : Vcpu → Raised → Vcpu
  unfolding raise
  kvm_multiple_exception = raise (λ w. raise (λ u. u) w (with_error df 0))

  unfoldable pub kvm_queue_exception : Vcpu → Vector → Vcpu
  kvm_queue_exception v nr =
      kvm_multiple_exception v (record (with_error nr 0) { has_error = false })

  unfoldable pub kvm_requeue_exception : Vcpu → Vector → Vcpu
  kvm_requeue_exception v nr =
      kvm_multiple_exception v (record (with_error nr 0) { has_error = false; reinject = true })

  unfoldable pub kvm_queue_exception_p : Vcpu → Vector → Word → Vcpu
  kvm_queue_exception_p v nr payload =
      kvm_multiple_exception v
        (record (with_error nr 0) { has_error = false; has_payload = true; payload = payload })

  unfoldable pub kvm_queue_exception_e_p : Vcpu → Vector → ℕ → Word → Vcpu
  kvm_queue_exception_e_p v nr error_code payload =
      kvm_multiple_exception v
        (record (with_error nr error_code) { has_payload = true; payload = payload })

  unfoldable pub kvm_queue_exception_e : Vcpu → Vector → ℕ → Vcpu
  kvm_queue_exception_e v nr error_code = kvm_multiple_exception v (with_error nr error_code)

  unfoldable pub kvm_requeue_exception_e : Vcpu → Vector → ℕ → Vcpu
  kvm_requeue_exception_e v nr error_code =
      kvm_multiple_exception v (record (with_error nr error_code) { reinject = true })

  -- The fault's error code, its address, and whether it is an asynchronous one.
  unfoldable pub kvm_inject_page_fault : Vcpu → ℕ → Word → Bool → Vcpu
  unfolding kvm_queue_exception_e_p
  kvm_inject_page_fault v error_code address async_page_fault =
      let w = record v { pf_guest = v.pf_guest + 1 } in
      if v.is_guest_mode && async_page_fault
      then kvm_queue_exception_vmexit w pf true error_code true address
      else kvm_queue_exception_e_p w pf error_code address

  -- `cpl` is what the backend's `get_cpl` answers.
  unfoldable pub kvm_require_cpl : Vcpu → ℕ → ℕ → Vcpu × Bool
  unfolding kvm_queue_exception_e
  kvm_require_cpl v cpl required_cpl =
      if leb cpl required_cpl then (v, true) else (kvm_queue_exception_e v gp 0, false)

  -- `is_cr4_de` is the bit `X86_CR4_DE` of the guest's `CR4`.
  unfoldable pub kvm_require_dr : Vcpu → Bool → ℕ → Vcpu × Bool
  unfolding kvm_queue_exception
  kvm_require_dr v is_cr4_de dr =
      if (not (dr == 4) && not (dr == 5)) || not is_cr4_de
      then (v, true)
      else (kvm_queue_exception v ud, false)
