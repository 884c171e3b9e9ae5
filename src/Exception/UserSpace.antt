-- ===== src/Exception/UserSpace.antt =====
-- x86.c: the exception of a vCPU as user space reads and writes it: its part of
-- `kvm_vcpu_ioctl_x86_get_vcpu_events` (lines 5360 to 5402) and of `kvm_vcpu_ioctl_x86_set_vcpu_events` (lines
-- 5445 to 5487), its conversion in `kvm_arch_vcpu_ioctl_run` (lines 11427 to 11440), and `__set_regs` (lines
-- 11548 to 11551).
pub mod RoundTrip
use pve_anti_detection.Prelude.{
  ℕ, Bool, true, false, not, ◌&&◌, ◌||◌, Option, none, some, if◌then◌else◌,
}
use pve_anti_detection.Exception.{
  Vector, nmi, Word, QueuedException, Vcpu, Backend, kvm_deliver_exception_payload,
  kvm_queue_exception_vmexit,
}

-- The exception's fields of `struct kvm_vcpu_events`.
pub record ReportedException : Type 0 where
  pub injected : Bool
  pub pending : Bool
  pub nr : Vector
  pub has_error_code : Bool
  pub error_code : ℕ
  pub has_payload : Bool
  pub payload : Word

module _ (b : Backend) where
  -- `ex`, the exception that is reported; `payload_enabled` is the machine's `exception_payload_enabled`.
  unfoldable pub report : Bool → QueuedException → ReportedException
  report payload_enabled ex = record {
    injected =
        not (b.is_soft ex.vector)
        && (if payload_enabled then ex.injected else ex.injected || ex.pending);
    pending = not (b.is_soft ex.vector) && ex.pending;
    nr = ex.vector;
    has_error_code = ex.has_error_code;
    error_code = ex.error_code;
    has_payload = ex.has_payload;
    payload = ex.payload;
  }

  abbrev pub leaves_guest : Vcpu → Bool
  leaves_guest v = v.exception_vmexit.pending && not v.exception.pending && not v.exception.injected

  -- What is read from one of the two slots: the vCPU, the slot, and what is reported.
  unfoldable pub read_slot :
      Bool → Vcpu → QueuedException → Vcpu × QueuedException × ReportedException
  read_slot payload_enabled v ex =
      let (w, ex') =
        if not payload_enabled && ex.pending && ex.has_payload
        then kvm_deliver_exception_payload b v ex
        else (v, ex) in
      (w, ex', report payload_enabled ex')

  unfoldable pub get_exception : Bool → Vcpu → Vcpu × ReportedException
  get_exception payload_enabled v =
      let (w, ex, ev) = read_slot payload_enabled v v.exception in
      let (w', ex', ev') = read_slot payload_enabled v v.exception_vmexit in
      if leaves_guest v
      then (record w' { exception_vmexit = ex' }, ev')
      else (record w { exception = ex }, ev)

  abbrev pub is_nmi : Vector → Bool
  is_nmi vector = elim vector [ nmi ↦ true | _ ↦ false ]

  -- The exception that user space states, adjusted, or none for an error; `valid_payload` is the flag
  -- `KVM_VCPUEVENT_VALID_PAYLOAD`.
  unfoldable pub adjust_events : Bool → Bool → ReportedException → Option ReportedException
  adjust_events payload_enabled valid_payload ev =
      let adjusted =
        if valid_payload
        then (if ev.pending
            then record ev { injected = false }
            else record ev { has_payload = false })
        else record ev { pending = false; has_payload = false } in
      if valid_payload && not payload_enabled
      then none
      else (if (adjusted.injected || adjusted.pending) && (b.is_beyond ev.nr || is_nmi ev.nr)
          then none
          else some adjusted)

  unfoldable pub set_exception : Vcpu → ReportedException → Vcpu
  set_exception v ev = record v {
    exception_from_userspace = ev.pending;
    exception_vmexit = record v.exception_vmexit { pending = false };
    exception = record {
      injected = ev.injected;
      pending = ev.pending;
      vector = ev.nr;
      has_error_code = ev.has_error_code;
      error_code = ev.error_code;
      has_payload = ev.has_payload;
      payload = ev.payload;
    };
  }

  -- A pending exception of user space is converted, where it is to leave the nested guest.
  unfoldable pub convert_exception : Vcpu → Vcpu
  convert_exception v =
      let ex = v.exception in
      let left =
        kvm_queue_exception_vmexit v ex.vector ex.has_error_code ex.error_code ex.has_payload
          ex.payload in
      if v.exception_from_userspace
        && v.is_guest_mode
        && b.is_exception_vmexit ex.vector ex.error_code
      then record left {
        exception = record ex { injected = false; pending = false };
        exception_from_userspace = false;
      }
      else record v { exception_from_userspace = false }

-- The part of `__set_regs`.
unfoldable pub drop_pending : Vcpu → Vcpu
drop_pending v = record v {
  exception = record v.exception { pending = false };
  exception_vmexit = record v.exception_vmexit { pending = false };
  event = true;
}
