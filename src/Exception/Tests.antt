-- ===== src/Exception/Tests.antt =====
-- The theorems on the exceptions at concrete vCPUs.
use pve_anti_detection.Prelude.{
  inl, inr, ◌≤◌, ◌≡◌, refl, true, false, ◌&&◌, ◌||◌, some, length, ltb, leb, ◌==◌,
}
use pve_anti_detection.Exception.{db, bp, of, gp, pf, zeros, QueuedException, Vcpu, Backend}
use pve_anti_detection.Exception.Raise.{with_error, kvm_multiple_exception, kvm_queue_exception_e}
use pve_anti_detection.Exception.Raise.Escalation.{
  protection, held, Becomes, view, kvm_multiple_exception-Becomes,
}
use pve_anti_detection.Exception.Inject.{allowed, blocked, Events, kvm_check_and_inject_events}
use pve_anti_detection.Exception.Inject.Single.{
  IsOrderly, IsEvents, turn_of, kvm_check_and_inject_events-handed,
}
use pve_anti_detection.Exception.Inject.Settled.{IsSettled, kvm_check_and_inject_events-pending}
use pve_anti_detection.Exception.UserSpace.{
  ReportedException, get_exception, adjust_events, set_exception,
}
use pve_anti_detection.Exception.UserSpace.RoundTrip.{set_exception-get_exception}
use pve_anti_detection.Exception.Lifecycle.{
  IsIdle, queued_e, injected, start, later, Reach-IsOrderly,
}

-- No exception leaves a nested guest; the low bits of `DR6` are trap bits, the next are active low.
abbrev backend : Backend
backend = record {
  is_exception_vmexit = λ vector code. false;
  is_trap_bit = λ i. ltb i 4;
  is_active_low = λ i. leb 4 i && ltb i 12;
  is_beyond = λ vector. false;
  is_soft = λ vector. elim vector [ bp ↦ true | of ↦ true | _ ↦ false ];
}

-- Every event is allowed, and an interrupt always waits.
abbrev events : Events
events = record {
  nested_triple_fault = λ v. v;
  nested_check_events = λ v. (v, blocked);
  is_exception_pending = λ v. v.exception.pending || v.exception_vmexit.pending || v.triple_fault;
  event_needs_reinjection = λ v. v.exception.injected || v.nmi_injected || v.interrupt_injected;
  inject_exception = λ v. v;
  smi_allowed = λ v. allowed;
  nmi_allowed = λ v. allowed;
  interrupt_allowed = λ v. allowed;
  enter_smm = λ v. v;
  has_injectable_intr = λ v. true;
  get_interrupt = λ v. (v, some 48);
  queue_interrupt = λ v number. record v { interrupt_injected = true };
}

events-IsEvents : IsEvents events
events-IsEvents = record {
  is_exception_pending_lem = λ v p. rw p refl;
  event_needs_reinjection_lem = λ v p. p;
  inject_exception_lem = λ v. (refl, refl);
  inject_exception-vector_lem = λ v. refl;
  nested_triple_fault_lem = λ v o. o;
  nested_check_events_lem = λ v o. o;
  enter_smm_lem = λ v. refl;
  get_interrupt_lem = λ v. refl;
  queue_interrupt_lem = λ v n. refl;
}

abbrev empty_slot : QueuedException
empty_slot = record {
  pending = false;
  injected = false;
  vector = gp;
  has_error_code = false;
  error_code = 0;
  has_payload = false;
  payload = zeros;
}

abbrev idle : Vcpu
idle = record {
  exception = empty_slot;
  exception_vmexit = empty_slot;
  exception_from_userspace = false;
  is_guest_mode = false;
  is_protmode = true;
  event = false;
  triple_fault = false;
  dr6 = zeros;
  dr7_gd = false;
  cr2 = zeros;
  rflags_rf = false;
  pf_guest = 0;
  nmi_requested = true;
  nmi_queued = 3;
  nmi_pending = 1;
  nmi_injected = false;
  interrupt_injected = false;
  smi_pending = false;
  smi_count = 0;
  blocks_irq = false;
}

-- A page fault waits.
abbrev faulting : Vcpu
faulting = record idle {
  exception = record empty_slot {
    pending = true;
    vector = pf;
    has_error_code = true;
    error_code = 2;
  };
}

-- A single step was trapped.
abbrev stepped : QueuedException
stepped = record empty_slot {
  pending = true;
  vector = db;
  has_payload = true;
  payload = λ i. i == 14;
}

clear : Vcpu → Vcpu
clear v = record v { exception = empty_slot }

clear-IsIdle : (v : Vcpu) → IsIdle (clear v)
unfolding clear
clear-IsIdle v = (refl, refl)

kvm_multiple_exception-Becomes_example :
    Becomes (held pf) gp (view (kvm_multiple_exception backend faulting (with_error gp 0)))
kvm_multiple_exception-Becomes_example =
    kvm_multiple_exception-Becomes backend faulting (with_error gp 0) (λ nr code. refl) refl
      (λ newer. elim newer [ inl e ↦ cc | inr e ↦ cc ])
      (λ newer. elim newer [ inl e ↦ cc | inr e ↦ cc ]) (λ double_fault. inl protection)

kvm_check_and_inject_events-handed_example :
    length (turn_of (kvm_check_and_inject_events backend events faulting)).handed ≤ 1
kvm_check_and_inject_events-handed_example =
    kvm_check_and_inject_events-handed backend events faulting events-IsEvents refl

kvm_check_and_inject_events-pending_example :
    IsSettled faulting (turn_of (kvm_check_and_inject_events backend events faulting))
kvm_check_and_inject_events-pending_example =
    kvm_check_and_inject_events-pending backend events faulting events-IsEvents refl

set_exception-get_exception_example :
    (ev : ReportedException) × (adjust_events backend true true
        (get_exception backend true faulting).1
      ≡ some ev)
    × ((set_exception backend idle ev).exception ≡ faulting.exception)
set_exception-get_exception_example =
    set_exception-get_exception backend faulting idle refl refl refl refl refl

Reach-IsOrderly_example :
    IsOrderly
      (turn_of
        (kvm_check_and_inject_events backend events (kvm_queue_exception_e backend idle pf 2))).vcpu
Reach-IsOrderly_example = Reach-IsOrderly backend events clear events-IsEvents clear-IsIdle (
    later (later (start idle (refl, refl)) (queued_e idle pf 2))
      (injected (kvm_queue_exception_e backend idle pf 2)))
