-- ===== src/Exception/Lifecycle.antt =====
-- The exceptions of a vCPU over its life: in which order they are raised, injected, read and written does not matter.
use pve_anti_detection.Prelude.{
  ℕ, ◌+◌, ◌≡◌, inl, inr, refl, Bool, true, false, not, ◌&&◌, some, arith, Bool-cases, if_cases,
}
use pve_anti_detection.Exception.{
  Vector, df, Word, QueuedException, Vcpu, Backend, exception_class, kvm_queue_exception_vmexit,
}
use pve_anti_detection.Exception.Payload.{kvm_deliver_exception_payload-kept}
use pve_anti_detection.Exception.Raise.{
  Raised, is_df, is_double, with_error, cleared, queue, check_exception, raise,
  kvm_multiple_exception, kvm_queue_exception, kvm_queue_exception_e, kvm_queue_exception_p,
  kvm_requeue_exception, kvm_requeue_exception_e, kvm_queue_exception_e_p, kvm_inject_page_fault,
}
use pve_anti_detection.Exception.Raise.Paths.{nested, queue-exception}
use pve_anti_detection.Exception.Inject.{
  Events, kvm_check_and_inject_events, kvm_inject_nmi, process_nmi,
}
use pve_anti_detection.Exception.Inject.Single.{IsOrderly, IsEvents, turn_of}
use pve_anti_detection.Exception.Inject.Settled.{kvm_check_and_inject_events-IsOrderly}
use pve_anti_detection.Exception.UserSpace.{
  ReportedException, leaves_guest, read_slot, get_exception, adjust_events, set_exception,
  convert_exception, drop_pending,
}

-- A vCPU without an exception.
abbrev pub IsIdle : Vcpu → Type 0
IsIdle v = (v.exception.pending ≡ false) × (v.exception.injected ≡ false)

-- What can happen to a vCPU. Before an exception is injected again, `clear`, the kernel's
-- `kvm_clear_exception_queue`, is called.
pub data Step (b : Backend) (e : Events) (clear : Vcpu → Vcpu) : Vcpu → Vcpu → Type 0 where
  queued : (v : Vcpu) (nr : Vector) → Step b e clear v (kvm_queue_exception b v nr)
  queued_e :
      (v : Vcpu) (nr : Vector) (error_code : ℕ)
      → Step b e clear v (kvm_queue_exception_e b v nr error_code)
  queued_p :
      (v : Vcpu) (nr : Vector) (payload : Word)
      → Step b e clear v (kvm_queue_exception_p b v nr payload)
  requeued : (v : Vcpu) (nr : Vector) → Step b e clear v (kvm_requeue_exception b (clear v) nr)
  requeued_e :
      (v : Vcpu) (nr : Vector) (error_code : ℕ)
      → Step b e clear v (kvm_requeue_exception_e b (clear v) nr error_code)
  page_fault :
      (v : Vcpu) (error_code : ℕ) (address : Word) (async_page_fault : Bool)
      → Step b e clear v (kvm_inject_page_fault b v error_code address async_page_fault)
  injected : (v : Vcpu) → Step b e clear v (turn_of (kvm_check_and_inject_events b e v)).vcpu
  interrupted : (v : Vcpu) → Step b e clear v (kvm_inject_nmi v)
  processed :
      (v : Vcpu) (masked vnmi_pending takes_vnmi : Bool)
      → Step b e clear v (process_nmi v masked vnmi_pending takes_vnmi)
  got : (v : Vcpu) (enabled : Bool) → Step b e clear v (get_exception b enabled v).0
  set :
      (v : Vcpu) (enabled valid : Bool) (ev ev' : ReportedException)
      → adjust_events b enabled valid ev ≡ some ev'
      → Step b e clear v (set_exception b v ev')
  converted : (v : Vcpu) → Step b e clear v (convert_exception b v)
  dropped : (v : Vcpu) → Step b e clear v (drop_pending v)

pub data Reach (b : Backend) (e : Events) (clear : Vcpu → Vcpu) : Vcpu → Type 0 where
  start : (v : Vcpu) → IsIdle v → Reach b e clear v
  later : {v w : Vcpu} → Reach b e clear v → Step b e clear v w → Reach b e clear w

-- The exception is raised for the first time, or none is pending.
abbrev IsFresh : Vcpu → Raised → Type 0
IsFresh v x = x.reinject && v.exception.pending ≡ false

module _ (b : Backend) where
  queue-IsOrderly : (v : Vcpu) (x : Raised) → IsFresh v x → IsOrderly (queue b v x)
  queue-IsOrderly v x fresh =
      let (is_pending, is_injected, _, _, _) = queue-exception b v x in
      elim (Bool-cases x.reinject) [ inl r ↦ ground arith | inr r ↦ ground arith ]

  check_exception-IsOrderly :
      (again : Vcpu → Vcpu) (v : Vcpu) (x : Raised)
      → ((w : Vcpu) → IsOrderly (again (cleared w)))
      → IsFresh v x
      → IsOrderly v
      → IsOrderly (check_exception b again v x)
  unfolding check_exception
  check_exception-IsOrderly again v x nested_is fresh orderly =
      if_cases IsOrderly (is_df v.exception.vector) _ _ (λ d. orderly)
        (λ other.
          if_cases IsOrderly (is_double (exception_class v.exception.vector) (exception_class x.nr))
            _ _ (λ two. nested_is v) (λ one. queue-IsOrderly v x fresh))

  raise-IsOrderly :
      (again : Vcpu → Vcpu) (v : Vcpu) (x : Raised)
      → ((w : Vcpu) → IsOrderly (again (cleared w)))
      → IsFresh v x
      → IsOrderly v
      → IsOrderly (raise b again v x)
  unfolding raise kvm_queue_exception_vmexit
  raise-IsOrderly again v x nested_is fresh orderly =
      let w = record v { event = true } in
      if_cases IsOrderly
        (not x.reinject && v.is_guest_mode && b.is_exception_vmexit x.nr x.error_code) _ _
        (λ leaves. orderly)
        (λ stays.
          if_cases IsOrderly (not v.exception.pending && not v.exception.injected) _ _
            (λ none_yet. queue-IsOrderly w x fresh)
            (λ one. check_exception-IsOrderly again w x nested_is fresh orderly))

  kvm_multiple_exception-IsOrderly :
      (v : Vcpu) (x : Raised) → IsFresh v x → IsOrderly v → IsOrderly (kvm_multiple_exception b v x)
  unfolding kvm_multiple_exception
  kvm_multiple_exception-IsOrderly v x =
      raise-IsOrderly (nested b) v x
        (λ w. raise-IsOrderly (λ u. u) (cleared w) (with_error df 0) (λ u. refl) refl refl)

  kvm_inject_page_fault-IsOrderly :
      (v : Vcpu) (error_code : ℕ) (address : Word) (async_page_fault : Bool)
      → IsOrderly v
      → IsOrderly (kvm_inject_page_fault b v error_code address async_page_fault)
  unfolding kvm_inject_page_fault kvm_queue_exception_vmexit kvm_queue_exception_e_p
  kvm_inject_page_fault-IsOrderly v error_code address async_page_fault orderly =
      if_cases IsOrderly (v.is_guest_mode && async_page_fault) _ _ (λ leaves. orderly)
        (λ stays.
          kvm_multiple_exception-IsOrderly (record v { pf_guest = v.pf_guest + 1 }) _ refl orderly)

  read_slot-kept :
      (enabled : Bool) (v : Vcpu) (ex : QueuedException)
      → let after = read_slot b enabled v ex in
        (after.0.exception ≡ v.exception)
        × (after.1.pending ≡ ex.pending)
        × (after.1.injected ≡ ex.injected)
  unfolding read_slot
  read_slot-kept enabled v ex =
      let (_, _, same, is_pending, is_injected, _) = kvm_deliver_exception_payload-kept b v ex in
      if_cases {A = Vcpu × QueuedException}
        (λ r.
          (r.0.exception ≡ v.exception) × (r.1.pending ≡ ex.pending) × (r.1.injected ≡ ex.injected))
        (not enabled && ex.pending && ex.has_payload) _ _
        (λ delivers. (same, is_pending, is_injected)) (λ keeps. (refl, refl, refl))

  get_exception-IsOrderly :
      (v : Vcpu) (enabled : Bool) → IsOrderly v → IsOrderly (get_exception b enabled v).0
  unfolding get_exception
  get_exception-IsOrderly v enabled orderly =
      let (same, _, _) = read_slot-kept enabled v v.exception_vmexit in
      let (_, is_pending, is_injected) = read_slot-kept enabled v v.exception in
      if_cases {A = Vcpu × ReportedException} (λ r. IsOrderly r.0) (leaves_guest b v) _ _
        (λ leaves. rw same orderly) (λ stays. rw (is_pending, is_injected) orderly)

  adjust_events-IsOrderly :
      (enabled valid : Bool) (ev ev' : ReportedException)
      → adjust_events b enabled valid ev ≡ some ev'
      → ev'.pending && ev'.injected ≡ false
  unfolding adjust_events
  adjust_events-IsOrderly enabled valid ev ev' e = ground arith

  convert_exception-IsOrderly : (v : Vcpu) → IsOrderly v → IsOrderly (convert_exception b v)
  unfolding convert_exception
  convert_exception-IsOrderly v orderly =
      if_cases IsOrderly
        (v.exception_from_userspace
          && v.is_guest_mode
          && b.is_exception_vmexit v.exception.vector v.exception.error_code)
        _ _ (λ c. refl) (λ c. orderly)

  module _ (e : Events) (clear : Vcpu → Vcpu) where
    Step-IsOrderly :
        {v w : Vcpu}
        → IsEvents e
        → ((u : Vcpu) → IsIdle (clear u))
        → Step b e clear v w
        → IsOrderly v
        → IsOrderly w
    unfolding kvm_queue_exception kvm_queue_exception_e kvm_queue_exception_p kvm_requeue_exception
        kvm_requeue_exception_e kvm_inject_nmi process_nmi set_exception drop_pending
    Step-IsOrderly events idle (queued v nr) o = kvm_multiple_exception-IsOrderly v _ refl o
    Step-IsOrderly events idle (queued_e v nr c) o = kvm_multiple_exception-IsOrderly v _ refl o
    Step-IsOrderly events idle (queued_p v nr p) o = kvm_multiple_exception-IsOrderly v _ refl o
    Step-IsOrderly events idle (requeued v nr) o =
        let (p, i) = idle v in kvm_multiple_exception-IsOrderly (clear v) _ p (ground arith)
    Step-IsOrderly events idle (requeued_e v nr c) o =
        let (p, i) = idle v in kvm_multiple_exception-IsOrderly (clear v) _ p (ground arith)
    Step-IsOrderly events idle (page_fault v c a async) o =
        kvm_inject_page_fault-IsOrderly v c a async o
    Step-IsOrderly events idle (injected v) o = kvm_check_and_inject_events-IsOrderly b e v events o
    Step-IsOrderly events idle (interrupted v) o = o
    Step-IsOrderly events idle (processed v m n t) o = o
    Step-IsOrderly events idle (got v enabled) o = get_exception-IsOrderly v enabled o
    Step-IsOrderly events idle (set v enabled valid ev ev' ok) o =
        adjust_events-IsOrderly enabled valid ev ev' ok
    Step-IsOrderly events idle (converted v) o = convert_exception-IsOrderly v o
    Step-IsOrderly events idle (dropped v) o = refl

    -- From a vCPU without an exception on, however exceptions are raised, injected, read and written, none is
    -- ever both waiting for its first injection and injected, if `clear` empties the slot and the kernel's
    -- other functions keep what `IsEvents` states.
    pub Reach-IsOrderly :
        {v : Vcpu} → IsEvents e → ((u : Vcpu) → IsIdle (clear u)) → Reach b e clear v → IsOrderly v
    Reach-IsOrderly events idle (start v (p, i)) = ground arith
    Reach-IsOrderly events idle (later r s) =
        Step-IsOrderly events idle s (Reach-IsOrderly events idle r)
