-- ===== src/Exception/Inject.antt =====
-- x86.c: what a vCPU is handed before it enters the guest (lines 10261 to 10522), and the non-maskable interrupts
-- that arrive (lines 10524 to 10559 and 818 to 822).
--
-- Windows that the backend is asked to open, and the requests for an immediate exit, are outside of the
-- state: of the latter the result tells.
pub mod Single
pub mod Settled
use pve_anti_detection.Prelude.{
  ℕ, ◌+◌, ◌-◌, min, Bool, true, false, not, ◌&&◌, ◌||◌, Option, none, some, List, [], ◌∷◌, ◌==◌,
  if◌then◌else◌,
}
use pve_anti_detection.Exception.{
  Vector, db, excpt_fault, Vcpu, Backend, exception_type, kvm_deliver_exception_payload,
}

-- An answer of the backend about an event: a positive number, 0, `-EBUSY`, or another error.
pub data Answer : Type 0 where
  allowed blocked busy error : Answer

-- What the backend is handed.
pub data Handed : Type 0 where
  exception : Vector → Handed
  nmi irq : Handed

-- The backend's and the kernel's functions that the injection calls, by what they do to the vCPU.
pub record Events : Type 0 where
  -- the two operations of `nested_ops`
  pub nested_triple_fault : Vcpu → Vcpu
  pub nested_check_events : Vcpu → Vcpu × Answer
  pub is_exception_pending : Vcpu → Bool
  pub event_needs_reinjection : Vcpu → Bool
  pub inject_exception : Vcpu → Vcpu
  pub smi_allowed : Vcpu → Answer
  pub nmi_allowed : Vcpu → Answer
  pub interrupt_allowed : Vcpu → Answer
  pub enter_smm : Vcpu → Vcpu
  pub has_injectable_intr : Vcpu → Bool
  -- `kvm_cpu_get_interrupt`: none stands for -1
  pub get_interrupt : Vcpu → Vcpu × Option ℕ
  pub queue_interrupt : Vcpu → ℕ → Vcpu

-- The vCPU, whether another event can be injected, and what was handed so far, the last first.
pub record Turn : Type 0 where
  pub vcpu : Vcpu
  pub can_inject : Bool
  pub handed : List Handed

-- A part of the function runs on, or leaves for `out` or by a `return`, with the answer that it has then.
pub data Progress : Type 0 where
  more : Turn → Progress
  out : Turn → Answer → Progress

abbrev pub then_do : Progress → (Turn → Progress) → Progress
then_do (more t) f = f t
then_do (out t r) f = out t r

abbrev pub is_error : Answer → Bool
is_error r = elim r [ busy ↦ true | error ↦ true | _ ↦ false ]

abbrev pub is_allowed : Answer → Bool
is_allowed r = elim r [ allowed ↦ true | _ ↦ false ]

-- 1 counts as an event that goes on.
unfoldable pub kvm_check_nested_events : Events → Vcpu → Vcpu × Answer
kvm_check_nested_events e v =
    if v.triple_fault
    then (e.nested_triple_fault (record v { triple_fault = false }), allowed)
    else e.nested_check_events v

-- What an interrupt of each kind comes to: if there is one, and something else is not in its way, the answer
-- of the backend decides between the turn as it is and the turn with the interrupt.
unfoldable pub ask : Bool → Answer → Turn → Turn → Progress
ask is_there answer t taken =
    let r = if t.can_inject then answer else busy in
    if not is_there
    then more t
    else (if is_error r then out t r else (if is_allowed r then more taken else more t))

module _ (b : Backend) (e : Events) where
  unfoldable pub kvm_inject_exception : Vcpu → Vcpu
  kvm_inject_exception v = e.inject_exception (record v {
    exception = record v.exception { has_error_code = v.exception.has_error_code && v.is_protmode };
  })

  -- The events that were injected before and did not arrive.
  unfoldable pub reinject : Vcpu → Turn
  reinject v =
      if v.exception.injected
      then record {
        vcpu = kvm_inject_exception v;
        can_inject = true;
        handed = exception v.exception.vector ∷ [];
      }
      else (if e.is_exception_pending v
          then record { vcpu = v; can_inject = true; handed = [] }
          else (if v.nmi_injected
              then record { vcpu = v; can_inject = true; handed = nmi ∷ [] }
              else (if v.interrupt_injected
                  then record { vcpu = v; can_inject = true; handed = irq ∷ [] }
                  else record { vcpu = v; can_inject = true; handed = [] })))

  abbrev pub is_fault : Vector → Bool
  is_fault vector = elim (exception_type b vector) [ excpt_fault ↦ true | _ ↦ false ]

  abbrev pub is_db : Vector → Bool
  is_db vector = elim vector [ db ↦ true | _ ↦ false ]

  -- What a pending exception does to the registers before it is handed over.
  unfoldable pub prepare : Vcpu → Vcpu
  prepare v =
      let w = record v { rflags_rf = is_fault v.exception.vector || v.rflags_rf } in
      if is_db v.exception.vector
      then (let after = kvm_deliver_exception_payload b w w.exception in
          record after.0 { exception = after.1; dr7_gd = false })
      else w

  unfoldable pub inject_pending : Turn → Turn
  inject_pending t =
      let v = t.vcpu in
      if v.exception.pending
      then (let w = kvm_inject_exception (prepare v) in
          record {
            vcpu = record w { exception = record w.exception { pending = false; injected = true } };
            can_inject = false;
            handed = exception v.exception.vector ∷ t.handed;
          })
      else t

  unfoldable pub inject_smi : Turn → Progress
  inject_smi t = ask t.vcpu.smi_pending (e.smi_allowed t.vcpu) t (record t {
    vcpu = e.enter_smm (record t.vcpu { smi_pending = false; smi_count = t.vcpu.smi_count + 1 });
    can_inject = false;
  })

  unfoldable pub inject_nmi : Turn → Progress
  inject_nmi t = ask (not (t.vcpu.nmi_pending == 0)) (e.nmi_allowed t.vcpu) t (record {
    vcpu = record t.vcpu { nmi_pending = t.vcpu.nmi_pending - 1; nmi_injected = true };
    can_inject = false;
    handed = nmi ∷ t.handed;
  })

  -- The number is asked for, queued and handed over, if there is one.
  unfoldable pub take_interrupt : Turn → Turn
  take_interrupt t =
      let (v, irq_number) = e.get_interrupt t.vcpu in
      elim irq_number [
        | none ↦ record t { vcpu = v }
        | some number ↦ record t { vcpu = e.queue_interrupt v number; handed = irq ∷ t.handed }
      ]

  unfoldable pub inject_irq : Turn → Progress
  inject_irq t =
      ask (e.has_injectable_intr t.vcpu) (e.interrupt_allowed t.vcpu) t (take_interrupt t)

  -- The interrupts that are new, in the order of their priority.
  unfoldable pub inject_interrupts : Turn → Progress
  inject_interrupts t =
      if t.vcpu.blocks_irq
      then out t allowed
      else then_do (inject_smi t) (λ s. then_do (inject_nmi s) inject_irq)

  -- The events that are new, the exception first.
  unfoldable pub inject_new : Turn → Progress
  inject_new t =
      inject_interrupts
        (inject_pending (record t { can_inject = not (e.event_needs_reinjection t.vcpu) }))

  -- The turn at its end; `busy` stands for an immediate exit, `error` for a result below 0, and what is
  -- left, as `more`, for success.
  unfoldable pub kvm_check_and_inject_events : Vcpu → Progress
  kvm_check_and_inject_events v =
      let (w, r) = if v.is_guest_mode then kvm_check_nested_events e v else (v, blocked) in
      let t = reinject w in if is_error r then out t r else inject_new t

-- `kvm_inject_nmi`
unfoldable pub kvm_inject_nmi : Vcpu → Vcpu
kvm_inject_nmi v = record v { nmi_queued = v.nmi_queued + 1; nmi_requested = true }

-- `masked`, `vnmi_pending` and `takes_vnmi` are the answers of the backend's `get_nmi_mask`, `is_vnmi_pending`
-- and `set_vnmi_pending`.
unfoldable pub process_nmi : Vcpu → Bool → Bool → Bool → Vcpu
process_nmi v masked vnmi_pending takes_vnmi =
    let limit = if masked || v.nmi_injected then 1 else 2 in
    let limit' = if vnmi_pending then limit - 1 else limit in
    let all = min (v.nmi_pending + v.nmi_queued) limit' in
    let left = if not (all == 0) && takes_vnmi then all - 1 else all in
    record v { nmi_queued = 0; nmi_pending = left; event = not (left == 0) || v.event }
