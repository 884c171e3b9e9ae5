-- ===== src/Exception/Inject/Single.antt =====
-- One event at most is handed to the backend at a time.
use pve_anti_detection.Prelude.{
  ℕ, ◌+◌, ◌-◌, ◌≤◌, ◌≡◌, ◌⊎◌, inl, inr, refl, Bool, true, false, not, ◌&&◌, ◌||◌, [], ◌∷◌, length,
  arith, if◌then◌else◌, Bool-cases, Option-cases, if_cases,
}
use pve_anti_detection.Exception.{Vcpu, Backend}
use pve_anti_detection.Exception.Inject.{
  Answer, allowed, blocked, busy, error, Handed, nmi, Events, Turn, Progress, more, out, then_do,
  ask, is_error, kvm_inject_exception, reinject, inject_pending, inject_smi, inject_nmi,
  take_interrupt, inject_irq, inject_interrupts, inject_new, kvm_check_and_inject_events,
  kvm_check_nested_events,
}

-- An exception is not both waiting for its first injection and injected.
abbrev pub IsOrderly : Vcpu → Type 0
IsOrderly v = v.exception.pending && v.exception.injected ≡ false

-- What the kernel's headers and the backends promise.
pub record IsEvents (e : Events) : Type 0 where
  pub is_exception_pending_lem :
      (v : Vcpu) → v.exception.pending ≡ true → e.is_exception_pending v ≡ true
  pub event_needs_reinjection_lem :
      (v : Vcpu)
      → v.exception.injected || v.nmi_injected || v.interrupt_injected ≡ true
      → e.event_needs_reinjection v ≡ true
  pub inject_exception_lem :
      (v : Vcpu)
      → ((e.inject_exception v).exception.pending ≡ v.exception.pending)
        × ((e.inject_exception v).exception.injected ≡ v.exception.injected)
  pub inject_exception-vector_lem :
      (v : Vcpu) → (e.inject_exception v).exception.vector ≡ v.exception.vector
  pub nested_triple_fault_lem : (v : Vcpu) → IsOrderly v → IsOrderly (e.nested_triple_fault v)
  pub nested_check_events_lem : (v : Vcpu) → IsOrderly v → IsOrderly (e.nested_check_events v).0
  pub enter_smm_lem : (v : Vcpu) → (e.enter_smm v).exception ≡ v.exception
  pub get_interrupt_lem : (v : Vcpu) → (e.get_interrupt v).0.exception ≡ v.exception
  pub queue_interrupt_lem : (v : Vcpu) (n : ℕ) → (e.queue_interrupt v n).exception ≡ v.exception

abbrev pub turn_of : Progress → Turn
turn_of (more t) = t
turn_of (out t r) = t

-- Nothing was handed yet, or one event was, and no other can be.
abbrev IsSpent : Turn → Type 0
IsSpent t = (t.handed ≡ []) ⊎ ((t.can_inject ≡ false) × (length t.handed ≡ 1))

IsSpent-length : (t : Turn) → IsSpent t → length t.handed ≤ 1
IsSpent-length t (inl e) = rw e (omega arith)
IsSpent-length t (inr (_, e)) = omega arith

-- An event is handed over where another could be injected.
IsSpent-hand :
    (t : Turn) (v : Vcpu) (x : Handed)
    → t.can_inject ≡ true
    → IsSpent t
    → IsSpent (record { vcpu = v; can_inject = false; handed = x ∷ t.handed })
IsSpent-hand t v x can (inl e) = inr (refl, rw e refl)
IsSpent-hand t v x can (inr (cannot, _)) = cc

IsSpent-stop :
    (t : Turn) (v : Vcpu) → IsSpent t → IsSpent (record t { vcpu = v; can_inject = false })
IsSpent-stop t v (inl e) = inl e
IsSpent-stop t v (inr (_, e)) = inr (refl, e)

-- A turn goes on as it was, or with the event, which is taken only where one can be injected.
ask_cases :
    (is_there : Bool) (answer : Answer) (t taken : Turn)
    → (turn_of (ask is_there answer t taken) ≡ t)
      ⊎ ((t.can_inject ≡ true) × (turn_of (ask is_there answer t taken) ≡ taken))
unfolding ask
ask_cases false answer t taken = inl refl
ask_cases true allowed t taken = elim (Bool-cases t.can_inject) [
  | inl e ↦ inr (e, rw (ask, e) refl)
  | inr e ↦ inl (rw (ask, e) refl)
]
ask_cases true blocked t taken = inl (ground arith)
ask_cases true busy t taken = inl (ground arith)
ask_cases true error t taken = inl (ground arith)

pub ask-turn_of :
    (P : Turn → Type 0) (is_there : Bool) (answer : Answer) (t taken : Turn)
    → (t.can_inject ≡ true → P taken)
    → P t
    → P (turn_of (ask is_there answer t taken))
ask-turn_of P is_there answer t taken ok h = elim (ask_cases is_there answer t taken) [
  | inl e ↦ rw e h
  | inr (can, e) ↦ rw e (ok can)
]

pub then_do-turn_of :
    (P Q : Turn → Type 0) (p : Progress) (f : Turn → Progress)
    → ((t : Turn) → P t → Q (turn_of (f t)))
    → ((t : Turn) → P t → Q t)
    → P (turn_of p)
    → Q (turn_of (then_do p f))
then_do-turn_of P Q (more t) f step weaken h = step t h
then_do-turn_of P Q (out t r) f step weaken h = weaken t h

module _ (b : Backend) (e : Events) where
  inject_smi-IsSpent : (t : Turn) → IsSpent t → IsSpent (turn_of (inject_smi b e t))
  unfolding inject_smi
  inject_smi-IsSpent t s =
      ask-turn_of IsSpent _ _ t _
        (λ can.
          IsSpent-stop t
            (e.enter_smm (record t.vcpu { smi_pending = false; smi_count = t.vcpu.smi_count + 1 }))
            s)
        s

  inject_nmi-IsSpent : (t : Turn) → IsSpent t → IsSpent (turn_of (inject_nmi b e t))
  unfolding inject_nmi
  inject_nmi-IsSpent t s =
      ask-turn_of IsSpent _ _ t _
        (λ can.
          IsSpent-hand t
            (record t.vcpu { nmi_pending = t.vcpu.nmi_pending - 1; nmi_injected = true }) nmi can s)
        s

  take_interrupt-length : (t : Turn) → length (take_interrupt b e t).handed ≤ length t.handed + 1
  unfolding take_interrupt
  take_interrupt-length t = elim (Option-cases (e.get_interrupt t.vcpu).1) [
    | inl none_there ↦ simp (none_there, take_interrupt) (omega arith)
    | inr (number, some_there) ↦ simp (some_there, take_interrupt) (omega arith)
  ]

  inject_irq-length : (t : Turn) → IsSpent t → length (turn_of (inject_irq b e t)).handed ≤ 1
  unfolding inject_irq
  inject_irq-length t s =
      ask-turn_of (λ u. length u.handed ≤ 1) (e.has_injectable_intr t.vcpu)
        (e.interrupt_allowed t.vcpu) t (take_interrupt b e t)
        (λ can. elim s [
          | inl none_yet ↦
              let empty : length t.handed ≡ 0 = rw none_yet refl in
              omega (arith, take_interrupt-length t, empty)
          | inr (cannot, _) ↦ cc
        ])
        (IsSpent-length t s)

  inject_pending-IsSpent :
      (t : Turn)
      → (t.vcpu.exception.pending ≡ true → t.handed ≡ [])
      → IsSpent t
      → IsSpent (inject_pending b e t)
  unfolding inject_pending
  inject_pending-IsSpent t first s =
      if_cases IsSpent t.vcpu.exception.pending _ t (λ p. inr (refl, rw (first p) refl)) (λ p. s)

  inject_interrupts-length :
      (t : Turn) → IsSpent t → length (turn_of (inject_interrupts b e t)).handed ≤ 1
  unfolding inject_interrupts
  inject_interrupts-length t s =
      if_cases (λ p. length (turn_of p).handed ≤ 1) t.vcpu.blocks_irq (out t allowed)
        (then_do (inject_smi b e t) (λ x. then_do (inject_nmi b e x) (inject_irq b e)))
        (λ blocks. IsSpent-length t s)
        (λ goes_on.
          then_do-turn_of IsSpent (λ x. length x.handed ≤ 1) (inject_smi b e t)
            (λ x. then_do (inject_nmi b e x) (inject_irq b e))
            (λ x. λ sx.
              then_do-turn_of IsSpent (λ y. length y.handed ≤ 1) (inject_nmi b e x) (inject_irq b e)
                inject_irq-length IsSpent-length (inject_nmi-IsSpent x sx))
            IsSpent-length (inject_smi-IsSpent t s))

  -- After the injection of what did not arrive: something was handed over only if it still needs to arrive,
  -- and then no exception is pending.
  IsCareful : Turn → Type 0
  IsCareful t =
      (t.handed ≡ [])
      ⊎ ((length t.handed ≡ 1)
          × (e.event_needs_reinjection t.vcpu ≡ true)
          × (t.vcpu.exception.pending ≡ false))

  reinject-IsCareful : (v : Vcpu) → IsEvents e → IsOrderly v → IsCareful (reinject b e v)
  unfolding reinject kvm_inject_exception IsCareful
  reinject-IsCareful v events orderly =
      if_cases IsCareful v.exception.injected _ _
        (λ injected.
          let w = record v {
            exception = record v.exception {
              has_error_code = v.exception.has_error_code && v.is_protmode;
            };
          } in
          let (pending, still) = events.inject_exception_lem w in
          inr (
            refl,
            events.event_needs_reinjection_lem (e.inject_exception w) (ground arith),
            ground arith,
          ))
        (λ not_injected.
          if_cases IsCareful (e.is_exception_pending v) _ _ (λ waiting. inl refl)
            (λ not_waiting.
              let idle : v.exception.pending ≡ false = elim (Bool-cases v.exception.pending) [
                | inl p ↦ cc (events.is_exception_pending_lem v p)
                | inr p ↦ p
              ] in
              if_cases IsCareful v.nmi_injected _ _
                (λ n. inr (refl, events.event_needs_reinjection_lem v (ground arith), idle))
                (λ n.
                  if_cases IsCareful v.interrupt_injected _ _
                    (λ i. inr (refl, events.event_needs_reinjection_lem v (ground arith), idle))
                    (λ i. inl refl))))

  inject_new-length : (t : Turn) → IsCareful t → length (turn_of (inject_new b e t)).handed ≤ 1
  unfolding inject_new IsCareful
  inject_new-length t (inl empty) =
      inject_interrupts-length
        (inject_pending b e (record t { can_inject = not (e.event_needs_reinjection t.vcpu) }))
        (inject_pending-IsSpent (record t { can_inject = not (e.event_needs_reinjection t.vcpu) })
          (λ p. empty) (inl empty))
  inject_new-length t (inr (one, needs, idle)) =
      inject_interrupts-length
        (inject_pending b e (record t { can_inject = not (e.event_needs_reinjection t.vcpu) }))
        (inject_pending-IsSpent (record t { can_inject = not (e.event_needs_reinjection t.vcpu) })
          (λ p. cc) (inr (rw needs refl, one)))

  IsCareful-length : (t : Turn) → IsCareful t → length t.handed ≤ 1
  unfolding IsCareful
  IsCareful-length t (inl empty) = rw empty (omega arith)
  IsCareful-length t (inr (one, _, _)) = omega arith

  kvm_check_nested_events-IsOrderly :
      (v : Vcpu) → IsEvents e → IsOrderly v → IsOrderly (kvm_check_nested_events e v).0
  unfolding kvm_check_nested_events
  kvm_check_nested_events-IsOrderly v events orderly =
      if_cases {A = Vcpu × Answer} (λ w. IsOrderly w.0) v.triple_fault _ _
        (λ down. events.nested_triple_fault_lem (record v { triple_fault = false }) orderly)
        (λ up. events.nested_check_events_lem v orderly)

  pub nested-IsOrderly :
      (v : Vcpu)
      → IsEvents e
      → IsOrderly v
      → IsOrderly (if v.is_guest_mode then kvm_check_nested_events e v else (v, blocked)).0
  nested-IsOrderly v events orderly =
      if_cases (λ w. IsOrderly w.0) v.is_guest_mode (kvm_check_nested_events e v) (v, blocked)
        (λ nested. kvm_check_nested_events-IsOrderly v events orderly) (λ host. orderly)

  -- Before a vCPU enters the guest, at most one event, re-injected or new, is handed to the backend, if no
  -- exception is both pending and injected, and the kernel's other functions keep what `IsEvents` states.
  pub kvm_check_and_inject_events-handed :
      (v : Vcpu)
      → IsEvents e
      → IsOrderly v
      → length (turn_of (kvm_check_and_inject_events b e v)).handed ≤ 1
  unfolding kvm_check_and_inject_events
  kvm_check_and_inject_events-handed v events orderly =
      let start = if v.is_guest_mode then kvm_check_nested_events e v else (v, blocked) in
      let careful = reinject-IsCareful start.0 events (nested-IsOrderly v events orderly) in
      if_cases (λ p. length (turn_of p).handed ≤ 1) (is_error start.1)
        (out (reinject b e start.0) start.1) (inject_new b e (reinject b e start.0))
        (λ failed. IsCareful-length (reinject b e start.0) careful)
        (λ goes_on. inject_new-length (reinject b e start.0) careful)
