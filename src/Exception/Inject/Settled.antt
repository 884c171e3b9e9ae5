-- ===== src/Exception/Inject/Settled.antt =====
-- The injection leaves no exception waiting; and how many interrupts it finds.
use mathlib.Core.List.{Memᴰ}
use pve_anti_detection.Prelude.{
  ℕ, ◌+◌, ◌-◌, ◌≤◌, ◌≡◌, inl, inr, refl, ◌∙◌, min, Bool, false, not, ◌&&◌, ◌||◌, arith, ◌==◌,
  if◌then◌else◌, Option-cases, if_cases, ap, sym, subst, true, ◌⊎◌, List, [], ◌∷◌, ◌++◌, Bool-cases,
}
use pve_anti_detection.Exception.{QueuedException, Vcpu, Backend}
use pve_anti_detection.Exception.Inject.{
  Handed, exception, nmi, irq, Answer, blocked, Events, Turn, out, then_do, is_error,
  kvm_inject_exception, reinject, inject_pending, inject_smi, inject_nmi, take_interrupt,
  inject_irq, inject_interrupts, inject_new, kvm_check_and_inject_events, kvm_check_nested_events,
  process_nmi,
}
use pve_anti_detection.Exception.Inject.Single.{
  IsOrderly, IsEvents, turn_of, ask-turn_of, then_do-turn_of, nested-IsOrderly,
}

-- The exception is this one, and these events were handed over, perhaps with later ones.
abbrev Keeps : QueuedException → List Handed → Turn → Type 0
Keeps ex xs t = (t.vcpu.exception ≡ ex) × ((ys : List Handed) × (t.handed ≡ ys ++ xs))

module _ (b : Backend) (e : Events) (ex : QueuedException) (xs : List Handed)
    (events : IsEvents e) where
  inject_smi-Keeps : (t : Turn) → Keeps ex xs t → Keeps ex xs (turn_of (inject_smi b e t))
  unfolding inject_smi
  inject_smi-Keeps t s =
      ask-turn_of (Keeps ex xs) t.vcpu.smi_pending (e.smi_allowed t.vcpu) t _
        (λ can. (
          events.enter_smm_lem
                (record t.vcpu { smi_pending = false; smi_count = t.vcpu.smi_count + 1 })
              ∙ s.0,
          s.1,
        ))
        s

  inject_nmi-Keeps : (t : Turn) → Keeps ex xs t → Keeps ex xs (turn_of (inject_nmi b e t))
  unfolding inject_nmi
  inject_nmi-Keeps t s =
      ask-turn_of (Keeps ex xs) (not (t.vcpu.nmi_pending == 0)) (e.nmi_allowed t.vcpu) t _
        (λ can. (s.0, (nmi ∷ s.1.0, ap (λ zs. nmi ∷ zs) s.1.1))) s

  take_interrupt-Keeps : (t : Turn) → Keeps ex xs t → Keeps ex xs (take_interrupt b e t)
  unfolding take_interrupt
  take_interrupt-Keeps t s = elim (Option-cases (e.get_interrupt t.vcpu).1) [
    | inl none_there ↦
        simp (none_there, take_interrupt) (events.get_interrupt_lem t.vcpu ∙ s.0, s.1)
    | inr (number, some_there) ↦
        simp (some_there, take_interrupt)
          (
            events.queue_interrupt_lem (e.get_interrupt t.vcpu).0 number
                ∙ events.get_interrupt_lem t.vcpu
                ∙ s.0,
            (irq ∷ s.1.0, ap (λ zs. irq ∷ zs) s.1.1),
          )
  ]

  inject_irq-Keeps : (t : Turn) → Keeps ex xs t → Keeps ex xs (turn_of (inject_irq b e t))
  unfolding inject_irq
  inject_irq-Keeps t s =
      ask-turn_of (Keeps ex xs) (e.has_injectable_intr t.vcpu) (e.interrupt_allowed t.vcpu) t
        (take_interrupt b e t) (λ can. take_interrupt-Keeps t s) s

  inject_interrupts-Keeps :
      (t : Turn) → Keeps ex xs t → Keeps ex xs (turn_of (inject_interrupts b e t))
  unfolding inject_interrupts
  inject_interrupts-Keeps t s =
      if_cases (λ p. Keeps ex xs (turn_of p)) t.vcpu.blocks_irq (out t Answer.allowed)
        (then_do (inject_smi b e t) (λ x. then_do (inject_nmi b e x) (inject_irq b e)))
        (λ blocks. s)
        (λ goes_on.
          then_do-turn_of (Keeps ex xs) (Keeps ex xs) (inject_smi b e t)
            (λ x. then_do (inject_nmi b e x) (inject_irq b e))
            (λ x. λ sx.
              then_do-turn_of (Keeps ex xs) (Keeps ex xs) (inject_nmi b e x) (inject_irq b e)
                inject_irq-Keeps (λ y. λ sy. sy) (inject_nmi-Keeps x sx))
            (λ y. λ sy. sy) (inject_smi-Keeps t s))

-- An exception that was pending is injected, and among the events handed over.
abbrev pub IsHandled : Vcpu → Turn → Type 0
IsHandled v t =
    (v.exception.pending ≡ false)
    ⊎ ((t.vcpu.exception.injected ≡ true) × Memᴰ (exception v.exception.vector) t.handed)

abbrev pub IsSettled : Vcpu → Turn → Type 0
IsSettled v t = (t.vcpu.exception.pending ≡ false) × IsHandled v t

Memᴰ-append : {x : Handed} (ys xs : List Handed) → Memᴰ x xs → Memᴰ x (ys ++ xs)
Memᴰ-append [] xs m = m
Memᴰ-append (y ∷ ys) xs m = Memᴰ.tail (Memᴰ-append ys xs m)

module _ (b : Backend) (e : Events) where
  inject_pending-pending : (t : Turn) → (inject_pending b e t).vcpu.exception.pending ≡ false
  unfolding inject_pending
  inject_pending-pending t =
      if_cases {A = Turn} (λ u. u.vcpu.exception.pending ≡ false) t.vcpu.exception.pending _ t
        (λ p. refl) (λ p. p)

  -- The pending exception is handed over and marked as injected.
  inject_pending-IsHandled : (t : Turn) → IsHandled t.vcpu (inject_pending b e t)
  unfolding inject_pending
  inject_pending-IsHandled t = elim (Bool-cases t.vcpu.exception.pending) [
    | inl p ↦ rw (inject_pending, p) (inr (refl, Memᴰ.head refl))
    | inr p ↦ inl p
  ]

  -- What comes after the exception leaves it so.
  inject_new-IsSettled : (t : Turn) → IsEvents e → IsSettled t.vcpu (turn_of (inject_new b e t))
  unfolding inject_new
  inject_new-IsSettled t events =
      let t' = record t { can_inject = not (e.event_needs_reinjection t.vcpu) } in
      let u = inject_pending b e t' in
      let (same, (ys, later)) =
        inject_interrupts-Keeps b e u.vcpu.exception u.handed events u (refl, ([], refl)) in
      (
        rw same (inject_pending-pending t'),
        elim (inject_pending-IsHandled t') [
          | inl idle ↦ inl idle
          | inr (injected, there) ↦ inr (rw same injected, rw later (Memᴰ-append ys u.handed there))
        ],
      )

  -- The hardware is given an event again without a change of what is pending.
  reinject_same :
      (v : Vcpu)
      → IsEvents e
      → ((reinject b e v).vcpu.exception.pending ≡ v.exception.pending)
        × ((reinject b e v).vcpu.exception.vector ≡ v.exception.vector)
  unfolding reinject kvm_inject_exception
  reinject_same v events =
      let P : Turn → Type 0 = λ t.
        (t.vcpu.exception.pending ≡ v.exception.pending)
        × (t.vcpu.exception.vector ≡ v.exception.vector) in
      if_cases P v.exception.injected _ _
        (λ injected.
          let w = record v {
            exception = record v.exception {
              has_error_code = v.exception.has_error_code && v.is_protmode;
            };
          } in
          ((events.inject_exception_lem w).0, events.inject_exception-vector_lem w))
        (λ other.
          if_cases P (e.is_exception_pending v) _ _ (λ waiting. (refl, refl))
            (λ idle.
              if_cases P v.nmi_injected _ _ (λ n. (refl, refl))
                (λ n. if_cases P v.interrupt_injected _ _ (λ i. (refl, refl)) (λ i. (refl, refl)))))

  reinject-IsOrderly : (v : Vcpu) → IsEvents e → IsOrderly v → IsOrderly (reinject b e v).vcpu
  unfolding reinject kvm_inject_exception
  reinject-IsOrderly v events orderly =
      if_cases {A = Turn} (λ t. IsOrderly t.vcpu) v.exception.injected _ _
        (λ injected.
          let w = record v {
            exception = record v.exception {
              has_error_code = v.exception.has_error_code && v.is_protmode;
            };
          } in
          let (pending, still) = events.inject_exception_lem w in ground arith)
        (λ not_injected.
          if_cases {A = Turn} (λ t. IsOrderly t.vcpu) (e.is_exception_pending v) _ _
            (λ waiting. orderly)
            (λ idle.
              if_cases {A = Turn} (λ t. IsOrderly t.vcpu) v.nmi_injected _ _ (λ n. orderly)
                (λ n.
                  if_cases {A = Turn} (λ t. IsOrderly t.vcpu) v.interrupt_injected _ _
                    (λ i. orderly) (λ i. orderly))))

  -- The injection keeps the slot of the exception in order.
  pub kvm_check_and_inject_events-IsOrderly :
      (v : Vcpu)
      → IsEvents e
      → IsOrderly v
      → IsOrderly (turn_of (kvm_check_and_inject_events b e v)).vcpu
  unfolding kvm_check_and_inject_events
  kvm_check_and_inject_events-IsOrderly v events orderly =
      let start = if v.is_guest_mode then kvm_check_nested_events e v else (v, blocked) in
      if_cases (λ p. IsOrderly (turn_of p).vcpu) (is_error start.1)
        (out (reinject b e start.0) start.1) (inject_new b e (reinject b e start.0))
        (λ failed. reinject-IsOrderly start.0 events (nested-IsOrderly b e v events orderly))
        (λ goes_on. rw (inject_new-IsSettled (reinject b e start.0) events).0 refl)

  -- Unless an event of a nested guest ends the injection, no exception is left in the slot that waits for it;
  -- and one that waited, after the events of a nested guest were looked at, is marked as injected and is
  -- among the events handed over, if the kernel's other functions keep what `IsEvents` states.
  pub kvm_check_and_inject_events-pending :
      (v : Vcpu)
      → IsEvents e
      → v.is_guest_mode && is_error (kvm_check_nested_events e v).1 ≡ false
      → IsSettled
          (if v.is_guest_mode then (kvm_check_nested_events e v).0 else v)
          (turn_of (kvm_check_and_inject_events b e v))
  unfolding kvm_check_and_inject_events
  kvm_check_and_inject_events-pending v events fine =
      let start = if v.is_guest_mode then kvm_check_nested_events e v else (v, blocked) in
      let no_error : is_error start.1 ≡ false =
        if_cases {A = Vcpu × Answer} (λ w. is_error w.1 ≡ false) v.is_guest_mode
          (kvm_check_nested_events e v) (v, blocked) (λ nested. ground arith) (λ host. refl) in
      let begun : start.0 ≡ (if v.is_guest_mode then (kvm_check_nested_events e v).0 else v) =
        ground arith in
      let (pending, vector) = reinject_same start.0 events in
      let t = reinject b e start.0 in
      let (idle, handled) = inject_new-IsSettled t events in
      rw (sym begun) (
        simp (kvm_check_and_inject_events, no_error)
          (
            idle,
            elim handled [
              | inl none_there ↦ inl (sym pending ∙ none_there)
              | inr (injected, there) ↦ inr (
                injected,
                subst (λ x. Memᴰ (exception x) (turn_of (inject_new b e t)).handed) vector there,
              )
            ],
          ))

-- 1 for a condition that holds.
abbrev pub one_if : Bool → ℕ
one_if c = if c then 1 else 0

-- At most two non-maskable interrupts wait, one where they are masked or one is being injected; and below that
-- number none gets lost, where the hardware may hold one or two of them.
pub process_nmi-nmi_pending :
    (v : Vcpu) (masked vnmi_pending takes_vnmi : Bool)
    → let after = process_nmi v masked vnmi_pending takes_vnmi in
      let limit = 2 - one_if (masked || v.nmi_injected) in
      (after.nmi_queued ≡ 0)
      × (after.nmi_pending ≤ limit)
      × (min (v.nmi_pending + v.nmi_queued) limit
          ≤ after.nmi_pending + one_if vnmi_pending + one_if takes_vnmi)
unfolding process_nmi
process_nmi-nmi_pending v masked vnmi_pending takes_vnmi = (refl, ground arith, ground arith)
