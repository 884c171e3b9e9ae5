-- ===== src/Exception/Raise/Paths.antt =====
-- The paths through `kvm_multiple_exception`.
use pve_anti_detection.Prelude.{
  ◌≡◌, inl, inr, refl, true, false, not, ◌&&◌, if◌then◌else◌, Bool-cases,
}
use pve_anti_detection.Exception.{
  df, Vcpu, Backend, exception_class, kvm_deliver_exception_payload, kvm_queue_exception_vmexit,
}
use pve_anti_detection.Exception.Payload.{kvm_deliver_exception_payload-kept}
use pve_anti_detection.Exception.Raise.{
  Raised, is_df, is_double, with_error, queued_as, cleared, queue, check_exception, raise,
  kvm_multiple_exception, kvm_queue_exception_e,
}

module _ (b : Backend) where
  -- The call of `kvm_multiple_exception` for a double fault.
  abbrev pub nested : Vcpu → Vcpu
  nested w = raise b (λ u. u) w (with_error df 0)

  queue-guest :
      (v : Vcpu) (x : Raised)
      → v.is_guest_mode ≡ true
      → queue b v x ≡ record v { exception = queued_as v x }
  unfolding queue
  queue-guest v x e = rw (queue, e) refl

  queue-host :
      (v : Vcpu) (x : Raised)
      → v.is_guest_mode ≡ false
      → let after =
          kvm_deliver_exception_payload b
            (record v { exception = queued_as v x })
            (queued_as v x) in
        queue b v x ≡ record after.0 { exception = after.1 }
  unfolding queue
  queue-host v x e = rw (queue, e) refl

  -- Queueing fills the slot and leaves the rest of what matters here.
  pub queue-exception :
      (v : Vcpu) (x : Raised)
      → ((queue b v x).exception.pending ≡ (if x.reinject then v.exception.pending else true))
        × ((queue b v x).exception.injected ≡ x.reinject)
        × ((queue b v x).exception.vector ≡ x.nr)
        × ((queue b v x).triple_fault ≡ v.triple_fault)
        × ((queue b v x).exception_vmexit ≡ v.exception_vmexit)
  queue-exception v x = elim (Bool-cases v.is_guest_mode) [
    | inl e ↦ rw (queue-guest v x e) (refl, refl, refl, refl, refl)
    | inr e ↦
        let queued = record v { exception = queued_as v x } in
        let (still, vmexit, _, pending, injected, vector) =
          kvm_deliver_exception_payload-kept b queued (queued_as v x) in
        rw (queue-host v x e) (pending, injected, vector, still, vmexit)
  ]

  pub raise-queue :
      (again : Vcpu → Vcpu) (v : Vcpu) (x : Raised)
      → not x.reinject && v.is_guest_mode && b.is_exception_vmexit x.nr x.error_code ≡ false
      → not v.exception.pending && not v.exception.injected ≡ true
      → raise b again v x ≡ queue b (record v { event = true }) x
  unfolding raise
  raise-queue again v x stay none_yet = rw (raise, stay, none_yet) refl

  pub raise-check_exception :
      (again : Vcpu → Vcpu) (v : Vcpu) (x : Raised)
      → not x.reinject && v.is_guest_mode && b.is_exception_vmexit x.nr x.error_code ≡ false
      → not v.exception.pending && not v.exception.injected ≡ false
      → raise b again v x ≡ check_exception b again (record v { event = true }) x
  unfolding raise
  raise-check_exception again v x stay one = rw (raise, stay, one) refl

  pub raise-vmexit :
      (again : Vcpu → Vcpu) (v : Vcpu) (x : Raised)
      → not x.reinject && v.is_guest_mode && b.is_exception_vmexit x.nr x.error_code ≡ true
      → raise b again v x
        ≡ kvm_queue_exception_vmexit
            (record v { event = true })
            x.nr
            x.has_error
            x.error_code
            x.has_payload
            x.payload
  unfolding raise
  raise-vmexit again v x out = rw (raise, out) refl

  pub check_exception-df :
      (again : Vcpu → Vcpu) (v : Vcpu) (x : Raised)
      → is_df v.exception.vector ≡ true
      → check_exception b again v x ≡ record v { triple_fault = true }
  unfolding check_exception
  check_exception-df again v x e = rw (check_exception, e) refl

  pub check_exception-double :
      (again : Vcpu → Vcpu) (v : Vcpu) (x : Raised)
      → is_df v.exception.vector ≡ false
      → is_double (exception_class v.exception.vector) (exception_class x.nr) ≡ true
      → check_exception b again v x ≡ again (cleared v)
  unfolding check_exception
  check_exception-double again v x e two = rw (check_exception, e, two) refl

  pub check_exception-other :
      (again : Vcpu → Vcpu) (v : Vcpu) (x : Raised)
      → is_df v.exception.vector ≡ false
      → is_double (exception_class v.exception.vector) (exception_class x.nr) ≡ false
      → check_exception b again v x ≡ queue b v x
  unfolding check_exception
  check_exception-other again v x e one = rw (check_exception, e, one) refl

  check_exception-agree :
      (again again' : Vcpu → Vcpu) (v : Vcpu) (x : Raised)
      → ((w : Vcpu) → again (cleared w) ≡ again' (cleared w))
      → check_exception b again v x ≡ check_exception b again' v x
  check_exception-agree again again' v x same =
      let prev = v.exception.vector in
      elim (Bool-cases (is_df prev)) [
        | inl e ↦ rw (check_exception-df again v x e, check_exception-df again' v x e) refl
        | inr e ↦ elim (Bool-cases (is_double (exception_class prev) (exception_class x.nr))) [
          | inl two ↦
              rw (check_exception-double again v x e two, check_exception-double again' v x e two)
                (same v)
          | inr one ↦
              rw (check_exception-other again v x e one, check_exception-other again' v x e one)
                refl
        ]
      ]

  raise-cleared :
      (again again' : Vcpu → Vcpu) (v : Vcpu) (x : Raised)
      → raise b again (cleared v) x ≡ raise b again' (cleared v) x
  raise-cleared again again' v x =
      let w = cleared v in
      elim (Bool-cases
        (not x.reinject && v.is_guest_mode && b.is_exception_vmexit x.nr x.error_code)) [
          | inl out ↦ rw (raise-vmexit again w x out, raise-vmexit again' w x out) refl
          | inr stay ↦ rw (raise-queue again w x stay refl, raise-queue again' w x stay refl) refl
        ]

  -- What is done again is only ever done to an emptied slot.
  raise-agree :
      (again again' : Vcpu → Vcpu) (v : Vcpu) (x : Raised)
      → ((w : Vcpu) → again (cleared w) ≡ again' (cleared w))
      → raise b again v x ≡ raise b again' v x
  raise-agree again again' v x same =
      let w = record v { event = true } in
      elim (Bool-cases
        (not x.reinject && v.is_guest_mode && b.is_exception_vmexit x.nr x.error_code)) [
          | inl out ↦ rw (raise-vmexit again v x out, raise-vmexit again' v x out) refl
          | inr stay ↦ elim (Bool-cases (not v.exception.pending && not v.exception.injected)) [
            | inl none_yet ↦
                rw (raise-queue again v x stay none_yet, raise-queue again' v x stay none_yet) refl
            | inr one ↦
                rw
                  (
                    raise-check_exception again v x stay one,
                    raise-check_exception again' v x stay one,
                  )
                  (check_exception-agree again again' w x same)
          ]
        ]

  -- The equation that the program's recursion states: where two exceptions make a double fault,
  -- `kvm_multiple_exception` calls itself, through `kvm_queue_exception_e`; and the call ends.
  pub kvm_multiple_exception_unfold :
      (v : Vcpu) (x : Raised)
      → kvm_multiple_exception b v x ≡ raise b (λ w. kvm_queue_exception_e b w df 0) v x
  unfolding kvm_multiple_exception kvm_queue_exception_e
  kvm_multiple_exception_unfold v x =
      raise-agree nested (λ w. kvm_queue_exception_e b w df 0) v x
        (λ w. raise-cleared (λ u. u) nested w (with_error df 0))
