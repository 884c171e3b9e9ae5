-- ===== src/Exception/Payload.antt =====
-- What the delivery of a payload changes, and what it leaves alone.
use pve_anti_detection.Prelude.{
  ℕ, ◌≡◌, inl, inr, refl, true, false, not, ◌&&◌, ◌||◌, arith, if◌then◌else◌, Bool-cases, ◌==◌,
}
use pve_anti_detection.Exception.{
  db, QueuedException, Vcpu, Backend, payload_registers, kvm_deliver_exception_payload,
}

module _ (b : Backend) where
  payload_registers-kept :
      (v : Vcpu) (ex : QueuedException)
      → ((payload_registers b v ex).triple_fault ≡ v.triple_fault)
        × ((payload_registers b v ex).exception_vmexit ≡ v.exception_vmexit)
        × ((payload_registers b v ex).exception ≡ v.exception)
  unfolding payload_registers
  payload_registers-kept v ex = (ground arith, ground arith, ground arith)

  -- The two registers apart, only the exception's payload is gone.
  pub kvm_deliver_exception_payload-kept :
      (v : Vcpu) (ex : QueuedException)
      → let after = kvm_deliver_exception_payload b v ex in
        (after.0.triple_fault ≡ v.triple_fault)
        × (after.0.exception_vmexit ≡ v.exception_vmexit)
        × (after.0.exception ≡ v.exception)
        × (after.1.pending ≡ ex.pending)
        × (after.1.injected ≡ ex.injected)
        × (after.1.vector ≡ ex.vector)
  unfolding kvm_deliver_exception_payload
  kvm_deliver_exception_payload-kept v ex = elim (Bool-cases ex.has_payload) [
    | inr e ↦ rw (kvm_deliver_exception_payload, e) (refl, refl, refl, refl, refl, refl)
    | inl e ↦
        let (triple, vmexit, exception) = payload_registers-kept v ex in
        rw (kvm_deliver_exception_payload, e) (triple, vmexit, exception, refl, refl, refl)
  ]

  -- Bits of `DR6` after a debug exception: one that is active low is set unless the payload has it, any
  -- other, bit 12 apart, exactly if the payload has it or it was set and is no trap bit; bit 12 is clear.
  pub kvm_deliver_exception_payload-dr6 :
      (v : Vcpu) (ex : QueuedException) (i : ℕ)
      → ex.vector ≡ db
      → ex.has_payload ≡ true
      → (kvm_deliver_exception_payload b v ex).0.dr6 i ≡ (
          if i == 12
          then false
          else (if b.is_active_low i
              then not (ex.payload i)
              else (ex.payload i || (v.dr6 i && not (b.is_trap_bit i)))))
  unfolding kvm_deliver_exception_payload payload_registers
  kvm_deliver_exception_payload-dr6 v ex i e has =
      rw (kvm_deliver_exception_payload, has, payload_registers, e) (ground arith)
