-- ===== src/Exception/UserSpace/RoundTrip.antt =====
-- An exception is migrated.
use pve_anti_detection.Prelude.{
  ◌≡◌, inl, inr, refl, true, false, not, ◌&&◌, ◌||◌, some, arith, Bool-cases,
}
use pve_anti_detection.Exception.{QueuedException, Vcpu, Backend}
use pve_anti_detection.Exception.UserSpace.{
  ReportedException, report, leaves_guest, read_slot, get_exception, is_nmi, adjust_events,
  set_exception,
}
use pve_anti_detection.Exception.Inject.Single.{IsOrderly}

module _ (b : Backend) where
  -- What is reported is accepted as it is, where payloads are enabled.
  report-adjust_events :
      (ex : QueuedException)
      → ex.pending && ex.injected ≡ false
      → b.is_soft ex.vector ≡ false
      → b.is_beyond ex.vector || is_nmi b ex.vector ≡ false
      → ex.has_payload && not ex.pending ≡ false
      → adjust_events b true true (report b true ex) ≡ some (report b true ex)
  unfolding adjust_events report
  report-adjust_events ex orderly hard known waits = elim (Bool-cases ex.pending) [
    | inl p ↦
        let not_injected : ex.injected ≡ false = ground arith in
        simp (adjust_events, report, hard, p, not_injected, known) refl
    | inr p ↦
        let no_payload : ex.has_payload ≡ false = ground arith in
        elim (Bool-cases ex.injected) [
          | inl i ↦ simp (adjust_events, report, hard, p, no_payload, known, i) refl
          | inr i ↦ simp (adjust_events, report, hard, p, no_payload, known, i) refl
        ]
  ]

  -- The exception that user space reads from a vCPU and writes to another makes that one hold the same, if
  -- payloads are enabled, the exception is not one of software and does not leave a nested guest, has a
  -- vector below 32 other than the NMI's, and a payload only while it is pending.
  pub set_exception-get_exception :
      (v w : Vcpu)
      → IsOrderly v
      → leaves_guest b v ≡ false
      → b.is_soft v.exception.vector ≡ false
      → b.is_beyond v.exception.vector || is_nmi b v.exception.vector ≡ false
      → v.exception.has_payload && not v.exception.pending ≡ false
      → (ev : ReportedException) × (adjust_events b true true (get_exception b true v).1 ≡ some ev)
        × ((set_exception b w ev).exception ≡ v.exception)
  unfolding get_exception read_slot set_exception report
  set_exception-get_exception v w orderly stays hard known waits =
      simp (get_exception, set_exception, stays)
        (
          report b true v.exception,
          report-adjust_events v.exception orderly hard known waits,
          simp (report, hard) refl,
        )
