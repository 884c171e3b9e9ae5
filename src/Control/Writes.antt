-- ===== src/Control/Writes.antt =====
-- Sequences of writes of the control registers.
use pve_anti_detection.Prelude.{
  ℕ, ◌≡◌, refl, Bool, true, not, ◌&&◌, ◌||◌, ◌==◌, if◌then◌else◌, if_cases,
}
use pve_anti_detection.Control.{Cr0, Cr4, Vcpu, Backend, load_pdptrs, kvm_set_cr0, kvm_set_cr4}
use pve_anti_detection.Control.Paging.{
  Cr3, kvm_invalidate_pcid, handle_tlb_flush, kvm_set_cr3, kvm_lmsw,
}
use pve_anti_detection.Control.Consistent.{
  IsConsistent, Same, IsConsistent-Same, maybe_loaded-Same, kvm_set_cr0-IsConsistent,
  kvm_set_cr4-IsConsistent,
}

-- A write of a register, of any value, taken or refused.
pub data Step (b : Backend) (c : Cr3) : Vcpu → Vcpu → Type 0 where
  writes_cr0 : (v : Vcpu) (value : Cr0) → Step b c v (kvm_set_cr0 b v value).0
  writes_msw : (v : Vcpu) (msw : ℕ) → Step b c v (kvm_lmsw b c v msw)
  writes_cr3 : (v : Vcpu) (value : ℕ) → Step b c v (kvm_set_cr3 b c v value).0
  writes_cr4 : (v : Vcpu) (value : Cr4) → Step b c v (kvm_set_cr4 b v value).0

pub data Reach (b : Backend) (c : Cr3) (v : Vcpu) : Vcpu → Type 0 where
  here : Reach b c v v
  next : {u w : Vcpu} → Reach b c v u → Step b c u w → Reach b c v w

module _ (b : Backend) (c : Cr3) where
  handle_tlb_flush-Same :
      (v : Vcpu) (skip : Bool) (pcid : ℕ) → Same v (handle_tlb_flush b c v skip pcid)
  unfolding handle_tlb_flush kvm_invalidate_pcid
  handle_tlb_flush-Same v skip pcid =
      if_cases (Same v) skip v _ (λ skips. (refl, refl, refl, refl))
        (λ flushes.
          if_cases (Same v) b.tdp_enabled (record v { flush_guest = true }) _
            (λ tdp. (refl, refl, refl, refl))
            (λ shadow.
              if_cases (Same v) (not v.cr4.pcide) _ _ (λ off. (refl, refl, refl, refl))
                (λ on. (refl, refl, refl, refl))))

  kvm_set_cr3-IsConsistent :
      (v : Vcpu) (value : ℕ) → IsConsistent v → IsConsistent (kvm_set_cr3 b c v value).0
  unfolding kvm_set_cr3
  kvm_set_cr3-IsConsistent v value h =
      let skip = v.cr4.pcide && c.has_noflush value in
      let cr3 = if v.cr4.pcide then c.without_noflush value else value in
      let pcid = if v.cr4.pcide then c.pcid_of cr3 else 0 in
      let loaded = load_pdptrs b v cr3 in
      let w = if c.is_pae_paging v then loaded.0 else v in
      let changed = record w {
        new_pgd = not (cr3 == w.cr3) || w.new_pgd;
        cr3 = cr3;
        cr3_dirty = true;
      } in
      let same : Same v changed = maybe_loaded-Same b v cr3 (c.is_pae_paging v) in
      let P : Vcpu × Bool → Type 0 = λ r. IsConsistent r.0 in
      if_cases P (cr3 == v.cr3 && not (c.is_pae_paging v)) _ _
        (λ as_before. IsConsistent-Same v _ (handle_tlb_flush-Same v skip pcid) h)
        (λ other.
          if_cases P (not (c.is_legal v cr3)) _ _ (λ bad. h)
            (λ legal.
              if_cases P (c.is_pae_paging v && not loaded.1) _ _ (λ bad. h)
                (λ taken.
                  IsConsistent-Same changed _ (handle_tlb_flush-Same changed skip pcid)
                    (IsConsistent-Same v changed same h))))

  Step-IsConsistent :
      {v w : Vcpu} → b.has_efer ≡ true → Step b c v w → IsConsistent v → IsConsistent w
  unfolding kvm_lmsw
  Step-IsConsistent backend (writes_cr0 v value) h = kvm_set_cr0-IsConsistent b v value backend h
  Step-IsConsistent backend (writes_msw v msw) h =
      kvm_set_cr0-IsConsistent b v (c.merge_msw v.cr0 msw) backend h
  Step-IsConsistent backend (writes_cr3 v value) h = kvm_set_cr3-IsConsistent v value h
  Step-IsConsistent backend (writes_cr4 v value) h = kvm_set_cr4-IsConsistent b v value h

  -- No sequence of writes of CR0, also by LMSW, CR3 and CR4 leads a consistent vCPU out of the states that the
  -- architecture allows: paging only in protected mode, no write-through without caching, the long mode
  -- exactly where it is enabled with paging, and then with PAE, and PCIDs only in the long mode; with
  -- either backend, on a host with the register EFER.
  pub Reach-IsConsistent :
      {v w : Vcpu} → b.has_efer ≡ true → IsConsistent v → Reach b c v w → IsConsistent w
  Reach-IsConsistent backend h here = h
  Reach-IsConsistent backend h (next r s) =
      Step-IsConsistent backend s (Reach-IsConsistent backend h r)
