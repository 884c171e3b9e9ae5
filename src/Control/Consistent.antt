-- ===== src/Control/Consistent.antt =====
-- CR0, CR4 and the long mode stay consistent, in whatever order they are written.
use pve_anti_detection.Prelude.{
  ℕ, ◌≡◌, inl, inr, refl, Bool, true, false, not, ◌&&◌, ◌||◌, arith, if◌then◌else◌, if_cases,
  Option-cases, differ,
}
use pve_anti_detection.Control.{
  Cr0, Cr4, Vcpu, Backend, vmx, svm, vmx_set_cr0, svm_set_cr0, vmx_set_cr4, svm_set_cr4, set_lma,
  enter_lmode, exit_lmode, set_cr0, set_cr4, load_pdptrs, any_bad, is_only_wp, kvm_is_valid_cr0,
  kvm_is_valid_cr4, kvm_post_set_cr0, kvm_set_cr0, kvm_post_set_cr4, kvm_set_cr4,
}

-- As the architecture wants it: paging only in protected mode, no write-through without caching; the long mode is
-- active exactly where it is enabled with paging, and then PAE is set; and PCIDs only in the long mode.
pub record IsConsistent (v : Vcpu) : Type 0 where
  pub paging : v.cr0.pg && not v.cr0.pe ≡ false
  pub caching : v.cr0.nw && not v.cr0.cd ≡ false
  pub long_mode : v.lma ≡ (v.lme && v.cr0.pg)
  pub pae : v.lma && not v.cr4.pae ≡ false
  pub pcid : v.cr4.pcide && not v.lma ≡ false

-- What the backends do with a value that they are given.
vmx_set_cr0_lem :
    (has_efer : Bool) (v : Vcpu) (c : Cr0)
    → has_efer ≡ true
    → v.lma ≡ (v.lme && v.cr0.pg)
    → ((vmx_set_cr0 has_efer v c).cr0 ≡ c)
      × ((vmx_set_cr0 has_efer v c).cr4 ≡ v.cr4)
      × ((vmx_set_cr0 has_efer v c).lme ≡ v.lme)
      × ((vmx_set_cr0 has_efer v c).lma ≡ (v.lme && c.pg))
unfolding vmx_set_cr0 enter_lmode exit_lmode set_lma
vmx_set_cr0_lem has_efer v c has long = (ground arith, ground arith, ground arith, ground arith)

svm_set_cr0_lem :
    (v : Vcpu) (c : Cr0)
    → v.lma ≡ (v.lme && v.cr0.pg)
    → ((svm_set_cr0 v c).cr0 ≡ c)
      × ((svm_set_cr0 v c).cr4 ≡ v.cr4)
      × ((svm_set_cr0 v c).lme ≡ v.lme)
      × ((svm_set_cr0 v c).lma ≡ (v.lme && c.pg))
unfolding svm_set_cr0
svm_set_cr0_lem v c long = (ground arith, ground arith, ground arith, ground arith)

set_cr0_lem :
    (b : Backend) (v : Vcpu) (c : Cr0)
    → b.has_efer ≡ true
    → v.lma ≡ (v.lme && v.cr0.pg)
    → ((set_cr0 b v c).cr0 ≡ c)
      × ((set_cr0 b v c).cr4 ≡ v.cr4)
      × ((set_cr0 b v c).lme ≡ v.lme)
      × ((set_cr0 b v c).lma ≡ (v.lme && c.pg))
unfolding set_cr0
set_cr0_lem b v c has long =
    elim b.vendor
      as (λ x.
        let w : Vcpu = elim x [ vmx ↦ vmx_set_cr0 b.has_efer v c | svm ↦ svm_set_cr0 v c ] in
        (w.cr0 ≡ c) × (w.cr4 ≡ v.cr4) × (w.lme ≡ v.lme) × (w.lma ≡ (v.lme && c.pg))) [
          | vmx ↦ vmx_set_cr0_lem b.has_efer v c has long
          | svm ↦ svm_set_cr0_lem v c long
        ]

set_cr4_lem : (b : Backend) (v : Vcpu) (c : Cr4) → set_cr4 b v c ≡ record v { cr4 = c }
unfolding set_cr4 vmx_set_cr4 svm_set_cr4
set_cr4_lem b v c =
    elim b.vendor
      as (λ x.
        let w : Vcpu = elim x [ vmx ↦ vmx_set_cr4 v c | svm ↦ svm_set_cr4 v c ] in
        w ≡ record v { cr4 = c }) [ vmx ↦ refl | svm ↦ refl ]

-- The same control registers and mode.
abbrev pub Same : Vcpu → Vcpu → Type 0
Same v w = (w.cr0 ≡ v.cr0) × (w.cr4 ≡ v.cr4) × (w.lme ≡ v.lme) × (w.lma ≡ v.lma)

pub IsConsistent-Same : (v w : Vcpu) → Same v w → IsConsistent v → IsConsistent w
IsConsistent-Same v w (e0, e4, e, a) c = record {
  paging = rw e0 c.paging;
  caching = rw e0 c.caching;
  long_mode = rw (e0, e, a) c.long_mode;
  pae = rw (e4, a) c.pae;
  pcid = rw (e4, a) c.pcid;
}

module _ (b : Backend) where
  load_pdptrs-Same : (v : Vcpu) (cr3 : ℕ) → Same v (load_pdptrs b v cr3).0
  unfolding load_pdptrs
  load_pdptrs-Same v cr3 = elim (Option-cases (b.read_pdptes v cr3)) [
    | inl e ↦ simp (load_pdptrs, e) (refl, refl, refl, refl)
    | inr (es, e) ↦
        simp (load_pdptrs, e)
          (if_cases {A = Vcpu × Bool} (λ r. Same v r.0) (any_bad b v es) _ _
            (λ bad. (refl, refl, refl, refl)) (λ good. (refl, refl, refl, refl)))
  ]

  kvm_post_set_cr0-Same : (v : Vcpu) (old new : Cr0) → Same v (kvm_post_set_cr0 b v old new)
  unfolding kvm_post_set_cr0
  kvm_post_set_cr0-Same v old new =
      if_cases (Same v) (is_only_wp b old new && not new.pg) v _ (λ off. (refl, refl, refl, refl))
        (λ on.
          if_cases (Same v) (is_only_wp b old new && b.tdp_enabled)
            (record v { mmu_initialized = true }) _ (λ tdp. (refl, refl, refl, refl))
            (λ other. (refl, refl, refl, refl)))

  -- The vCPU with its entries loaded or not.
  pub maybe_loaded-Same :
      (v : Vcpu) (cr3 : ℕ) (needs : Bool) → Same v (if needs then (load_pdptrs b v cr3).0 else v)
  maybe_loaded-Same v cr3 needs =
      if_cases (Same v) needs _ v (λ n. load_pdptrs-Same v cr3) (λ n. (refl, refl, refl, refl))

  -- A value that passes the test.
  kvm_is_valid_cr0-bits :
      (v : Vcpu) (c : Cr0)
      → kvm_is_valid_cr0 b v c ≡ true
      → (c.pg && not c.pe ≡ false) × (c.nw && not c.cd ≡ false)
  unfolding kvm_is_valid_cr0
  kvm_is_valid_cr0-bits v c ok = (ground arith, ground arith)

  -- The new value, once the tests are passed.
  set_cr0-IsConsistent :
      (v : Vcpu) (c : Cr0)
      → b.has_efer ≡ true
      → IsConsistent v
      → c.pg && not c.pe ≡ false
      → c.nw && not c.cd ≡ false
      → (v.lme && not v.cr0.pg && c.pg) && not v.cr4.pae ≡ false
      → not c.pg && v.cr4.pcide ≡ false
      → IsConsistent (set_cr0 b v c)
  set_cr0-IsConsistent v c backend h paging caching enters leaves =
      let (e0, e4, e, a) = set_cr0_lem b v c backend h.long_mode in
      let long_mode = h.long_mode in
      let pae = h.pae in
      let pcid = h.pcid in
      record {
        paging = rw e0 paging;
        caching = rw e0 caching;
        long_mode = rw (a, e, e0) refl;
        pae = rw (a, e4) (ground arith);
        pcid = rw (a, e4) (ground arith);
      }

  set_cr4-IsConsistent :
      (v : Vcpu) (c : Cr4)
      → IsConsistent v
      → v.lma && not c.pae ≡ false
      → (c.pcide && not v.cr4.pcide) && not v.lma ≡ false
      → IsConsistent (set_cr4 b v c)
  set_cr4-IsConsistent v c h keeps_pae enables =
      let pcid = h.pcid in
      rw (set_cr4_lem b v c) (record {
        paging = h.paging;
        caching = h.caching;
        long_mode = h.long_mode;
        pae = keeps_pae;
        pcid = ground arith;
      })

  -- A write of CR0, taken or refused, keeps the registers consistent.
  pub kvm_set_cr0-IsConsistent :
      (v : Vcpu) (value : Cr0)
      → b.has_efer ≡ true
      → IsConsistent v
      → IsConsistent (kvm_set_cr0 b v value).0
  unfolding kvm_set_cr0
  kvm_set_cr0-IsConsistent v value backend h =
      let cr0 = record value { et = true; rest = b.without_reserved value.rest } in
      let needs = not v.lme && cr0.pg && v.cr4.pae && b.is_pdptr_cr0 v.cr0 cr0 in
      let loaded = load_pdptrs b v v.cr3 in
      let w = if needs then loaded.0 else v in
      let same : Same v w = maybe_loaded-Same v v.cr3 needs in
      let hw : IsConsistent w = IsConsistent-Same v w same h in
      let P : Vcpu × Bool → Type 0 = λ r. IsConsistent r.0 in
      if_cases P (not (kvm_is_valid_cr0 b v value)) _ _ (λ bad. h)
        (λ valid.
          let (paging, caching) = kvm_is_valid_cr0-bits v value (ground arith) in
          if_cases P ((v.lme && not v.cr0.pg && cr0.pg) && (not v.cr4.pae || b.is_cs_l v)) _ _
            (λ bad. h)
            (λ enters.
              if_cases P (needs && not loaded.1) _ _ (λ bad. h)
                (λ loads.
                  if_cases P (not cr0.pg && (b.is_64_bit_mode w || w.cr4.pcide)) _ _ (λ bad. hw)
                    (λ leaves.
                      let (e0, e4, e, a) = same in
                      IsConsistent-Same (set_cr0 b w cr0) _
                        (kvm_post_set_cr0-Same (set_cr0 b w cr0) v.cr0 cr0)
                        (set_cr0-IsConsistent w cr0 backend hw paging caching
                          (rw (e0, e4, e) (ground arith)) (ground arith))))))

  -- The same of a write of CR4.
  pub kvm_set_cr4-IsConsistent :
      (v : Vcpu) (value : Cr4) → IsConsistent v → IsConsistent (kvm_set_cr4 b v value).0
  unfolding kvm_set_cr4 kvm_post_set_cr4
  kvm_set_cr4-IsConsistent v cr4 h =
      let needs = not v.lma && v.cr0.pg && cr4.pae && b.is_pdptr_cr4 v.cr4 cr4 in
      let loaded = load_pdptrs b v v.cr3 in
      let w = if needs then loaded.0 else v in
      let same : Same v w = maybe_loaded-Same v v.cr3 needs in
      let hw : IsConsistent w = IsConsistent-Same v w same h in
      let P : Vcpu × Bool → Type 0 = λ r. IsConsistent r.0 in
      if_cases P (not (kvm_is_valid_cr4 b v cr4)) _ _ (λ bad. h)
        (λ valid.
          if_cases P (v.lma && (not cr4.pae || differ cr4.la57 v.cr4.la57)) _ _ (λ bad. h)
            (λ keeps.
              if_cases P (needs && not loaded.1) _ _ (λ bad. h)
                (λ loads.
                  if_cases P ((cr4.pcide && not v.cr4.pcide) && (b.has_pcid w.cr3 || not w.lma)) _ _
                    (λ bad. hw)
                    (λ enables.
                      let (e0, e4, e, a) = same in
                      IsConsistent-Same (set_cr4 b w cr4) _ (refl, refl, refl, refl)
                        (set_cr4-IsConsistent w cr4 hw (rw a (ground arith))
                          (rw e4 (ground arith)))))))
