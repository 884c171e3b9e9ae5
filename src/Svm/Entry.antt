-- ===== src/Svm/Entry.antt =====
-- One entry into a guest: the vCPU keeps its identifier or gets a new one.
use pve_anti_detection.Prelude.{
  ℕ, ◌+◌, ◌-◌, ◌^◌, ◌≤◌, ◌≡◌, inl, inr, refl, sym, ◌∙◌, Bool, true, false, arith, ltb, ◌==◌,
  if◌then◌else◌, u32, u64, Bool-cases, if_cases, ==_iff,
}
use pve_anti_detection.Svm.{
  CpuData, VcpuSvm, current_vmcb, init_asid, new_asid, move_vmcb, sync_asid, pre_svm_run,
  svm_vcpu_run, after_run, svm_flush_tlb_asid,
}

-- A vCPU that runs no guest of its guest, and is not encrypted.
abbrev pub IsPlain : VcpuSvm → Type 0
IsPlain v = (v.is_guest_mode ≡ false) × (v.sev ≡ false)

-- What one entry into the guest does to the identifiers of the processor and of the vCPU.
pub data Entry (v : VcpuSvm) (sd : CpuData) (v' : VcpuSvm) (sd' : CpuData) : Type 0 where
  kept :
      v.vmcb01.cpu ≡ v.cpu
      → v.vmcb01.asid_generation ≡ sd.asid_generation
      → v'.asid ≡ v.asid
      → sd' ≡ sd
      → Entry v sd v' sd'
  taken :
      sd.next_asid ≤ sd.max_asid
      → v'.asid ≡ sd.next_asid
      → sd' ≡ record sd { next_asid = u32 (sd.next_asid + 1) }
      → Entry v sd v' sd'
  wrapped :
      v'.asid ≡ sd.min_asid
      → sd' ≡ record sd {
        asid_generation = u64 (sd.asid_generation + 1);
        next_asid = u32 (sd.min_asid + 1);
      }
      → Entry v sd v' sd'

-- In any case, the vCPU is in the processor's generation.
abbrev pub IsEntered : VcpuSvm → VcpuSvm → CpuData → Type 0
IsEntered v v' sd' =
    IsPlain v' × (v'.vmcb01.cpu ≡ v.cpu) × (v'.vmcb01.asid_generation ≡ sd'.asid_generation)

-- The parts of a vCPU that the identifiers are about.
pub record SameAsid (v v' : VcpuSvm) : Type 0 where
  pub plain : IsPlain v'
  pub cpu : v'.vmcb01.cpu ≡ v.vmcb01.cpu
  pub generation : v'.vmcb01.asid_generation ≡ v.vmcb01.asid_generation
  pub asid : v'.asid ≡ v.asid

sync_asid_lem : (v : VcpuSvm) → IsPlain v → SameAsid v (sync_asid v)
unfolding sync_asid
sync_asid_lem v (first, plain) = record {
  plain = (ground arith, ground arith);
  cpu = ground arith;
  generation = ground arith;
  asid = ground arith;
}

after_run_lem : (v : VcpuSvm) → IsPlain v → SameAsid v (after_run v)
unfolding after_run
after_run_lem v (first, plain) = record {
  plain = (ground arith, ground arith);
  cpu = ground arith;
  generation = ground arith;
  asid = ground arith;
}

move_vmcb_lem :
    (v : VcpuSvm)
    → IsPlain v
    → let v' = move_vmcb v in
      IsPlain v'
      × (v'.cpu ≡ v.cpu)
      × (v'.asid ≡ v.asid)
      × (v'.vmcb01.cpu ≡ v.cpu)
      × (v'.vmcb01.asid_generation
          ≡ (if v.vmcb01.cpu == v.cpu then v.vmcb01.asid_generation else 0))
unfolding move_vmcb
move_vmcb_lem v (first, plain) =
    ((ground arith, ground arith), ground arith, ground arith, ground arith, ground arith)

new_asid_lem :
    (v : VcpuSvm) (sd : CpuData)
    → IsPlain v
    → let after = new_asid v sd in
      IsPlain after.0
      × (after.0.vmcb01.cpu ≡ v.vmcb01.cpu)
      × (after.0.vmcb01.asid_generation ≡ after.1.asid_generation)
      × (after.0.asid ≡ (if ltb sd.max_asid sd.next_asid then sd.min_asid else sd.next_asid))
unfolding new_asid
new_asid_lem v sd (first, plain) =
    ((ground arith, ground arith), ground arith, ground arith, ground arith)

new_asid-Entry :
    (v w : VcpuSvm) (sd : CpuData) → IsPlain w → Entry v sd (new_asid w sd).0 (new_asid w sd).1
unfolding new_asid
new_asid-Entry v w sd plain =
    let (p, c, g, a) = new_asid_lem w sd plain in
    elim (Bool-cases (ltb sd.max_asid sd.next_asid)) [
      | inl full ↦ wrapped (a ∙ rw full refl) (rw full refl)
      | inr free ↦ taken (ground arith) (a ∙ rw free refl) (rw free refl)
    ]

true-not-false : true ≡ false → ⊥
true-not-false e = cc

pre_svm_run_cases :
    (pre_sev_run : VcpuSvm → ℕ → VcpuSvm) (v : VcpuSvm) (sd : CpuData)
    → IsPlain v
    → 1 ≤ sd.asid_generation
    → let after = pre_svm_run pre_sev_run v sd in
      IsEntered v after.0 after.1 × Entry v sd after.0 after.1
unfolding pre_svm_run
pre_svm_run_cases pre_sev_run v sd plain pos =
    let moved = move_vmcb v in
    let (plain', on, same, c, g) = move_vmcb_lem v plain in
    let Good : VcpuSvm × CpuData → Type 0 =
      λ after. IsEntered v after.0 after.1 × Entry v sd after.0 after.1 in
    let info : (current_vmcb moved).asid_generation ≡ moved.vmcb01.asid_generation =
      rw plain'.0 refl in
    if_cases {A = VcpuSvm × CpuData} Good moved.sev _ _
      (λ sev. absurd (true-not-false (sym sev ∙ plain'.1)))
      (λ _.
        if_cases {A = VcpuSvm × CpuData} Good
          ((current_vmcb moved).asid_generation == sd.asid_generation) (moved, sd)
          (new_asid moved sd)
          (λ e.
            let current : moved.vmcb01.asid_generation ≡ sd.asid_generation =
              sym info ∙ (==_iff _ _).0 e in
            (
              (plain', c, current),
              kept (ground (arith, g, current)) (ground (arith, g, current)) same refl,
            ))
          (λ e.
            let (p, c', g', a) = new_asid_lem moved sd plain' in
            ((p, c' ∙ c, g'), new_asid-Entry v moved sd plain')))

Entry-SameAsid :
    {v v' v'' : VcpuSvm} {sd sd' : CpuData}
    → SameAsid v' v''
    → Entry v sd v' sd'
    → Entry v sd v'' sd'
Entry-SameAsid s (kept c g a e) = kept c g (s.asid ∙ a) e
Entry-SameAsid s (taken free a e) = taken free (s.asid ∙ a) e
Entry-SameAsid s (wrapped a e) = wrapped (s.asid ∙ a) e

pub svm_vcpu_run_cases :
    (pre_sev_run : VcpuSvm → ℕ → VcpuSvm) (v : VcpuSvm) (sd : CpuData)
    → IsPlain v
    → 1 ≤ sd.asid_generation
    → let after = svm_vcpu_run pre_sev_run v sd in
      IsEntered v after.0 after.1 × Entry v sd after.0 after.1
unfolding svm_vcpu_run
svm_vcpu_run_cases pre_sev_run v sd plain pos =
    let ((plain', c, g), entry) = pre_svm_run_cases pre_sev_run v sd plain pos in
    let s = sync_asid_lem (pre_svm_run pre_sev_run v sd).0 plain' in
    let t = after_run_lem (sync_asid (pre_svm_run pre_sev_run v sd).0) s.plain in
    (
      (t.plain, t.cpu ∙ s.cpu ∙ c, t.generation ∙ s.generation ∙ g),
      Entry-SameAsid t (Entry-SameAsid s entry),
    )

-- Flushing and resetting.
pub svm_flush_tlb_asid_lem :
    (flushbyasid : Bool) (v : VcpuSvm)
    → IsPlain v
    → let v' = svm_flush_tlb_asid flushbyasid v in
      IsPlain v'
      × (v'.vmcb01.cpu ≡ v.vmcb01.cpu)
      × (v'.asid ≡ v.asid)
      × (v'.vmcb01.asid_generation ≡ (
          if flushbyasid
          then v.vmcb01.asid_generation
          else u64 (v.vmcb01.asid_generation + (2 ^ 64 - 1))))
unfolding svm_flush_tlb_asid
svm_flush_tlb_asid_lem flushbyasid v (first, plain) =
    ((ground arith, ground arith), ground arith, ground arith, ground arith)

pub init_asid_lem :
    (v : VcpuSvm)
    → IsPlain v
    → let v' = init_asid v in
      IsPlain v' × (v'.vmcb01.cpu ≡ v.vmcb01.cpu) × (v'.vmcb01.asid_generation ≡ 0)
unfolding init_asid
init_asid_lem v (first, plain) = ((ground arith, ground arith), ground arith, ground arith)
