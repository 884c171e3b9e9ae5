-- ===== src/Control/Tests.antt =====
-- The theorems on the control registers at concrete values.
use pve_anti_detection.Prelude.{◌≡◌, ◌==◌, ltb, ◌%◌, refl, true, false, some, [], ◌∷◌}
use pve_anti_detection.Control.{vmx, Cr0, Cr4, Vcpu, Backend, kvm_set_cr0, kvm_set_cr4}
use pve_anti_detection.Control.Debug.{
  IsPassedOn, DebugRegisters, Masks, kvm_set_dr, kvm_get_dr, kvm_get_dr-kvm_set_dr,
}
use pve_anti_detection.Control.Paging.{Cr3}
use pve_anti_detection.Control.Consistent.{IsConsistent}
use pve_anti_detection.Control.Writes.{writes_cr0, writes_cr4, here, next, Reach-IsConsistent}

-- A backend that takes everything.
abbrev backend : Backend
backend = record {
  is_valid_cr0 = λ v c. true;
  is_valid_cr4 = λ v c. true;
  vendor = vmx;
  has_efer = true;
  is_cs_l = λ v. false;
  is_64_bit_mode = λ v. false;
  tdp_enabled = true;
  without_reserved = λ rest. rest;
  has_reserved = λ v c. false;
  is_role_cr0 = λ old new. true;
  is_role_cr4 = λ old new. true;
  is_pdptr_cr0 = λ old new. true;
  is_pdptr_cr4 = λ old new. true;
  has_pcid = λ cr3. false;
  read_pdptes = λ v cr3. some (1 ∷ 2 ∷ 3 ∷ 4 ∷ []);
  is_bad_pdpte = λ v entry. false;
  is_same = λ old new. false;
  honors_cd = false;
}

-- PCIDs in the low 12 bits of CR3, and no flag above.
abbrev masks : Cr3
masks = record {
  has_noflush = λ cr3. false;
  without_noflush = λ cr3. cr3;
  pcid_of = λ cr3. cr3 % 4096;
  is_legal = λ v cr3. true;
  is_pae_paging = λ v. false;
  active_pcid = λ v. v.cr3 % 4096;
  get_pcid = λ v pgd. pgd % 4096;
  merge_msw = λ cr0 msw. cr0;
}

abbrev real_mode : Cr0
real_mode = record {
  pe = false;
  et = true;
  wp = false;
  nw = false;
  cd = false;
  pg = false;
  has_high = false;
  rest = 0;
}

abbrev no_features : Cr4
no_features = record {
  pae = false;
  pge = false;
  pcide = false;
  smep = false;
  la57 = false;
  rest = 0;
}

-- After a reset, but that the long mode is enabled.
abbrev vcpu : Vcpu
vcpu = record {
  cr0 = real_mode;
  cr3 = 0;
  cr4 = no_features;
  lme = true;
  lma = false;
  pdptrs = [];
  pdptrs_from_userspace = false;
  pdptrs_dirty = false;
  roots_freed = false;
  flush_guest = false;
  flush_current = false;
  load_mmu_pgd = false;
  mmu_initialized = false;
  mmu_reset = false;
  mmu_unloaded = false;
  async_pf_cleared = false;
  zapped = false;
  mmu_sync = false;
  new_pgd = false;
  cr3_dirty = false;
  prev_roots = [];
  freed_roots = [];
}

vcpu-IsConsistent : IsConsistent vcpu
vcpu-IsConsistent = record {
  paging = refl;
  caching = refl;
  long_mode = refl;
  pae = refl;
  pcid = refl;
}

-- PAE, and then paging in protected mode.
abbrev with_pae : Vcpu
with_pae = (kvm_set_cr4 backend vcpu (record no_features { pae = true })).0

abbrev paging : Cr0
paging = record real_mode { pe = true; pg = true }

Reach-IsConsistent_example : IsConsistent (kvm_set_cr0 backend with_pae paging).0
Reach-IsConsistent_example = Reach-IsConsistent backend masks refl vcpu-IsConsistent (
    next (next here (writes_cr4 vcpu (record no_features { pae = true })))
      (writes_cr0 with_pae paging))

-- Bits 0 to 3 are volatile, bit 10 is always set.
abbrev debug_masks : Masks
debug_masks = record {
  dr6_fixed_1 = λ i. i == 10;
  dr6_rtm = λ i. i == 16;
  dr6_bus_lock = λ i. i == 11;
  dr6_volatile = λ i. ltb i 4;
  dr7_volatile = λ i. ltb i 4;
  dr7_fixed_1 = λ i. i == 10;
  has_rtm = true;
  has_bus_lock_detect = true;
  is_dr6_valid = λ val. true;
  is_dr7_valid = λ val. true;
  has_bp = λ val. val 0;
}

abbrev debugged : DebugRegisters
debugged = record {
  uses_hw_bp = false;
  guest_debug_dr7 = λ i. false;
  db = λ dr i. false;
  eff_db = λ dr i. false;
  dr6 = λ i. false;
  dr7 = λ i. false;
  hw_dr7 = λ i. false;
  bp_enabled = false;
}

kvm_get_dr-kvm_set_dr_example :
    (kvm_get_dr (kvm_set_dr debug_masks debugged 6 (λ i. i == 2)).0 6 2 ≡ true)
    × IsPassedOn debug_masks (kvm_set_dr debug_masks debugged 6 (λ i. i == 2)).0
unfolding kvm_set_dr
kvm_get_dr-kvm_set_dr_example =
    kvm_get_dr-kvm_set_dr debug_masks debugged 6 (λ i. i == 2) 2 refl (refl, refl)
