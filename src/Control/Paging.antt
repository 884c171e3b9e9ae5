-- ===== src/Control/Paging.antt =====
-- x86.c: the write of CR3 (lines 1223 to 1312): `kvm_set_cr3` and `kvm_invalidate_pcid`; and `kvm_lmsw` (lines 1012 to
-- 1015).
use pve_anti_detection.Prelude.{ℕ, Bool, true, false, not, ◌&&◌, ◌||◌, map, ◌==◌, if◌then◌else◌}
use pve_anti_detection.Control.{Cr0, Vcpu, Backend, load_pdptrs, kvm_set_cr0}

-- The masks of CR3, and functions of the kernel that are not in the repository.
pub record Cr3 : Type 0 where
  pub has_noflush : ℕ → Bool
  pub without_noflush : ℕ → ℕ
  pub pcid_of : ℕ → ℕ
  pub is_legal : Vcpu → ℕ → Bool
  pub is_pae_paging : Vcpu → Bool
  pub active_pcid : Vcpu → ℕ
  pub get_pcid : Vcpu → ℕ → ℕ
  -- `(old & ~0x0e) | (msw & 0x0f)` on CR0
  pub merge_msw : Cr0 → ℕ → Cr0

module _ (b : Backend) (c : Cr3) where
  unfoldable pub kvm_invalidate_pcid : Vcpu → ℕ → Vcpu
  kvm_invalidate_pcid v pcid =
      let is_active = c.active_pcid v == pcid in
      let w = record v {
        mmu_sync = is_active || v.mmu_sync;
        flush_current = is_active || v.flush_current;
      } in
      if b.tdp_enabled
      then record v { flush_guest = true }
      else (if not v.cr4.pcide
          then w
          else record w { freed_roots = map (λ pgd. c.get_pcid v pgd == pcid) v.prev_roots })

  -- The code at the label `handle_tlb_flush`.
  unfoldable pub handle_tlb_flush : Vcpu → Bool → ℕ → Vcpu
  handle_tlb_flush v skip_tlb_flush pcid = if skip_tlb_flush then v else kvm_invalidate_pcid v pcid

  -- The result is true for 0, false for 1.
  unfoldable pub kvm_set_cr3 : Vcpu → ℕ → Vcpu × Bool
  kvm_set_cr3 v value =
      let skip_tlb_flush = v.cr4.pcide && c.has_noflush value in
      let cr3 = if v.cr4.pcide then c.without_noflush value else value in
      let pcid = if v.cr4.pcide then c.pcid_of cr3 else 0 in
      let loaded = load_pdptrs b v cr3 in
      let w = if c.is_pae_paging v then loaded.0 else v in
      let changed = record w {
        new_pgd = not (cr3 == w.cr3) || w.new_pgd;
        cr3 = cr3;
        cr3_dirty = true;
      } in
      if cr3 == v.cr3 && not (c.is_pae_paging v)
      then (handle_tlb_flush v skip_tlb_flush pcid, true)
      else (if not (c.is_legal v cr3)
          then (v, false)
          else (if c.is_pae_paging v && not loaded.1
              then (v, false)
              else (handle_tlb_flush changed skip_tlb_flush pcid, true)))

  unfoldable pub kvm_lmsw : Vcpu → ℕ → Vcpu
  kvm_lmsw v msw = (kvm_set_cr0 b v (c.merge_msw v.cr0 msw)).0
