-- ===== src/Control.antt =====
-- x86.c: the writes of CR0 and CR4 (lines 858 to 1009 and 1132 to 1220): `kvm_set_cr0` and `kvm_set_cr4`, with their
-- tests and with what follows a change.
--
-- A register is the bits that this code tells apart, and a number for all others. The backend, the masks of the
-- kernel's headers and the guest's memory are the parameter `Backend`; `is_paging`, `is_pae` and
-- `is_long_mode` are CR0.PG, CR4.PAE and EFER.LMA.
pub mod Consistent
pub mod Paging
pub mod Debug
pub mod Writes
mod Tests
use pve_anti_detection.Prelude.{
  ℕ, Bool, true, false, not, ◌&&◌, ◌||◌, Option, none, some, List, [], ◌∷◌, ◌==◌, if◌then◌else◌,
  differ,
}

-- `has_high`: a bit above 31; `rest`: the bits without a field.
pub record Cr0 : Type 0 where
  pub pe : Bool
  pub et : Bool
  pub wp : Bool
  pub nw : Bool
  pub cd : Bool
  pub pg : Bool
  pub has_high : Bool
  pub rest : ℕ

pub record Cr4 : Type 0 where
  pub pae : Bool
  pub pge : Bool
  pub pcide : Bool
  pub smep : Bool
  pub la57 : Bool
  pub rest : ℕ

-- `prev_roots` are the page tables of earlier values of CR3, and `freed_roots` tells which of them the MMU was last
-- told to free. The other fields after `pdptrs_from_userspace` are requests, and calls into the MMU, that were made.
pub record Vcpu : Type 0 where
  pub cr0 : Cr0
  pub cr3 : ℕ
  pub cr4 : Cr4
  pub lme : Bool
  pub lma : Bool
  pub pdptrs : List ℕ
  pub pdptrs_from_userspace : Bool
  pub pdptrs_dirty : Bool
  pub roots_freed : Bool
  pub flush_guest : Bool
  pub flush_current : Bool
  pub load_mmu_pgd : Bool
  pub mmu_initialized : Bool
  pub mmu_reset : Bool
  pub mmu_unloaded : Bool
  pub async_pf_cleared : Bool
  pub zapped : Bool
  pub mmu_sync : Bool
  pub new_pgd : Bool
  pub cr3_dirty : Bool
  pub prev_roots : List ℕ
  pub freed_roots : List Bool

pub data Vendor : Type 0 where
  vmx svm : Vendor

pub record Backend : Type 0 where
  pub is_valid_cr0 : Vcpu → Cr0 → Bool
  pub is_valid_cr4 : Vcpu → Cr4 → Bool
  -- which of the two backends it is, and whether the host has the register EFER
  pub vendor : Vendor
  pub has_efer : Bool
  pub is_cs_l : Vcpu → Bool
  pub is_64_bit_mode : Vcpu → Bool
  pub tdp_enabled : Bool
  -- `& ~CR0_RESERVED_BITS`, and the two tests of reserved bits of CR4
  pub without_reserved : ℕ → ℕ
  pub has_reserved : Vcpu → Cr4 → Bool
  -- the bits of `KVM_MMU_CR0_ROLE_BITS`, `X86_CR0_PDPTR_BITS` and their like for CR4 that changed
  pub is_role_cr0 : Cr0 → Cr0 → Bool
  pub is_role_cr4 : Cr4 → Cr4 → Bool
  pub is_pdptr_cr0 : Cr0 → Cr0 → Bool
  pub is_pdptr_cr4 : Cr4 → Cr4 → Bool
  -- `cr3 & X86_CR3_PCID_MASK` is not 0
  pub has_pcid : ℕ → Bool
  -- the four entries in the guest's memory, none where the address or the read fails
  pub read_pdptes : Vcpu → ℕ → Option (List ℕ)
  -- an entry is present and has a reserved bit
  pub is_bad_pdpte : Vcpu → ℕ → Bool
  -- the comparison of the entries by `memcmp`
  pub is_same : List ℕ → List ℕ → Bool
  -- `kvm_mmu_honors_guest_mtrrs`, without `KVM_X86_QUIRK_CD_NW_CLEARED`
  pub honors_cd : Bool

-- The backends' writes of CR0 and CR4, as far as the registers that the guest sees go: what they write to the
-- hardware's control structures is not part of the vCPU here.
unfoldable pub svm_set_cr0 : Vcpu → Cr0 → Vcpu
svm_set_cr0 v cr0 =
    let entered = if not v.cr0.pg && cr0.pg then record v { lma = true } else v in
    let left = if v.cr0.pg && not cr0.pg then record entered { lma = false } else entered in
    record (if v.lme then left else v) { cr0 = cr0 }

unfoldable pub svm_set_cr4 : Vcpu → Cr4 → Vcpu
svm_set_cr4 v cr4 = record v { cr4 = cr4 }

-- `EFER.LMA`, where the host has the register.
unfoldable pub set_lma : Bool → Vcpu → Bool → Vcpu
set_lma has_efer v lma = if not has_efer then v else record v { lma = lma }

unfoldable pub enter_lmode : Bool → Vcpu → Vcpu
unfolding set_lma
enter_lmode has_efer v = set_lma has_efer v true

unfoldable pub exit_lmode : Bool → Vcpu → Vcpu
unfolding set_lma
exit_lmode has_efer v = set_lma has_efer v false

unfoldable pub vmx_set_cr0 : Bool → Vcpu → Cr0 → Vcpu
unfolding enter_lmode exit_lmode
vmx_set_cr0 has_efer v cr0 =
    let old_cr0_pg = v.cr0.pg in
    let w = record v { cr0 = cr0 } in
    if w.lme
    then (if not old_cr0_pg && cr0.pg
        then enter_lmode has_efer w
        else (if old_cr0_pg && not cr0.pg then exit_lmode has_efer w else w))
    else w

unfoldable pub vmx_set_cr4 : Vcpu → Cr4 → Vcpu
vmx_set_cr4 v cr4 = record v { cr4 = cr4 }

-- The calls through `kvm_x86_ops`.
unfoldable pub set_cr0 : Backend → Vcpu → Cr0 → Vcpu
set_cr0 b v cr0 = elim b.vendor [ vmx ↦ vmx_set_cr0 b.has_efer v cr0 | svm ↦ svm_set_cr0 v cr0 ]

unfoldable pub set_cr4 : Backend → Vcpu → Cr4 → Vcpu
set_cr4 b v cr4 = elim b.vendor [ vmx ↦ vmx_set_cr4 v cr4 | svm ↦ svm_set_cr4 v cr4 ]

module _ (b : Backend) where
  abbrev pub any_bad : Vcpu → List ℕ → Bool
  any_bad v [] = false
  any_bad v (e ∷ es) = b.is_bad_pdpte v e || any_bad v es

  -- The vCPU, and whether all entries are valid.
  unfoldable pub load_pdptrs : Vcpu → ℕ → Vcpu × Bool
  load_pdptrs v cr3 = elim (b.read_pdptes v cr3) [
    | none ↦ (v, false)
    | some entries ↦ if any_bad v entries then (v, false) else (
      record v {
        roots_freed = (not b.tdp_enabled && not (b.is_same v.pdptrs entries)) || v.roots_freed;
        pdptrs = entries;
        pdptrs_dirty = true;
        load_mmu_pgd = true;
        pdptrs_from_userspace = false;
      },
      true,
    )
  ]

  unfoldable pub kvm_is_valid_cr0 : Vcpu → Cr0 → Bool
  kvm_is_valid_cr0 v cr0 =
      if cr0.has_high
      then false
      else (if cr0.nw && not cr0.cd
          then false
          else (if cr0.pg && not cr0.pe then false else b.is_valid_cr0 v cr0))

  -- `(cr0 ^ old_cr0) == X86_CR0_WP`
  abbrev pub is_only_wp : Cr0 → Cr0 → Bool
  is_only_wp old new =
      differ old.wp new.wp
      && not (differ old.pe new.pe)
      && not (differ old.et new.et)
      && not (differ old.nw new.nw)
      && not (differ old.cd new.cd)
      && not (differ old.pg new.pg)
      && old.rest == new.rest

  unfoldable pub kvm_post_set_cr0 : Vcpu → Cr0 → Cr0 → Vcpu
  kvm_post_set_cr0 v old new =
      if is_only_wp old new && not new.pg
      then v
      else (if is_only_wp old new && b.tdp_enabled
          then record v { mmu_initialized = true }
          else record v {
            async_pf_cleared = differ old.pg new.pg || v.async_pf_cleared;
            flush_guest = (differ old.pg new.pg && not new.pg) || v.flush_guest;
            mmu_reset = b.is_role_cr0 old new || v.mmu_reset;
            zapped = (differ old.cd new.cd && b.honors_cd) || v.zapped;
          })

  -- The result is true for 0, false for 1.
  unfoldable pub kvm_set_cr0 : Vcpu → Cr0 → Vcpu × Bool
  kvm_set_cr0 v value =
      let old = v.cr0 in
      let cr0 = record value { et = true; rest = b.without_reserved value.rest } in
      let enters_long_mode = v.lme && not old.pg && cr0.pg in
      let needs_pdptrs = not v.lme && cr0.pg && v.cr4.pae && b.is_pdptr_cr0 old cr0 in
      let loaded = load_pdptrs v v.cr3 in
      let w = if needs_pdptrs then loaded.0 else v in
      if not (kvm_is_valid_cr0 v value)
      then (v, false)
      else (if enters_long_mode && (not v.cr4.pae || b.is_cs_l v)
          then (v, false)
          else (if needs_pdptrs && not loaded.1
              then (v, false)
              else (if not cr0.pg && (b.is_64_bit_mode w || w.cr4.pcide)
                  then (w, false)
                  else (kvm_post_set_cr0 (set_cr0 b w cr0) old cr0, true))))

  unfoldable pub kvm_is_valid_cr4 : Vcpu → Cr4 → Bool
  kvm_is_valid_cr4 v cr4 = not (b.has_reserved v cr4) && b.is_valid_cr4 v cr4

  unfoldable pub kvm_post_set_cr4 : Vcpu → Cr4 → Cr4 → Vcpu
  kvm_post_set_cr4 v old new =
      let guest = differ new.pge old.pge || (not new.pcide && old.pcide) in
      let current = differ new.pae old.pae || (new.smep && not old.smep) in
      record v {
        mmu_reset = b.is_role_cr4 old new || v.mmu_reset;
        mmu_unloaded = (not b.tdp_enabled && new.pcide && not old.pcide) || v.mmu_unloaded;
        flush_guest = guest || v.flush_guest;
        flush_current = (not guest && current) || v.flush_current;
      }

  unfoldable pub kvm_set_cr4 : Vcpu → Cr4 → Vcpu × Bool
  kvm_set_cr4 v cr4 =
      let old = v.cr4 in
      let needs_pdptrs = not v.lma && v.cr0.pg && cr4.pae && b.is_pdptr_cr4 old cr4 in
      let loaded = load_pdptrs v v.cr3 in
      let w = if needs_pdptrs then loaded.0 else v in
      if not (kvm_is_valid_cr4 v cr4)
      then (v, false)
      else (if v.lma && (not cr4.pae || differ cr4.la57 old.la57)
          then (v, false)
          else (if needs_pdptrs && not loaded.1
              then (v, false)
              else (if (cr4.pcide && not old.pcide) && (b.has_pcid w.cr3 || not w.lma)
                  then (w, false)
                  else (kvm_post_set_cr4 (set_cr4 b w cr4) old cr4, true))))
