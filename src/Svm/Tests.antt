-- ===== src/Svm/Tests.antt =====
-- The identifiers of a host with two processors and three of them each.
use pve_anti_detection.Prelude.{ℕ, ◌≤◌, ◌≡◌, ◌≢◌, refl, Bool, true, false, arith}
use pve_anti_detection.Svm.{
  VcpuSvm, VmcbInfo, do_nothing, svm_switch_vmcb, new_asid, move_vmcb, sync_asid, pre_svm_run,
  svm_vcpu_run, after_run,
}
use pve_anti_detection.Svm.Machine.{
  Host, set_vcpu, run_vcpu, load, run, switch, IsInitial, Reach, start, later, Holds,
}
use pve_anti_detection.Svm.Unique.{Reach-distinct}

abbrev sev_run : VcpuSvm → ℕ → VcpuSvm
sev_run v cpu = v

abbrev vmcb : VmcbInfo
vmcb = record {
  cpu = 0;
  asid_generation = 0;
  control_asid = 0;
  tlb_ctl = do_nothing;
  dirty = false;
}

abbrev initial : Host
initial = record {
  cpus = λ c. record { asid_generation = 1; max_asid = 3; next_asid = 4; min_asid = 1 };
  vcpus = λ i. record {
    cpu = 0;
    asid = 0;
    sev = false;
    is_guest_mode = false;
    vmcb01 = vmcb;
    vmcb02 = vmcb;
  };
}

initial-IsInitial : IsInitial initial
initial-IsInitial = record {
  generation = λ c. refl;
  next = λ c. refl;
  some_free = λ c. omega arith;
  fits = λ c. omega arith;
  first = λ i. refl;
  plain = λ i. refl;
  fresh = λ i. refl;
}

-- Two vCPUs enter their guests on the first processor.
abbrev both : Host
both = run_vcpu sev_run (run_vcpu sev_run initial 0) 1

both-Reach : (nested : Bool) → Reach sev_run nested 2 both
both-Reach nested = later (later (start initial-IsInitial) (run 0)) (run 1)

Reach-distinct_example :
    ((both.vcpus 0).asid ≢ (both.vcpus 1).asid)
    × ((both.cpus 0).min_asid ≤ (both.vcpus 0).asid)
    × ((both.vcpus 0).asid ≤ (both.cpus 0).max_asid)
unfolding svm_vcpu_run pre_svm_run move_vmcb new_asid sync_asid after_run
Reach-distinct_example =
    Reach-distinct sev_run 0 0 1 (omega arith) (both-Reach false) (λ e. omega arith) (refl, refl)
      (refl, refl)

-- With a guest of a guest, they may come to share one. A third vCPU takes the first identifier of the
-- second processor. The first vCPU runs its second block there, with the second identifier, and goes
-- back to its first block on the first processor, whose generation is still the current one.
abbrev elsewhere : Host
elsewhere =
    let third = set_vcpu both 2 (record (both.vcpus 2) { cpu = 1 }) in
    let busy = run_vcpu sev_run third 2 in
    let moved = set_vcpu busy 0 (record (busy.vcpus 0) { cpu = 1 }) in
    let nested = set_vcpu moved 0 (svm_switch_vmcb (moved.vcpus 0) true) in
    run_vcpu sev_run nested 0

abbrev shared : Host
shared =
    let back = set_vcpu elsewhere 0 (record (elsewhere.vcpus 0) { cpu = 0 }) in
    let first = set_vcpu back 0 (svm_switch_vmcb (back.vcpus 0) false) in run_vcpu sev_run first 0

shared-Reach : Reach sev_run true 10 shared
shared-Reach =
    let r = later (later (both-Reach true) (load 2 1)) (run 2) in
    let r' = later (later (later r (load 0 1)) (switch 0 true refl)) (run 0) in
    later (later (later r' (load 0 0)) (switch 0 false refl)) (run 0)

shared_asid : Holds shared 0 0 × Holds shared 0 1 × ((shared.vcpus 0).asid ≡ (shared.vcpus 1).asid)
unfolding svm_vcpu_run pre_svm_run move_vmcb new_asid sync_asid after_run svm_switch_vmcb
shared_asid = ((refl, refl), (refl, refl), refl)
