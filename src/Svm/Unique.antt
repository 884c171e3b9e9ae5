-- ===== src/Svm/Unique.antt =====
-- No two vCPUs share an identifier on a processor.
use pve_anti_detection.Prelude.{
  ℕ, ◌^◌, ◌≤◌, ◌<◌, ◌≡◌, ◌≢◌, inl, sym, subst, ap, ◌∙◌, false, arith, if◌then◌else◌,
}
use pve_anti_detection.Svm.{VcpuSvm, current_vmcb}
use pve_anti_detection.Svm.Machine.{Host, Reach, start, later, Holds}
use pve_anti_detection.Svm.Entry.{IsPlain}
use pve_anti_detection.Svm.Tracked.{Owns, IsVcpu, cpu_of, IsTracked}
use pve_anti_detection.Svm.Kept.{Step-IsTracked}

pub Reach-IsTracked :
    (pre_sev_run : VcpuSvm → ℕ → VcpuSvm) {n : ℕ} {h : Host}
    → n ≤ 2 ^ 62
    → Reach pre_sev_run false n h
    → IsTracked n h
Reach-IsTracked pre_sev_run few (start i) = record {
  cpus = λ c. record {
    positive = omega (arith, i.generation c);
    few = omega (arith, i.generation c);
    some_free = i.some_free c;
    fits = i.fits c;
    lower = omega (arith, i.next c, i.some_free c);
    upper = omega (arith, i.next c);
  };
  vcpus = λ j. record {
    plain = (i.first j, i.plain j);
    word = omega (arith, i.fresh j);
    behind = inl (omega (arith, i.fresh j));
    held = λ own. absurd (omega (arith, own, i.fresh j, i.generation _));
  };
  distinct = λ j k differs c on_j on_k own_j own_k.
      absurd (omega (arith, own_j, i.fresh j, i.generation c));
}
Reach-IsTracked pre_sev_run few (later {n = n} r s) =
    Step-IsTracked pre_sev_run n (omega arith) s (Reach-IsTracked pre_sev_run (omega arith) r)

current_plain : (v : VcpuSvm) → IsPlain v → current_vmcb v ≡ v.vmcb01
current_plain v (first, plain) = ap (λ b. if b then v.vmcb02 else v.vmcb01) first

-- Two vCPUs whose blocks last ran on one processor, in the generation that is its current one, have
-- different identifiers, each at least the first one for guests that are not encrypted and at most the
-- processor's largest one, after fewer than 2 ^ 62 steps, on a host without encrypted guests and guests
-- of guests whose processors have an identifier to give.
pub Reach-distinct :
    (pre_sev_run : VcpuSvm → ℕ → VcpuSvm) {n : ℕ} {h : Host} (c i j : ℕ)
    → n < 2 ^ 62
    → Reach pre_sev_run false n h
    → i ≢ j
    → Holds h c i
    → Holds h c j
    → ((h.vcpus i).asid ≢ (h.vcpus j).asid)
      × ((h.cpus c).min_asid ≤ (h.vcpus i).asid)
      × ((h.vcpus i).asid ≤ (h.cpus c).max_asid)
Reach-distinct pre_sev_run {n = n} {h = h} c i j few r differs (on_i, own_i) (on_j, own_j) =
    let t = Reach-IsTracked pre_sev_run (omega arith) r in
    let only = λ (l : ℕ). current_plain (h.vcpus l) (t.vcpus l).plain in
    let on : cpu_of h i ≡ c = ap (λ info. info.cpu) (sym (only i)) ∙ on_i in
    let own : Owns (h.cpus c) (h.vcpus i) =
      ap (λ info. info.asid_generation) (sym (only i)) ∙ own_i in
    let (low, high) = (subst (λ d. IsVcpu n (h.cpus d) (h.vcpus i)) on (t.vcpus i)).held own in
    (
      t.distinct i j differs c on (ap (λ info. info.cpu) (sym (only j)) ∙ on_j) own
          (ap (λ info. info.asid_generation) (sym (only j)) ∙ own_j),
      low,
      omega (arith, (t.cpus c).upper),
    )
