-- ===== src/Svm/Kept.antt =====
-- Every step keeps the vCPUs' identifiers apart.
use pve_anti_detection.Prelude.{
  ℕ, zero, suc, ◌+◌, ◌-◌, ◌^◌, ◌≤◌, ◌<◌, ◌≡◌, ◌≢◌, ◌⊎◌, inl, inr, refl, sym, subst, ◌∙◌, Bool, true,
  false, arith, u64, update_at, update_at_cases, update_at-all, update_at-pairs, update_at-same,
}
use pve_anti_detection.Svm.{CpuData, VcpuSvm, svm_vcpu_run, svm_flush_tlb_asid}
use pve_anti_detection.Svm.Machine.{Host, set_vcpu, run_vcpu, Step, load, run, flush, reset, switch}
use pve_anti_detection.Svm.Entry.{
  IsPlain, IsEntered, Entry, svm_flush_tlb_asid_lem, init_asid_lem, svm_vcpu_run_cases,
}
use pve_anti_detection.Svm.Tracked.{
  Owns, IsCpu, IsVcpu, Apart, cpu_of, IsTracked, Apart-sym, IsCpu-Entry, Owns-Entry, IsVcpu-Entry,
  IsVcpu-entered, IsCpu-later, IsVcpu-later, set_vcpu-IsTracked,
}

-- One entry, by vCPU `i`, from a host on which all is well.
module _ (n : ℕ) (h : Host) (i : ℕ) (v' : VcpuSvm) (sd' : CpuData) (few : n < 2 ^ 62)
    (t : IsTracked n h) (entered : IsEntered (h.vcpus i) v' sd')
    (entry : Entry (h.vcpus i) (h.cpus (h.vcpus i).cpu) v' sd') where
  abbrev place : ℕ
  place = (h.vcpus i).cpu

  abbrev cpus_after : ℕ → CpuData
  cpus_after = update_at h.cpus place sd'

  -- Another vCPU that owns an identifier owned it before.
  Owns-before :
      (j d : ℕ) → cpu_of h j ≡ d → Owns (cpus_after d) (h.vcpus j) → Owns (h.cpus d) (h.vcpus j)
  Owns-before j d on own = elim (update_at_cases h.cpus place sd' d) [
    | inl (here, e) ↦
        let w = h.vcpus j in
        let tracked = subst (λ x. IsVcpu n (h.cpus x) w) (on ∙ sym here) (t.vcpus j) in
        let own' = subst (λ x. Owns x w) e own in
        subst (λ x. Owns (h.cpus x) w) here (Owns-Entry few (t.cpus place) tracked entry own').0
    | inr (there, e) ↦ subst (λ x. Owns x (h.vcpus j)) e own
  ]

  other-IsVcpu : (j : ℕ) → IsVcpu (suc n) (cpus_after (cpu_of h j)) (h.vcpus j)
  other-IsVcpu j = elim (update_at_cases h.cpus place sd' (cpu_of h j)) [
    | inl (here, e) ↦
        let w = h.vcpus j in
        let tracked = subst (λ x. IsVcpu n (h.cpus x) w) (sym here) (t.vcpus j) in
        subst (λ x. IsVcpu (suc n) x w) (sym e) (IsVcpu-Entry few (t.cpus place) tracked entry)
    | inr (there, e) ↦ subst (λ x. IsVcpu (suc n) x (h.vcpus j)) (sym e) (IsVcpu-later (t.vcpus j))
  ]

  new-IsVcpu : IsVcpu (suc n) (cpus_after v'.vmcb01.cpu) v'
  new-IsVcpu =
      let on = entered.1 in
      let before =
        λ (at : cpu_of h i ≡ place). subst (λ x. IsVcpu n (h.cpus x) (h.vcpus i)) at (t.vcpus i) in
      subst (λ x. IsVcpu (suc n) (cpus_after x) v') (sym on)
        (subst (λ x. IsVcpu (suc n) x v') (sym (update_at-same h.cpus place sd'))
          (IsVcpu-entered few (t.cpus place) (λ at own. (before at).held own) entered entry))

  new-Apart : (j : ℕ) → i ≢ j → Apart cpus_after v' (h.vcpus j)
  new-Apart j other d on_v on_w own_v own_w e =
      let w = h.vcpus j in
      let here : place ≡ d = sym entered.1 ∙ on_v in
      let tracked = subst (λ x. IsVcpu n (h.cpus x) w) (on_w ∙ sym here) (t.vcpus j) in
      let own : Owns sd' w =
        subst (λ x. Owns x w) (update_at-same h.cpus place sd')
          (subst (λ x. Owns (cpus_after x) w) (sym here) own_w) in
      let (own_before, how) = Owns-Entry few (t.cpus place) tracked entry own in
      elim how [
        | inl differs ↦ differs (sym e)
        | inr (own_v', same, at) ↦
            t.distinct i j other place at (on_w ∙ sym here) own_v' own_before (sym same ∙ e)
      ]

  entry-IsTracked : IsTracked (suc n) (record { cpus = cpus_after; vcpus = update_at h.vcpus i v' })
  entry-IsTracked = record {
    cpus =
        update_at-all (IsCpu (suc n)) h.cpus place sd'
          (IsCpu-Entry (omega arith) (t.cpus place) entry) (λ d other. IsCpu-later (t.cpus d));
    vcpus =
        update_at-all (λ w. IsVcpu (suc n) (cpus_after w.vmcb01.cpu) w) h.vcpus i v' new-IsVcpu
          (λ j other. other-IsVcpu j);
    distinct =
        update_at-pairs (Apart cpus_after) h.vcpus i v' (Apart-sym cpus_after) new-Apart
          (λ j k ij ik differs d on_v on_w own_v own_w.
            t.distinct j k differs d on_v on_w (Owns-before j d on_v own_v)
              (Owns-before k d on_w own_w));
  }

run-IsTracked :
    (pre_sev_run : VcpuSvm → ℕ → VcpuSvm) (n : ℕ) (h : Host) (i : ℕ)
    → n < 2 ^ 62
    → IsTracked n h
    → IsTracked (suc n) (run_vcpu pre_sev_run h i)
run-IsTracked pre_sev_run n h i few t =
    let v = h.vcpus i in
    let sd = h.cpus v.cpu in
    let (v', sd') = svm_vcpu_run pre_sev_run v sd in
    let (entered, entry) =
      svm_vcpu_run_cases pre_sev_run v sd (t.vcpus i).plain (t.cpus v.cpu).positive in
    entry-IsTracked n h i v' sd' few t entered entry

-- A vCPU outside its guest: it keeps its generation and its identifier, or loses them.
Left : ℕ → CpuData → VcpuSvm → VcpuSvm → Type 0
Left n sd v v' =
    ((v'.vmcb01.asid_generation ≡ v.vmcb01.asid_generation) × (v'.asid ≡ v.asid))
    ⊎ ((v'.vmcb01.asid_generation < 2 ^ 64)
        × ((v'.vmcb01.asid_generation ≤ sd.asid_generation)
            ⊎ (2 ^ 64 ≤ v'.vmcb01.asid_generation + suc n))
        × (v'.vmcb01.asid_generation ≢ sd.asid_generation))

Left-IsVcpu :
    {n : ℕ} {sd : CpuData} {v : VcpuSvm} (v' : VcpuSvm)
    → IsVcpu n sd v
    → IsPlain v'
    → Left n sd v v'
    → IsVcpu (suc n) sd v' × (Owns sd v' → Owns sd v × (v'.asid ≡ v.asid))
unfolding Left
Left-IsVcpu v' t plain (inl (g, a)) =
    let later = IsVcpu-later t in
    (
      record {
        plain = plain;
        word = omega (arith, g, t.word);
        behind = elim later.behind [ inl low ↦ inl (omega arith) | inr high ↦ inr (omega arith) ];
        held =
            λ own. let (low, high) = t.held (sym g ∙ own) in (omega (arith, a), omega (arith, a));
      },
      λ own. (sym g ∙ own, a),
    )
Left-IsVcpu v' t plain (inr (word, behind, lost)) = (
  record { plain = plain; word = word; behind = behind; held = λ own. absurd (lost own) },
  λ own. absurd (lost own),
)

leave-IsTracked :
    (n : ℕ) (h : Host) (i : ℕ) (v' : VcpuSvm)
    → IsTracked n h
    → IsPlain v'
    → v'.vmcb01.cpu ≡ cpu_of h i
    → Left n (h.cpus (cpu_of h i)) (h.vcpus i) v'
    → IsTracked (suc n) (set_vcpu h i v')
leave-IsTracked n h i v' t plain on left =
    let (new, owns) = Left-IsVcpu v' (t.vcpus i) plain left in
    set_vcpu-IsTracked n h i v' t on new owns

-- A generation that is counted down, also below 0, is not the processor's.
counted_down :
    {n g g' s : ℕ}
    → n < 2 ^ 62
    → 1 ≤ s
    → s ≤ n + 1
    → g < 2 ^ 64
    → (g ≤ s) ⊎ (2 ^ 64 ≤ g + n)
    → g' ≡ u64 (g + (2 ^ 64 - 1))
    → (g' < 2 ^ 64) × ((g' ≤ s) ⊎ (2 ^ 64 ≤ g' + suc n)) × (g' ≢ s)
counted_down {g = zero} few pos few_s word behind e =
    (omega arith, inr (omega arith), λ same. omega arith)
counted_down {g = suc g} few pos few_s word (inl low) e =
    (omega arith, inl (omega arith), λ same. omega arith)
counted_down {g = suc g} few pos few_s word (inr high) e =
    (omega arith, inr (omega arith), λ same. omega arith)

flush-Left :
    {n : ℕ} {sd : CpuData} {v : VcpuSvm} (flushbyasid : Bool)
    → n < 2 ^ 62
    → IsCpu n sd
    → IsVcpu n sd v
    → Left n sd v (svm_flush_tlb_asid flushbyasid v)
unfolding Left
flush-Left true few c t =
    let (plain, on, a, g) = svm_flush_tlb_asid_lem true _ t.plain in inl (g, a)
flush-Left {v = v} false few c t =
    let (plain, on, a, g) = svm_flush_tlb_asid_lem false v t.plain in
    inr (counted_down few c.positive c.few t.word t.behind g)

pub Step-IsTracked :
    (pre_sev_run : VcpuSvm → ℕ → VcpuSvm) (n : ℕ) {h h' : Host}
    → n < 2 ^ 62
    → Step pre_sev_run false h h'
    → IsTracked n h
    → IsTracked (suc n) h'
unfolding Left
Step-IsTracked pre_sev_run n {h = h} few (load i cpu) t =
    leave-IsTracked n h i _ t (t.vcpus i).plain refl (inl (refl, refl))
Step-IsTracked pre_sev_run n {h = h} few (run i) t = run-IsTracked pre_sev_run n h i few t
Step-IsTracked pre_sev_run n {h = h} few (flush i flushbyasid) t =
    let (plain, on, a, g) = svm_flush_tlb_asid_lem flushbyasid (h.vcpus i) (t.vcpus i).plain in
    leave-IsTracked n h i _ t plain on
      (flush-Left flushbyasid few (t.cpus (cpu_of h i)) (t.vcpus i))
Step-IsTracked pre_sev_run n {h = h} few (reset i) t =
    let (plain, on, g) = init_asid_lem (h.vcpus i) (t.vcpus i).plain in
    let pos = (t.cpus (cpu_of h i)).positive in
    leave-IsTracked n h i _ t plain on
      (inr (omega (arith, g), inl (omega (arith, g)), λ e. omega (arith, g, pos)))
Step-IsTracked pre_sev_run n few (switch i second nested) t = absurd cc
