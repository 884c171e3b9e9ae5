-- ===== src/GuestTsc/Sync/Generations/Clock.antt =====
-- The vCPUs of a machine whose host's counter is stable show one clock.
use pve_anti_detection.Prelude.{
  ℕ, ◌+◌, ◌^◌, ◌≤◌, ◌<◌, ◌≡◌, inl, inr, refl, sym, ◌∙◌, true, false, arith, List, [], ◌∷◌, length,
  All, All-replace, ◌==◌, u64, ==_iff, Bool-cases,
}
use pve_anti_detection.GuestTsc.{Kernel, Vcpu, kvm_read_l1_tsc, kvm_scale_tsc}
use pve_anti_detection.GuestTsc.Sync.{
  Host, Kvm, kvm_synchronize_tsc, kvm_check_tsc_unstable, can_use_master_clock,
}
use pve_anti_detection.GuestTsc.Sync.Generations.Step.{kvm_synchronize_tsc_cases}
use pve_anti_detection.GuestTsc.Sync.Generations.Machine.{
  Machine, Step, create, synchronize, retune, update, Reach, start, later, count, Follows, Shares,
}
use pve_anti_detection.GuestTsc.Sync.Generations.Reachable.{kvm_set_tsc_khz-kept, Reach-IsTracked}

-- The vCPU is in the current generation and has its reference point.
abbrev pub IsCurrent : Kvm → Vcpu → Type 0
IsCurrent vm v =
    (v.this_tsc_generation ≡ vm.cur_tsc_generation)
    × (v.this_tsc_nsec ≡ vm.cur_tsc_nsec)
    × (v.this_tsc_write ≡ vm.cur_tsc_write)

count_le : (g : ℕ) (vs : List Vcpu) → count g vs ≤ length vs
count_le g [] = omega arith
count_le g (v ∷ vs) = ground (arith, count_le g vs)

count-All :
    (vm : Kvm) (vs : List Vcpu)
    → 0 < vm.cur_tsc_generation
    → count vm.cur_tsc_generation vs ≡ length vs
    → All (Follows vm) vs
    → All (IsCurrent vm) vs
count-All vm [] pos full h = tt
count-All vm (v ∷ vs) pos full h =
    elim (Bool-cases (v.this_tsc_generation == vm.cur_tsc_generation)) [
      | inl e ↦
          let same = (==_iff _ _).0 e in
          let (nsec, write) = h.0.1 (omega arith) same in
          ((same, nsec, write), count-All vm vs pos (omega (arith, rw e at full)) h.1)
      | inr e ↦ absurd (omega (arith, rw e at full, count_le vm.cur_tsc_generation vs))
    ]

module _ (k : Kernel) (Seen : Host → Type 0) where
  -- Where the program finds that the master clock can be used, every vCPU is in the current generation and
  -- has its reference point, if a counter was ever set and the machine made fewer than 2 ^ 64 steps.
  pub can_use_master_clock-IsCurrent :
      {n : ℕ} {m : Machine} (h : Host)
      → n < 2 ^ 64
      → Reach k Seen n m
      → 0 < m.vm.cur_tsc_generation
      → can_use_master_clock h m.vm ≡ true
      → All (IsCurrent m.vm) m.vcpus
  unfolding can_use_master_clock
  can_use_master_clock-IsCurrent {m = m} h few r pos can =
      let t = Reach-IsTracked k Seen few r in
      let all : m.vm.nr_vcpus_matched_tsc + 1 ≡ m.vm.online_vcpus = ground arith in
      elim t.counted [
        | inl (_, c) ↦ count-All m.vm m.vcpus pos (c ∙ all ∙ t.online) t.follows
        | inr (none_yet, _) ↦ absurd (omega arith)
      ]

  Step-Shares :
      {n : ℕ} {m m' : Machine}
      → n + 1 < 2 ^ 64
      → ((h : Host) → Seen h → kvm_check_tsc_unstable h ≡ false)
      → Step k Seen m m'
      → m.vm.cur_tsc_generation ≤ n
      → All (Shares m.vm) m.vcpus
      → All (Shares m'.vm) m'.vcpus
  Step-Shares few stable (create vm vs v fresh) bound all =
      ((omega arith, λ pos. absurd (omega arith)), all)
  Step-Shares few stable (synchronize h vm before v after user seen) bound all =
      let vm' = (kvm_synchronize_tsc k h vm v user).0 in
      let v' = (kvm_synchronize_tsc k h vm v user).1 in
      let (r, how) = kvm_synchronize_tsc_cases k h vm v user in
      elim how [
        | inl (j, match_) ↦
            All-replace (Shares vm) (Shares vm') before v v' after
              (λ w. λ (low, same). (
                omega (arith, j.generation),
                λ pos. λ e. same pos (e ∙ j.generation) ∙ sym j.offset,
              ))
              (λ _. (
                omega (arith, r.generation),
                λ pos. λ e. match_.offset (stable h seen) ∙ sym j.offset,
              ))
              all
        | inr s ↦
            All-replace (Shares vm) (Shares vm') before v v' after
              (λ w. λ (low, same).
                (omega (arith, s.generation), λ pos. λ e. absurd (omega (arith, s.generation))))
              (λ _. (omega (arith, r.generation), λ pos. λ e. s.offset)) all
      ]
  Step-Shares few stable (retune vm before v v' after ppm khz ok e) bound all =
      let (gen, nsec, write, offset) = kvm_set_tsc_khz-kept k ppm v khz v' ok e in
      All-replace (Shares vm) (Shares vm) before v v' after (λ w. λ f. f)
        (λ f. (
          omega (arith, gen, f.0),
          λ pos. λ cur. offset ∙ f.1 (omega (arith, gen)) (sym gen ∙ cur),
        ))
        all
  Step-Shares few stable (update vm vs enabled requested) bound all = all

  Reach-Shares :
      {n : ℕ} {m : Machine}
      → n < 2 ^ 64
      → ((h : Host) → Seen h → kvm_check_tsc_unstable h ≡ false)
      → Reach k Seen n m
      → All (Shares m.vm) m.vcpus
  Reach-Shares few stable start = tt
  Reach-Shares few stable (later {n = n} r s) =
      let before : n < 2 ^ 64 = omega arith in
      Step-Shares (omega arith) stable s (Reach-IsTracked k Seen before r).bound
        (Reach-Shares before stable r)

  clock_of :
      (vm : Kvm) (vs : List Vcpu) (ratio host_tsc : ℕ)
      → 0 < vm.cur_tsc_generation
      → All (IsCurrent vm) vs
      → All (Shares vm) vs
      → All (λ v. v.l1_tsc_scaling_ratio ≡ ratio) vs
      → All
          (λ v.
            kvm_read_l1_tsc k v host_tsc ≡ u64 (vm.cur_tsc_offset + kvm_scale_tsc k host_tsc ratio))
          vs
  unfolding kvm_read_l1_tsc
  clock_of vm [] ratio host_tsc pos cur shares same = tt
  clock_of vm (v ∷ vs) ratio host_tsc pos cur shares same =
      let offset = shares.0.1 (omega (arith, cur.0.0)) cur.0.0 in
      (
        rw (kvm_read_l1_tsc, offset, same.0) refl,
        clock_of vm vs ratio host_tsc pos cur.1 shares.1 same.1,
      )

  -- On a host whose counter is never unstable, all vCPUs of a machine that have one ratio show one clock where
  -- the program finds that the master clock can be used: the generation's offset and the host's counter by
  -- that ratio, if a counter was ever set and the machine was reached in fewer than 2 ^ 64 steps.
  pub kvm_read_l1_tsc-can_use_master_clock :
      {n : ℕ} {m : Machine} (h : Host) (ratio host_tsc : ℕ)
      → n < 2 ^ 64
      → ((h' : Host) → Seen h' → kvm_check_tsc_unstable h' ≡ false)
      → Reach k Seen n m
      → 0 < m.vm.cur_tsc_generation
      → can_use_master_clock h m.vm ≡ true
      → All (λ v. v.l1_tsc_scaling_ratio ≡ ratio) m.vcpus
      → All
          (λ v.
            kvm_read_l1_tsc k v host_tsc
            ≡ u64 (m.vm.cur_tsc_offset + kvm_scale_tsc k host_tsc ratio))
          m.vcpus
  kvm_read_l1_tsc-can_use_master_clock {m = m} h ratio host_tsc few stable r pos can same =
      clock_of m.vm m.vcpus ratio host_tsc pos (can_use_master_clock-IsCurrent h few r pos can)
        (Reach-Shares few stable r) same
