-- ===== src/GuestTsc/Sync/Generations/Step.antt =====
-- One call of `kvm_synchronize_tsc`: the vCPU joins the current generation or starts the next one.
use pve_anti_detection.Prelude.{
  ℕ, ◌+◌, ◌≡◌, ◌≢◌, ◌⊎◌, inl, inr, refl, true, false, ◌&&◌, Option, none, some, arith, ◌==◌,
  if◌then◌else◌, u64, Bool-cases, ◌∙◌,
}
use pve_anti_detection.GuestTsc.{
  Kernel, Vcpu, sub64, kvm_vcpu_write_tsc_offset, kvm_compute_l1_tsc_offset,
}
use pve_anti_detection.GuestTsc.Sync.{
  Host, Kvm, kvm_check_tsc_unstable, kvm_track_tsc_matching, next_generation, record_tsc_write,
  is_synchronizing, value_of, set_by_user, kvm_synchronize_tsc,
}

-- What a vCPU and its machine hold after the vCPU joined the generation.
pub record Joins (vm : Kvm) (v : Vcpu) (vm' : Kvm) (v' : Vcpu) : Type 0 where
  pub generation : vm'.cur_tsc_generation ≡ vm.cur_tsc_generation
  pub nsec : vm'.cur_tsc_nsec ≡ vm.cur_tsc_nsec
  pub write : vm'.cur_tsc_write ≡ vm.cur_tsc_write
  pub offset : vm'.cur_tsc_offset ≡ vm.cur_tsc_offset
  pub matched : vm'.nr_vcpus_matched_tsc ≡ (
      if v.this_tsc_generation == vm.cur_tsc_generation
      then vm.nr_vcpus_matched_tsc
      else vm.nr_vcpus_matched_tsc + 1)

-- The same, after it started the next generation.
pub record Starts (vm : Kvm) (vm' : Kvm) (v' : Vcpu) : Type 0 where
  pub generation : vm'.cur_tsc_generation ≡ u64 (vm.cur_tsc_generation + 1)
  pub offset : v'.l1_tsc_offset ≡ vm'.cur_tsc_offset
  pub matched : vm'.nr_vcpus_matched_tsc ≡ 0

-- In both cases.
pub record Records (vm : Kvm) (vm' : Kvm) (v' : Vcpu) : Type 0 where
  pub generation : v'.this_tsc_generation ≡ vm'.cur_tsc_generation
  pub nsec : v'.this_tsc_nsec ≡ vm'.cur_tsc_nsec
  pub write : v'.this_tsc_write ≡ vm'.cur_tsc_write
  pub online : vm'.online_vcpus ≡ vm.online_vcpus

module _ (k : Kernel) (h : Host) where
  record_tsc_write-Joins :
      (vm : Kvm) (v : Vcpu) (offset tsc ns : ℕ)
      → let after = record_tsc_write k h vm v offset tsc ns true in
        Joins vm v after.0 after.1 × Records vm after.0 after.1 × (after.1.l1_tsc_offset ≡ offset)
  unfolding record_tsc_write kvm_track_tsc_matching next_generation kvm_vcpu_write_tsc_offset
  record_tsc_write-Joins vm v offset tsc ns = (
    record {
      generation = ground arith;
      nsec = ground arith;
      write = ground arith;
      offset = ground arith;
      matched = ground arith;
    },
    record {
      generation = ground arith;
      nsec = ground arith;
      write = ground arith;
      online = ground arith;
    },
    refl,
  )

  record_tsc_write-Starts :
      (vm : Kvm) (v : Vcpu) (offset tsc ns : ℕ)
      → let after = record_tsc_write k h vm v offset tsc ns false in
        Starts vm after.0 after.1 × Records vm after.0 after.1
  unfolding record_tsc_write kvm_track_tsc_matching next_generation kvm_vcpu_write_tsc_offset
  record_tsc_write-Starts vm v offset tsc ns = (
    record { generation = ground arith; offset = ground arith; matched = ground arith },
    record {
      generation = ground arith;
      nsec = ground arith;
      write = ground arith;
      online = ground arith;
    },
  )

  -- The vCPU has a frequency, the machine's last one; and it takes over the generation's offset, if the
  -- host's counter is stable.
  pub record IsMatch (vm : Kvm) (v : Vcpu) (v' : Vcpu) : Type 0 where
    pub frequency : v.virtual_tsc_khz ≢ 0
    pub same : v.virtual_tsc_khz ≡ vm.last_tsc_khz
    pub offset : kvm_check_tsc_unstable h ≡ false → v'.l1_tsc_offset ≡ vm.cur_tsc_offset

  -- `user_set_tsc` has no part in it.
  Joins-set_by_user :
      (vm : Kvm) (user : Option ℕ) (v : Vcpu) (after : Kvm × Vcpu)
      → Joins (set_by_user k h vm user) v after.0 after.1
        × Records (set_by_user k h vm user) after.0 after.1
      → Joins vm v after.0 after.1 × Records vm after.0 after.1
  unfolding set_by_user
  Joins-set_by_user vm none v after r = r
  Joins-set_by_user vm (some value) v after (j, r) = (
    record {
      generation = j.generation;
      nsec = j.nsec;
      write = j.write;
      offset = j.offset;
      matched = j.matched;
    },
    record { generation = r.generation; nsec = r.nsec; write = r.write; online = r.online },
  )

  Starts-set_by_user :
      (vm : Kvm) (user : Option ℕ) (after : Kvm × Vcpu)
      → Starts (set_by_user k h vm user) after.0 after.1
        × Records (set_by_user k h vm user) after.0 after.1
      → Starts vm after.0 after.1 × Records vm after.0 after.1
  unfolding set_by_user
  Starts-set_by_user vm none after r = r
  Starts-set_by_user vm (some value) after (j, r) = (
    record { generation = j.generation; offset = j.offset; matched = j.matched },
    record { generation = r.generation; nsec = r.nsec; write = r.write; online = r.online },
  )

  kvm_synchronize_tsc-other :
      (vm : Kvm) (v : Vcpu) (user : Option ℕ)
      → is_synchronizing k h vm v (value_of k h user) && (v.virtual_tsc_khz == vm.last_tsc_khz)
        ≡ false
      → kvm_synchronize_tsc k h vm v user
        ≡ record_tsc_write k h
            (set_by_user k h vm user)
            v
            (kvm_compute_l1_tsc_offset k v h.host_tsc (value_of k h user))
            (value_of k h user)
            h.kvmclock_base_ns
            false
  unfolding kvm_synchronize_tsc
  kvm_synchronize_tsc-other vm v user e = rw (kvm_synchronize_tsc, e) refl

  -- The arguments that a matching write is recorded with.
  kvm_synchronize_tsc-matched :
      (vm : Kvm) (v : Vcpu) (user : Option ℕ)
      → is_synchronizing k h vm v (value_of k h user) && (v.virtual_tsc_khz == vm.last_tsc_khz)
        ≡ true
      → (offset : ℕ) × (tsc : ℕ) × (kvm_synchronize_tsc k h vm v user
          ≡ record_tsc_write k h (set_by_user k h vm user) v offset tsc h.kvmclock_base_ns true)
        × (kvm_check_tsc_unstable h ≡ false → offset ≡ vm.cur_tsc_offset)
  unfolding kvm_synchronize_tsc
  kvm_synchronize_tsc-matched vm v user e = elim (Bool-cases (kvm_check_tsc_unstable h)) [
    | inr stable ↦
        (vm.cur_tsc_offset, value_of k h user, rw (kvm_synchronize_tsc, e, stable) refl, λ s. refl)
    | inl unstable ↦
        let moved =
          u64
            (value_of k h user + h.nsec_to_cycles v (sub64 h.kvmclock_base_ns vm.last_tsc_nsec)) in
        (
          kvm_compute_l1_tsc_offset k v h.host_tsc_again moved,
          moved,
          rw (kvm_synchronize_tsc, e, unstable) refl,
          λ s. cc,
        )
  ]

  is_synchronizing-khz :
      (vm : Kvm) (v : Vcpu) (value : ℕ)
      → is_synchronizing k h vm v value && (v.virtual_tsc_khz == vm.last_tsc_khz) ≡ true
      → (v.virtual_tsc_khz ≢ 0) × (v.virtual_tsc_khz ≡ vm.last_tsc_khz)
  unfolding is_synchronizing
  is_synchronizing-khz vm v value e = (ground arith, ground arith)

  -- Every call makes the vCPU a member of the generation that is then the current one: of the same as before,
  -- if the vCPU's frequency is the last one and is not 0, or of the next.
  pub kvm_synchronize_tsc_cases :
      (vm : Kvm) (v : Vcpu) (user : Option ℕ)
      → let after = kvm_synchronize_tsc k h vm v user in
        Records vm after.0 after.1
        × ((Joins vm v after.0 after.1 × IsMatch vm v after.1) ⊎ Starts vm after.0 after.1)
  kvm_synchronize_tsc_cases vm v user =
      let value = value_of k h user in
      let vm' = set_by_user k h vm user in
      elim (Bool-cases
        (is_synchronizing k h vm v value && (v.virtual_tsc_khz == vm.last_tsc_khz))) [
          | inr other ↦
              let offset = kvm_compute_l1_tsc_offset k v h.host_tsc value in
              let (starts, records) =
                Starts-set_by_user vm user
                  (record_tsc_write k h vm' v offset value h.kvmclock_base_ns false)
                  (record_tsc_write-Starts vm' v offset value h.kvmclock_base_ns) in
              rw (kvm_synchronize_tsc-other vm v user other) (records, inr starts)
          | inl matched ↦
              let (offset, tsc, e, stable) = kvm_synchronize_tsc-matched vm v user matched in
              let (some_khz, same) = is_synchronizing-khz vm v value matched in
              let (joins, records, taken) =
                record_tsc_write-Joins vm' v offset tsc h.kvmclock_base_ns in
              let (joins', records') =
                Joins-set_by_user vm user v
                  (record_tsc_write k h vm' v offset tsc h.kvmclock_base_ns true)
                  (joins, records) in
              rw e (
                records',
                inl (
                  joins',
                  record { frequency = some_khz; same = same; offset = λ s. taken ∙ stable s },
                ),
              )
        ]
