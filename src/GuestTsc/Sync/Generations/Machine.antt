-- ===== src/GuestTsc/Sync/Generations/Machine.antt =====
-- A machine with its vCPUs, what can happen to it, and what holds of it at all times.
use pve_anti_detection.Prelude.{
  ℕ, suc, ◌+◌, ◌≤◌, ◌<◌, ◌≡◌, ◌⊎◌, Bool, false, Option, some, List, [], ◌∷◌, ◌++◌, length, All,
  ◌==◌, if◌then◌else◌,
}
use pve_anti_detection.GuestTsc.{Kernel, Vcpu}
use pve_anti_detection.GuestTsc.Frequency.{kvm_set_tsc_khz}
use pve_anti_detection.GuestTsc.Sync.{Host, Kvm, kvm_synchronize_tsc}

pub record Machine : Type 0 where
  pub vm : Kvm
  pub vcpus : List Vcpu

-- The machine as it is allocated.
abbrev pub empty : Machine
empty = record {
  vm = record {
    last_tsc_nsec = 0;
    last_tsc_write = 0;
    last_tsc_khz = 0;
    last_tsc_offset = 0;
    cur_tsc_generation = 0;
    cur_tsc_nsec = 0;
    cur_tsc_write = 0;
    cur_tsc_offset = 0;
    nr_vcpus_matched_tsc = 0;
    user_set_tsc = false;
    use_master_clock = false;
    online_vcpus = 0;
    masterclock_update = false;
  };
  vcpus = [];
}

-- What can happen, on a host whose states satisfy `Seen`: a vCPU is created, in no generation; one has its
-- counter set, or its frequency; and the master clock is updated. An offset that is adjusted by itself, as a
-- guest may have it, is no step.
pub data Step (k : Kernel) (Seen : Host → Type 0) : Machine → Machine → Type 0 where
  create :
      (vm : Kvm) (vs : List Vcpu) (v : Vcpu)
      → v.this_tsc_generation ≡ 0
      → Step k Seen
          (record { vm = vm; vcpus = vs })
          (record { vm = record vm { online_vcpus = vm.online_vcpus + 1 }; vcpus = v ∷ vs })
  synchronize :
      (h : Host) (vm : Kvm) (before : List Vcpu) (v : Vcpu) (after : List Vcpu) (user : Option ℕ)
      → Seen h
      → Step k Seen
          (record { vm = vm; vcpus = before ++ (v ∷ after) })
          (record {
            vm = (kvm_synchronize_tsc k h vm v user).0;
            vcpus = before ++ ((kvm_synchronize_tsc k h vm v user).1 ∷ after);
          })
  retune :
      (vm : Kvm) (before : List Vcpu) (v v' : Vcpu) (after : List Vcpu) (ppm khz : ℕ) (ok : Bool)
      → kvm_set_tsc_khz k ppm v khz ≡ some (v', ok)
      → Step k Seen
          (record { vm = vm; vcpus = before ++ (v ∷ after) })
          (record { vm = vm; vcpus = before ++ (v' ∷ after) })
  update :
      (vm : Kvm) (vs : List Vcpu) (enabled requested : Bool)
      → Step k Seen
          (record { vm = vm; vcpus = vs })
          (record {
            vm = record vm { use_master_clock = enabled; masterclock_update = requested };
            vcpus = vs;
          })

-- After so many steps.
pub data Reach (k : Kernel) (Seen : Host → Type 0) : ℕ → Machine → Type 0 where
  start : Reach k Seen 0 empty
  later : {n : ℕ} {m m' : Machine} → Reach k Seen n m → Step k Seen m m' → Reach k Seen (suc n) m'

-- The vCPUs of a generation.
abbrev pub count : ℕ → List Vcpu → ℕ
count g [] = 0
count g (v ∷ vs) = (if v.this_tsc_generation == g then 1 else 0) + count g vs

-- A vCPU is in no later generation than the current one, and in that one agrees with its reference.
abbrev pub Follows : Kvm → Vcpu → Type 0
Follows vm v =
    (v.this_tsc_generation ≤ vm.cur_tsc_generation)
    × (0 < v.this_tsc_generation
        → v.this_tsc_generation ≡ vm.cur_tsc_generation
        → (v.this_tsc_nsec ≡ vm.cur_tsc_nsec) × (v.this_tsc_write ≡ vm.cur_tsc_write))

-- The number of matching vCPUs does not count the one that started the generation.
abbrev pub Counted : Kvm → List Vcpu → Type 0
Counted vm vs =
    ((0 < vm.cur_tsc_generation) × (count vm.cur_tsc_generation vs ≡ vm.nr_vcpus_matched_tsc + 1))
    ⊎ ((vm.cur_tsc_generation ≡ 0) × (vm.last_tsc_khz ≡ 0))

pub record IsTracked (n : ℕ) (m : Machine) : Type 0 where
  pub online : m.vm.online_vcpus ≡ length m.vcpus
  pub bound : m.vm.cur_tsc_generation ≤ n
  pub follows : All (Follows m.vm) m.vcpus
  pub counted : Counted m.vm m.vcpus

-- A vCPU of the current generation has the generation's offset.
abbrev pub Shares : Kvm → Vcpu → Type 0
Shares vm v =
    (v.this_tsc_generation ≤ vm.cur_tsc_generation)
    × (0 < v.this_tsc_generation
        → v.this_tsc_generation ≡ vm.cur_tsc_generation
        → v.l1_tsc_offset ≡ vm.cur_tsc_offset)
