-- ===== src/GuestTsc/Update/Shared.antt =====
-- The vCPUs of a machine with a master clock tell their guest one time.
use mathlib.Core.List.{Memᴰ}
use pve_anti_detection.Prelude.{
  ℕ, Option, some, ◌+◌, ◌*◌, ◌^◌, ◌<◌, ◌≡◌, refl, sym, ap, ap₂, subst, ◌∙◌, true, false, ◌&&◌, ltb,
  ◌-◌, arith, if◌then◌else◌, u64, All, All-Memᴰ,
}
use pve_anti_detection.GuestTsc.{
  Kernel, Vcpu, sub64, adjust_tsc_offset_guest, kvm_scale_tsc, kvm_read_l1_tsc,
}
use pve_anti_detection.GuestTsc.Frequency.{nsec_per_sec}
use pve_anti_detection.GuestTsc.TimeScale.{kvm_get_time_scale}
use pve_anti_detection.GuestTsc.Sync.{Host, Kvm, kvm_check_tsc_unstable, can_use_master_clock}
use pve_anti_detection.GuestTsc.Sync.Generations.Machine.{Machine, Reach}
use pve_anti_detection.GuestTsc.Sync.Generations.Clock.{kvm_read_l1_tsc-can_use_master_clock}
use pve_anti_detection.GuestTsc.Page.{TimeInfo, Clock}
use pve_anti_detection.GuestTsc.Master.{
  Master, GtodData, Reading, kvm_get_time_and_clockread, pvclock_update_vm_gtod_copy,
}
use pve_anti_detection.GuestTsc.Update.{
  Cpu, Pages, updated, base_tsc, base_ns, compute_guest_tsc, catch_up, tgt_tsc_khz, fill, rescale,
  kvm_guest_time_update,
}
use pve_anti_detection.GuestTsc.Update.Steps.{
  IsScaled, rescale-IsScaled, kvm_guest_time_update-IsUpdate,
}

-- The time that a guest computes from its page and its counter, as the documentation of the page
-- has it (`__pvclock_read_cycles`).
abbrev pub guest_time : (ℕ → ℕ → ℕ → ℕ) → TimeInfo → ℕ → ℕ
guest_time scale p tsc =
    u64 (p.system_time + scale (sub64 tsc p.tsc_timestamp) p.tsc_to_system_mul p.tsc_shift)

-- Without a vCPU that is out of step, the host's clock and the machine's flags permit the master clock.
pub pvclock_update_vm_gtod_copy-can_use :
    (gtod : GtodData) (r : Reading) (h : Host) (vm : Kvm) (m : Master)
    → h.vclock_mode ≡ gtod.clock.vclock_mode
    → (pvclock_update_vm_gtod_copy gtod r vm m).0.use_master_clock ≡ true
    → can_use_master_clock h vm ≡ true
unfolding pvclock_update_vm_gtod_copy kvm_get_time_and_clockread can_use_master_clock
pvclock_update_vm_gtod_copy-can_use gtod r h vm m same e = rw same (ground arith)

module _ (k : Kernel) (scale : ℕ → ℕ → ℕ → ℕ) where
  catch_up_plain :
      (v : Vcpu) (host_tsc ns : ℕ)
      → v.tsc_catchup ≡ false
      → catch_up k scale v host_tsc ns ≡ (v, kvm_read_l1_tsc k v host_tsc)
  unfolding catch_up
  catch_up_plain v host_tsc ns plain =
      let shown = kvm_read_l1_tsc k v host_tsc in
      let tsc = compute_guest_tsc k scale v ns in
      ap
        (λ b.
          if b && ltb shown tsc
          then (adjust_tsc_offset_guest k v (tsc - shown), tsc)
          else (v, shown))
        plain

  -- With the master clock, an update publishes the machine's reading and the counter at it, and leaves the
  -- vCPU's offset and ratio alone.
  pub kvm_guest_time_update-master :
      (cpu : Cpu) (vm : Kvm) (m : Master) (v : Vcpu) (c : Clock) (pages : Pages) (v' : Vcpu)
      (c' : Clock) (pages' : Pages)
      → kvm_guest_time_update k scale cpu vm m v c pages ≡ updated v' c' pages'
      → vm.use_master_clock ≡ true
      → v.tsc_catchup ≡ false
      → (v' ≡ record v { last_guest_tsc = kvm_read_l1_tsc k v m.master_cycle_now })
        × (c'.hv_clock.tsc_timestamp ≡ kvm_read_l1_tsc k v m.master_cycle_now)
        × (c'.hv_clock.system_time ≡ u64 (m.master_kernel_ns + m.kvmclock_offset))
  unfolding fill
  kvm_guest_time_update-master cpu vm m v c pages v' c' pages' e on plain =
      let u = kvm_guest_time_update-IsUpdate k scale cpu vm m v c pages v' c' pages' e in
      let base : base_tsc cpu vm m ≡ m.master_cycle_now = rw on refl in
      let left : v' ≡ record v { last_guest_tsc = kvm_read_l1_tsc k v m.master_cycle_now } =
        u.vcpu
        ∙ ap (λ p. record p.0 { last_guest_tsc = p.1 })
            (catch_up_plain v (base_tsc cpu vm m) (base_ns cpu vm m) plain)
        ∙ ap (λ t. record v { last_guest_tsc = kvm_read_l1_tsc k v t }) base in
      (
        left,
        u.time.tsc_timestamp ∙ ap (λ w. w.last_guest_tsc) left,
        u.time.system_time ∙ ap (λ ns. u64 (ns + m.kvmclock_offset)) (rw on refl),
      )

  -- One vCPU without catching up was updated, from a structure whose scale fits its frequency.
  pub record IsShown (cpu : Cpu) (vm : Kvm) (m : Master) (v v' : Vcpu) (c' : Clock) : Type 0 where
    pub before : Clock
    pub pages : Pages
    pub pages_after : Pages
    pub scaled : IsScaled before
    pub plain : v.tsc_catchup ≡ false
    pub updates : kvm_guest_time_update k scale cpu vm m v before pages ≡ updated v' c' pages_after

  -- The scale that an update publishes is that of the vCPU's frequency.
  shown_scale :
      (cpu : Cpu) (vm : Kvm) (m : Master) (v v' : Vcpu) (c' : Clock) (u : IsShown cpu vm m v v' c')
      → vm.use_master_clock ≡ true
      → 0 < tgt_tsc_khz k scale cpu v
      → kvm_get_time_scale nsec_per_sec (u64 (tgt_tsc_khz k scale cpu v * 1000))
        ≡ some (c'.hv_clock.tsc_shift, c'.hv_clock.tsc_to_system_mul)
  unfolding tgt_tsc_khz fill
  shown_scale cpu vm m v v' c' u on pos =
      let i =
        kvm_guest_time_update-IsUpdate k scale cpu vm m v u.before u.pages v' c' u.pages_after
          u.updates in
      let (left, stamp, time) =
        kvm_guest_time_update-master cpu vm m v u.before u.pages v' c' u.pages_after u.updates on
          u.plain in
      let same : tgt_tsc_khz k scale cpu v' ≡ tgt_tsc_khz k scale cpu v =
        ap (tgt_tsc_khz k scale cpu) left in
      let (e, khz) =
        rescale-IsScaled k scale u.before i.scaled (tgt_tsc_khz k scale cpu v) u.scaled
          (subst (λ t. rescale k scale u.before t ≡ some i.scaled) same i.rescaled) pos in
      e ∙ sym (ap₂ (λ s f. some (s, f)) i.time.tsc_shift i.time.tsc_to_system_mul)

  some_pair_inj :
      {a b c d : ℕ} → ◌≡◌ {A = Option (ℕ × ℕ)} (some (a, b)) (some (c, d)) → (a ≡ c) × (b ≡ d)
  some_pair_inj e = (cc, cc)

  -- Two vCPUs of a machine whose master clock was just updated and is in use compute one time from what
  -- each is shown, at every reading of the host's counter, on a host whose counter is never unstable and
  -- whose clock mode is the one copied: if neither vCPU catches up, the scale each had fitted its
  -- frequency, a counter was ever set, all vCPUs have one ratio, the machine was reached in fewer than
  -- 2 ^ 64 steps, and the two processors tell the vCPUs one frequency, which is not 0.
  pub kvm_guest_time_update-guest_time :
      (Seen : Host → Type 0) {n : ℕ} {mc : Machine} (h : Host) (gtod : GtodData) (r : Reading)
      (m : Master) (ratio host_tsc : ℕ) (cpu cpu' : Cpu) (v w v' w' : Vcpu) (c d : Clock)
      → n < 2 ^ 64
      → ((h' : Host) → Seen h' → kvm_check_tsc_unstable h' ≡ false)
      → Reach k Seen n mc
      → 0 < mc.vm.cur_tsc_generation
      → h.vclock_mode ≡ gtod.clock.vclock_mode
      → (pvclock_update_vm_gtod_copy gtod r mc.vm m).0.use_master_clock ≡ true
      → All (λ x. x.l1_tsc_scaling_ratio ≡ ratio) mc.vcpus
      → Memᴰ v mc.vcpus
      → Memᴰ w mc.vcpus
      → IsShown cpu
          (pvclock_update_vm_gtod_copy gtod r mc.vm m).0
          (pvclock_update_vm_gtod_copy gtod r mc.vm m).1
          v
          v'
          c
      → IsShown cpu'
          (pvclock_update_vm_gtod_copy gtod r mc.vm m).0
          (pvclock_update_vm_gtod_copy gtod r mc.vm m).1
          w
          w'
          d
      → tgt_tsc_khz k scale cpu v ≡ tgt_tsc_khz k scale cpu' w
      → 0 < tgt_tsc_khz k scale cpu v
      → guest_time scale c.hv_clock (kvm_read_l1_tsc k v' host_tsc)
        ≡ guest_time scale d.hv_clock (kvm_read_l1_tsc k w' host_tsc)
  unfolding kvm_read_l1_tsc
  kvm_guest_time_update-guest_time Seen {mc = mc} h gtod r m ratio host_tsc cpu cpu' v w v' w' c d
        few stable reach pos mode on same vin win su tu khz some_khz =
      let vm' = (pvclock_update_vm_gtod_copy gtod r mc.vm m).0 in
      let m' = (pvclock_update_vm_gtod_copy gtod r mc.vm m).1 in
      let can = pvclock_update_vm_gtod_copy-can_use gtod r h mc.vm m mode on in
      let shows = λ (t : ℕ).
        kvm_read_l1_tsc-can_use_master_clock k Seen h ratio t few stable reach pos can same in
      let agree = λ (t : ℕ).
        All-Memᴰ (λ x. kvm_read_l1_tsc k x t ≡ u64 (mc.vm.cur_tsc_offset + kvm_scale_tsc k t ratio))
          mc.vcpus v (shows t) vin
        ∙ sym (
            All-Memᴰ
              (λ x. kvm_read_l1_tsc k x t ≡ u64 (mc.vm.cur_tsc_offset + kvm_scale_tsc k t ratio))
              mc.vcpus w (shows t) win) in
      let (lv, sv, tv) =
        kvm_guest_time_update-master cpu vm' m' v su.before su.pages v' c su.pages_after su.updates
          on su.plain in
      let (lw, sw, tw) =
        kvm_guest_time_update-master cpu' vm' m' w tu.before tu.pages w' d tu.pages_after tu.updates
          on tu.plain in
      let scale_v = shown_scale cpu vm' m' v v' c su on some_khz in
      let scale_w = shown_scale cpu' vm' m' w w' d tu on (omega arith) in
      let (shift, mul) =
        some_pair_inj (
          sym scale_v ∙ ap (λ t. kvm_get_time_scale nsec_per_sec (u64 (t * 1000))) khz ∙ scale_w) in
      let counter : kvm_read_l1_tsc k v' host_tsc ≡ kvm_read_l1_tsc k w' host_tsc =
        ap (λ x. kvm_read_l1_tsc k x host_tsc) lv
        ∙ agree host_tsc
        ∙ sym (ap (λ x. kvm_read_l1_tsc k x host_tsc) lw) in
      let stamp : c.hv_clock.tsc_timestamp ≡ d.hv_clock.tsc_timestamp =
        sv ∙ agree m'.master_cycle_now ∙ sym sw in
      let time : c.hv_clock.system_time ≡ d.hv_clock.system_time = tv ∙ sym tw in
      ap₂ (λ a b. u64 (a + b)) time
        (ap₂ (λ x (p : ℕ × ℕ). scale x p.0 p.1) (ap₂ sub64 counter stamp)
          (ap₂ (λ x y. (x, y)) mul shift))
