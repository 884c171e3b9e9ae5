-- ===== src/GuestTsc/Update/CatchUp.antt =====
-- What the guest's counter shows after an update.
use pve_anti_detection.Prelude.{
  ℕ, ◌<◌, ◌≡◌, max, refl, sym, ◌∙◌, ◌&&◌, arith, ltb, if◌then◌else◌, if_cases, ap, ◌-◌, ◌+◌, ◌%◌,
  ◌^◌,
}
use pve_anti_detection.GuestTsc.{Kernel, Vcpu, kvm_read_l1_tsc, adjust_tsc_offset_guest}
use pve_anti_detection.GuestTsc.Offsets.{kvm_read_l1_tsc-adjust_tsc_offset_guest}
use pve_anti_detection.GuestTsc.Sync.{Kvm}
use pve_anti_detection.GuestTsc.Page.{Clock}
use pve_anti_detection.GuestTsc.Master.{Master}
use pve_anti_detection.GuestTsc.Update.{
  Cpu, Pages, updated, base_tsc, base_ns, compute_guest_tsc, catch_up, fill, kvm_guest_time_update,
}
use pve_anti_detection.GuestTsc.Update.Steps.{kvm_guest_time_update-IsUpdate}

module _ (k : Kernel) (scale : ℕ → ℕ → ℕ → ℕ) where
  -- The adjustment brings the counter to the clock exactly.
  catch_up_shown :
      (v : Vcpu) (host_tsc ns : ℕ)
      → let (w, tsc_timestamp) = catch_up k scale v host_tsc ns in
        kvm_read_l1_tsc k w host_tsc ≡ tsc_timestamp
  unfolding catch_up compute_guest_tsc kvm_read_l1_tsc
  catch_up_shown v host_tsc ns =
      let shown = kvm_read_l1_tsc k v host_tsc in
      let tsc = compute_guest_tsc k scale v ns in
      if_cases {A = Vcpu × ℕ} (λ p. kvm_read_l1_tsc k p.0 host_tsc ≡ p.1)
        (v.tsc_catchup && ltb shown tsc) (adjust_tsc_offset_guest k v (tsc - shown), tsc) (v, shown)
        (λ behind.
          let lt : shown < tsc = ground arith in
          kvm_read_l1_tsc-adjust_tsc_offset_guest k v (tsc - shown) host_tsc ∙ omega arith)
        (λ current. refl)

  catch_up_timestamp :
      (v : Vcpu) (host_tsc ns : ℕ)
      → let shown = kvm_read_l1_tsc k v host_tsc in
        (catch_up k scale v host_tsc ns).1
        ≡ (if v.tsc_catchup then max shown (compute_guest_tsc k scale v ns) else shown)
  unfolding catch_up
  catch_up_timestamp v host_tsc ns = ground arith

  -- The guest's counter as it was last set, and the host's time since then in the guest's cycles, modulo 2 ^ 64.
  abbrev pub due : Vcpu → ℕ → ℕ
  due v ns =
      let elapsed = (ns + (2 ^ 64 - v.this_tsc_nsec % 2 ^ 64)) % 2 ^ 64 in
      (scale elapsed v.virtual_tsc_mult v.virtual_tsc_shift + v.this_tsc_write) % 2 ^ 64

  compute_guest_tsc-due : (v : Vcpu) (ns : ℕ) → compute_guest_tsc k scale v ns ≡ due v ns
  unfolding compute_guest_tsc
  compute_guest_tsc-due v ns = refl

  -- After an update that takes place, the guest's counter, at the reading of the host's that the update is
  -- based on, is the time-stamp that the page gets. It is what the guest's counter was, or, where it is
  -- to catch up, the larger of that and its due: the value that it was last set to, and the host's time
  -- since then in the guest's cycles. So it never goes back.
  pub kvm_guest_time_update-catch_up :
      (cpu : Cpu) (vm : Kvm) (m : Master) (v : Vcpu) (c : Clock) (pages : Pages) (v' : Vcpu)
      (c' : Clock) (pages' : Pages)
      → kvm_guest_time_update k scale cpu vm m v c pages ≡ updated v' c' pages'
      → let host_tsc = base_tsc cpu vm m in
        let shown = kvm_read_l1_tsc k v host_tsc in
        let expected = due v (base_ns cpu vm m) in
        (kvm_read_l1_tsc k v' host_tsc ≡ c'.hv_clock.tsc_timestamp)
        × (c'.hv_clock.tsc_timestamp ≡ (if v.tsc_catchup then max shown expected else shown))
  unfolding fill kvm_read_l1_tsc
  kvm_guest_time_update-catch_up cpu vm m v c pages v' c' pages' e =
      let u = kvm_guest_time_update-IsUpdate k scale cpu vm m v c pages v' c' pages' e in
      let host_tsc = base_tsc cpu vm m in
      let stamp : c'.hv_clock.tsc_timestamp ≡ (catch_up k scale v host_tsc (base_ns cpu vm m)).1 =
        u.time.tsc_timestamp ∙ ap (λ w. w.last_guest_tsc) u.vcpu in
      (
        ap (λ w. kvm_read_l1_tsc k w host_tsc) u.vcpu
            ∙ catch_up_shown v host_tsc (base_ns cpu vm m)
            ∙ sym stamp,
        stamp
            ∙ catch_up_timestamp v host_tsc (base_ns cpu vm m)
            ∙ ap
                (λ t.
                  if v.tsc_catchup
                  then max (kvm_read_l1_tsc k v host_tsc) t
                  else kvm_read_l1_tsc k v host_tsc)
                (compute_guest_tsc-due v (base_ns cpu vm m)),
      )
