-- ===== src/GuestTsc/Update/Steps.antt =====
-- One update of the clock: what it leaves in the vCPU and in its structure.
use pve_anti_detection.Prelude.{
  ℕ, ◌+◌, ◌*◌, ◌<◌, ◌≡◌, ◌⊎◌, inl, inr, refl, sym, subst, ◌∙◌, Bool, false, Option, none, some,
  arith, List, ◌==◌, ==_iff, u64, Bool-cases, Option-cases,
}
use pve_anti_detection.GuestTsc.{Kernel, Vcpu}
use pve_anti_detection.GuestTsc.Frequency.{nsec_per_sec}
use pve_anti_detection.GuestTsc.TimeScale.{kvm_get_time_scale}
use pve_anti_detection.GuestTsc.Sync.{Kvm}
use pve_anti_detection.GuestTsc.Page.{TimeInfo, Field, Clock, prepared, kvm_setup_guest_pvclock}
use pve_anti_detection.GuestTsc.Master.{Master}
use pve_anti_detection.GuestTsc.Update.{
  Cpu, Pages, try_again, endless, updated, set_page, set_pages, get_cpu_tsc_khz, catch_up, base_tsc,
  base_ns, tgt_tsc_khz, rescale, fill, kvm_guest_time_update,
}

-- The same time: the four values that a guest computes it from.
pub record Agrees (p q : TimeInfo) : Type 0 where
  pub tsc_timestamp : q.tsc_timestamp ≡ p.tsc_timestamp
  pub system_time : q.system_time ≡ p.system_time
  pub tsc_to_system_mul : q.tsc_to_system_mul ≡ p.tsc_to_system_mul
  pub tsc_shift : q.tsc_shift ≡ p.tsc_shift

-- The scale is that of the frequency it was computed for.
abbrev pub IsScaled : Clock → Type 0
IsScaled c =
    (c.hw_tsc_khz ≡ 0)
    ⊎ (kvm_get_time_scale nsec_per_sec (u64 (c.hw_tsc_khz * 1000))
        ≡ some (c.hv_clock.tsc_shift, c.hv_clock.tsc_to_system_mul))

set_page-Agrees :
    (order : List Field) (page : Option TimeInfo) (c : Clock) (force : Bool)
    → let c' = (set_page order page c force).1 in
      Agrees c.hv_clock c'.hv_clock × (c'.hw_tsc_khz ≡ c.hw_tsc_khz)
unfolding set_page kvm_setup_guest_pvclock prepared
set_page-Agrees order none c force = (
  record { tsc_timestamp = refl; system_time = refl; tsc_to_system_mul = refl; tsc_shift = refl },
  refl,
)
set_page-Agrees order (some page) c force = (
  record { tsc_timestamp = refl; system_time = refl; tsc_to_system_mul = refl; tsc_shift = refl },
  refl,
)

pub Agrees-trans : {p q r : TimeInfo} → Agrees p q → Agrees q r → Agrees p r
Agrees-trans a b = record {
  tsc_timestamp = b.tsc_timestamp ∙ a.tsc_timestamp;
  system_time = b.system_time ∙ a.system_time;
  tsc_to_system_mul = b.tsc_to_system_mul ∙ a.tsc_to_system_mul;
  tsc_shift = b.tsc_shift ∙ a.tsc_shift;
}

-- Writing the pages changes neither the time nor its scale.
set_pages-Agrees :
    (cpu : Cpu) (pages : Pages) (c : Clock)
    → let c' = (set_pages cpu pages c).0 in
      Agrees c.hv_clock c'.hv_clock × (c'.hw_tsc_khz ≡ c.hw_tsc_khz)
unfolding set_pages
set_pages-Agrees cpu pages c =
    let order = cpu.memcpy_order in
    let force = cpu.xen_pvclock_tsc_unstable in
    let c₁ = (set_page order pages.pv_time c false).1 in
    let c₂ = (set_page order pages.vcpu_info_cache c₁ force).1 in
    let (a, khz) = set_page-Agrees order pages.pv_time c false in
    let (b, khz') = set_page-Agrees order pages.vcpu_info_cache c₁ force in
    let (d, khz'') = set_page-Agrees order pages.vcpu_time_info_cache c₂ force in
    (Agrees-trans a (Agrees-trans b d), khz'' ∙ khz' ∙ khz)

none_not_some : {A : Type 0} {a : A} → none ≡ some a → ⊥
none_not_some e = cc

updated_inj :
    {v v' : Vcpu} {c c' : Clock} {p p' : Pages}
    → updated v c p ≡ updated v' c' p'
    → (v ≡ v') × (c ≡ c')
updated_inj e = (cc, cc)

some_inj : {A : Type 0} {a b : A} → some a ≡ some b → a ≡ b
some_inj e = cc

pub rescale-IsScaled :
    (k : Kernel) (scale : ℕ → ℕ → ℕ → ℕ) (c c' : Clock) (khz : ℕ)
    → IsScaled c
    → rescale k scale c khz ≡ some c'
    → 0 < khz
    → (kvm_get_time_scale nsec_per_sec (u64 (khz * 1000))
        ≡ some (c'.hv_clock.tsc_shift, c'.hv_clock.tsc_to_system_mul))
      × (c'.hw_tsc_khz ≡ khz)
unfolding rescale
rescale-IsScaled k scale c c' khz scaled e pos = elim (Bool-cases (c.hw_tsc_khz == khz)) [
  | inl same ↦
      let q : c ≡ c' = some_inj (rw same at e) in
      let khz_eq = (==_iff _ _).0 same in
      elim scaled [ inl unset ↦ absurd (omega arith) | inr t ↦ rw (sym q) (rw khz_eq at t, khz_eq) ]
  | inr other ↦ elim (Option-cases (kvm_get_time_scale nsec_per_sec (u64 (khz * 1000)))) [
    | inl n ↦ absurd (none_not_some (rw (other, n) at e))
    | inr ((shift, mul), s) ↦ let q = some_inj (rw (other, s) at e) in rw (sym q) (s, refl)
  ]
]

module _ (k : Kernel) (scale : ℕ → ℕ → ℕ → ℕ) where
  -- What an update that takes place does.
  pub record IsUpdate (cpu : Cpu) (vm : Kvm) (m : Master) (v : Vcpu) (c : Clock) (v' : Vcpu)
      (c' : Clock) : Type 0 where
    pub vcpu :
        let (w, tsc_timestamp) = catch_up k scale v (base_tsc cpu vm m) (base_ns cpu vm m) in
        v' ≡ record w { last_guest_tsc = tsc_timestamp }
    pub scaled : Clock
    pub rescaled : rescale k scale c (tgt_tsc_khz k scale cpu v') ≡ some scaled
    pub time :
        Agrees
          (fill k scale scaled v'.last_guest_tsc
            (u64 (base_ns cpu vm m + m.kvmclock_offset))
            vm.use_master_clock).hv_clock
          c'.hv_clock
    pub khz : c'.hw_tsc_khz ≡ scaled.hw_tsc_khz

  pub kvm_guest_time_update-IsUpdate :
      (cpu : Cpu) (vm : Kvm) (m : Master) (v : Vcpu) (c : Clock) (pages : Pages) (v' : Vcpu)
      (c' : Clock) (pages' : Pages)
      → kvm_guest_time_update k scale cpu vm m v c pages ≡ updated v' c' pages'
      → IsUpdate cpu vm m v c v' c'
  unfolding kvm_guest_time_update tgt_tsc_khz
  kvm_guest_time_update-IsUpdate cpu vm m v c pages v' c' pages' e =
      let (w, tsc_timestamp) = catch_up k scale v (base_tsc cpu vm m) (base_ns cpu vm m) in
      elim (Bool-cases (get_cpu_tsc_khz k scale cpu == 0)) [
        | inl zero_khz ↦
            absurd (let bad : try_again ≡ updated v' c' pages' = rw zero_khz at e in cc)
        | inr runs ↦ elim (Option-cases (rescale k scale c (tgt_tsc_khz k scale cpu w))) [
          | inl n ↦ absurd (let bad : endless ≡ updated v' c' pages' = rw (runs, n) at e in cc)
          | inr (c₀, s) ↦
              let filled =
                fill k scale c₀ tsc_timestamp (u64 (base_ns cpu vm m + m.kvmclock_offset))
                  vm.use_master_clock in
              let (time, khz) = set_pages-Agrees cpu pages filled in
              let (e_vcpu, e_clock) = updated_inj (rw (runs, s) at e) in
              subst (IsUpdate cpu vm m v c v') e_clock (
                subst (λ w'. IsUpdate cpu vm m v c w' (set_pages cpu pages filled).0) e_vcpu
                  (record { vcpu = refl; scaled = c₀; rescaled = s; time = time; khz = khz }))
        ]
      ]
