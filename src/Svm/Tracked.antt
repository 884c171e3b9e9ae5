-- ===== src/Svm/Tracked.antt =====
-- What holds of the processors and the vCPUs at all times, and what one entry does to it.
use pve_anti_detection.Prelude.{
  ℕ, suc, ◌+◌, ◌^◌, ◌≤◌, ◌<◌, ◌≡◌, ◌≢◌, ◌⊎◌, inl, inr, refl, sym, subst, ap, ◌∙◌, arith,
  update_at-all, update_at-pairs,
}
use pve_anti_detection.Svm.{CpuData, VcpuSvm}
use pve_anti_detection.Svm.Machine.{Host, set_vcpu}
use pve_anti_detection.Svm.Entry.{IsPlain, IsEntered, Entry, kept, taken, wrapped}

-- The vCPU is in the generation of the processor's data.
abbrev pub Owns : CpuData → VcpuSvm → Type 0
Owns sd v = v.vmcb01.asid_generation ≡ sd.asid_generation

-- A processor, after so many steps.
pub record IsCpu (n : ℕ) (sd : CpuData) : Type 0 where
  pub positive : 1 ≤ sd.asid_generation
  pub few : sd.asid_generation ≤ n + 1
  pub some_free : sd.min_asid ≤ sd.max_asid
  pub fits : sd.max_asid + 1 < 2 ^ 32
  pub lower : sd.min_asid ≤ sd.next_asid
  pub upper : sd.next_asid ≤ sd.max_asid + 1

-- A vCPU on its processor: its generation is none to come, but may have been counted down below 0.
pub record IsVcpu (n : ℕ) (sd : CpuData) (v : VcpuSvm) : Type 0 where
  pub plain : IsPlain v
  pub word : v.vmcb01.asid_generation < 2 ^ 64
  pub behind :
      (v.vmcb01.asid_generation ≤ sd.asid_generation) ⊎ (2 ^ 64 ≤ v.vmcb01.asid_generation + n)
  pub held : Owns sd v → (sd.min_asid ≤ v.asid) × (v.asid < sd.next_asid)

abbrev pub cpu_of : Host → ℕ → ℕ
cpu_of h i = (h.vcpus i).vmcb01.cpu

-- On one processor, the two own different identifiers.
abbrev pub Apart : (ℕ → CpuData) → VcpuSvm → VcpuSvm → Type 0
Apart cpus v w =
    (c : ℕ)
    → v.vmcb01.cpu ≡ c
    → w.vmcb01.cpu ≡ c
    → Owns (cpus c) v
    → Owns (cpus c) w
    → v.asid ≢ w.asid

pub Apart-sym : (cpus : ℕ → CpuData) (v w : VcpuSvm) → Apart cpus v w → Apart cpus w v
Apart-sym cpus v w apart c on_w on_v own_w own_v e = apart c on_v on_w own_v own_w (sym e)

pub record IsTracked (n : ℕ) (h : Host) : Type 0 where
  pub cpus : (c : ℕ) → IsCpu n (h.cpus c)
  pub vcpus : (i : ℕ) → IsVcpu n (h.cpus (cpu_of h i)) (h.vcpus i)
  pub distinct : (i j : ℕ) → i ≢ j → Apart h.cpus (h.vcpus i) (h.vcpus j)

pub IsCpu-Entry :
    {n : ℕ} {v v' : VcpuSvm} {sd sd' : CpuData}
    → n + 2 < 2 ^ 64
    → IsCpu n sd
    → Entry v sd v' sd'
    → IsCpu (suc n) sd'
IsCpu-Entry few i (kept c g a e) = rw e (record {
  positive = i.positive;
  few = omega (arith, i.few);
  some_free = i.some_free;
  fits = i.fits;
  lower = i.lower;
  upper = i.upper;
})
IsCpu-Entry few i (taken free a e) = rw e (record {
  positive = i.positive;
  few = omega (arith, i.few);
  some_free = i.some_free;
  fits = i.fits;
  lower = omega (arith, i.lower, i.fits);
  upper = omega (arith, i.fits);
})
IsCpu-Entry few i (wrapped a e) = rw e (record {
  positive = omega (arith, i.few);
  few = omega (arith, i.few);
  some_free = i.some_free;
  fits = i.fits;
  lower = omega (arith, i.some_free, i.fits);
  upper = omega (arith, i.some_free, i.fits);
})

-- A vCPU that owns an identifier after another's entry owned it before.
pub Owns-Entry :
    {n : ℕ} {v v' w : VcpuSvm} {sd sd' : CpuData}
    → n < 2 ^ 62
    → IsCpu n sd
    → IsVcpu n sd w
    → Entry v sd v' sd'
    → Owns sd' w
    → Owns sd w × (w.asid ≢ v'.asid ⊎ (Owns sd v × (v'.asid ≡ v.asid) × (v.vmcb01.cpu ≡ v.cpu)))
Owns-Entry few i t (kept c g a e) own = (own ∙ ap (λ d. d.asid_generation) e, inr (g, a, c))
Owns-Entry few i t (taken free a e) own =
    let own' = own ∙ ap (λ d. d.asid_generation) e in
    (own', inl (omega (arith, a, (t.held own').1)))
Owns-Entry few i t (wrapped a e) own =
    let own' = own ∙ ap (λ d. d.asid_generation) e in absurd (omega (arith, own', t.behind, i.few))

-- Generations only grow, and within one the identifiers do.
pub Entry-grows :
    {n : ℕ} {v v' : VcpuSvm} {sd sd' : CpuData}
    → n < 2 ^ 62
    → IsCpu n sd
    → Entry v sd v' sd'
    → (sd.asid_generation ≤ sd'.asid_generation)
      × (sd'.min_asid ≡ sd.min_asid)
      × (sd'.asid_generation ≡ sd.asid_generation → sd.next_asid ≤ sd'.next_asid)
Entry-grows few i (kept c g a e) = rw e (omega arith, refl, λ same. omega arith)
Entry-grows few i (taken free a e) = rw e (omega arith, refl, λ same. omega (arith, i.fits))
Entry-grows few i (wrapped a e) =
    rw e (omega (arith, i.few), refl, λ same. absurd (omega (arith, same, i.few)))

-- The identifier that it enters with is one of the processor's.
entered_held :
    {n : ℕ} {v v' : VcpuSvm} {sd sd' : CpuData}
    → n < 2 ^ 62
    → IsCpu n sd
    → (v.vmcb01.cpu ≡ v.cpu → Owns sd v → (sd.min_asid ≤ v.asid) × (v.asid < sd.next_asid))
    → Entry v sd v' sd'
    → (sd'.min_asid ≤ v'.asid) × (v'.asid < sd'.next_asid)
entered_held few i held (kept c g a e) =
    let (low, high) = held c g in rw e (omega (arith, a), omega (arith, a))
entered_held few i held (taken free a e) =
    rw e (omega (arith, a, i.lower), omega (arith, a, i.fits))
entered_held few i held (wrapped a e) =
    rw e (omega (arith, a), omega (arith, a, i.some_free, i.fits))

-- Another vCPU on the processor.
pub IsVcpu-Entry :
    {n : ℕ} {v v' w : VcpuSvm} {sd sd' : CpuData}
    → n < 2 ^ 62
    → IsCpu n sd
    → IsVcpu n sd w
    → Entry v sd v' sd'
    → IsVcpu (suc n) sd' w
IsVcpu-Entry few i t entry = record {
  plain = t.plain;
  word = t.word;
  behind = elim t.behind [
    | inl low ↦ inl (omega (arith, (Entry-grows few i entry).0))
    | inr high ↦ inr (omega arith)
  ];
  held = λ own.
      let (grows, least, next) = Entry-grows few i entry in
      let (low, high) = t.held (Owns-Entry few i t entry own).0 in
      let same = sym own ∙ (Owns-Entry few i t entry own).0 in
      (omega (arith, least), omega (arith, next same));
}

-- The vCPU that entered.
pub IsVcpu-entered :
    {n : ℕ} {v v' : VcpuSvm} {sd sd' : CpuData}
    → n < 2 ^ 62
    → IsCpu n sd
    → (v.vmcb01.cpu ≡ v.cpu → Owns sd v → (sd.min_asid ≤ v.asid) × (v.asid < sd.next_asid))
    → IsEntered v v' sd'
    → Entry v sd v' sd'
    → IsVcpu (suc n) sd' v'
IsVcpu-entered few i held (plain, c, g) entry = record {
  plain = plain;
  word = omega (arith, g, (IsCpu-Entry (omega arith) i entry).few);
  behind = inl (omega (arith, g));
  held = λ own. entered_held few i held entry;
}

pub IsCpu-later : {n : ℕ} {sd : CpuData} → IsCpu n sd → IsCpu (suc n) sd
IsCpu-later i = record {
  positive = i.positive;
  few = omega (arith, i.few);
  some_free = i.some_free;
  fits = i.fits;
  lower = i.lower;
  upper = i.upper;
}

pub IsVcpu-later : {n : ℕ} {sd : CpuData} {v : VcpuSvm} → IsVcpu n sd v → IsVcpu (suc n) sd v
IsVcpu-later t = record {
  plain = t.plain;
  word = t.word;
  behind = elim t.behind [ inl low ↦ inl low | inr high ↦ inr (omega arith) ];
  held = t.held;
}

pub set_vcpu-IsTracked :
    (n : ℕ) (h : Host) (i : ℕ) (v : VcpuSvm)
    → IsTracked n h
    → v.vmcb01.cpu ≡ cpu_of h i
    → IsVcpu (suc n) (h.cpus (cpu_of h i)) v
    → (Owns (h.cpus (cpu_of h i)) v
        → Owns (h.cpus (cpu_of h i)) (h.vcpus i) × (v.asid ≡ (h.vcpus i).asid))
    → IsTracked (suc n) (set_vcpu h i v)
set_vcpu-IsTracked n h i v t c new owns = record {
  cpus = λ d. IsCpu-later (t.cpus d);
  vcpus =
      update_at-all (λ w. IsVcpu (suc n) (h.cpus w.vmcb01.cpu) w) h.vcpus i v
        (subst (λ d. IsVcpu (suc n) (h.cpus d) v) (sym c) new)
        (λ j other. IsVcpu-later (t.vcpus j));
  distinct =
      update_at-pairs (Apart h.cpus) h.vcpus i v (Apart-sym h.cpus)
        (λ j other d on_v on_w own_v own_w.
          let on : cpu_of h i ≡ d = sym c ∙ on_v in
          let (own, same) = owns (subst (λ e. Owns (h.cpus e) v) (sym on) own_v) in
          λ e.
            t.distinct i j other d on on_w (subst (λ e'. Owns (h.cpus e') (h.vcpus i)) on own) own_w
              (sym same ∙ e))
        (λ j k ij ik differs. t.distinct j k differs);
}
