-- ===== src/GuestTsc/Sync/Generations/Reachable.antt =====
-- What holds of the machines that can be reached.
use pve_anti_detection.Prelude.{
  ℕ, suc, ◌+◌, ◌^◌, ◌<◌, ◌≡◌, inl, inr, refl, sym, ◌∙◌, Bool, true, Option, some, arith, List, [],
  ◌∷◌, ◌++◌, length, length-append, All, All-append_inv, All-replace, ◌==◌, ==_iff, Bool-cases,
}
use pve_anti_detection.GuestTsc.{Kernel, Vcpu, kvm_vcpu_write_tsc_multiplier}
use pve_anti_detection.GuestTsc.Frequency.{kvm_set_tsc_khz, set_tsc_khz}
use pve_anti_detection.GuestTsc.Sync.{Host, Kvm, kvm_synchronize_tsc}
use pve_anti_detection.GuestTsc.Sync.Generations.Step.{
  Joins, Starts, Records, kvm_synchronize_tsc_cases,
}
use pve_anti_detection.GuestTsc.Sync.Generations.Machine.{
  Machine, Step, create, synchronize, retune, update, Reach, start, later, count, Follows, Counted,
  IsTracked,
}

count-append : (g : ℕ) (xs ys : List Vcpu) → count g (xs ++ ys) ≡ count g xs + count g ys
count-append g [] ys = omega arith
count-append g (x ∷ xs) ys = omega (arith, count-append g xs ys)

count_beyond :
    (vm : Kvm) (g : ℕ) (vs : List Vcpu)
    → vm.cur_tsc_generation < g
    → All (Follows vm) vs
    → count g vs ≡ 0
count_beyond vm g [] lt h = refl
count_beyond vm g (v ∷ vs) lt h = let below = h.0.0 in ground (arith, count_beyond vm g vs lt h.1)

-- The vCPU joined the generation.
module _ (vm : Kvm) (v : Vcpu) (vm' : Kvm) (v' : Vcpu) (r : Records vm vm' v') where
  Follows-Joins : Joins vm v vm' v' → (w : Vcpu) → Follows vm w → Follows vm' w
  Follows-Joins j w (low, agree) = (
    omega (arith, j.generation),
    λ pos. λ e. let (a, b) = agree pos (e ∙ j.generation) in (a ∙ sym j.nsec, b ∙ sym j.write),
  )

  Follows-Starts :
      vm'.cur_tsc_generation ≡ vm.cur_tsc_generation + 1 → (w : Vcpu) → Follows vm w → Follows vm' w
  Follows-Starts up w (low, agree) = (omega arith, λ pos. λ e. absurd (omega arith))

  Follows-Records : Follows vm' v'
  Follows-Records = (omega (arith, r.generation), λ pos. λ e. (r.nsec, r.write))

  Counted-Joins :
      (before after : List Vcpu)
      → Joins vm v vm' v'
      → 0 < vm.cur_tsc_generation
      → count vm.cur_tsc_generation (before ++ (v ∷ after)) ≡ vm.nr_vcpus_matched_tsc + 1
      → count vm'.cur_tsc_generation (before ++ (v' ∷ after)) ≡ vm'.nr_vcpus_matched_tsc + 1
  Counted-Joins before after j pos c =
      let member : v'.this_tsc_generation ≡ vm.cur_tsc_generation = r.generation ∙ j.generation in
      let same : (vm.cur_tsc_generation == vm.cur_tsc_generation) ≡ true = (==_iff _ _).1 refl in
      let g = vm.cur_tsc_generation in
      rw (j.generation, j.matched, count-append g before (v' ∷ after), member, same)
        (elim (Bool-cases (v.this_tsc_generation == g)) [
          | inl e ↦ rw e (omega (arith, rw (count-append g before (v ∷ after), e) at c))
          | inr e ↦ rw e (omega (arith, rw (count-append g before (v ∷ after), e) at c))
        ])

  Counted-Starts :
      (before after : List Vcpu)
      → Starts vm vm' v'
      → vm'.cur_tsc_generation ≡ vm.cur_tsc_generation + 1
      → All (Follows vm) (before ++ (v ∷ after))
      → count vm'.cur_tsc_generation (before ++ (v' ∷ after)) ≡ vm'.nr_vcpus_matched_tsc + 1
  Counted-Starts before after s up h =
      let (hb, ha) = All-append_inv (Follows vm) before (v ∷ after) h in
      let cb = count_beyond vm vm'.cur_tsc_generation before (omega arith) hb in
      let ca = count_beyond vm vm'.cur_tsc_generation after (omega arith) ha.1 in
      rw (count-append vm'.cur_tsc_generation before (v' ∷ after), r.generation, s.matched)
        (ground arith)

length-replace :
    (xs : List Vcpu) (y z : Vcpu) (ys : List Vcpu)
    → length (xs ++ (z ∷ ys)) ≡ length (xs ++ (y ∷ ys))
length-replace xs y z ys =
    rw (length-append {A = Vcpu} xs (z ∷ ys), length-append {A = Vcpu} xs (y ∷ ys)) refl

count-replace :
    (g : ℕ) (xs : List Vcpu) (y z : Vcpu) (ys : List Vcpu)
    → z.this_tsc_generation ≡ y.this_tsc_generation
    → count g (xs ++ (z ∷ ys)) ≡ count g (xs ++ (y ∷ ys))
count-replace g xs y z ys e = rw (count-append g xs (z ∷ ys), count-append g xs (y ∷ ys), e) refl

module _ (k : Kernel) where
  -- A request for a frequency leaves alone what the generations are about.
  pub kvm_set_tsc_khz-kept :
      (ppm : ℕ) (v : Vcpu) (khz : ℕ) (v' : Vcpu) (ok : Bool)
      → kvm_set_tsc_khz k ppm v khz ≡ some (v', ok)
      → (v'.this_tsc_generation ≡ v.this_tsc_generation)
        × (v'.this_tsc_nsec ≡ v.this_tsc_nsec)
        × (v'.this_tsc_write ≡ v.this_tsc_write)
        × (v'.l1_tsc_offset ≡ v.l1_tsc_offset)
  unfolding kvm_set_tsc_khz set_tsc_khz kvm_vcpu_write_tsc_multiplier
  kvm_set_tsc_khz-kept ppm v khz v' ok e = (ground arith, ground arith, ground arith, ground arith)

  create-Counted :
      (vm : Kvm) (vs : List Vcpu) (v : Vcpu)
      → v.this_tsc_generation ≡ 0
      → Counted vm vs
      → Counted vm (v ∷ vs)
  create-Counted vm vs v fresh (inr none_yet) = inr none_yet
  create-Counted vm vs v fresh (inl (pos, c)) = inl (pos, ground arith)

  synchronize-IsTracked :
      (h : Host) (n : ℕ) (vm : Kvm) (before : List Vcpu) (v : Vcpu) (after : List Vcpu)
      (user : Option ℕ)
      → n + 1 < 2 ^ 64
      → IsTracked n (record { vm = vm; vcpus = before ++ (v ∷ after) })
      → IsTracked (suc n) (record {
        vm = (kvm_synchronize_tsc k h vm v user).0;
        vcpus = before ++ ((kvm_synchronize_tsc k h vm v user).1 ∷ after);
      })
  synchronize-IsTracked h n vm before v after user few t =
      let vm' = (kvm_synchronize_tsc k h vm v user).0 in
      let v' = (kvm_synchronize_tsc k h vm v user).1 in
      let (r, how) = kvm_synchronize_tsc_cases k h vm v user in
      let online : vm'.online_vcpus ≡ length (before ++ (v' ∷ after)) =
        r.online ∙ t.online ∙ sym (length-replace before v v' after) in
      elim how [
        | inl (j, match_) ↦ record {
          online = online;
          bound = omega (arith, j.generation, t.bound);
          follows =
              All-replace (Follows vm) (Follows vm') before v v' after
                (Follows-Joins vm v vm' v' r j) (λ old. Follows-Records vm v vm' v' r) t.follows;
          counted = elim t.counted [
            | inl (pos, c) ↦
                inl (omega (arith, j.generation), Counted-Joins vm v vm' v' r before after j pos c)
            | inr (zero_gen, zero_khz) ↦ absurd (match_.frequency (match_.same ∙ zero_khz))
          ];
        }
        | inr s ↦
            let up : vm'.cur_tsc_generation ≡ vm.cur_tsc_generation + 1 =
              omega (arith, s.generation, t.bound) in
            record {
              online = online;
              bound = omega (arith, up, t.bound);
              follows =
                  All-replace (Follows vm) (Follows vm') before v v' after
                    (Follows-Starts vm v vm' v' r up) (λ old. Follows-Records vm v vm' v' r)
                    t.follows;
              counted =
                  inl (omega (arith, up), Counted-Starts vm v vm' v' r before after s up t.follows);
            }
      ]

  module _ (Seen : Host → Type 0) where
    Step-IsTracked :
        {n : ℕ} {m m' : Machine}
        → n + 1 < 2 ^ 64
        → Step k Seen m m'
        → IsTracked n m
        → IsTracked (suc n) m'
    Step-IsTracked few (create vm vs v fresh) t = record {
      online = omega (arith, t.online);
      bound = omega (arith, t.bound);
      follows = ((omega arith, λ pos. absurd (omega arith)), t.follows);
      counted = create-Counted vm vs v fresh t.counted;
    }
    Step-IsTracked {n = n} few (synchronize h vm before v after user seen) t =
        synchronize-IsTracked h n vm before v after user few t
    Step-IsTracked few (retune vm before v v' after ppm khz ok e) t =
        let (gen, nsec, write, offset) = kvm_set_tsc_khz-kept ppm v khz v' ok e in
        record {
          online = t.online ∙ sym (length-replace before v v' after);
          bound = omega (arith, t.bound);
          follows =
              All-replace (Follows vm) (Follows vm) before v v' after (λ w. λ f. f)
                (λ f. (
                  omega (arith, gen, f.0),
                  λ pos. λ cur.
                      let (a, b) = f.1 (omega (arith, gen)) (sym gen ∙ cur) in
                      (nsec ∙ a, write ∙ b),
                ))
                t.follows;
          counted = rw (count-replace vm.cur_tsc_generation before v v' after gen) t.counted;
        }
    Step-IsTracked few (update vm vs enabled requested) t = record {
      online = t.online;
      bound = omega (arith, t.bound);
      follows = t.follows;
      counted = t.counted;
    }

    -- In fewer than 2 ^ 64 steps, a machine stays one whose vCPUs of the current generation agree on its
    -- reference point and are, but for one, the number of vCPUs that match.
    pub Reach-IsTracked : {n : ℕ} {m : Machine} → n < 2 ^ 64 → Reach k Seen n m → IsTracked n m
    Reach-IsTracked few start = record {
      online = refl;
      bound = omega arith;
      follows = tt;
      counted = inr (refl, refl);
    }
    Reach-IsTracked few (later {n = n} r s) =
        Step-IsTracked (omega arith) s (Reach-IsTracked (omega arith) r)
