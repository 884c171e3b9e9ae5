-- ===== src/GuestTsc/Frequency.antt =====
-- x86.c: the frequency that user space asks for (lines 2464 to 2541): `adjust_tsc_khz`, `set_tsc_khz`
-- and `kvm_set_tsc_khz`.
pub mod Accuracy
use pve_anti_detection.Prelude.{
  ℕ, ◌+◌, ◌-◌, ◌*◌, ◌/◌, ◌^◌, Bool, true, false, not, ◌||◌, Option, none, some, ltb, leb, ◌==◌,
  if◌then◌else◌, u32, u64,
}
use pve_anti_detection.GuestTsc.{Kernel, Vcpu, kvm_vcpu_write_tsc_multiplier}
use pve_anti_detection.GuestTsc.TimeScale.{kvm_get_time_scale}

-- The conversion of an `int`, by its bit pattern, to `u64`.
abbrev pub widen : ℕ → ℕ
widen x = if ltb x (2 ^ 31) then x else x + (2 ^ 64 - 2 ^ 32)

-- `ppm` is an `s32`, by its bit pattern.
unfoldable pub adjust_tsc_khz : ℕ → ℕ → ℕ
adjust_tsc_khz khz ppm = u32 (u64 (khz * widen (u32 (1000000 + ppm))) / 1000000)

-- `NSEC_PER_SEC`
abbrev pub nsec_per_sec : ℕ
nsec_per_sec = 1000000000

module _ (k : Kernel) where
  -- The ratio that the processor is to multiply its counter by.
  unfoldable pub scaling_ratio : ℕ → ℕ
  scaling_ratio user_tsc_khz =
      k.mul_u64_u32_div (u64 (2 ^ k.tsc_scaling_ratio_frac_bits)) user_tsc_khz k.tsc_khz

  -- `true` stands for 0, `false` for -1.
  unfoldable pub set_tsc_khz : Vcpu → ℕ → Bool → Vcpu × Bool
  unfolding scaling_ratio
  set_tsc_khz v user_tsc_khz scale =
      if not scale
      then (kvm_vcpu_write_tsc_multiplier k v k.default_tsc_scaling_ratio, true)
      else (if not k.has_tsc_control
          then (if ltb k.tsc_khz user_tsc_khz
              then (record v { tsc_catchup = true; tsc_always_catchup = true }, true)
              else (v, false))
          else (let ratio = scaling_ratio user_tsc_khz in
              if ratio == 0 || leb k.max_tsc_scaling_ratio ratio
              then (v, false)
              else (kvm_vcpu_write_tsc_multiplier k v ratio, true)))

  -- The frequency lies outside the tolerated neighbourhood of the host's.
  unfoldable pub use_scaling : ℕ → ℕ → Bool
  use_scaling tsc_tolerance_ppm user_tsc_khz =
      ltb user_tsc_khz (adjust_tsc_khz k.tsc_khz (u32 (2 ^ 32 - u32 tsc_tolerance_ppm)))
      || ltb (adjust_tsc_khz k.tsc_khz tsc_tolerance_ppm) user_tsc_khz

  -- `tsc_tolerance_ppm` is a parameter of the module, 250 if not set. `none`: the computation of the time
  -- scale did not end.
  unfoldable pub kvm_set_tsc_khz : ℕ → Vcpu → ℕ → Option (Vcpu × Bool)
  unfolding set_tsc_khz use_scaling
  kvm_set_tsc_khz tsc_tolerance_ppm v user_tsc_khz =
      if user_tsc_khz == 0
      then some (kvm_vcpu_write_tsc_multiplier k v k.default_tsc_scaling_ratio, false)
      else elim (kvm_get_time_scale (user_tsc_khz * 1000) nsec_per_sec) [
        | none ↦ none
        | some (shift, mult) ↦
            let v' = record v {
              virtual_tsc_shift = shift;
              virtual_tsc_mult = mult;
              virtual_tsc_khz = user_tsc_khz;
            } in
            some (set_tsc_khz v' user_tsc_khz (use_scaling tsc_tolerance_ppm user_tsc_khz))
      ]
