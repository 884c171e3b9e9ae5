-- ===== src/GuestTsc/Frequency/Accuracy.antt =====
-- What a guest gets that asked for a frequency.
use pve_anti_detection.Prelude.{
  ℕ, ◌+◌, ◌*◌, ◌/◌, ◌^◌, ◌≤◌, ◌<◌, ◌≡◌, ◌≢◌, inl, inr, none, arith, ◌==◌, Bool-cases,
}
use pve_anti_detection.GuestTsc.{Kernel, Vcpu}
use pve_anti_detection.GuestTsc.TimeScale.Halts.{kvm_get_time_scale_total}
use pve_anti_detection.GuestTsc.Frequency.{kvm_set_tsc_khz, nsec_per_sec}

-- A host whose counter runs, with a fixed point below 64 bits and the ratio of 1 for its default; and the
-- kernel's 128-bit arithmetic, where the result fits 64 bits.
pub record IsHost (k : Kernel) : Type 0 where
  pub runs : 0 < k.tsc_khz
  pub fixed_point : 2 ^ k.tsc_scaling_ratio_frac_bits < 2 ^ 64
  pub default : k.default_tsc_scaling_ratio ≡ 2 ^ k.tsc_scaling_ratio_frac_bits
  pub mul_u64_u64_shr_lem :
      (a b n : ℕ) → a * b / 2 ^ n < 2 ^ 64 → k.mul_u64_u64_shr a b n ≡ a * b / 2 ^ n
  pub mul_u64_u32_div_lem :
      (a b d : ℕ) → 0 < d → a * b / d < 2 ^ 64 → k.mul_u64_u32_div a b d ≡ a * b / d

-- Every request ends: the program returns, with or without success, for every 32-bit frequency.
pub kvm_set_tsc_khz_total :
    (k : Kernel) (ppm : ℕ) (v : Vcpu) (user_tsc_khz : ℕ)
    → user_tsc_khz < 2 ^ 32
    → kvm_set_tsc_khz k ppm v user_tsc_khz ≢ none
unfolding kvm_set_tsc_khz
kvm_set_tsc_khz_total k ppm v user h = elim (Bool-cases (user == 0)) [
  | inl off ↦ rw (off, kvm_set_tsc_khz) (λ e. cc)
  | inr on ↦
      let (shift, mult, e, low, fit) =
        kvm_get_time_scale_total (user * 1000) nsec_per_sec (ground arith) (omega arith)
          (omega arith) (omega arith) in
      rw (on, kvm_set_tsc_khz, e) (λ n. cc)
]

-- The count `s` for `c` cycles of the host is that of a counter at `user`.
abbrev IsAccurate : Kernel → ℕ → ℕ → ℕ → Type 0
IsAccurate k user c s =
    let p = 2 ^ k.tsc_scaling_ratio_frac_bits in
    (s * k.tsc_khz ≤ c * user) × (p * (c * user) ≤ (p * (s + 1) + c) * k.tsc_khz)
