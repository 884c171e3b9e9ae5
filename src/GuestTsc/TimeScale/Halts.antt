-- ===== src/GuestTsc/TimeScale/Halts.antt =====
-- The two loops end, and the division that follows does not fault.
use native.Mathlib.Nat.{pow-suc, suc-add, zero-add, mul_assoc, mul_comm, div-lt_iff_lt-mul}
use native.Mathlib.Decide.{dec_lt}
use pve_anti_detection.Prelude.{
  ℕ, zero, suc, ◌+◌, ◌*◌, ◌/◌, ◌^◌, ◌≤◌, ◌<◌, ◌≡◌, inl, inr, refl, ◌∙◌, ◌||◌, Option, some, ltb,
  arith, u8, u32, u64, Bool-cases, lt→ltb,
}
use pve_anti_detection.GuestTsc.TimeScale.{
  is_wide, increment, decrement, lower, raise, div_frac, rounds, kvm_get_time_scale,
}

-- The first loop ends with a divisor that is positive and fits 32 bits.
lower_halts :
    (fuel scaled64 tps64 shift : ℕ)
    → 0 < scaled64
    → scaled64 < 2 ^ 63
    → 0 < tps64
    → tps64 < 2 ^ fuel
    → (t : ℕ) × (shift' : ℕ) × (lower (suc fuel) scaled64 tps64 shift ≡ some (t, shift'))
      × (0 < t)
      × (t < 2 ^ 32)
unfolding lower
lower_halts zero scaled64 tps64 shift hs fits ht h = absurd (omega arith)
lower_halts (suc fuel) scaled64 tps64 shift hs fits ht h =
    elim (Bool-cases (ltb (u64 (scaled64 * 2)) tps64 || is_wide tps64)) [
      | inr stop ↦ (tps64, shift, rw (stop, lower) refl, ht, ground arith)
      | inl go ↦
          let (t, shift', e, pos, low) =
            lower_halts fuel scaled64 (tps64 / 2) (decrement shift) hs fits (ground arith)
              (omega (arith, pow-suc 2 fuel)) in
          (t, shift', rw (go, lower) e, pos, low)
    ]

-- The second loop's result: a dividend below the divisor, which fits 32 bits.
abbrev Fraction : Option (ℕ × ℕ × ℕ) → Type 0
Fraction r = (s : ℕ) × (t : ℕ) × (shift : ℕ) × (r ≡ some (s, t, shift)) × (s < t) × (t < 2 ^ 32)

raise_stops : (n s t shift : ℕ) → s < t → t < 2 ^ 32 → raise (suc n) s t shift ≡ some (s, t, shift)
unfolding raise
raise_stops n s t shift lt low = ground arith

-- What one round does, in its three cases.
raise_wide :
    (n s t shift : ℕ)
    → 2 ^ 32 ≤ s
    → t < 2 ^ 32
    → raise (suc n) s t shift ≡ raise n (s / 2) t (increment shift)
unfolding raise
raise_wide n s t shift wide ht = ground arith

raise_high :
    (n s t shift : ℕ)
    → t ≤ s
    → 2 ^ 31 ≤ t
    → raise (suc n) s t shift ≡ raise n (s / 2) t (increment shift)
unfolding raise
raise_high n s t shift le high = ground arith

raise_low :
    (n s t shift : ℕ)
    → t ≤ s
    → s < 2 ^ 32
    → t < 2 ^ 31
    → raise (suc n) s t shift ≡ raise n s (t * 2) (increment shift)
unfolding raise
raise_low n s t shift le hs low = let exact : u32 (t * 2) ≡ t * 2 = omega arith in ground arith

-- With the divisor's highest bit set two rounds are enough.
raise_ends :
    (n s t shift : ℕ)
    → s < 2 ^ 32
    → t < 2 ^ 32
    → 2 ^ 31 ≤ t
    → Fraction (raise (suc (suc n)) s t shift)
raise_ends n s t shift hs ht high = elim (dec_lt s t) [
  | yes lt ↦ (s, t, shift, raise_stops (suc n) s t shift lt ht, lt, ht)
  | no ge ↦ (
    s / 2,
    t,
    increment shift,
    raise_high (suc n) s t shift (omega arith) high
        ∙ raise_stops n (s / 2) t (increment shift) (omega arith) ht,
    omega arith,
    ht,
  )
]

-- From a dividend of 32 bits on, the divisor doubles until its highest bit is set, and the dividend is
-- halved once at most.
raise_narrow :
    (n f s t shift : ℕ)
    → s < 2 ^ 32
    → t < 2 ^ 32
    → 2 ^ 31 ≤ t * 2 ^ f
    → Fraction (raise (suc (suc (f + n))) s t shift)
raise_narrow n zero s t shift hs ht h = raise_ends (0 + n) s t shift hs ht (omega arith)
raise_narrow n (suc f) s t shift hs ht h = elim (dec_lt t (2 ^ 31)) [
  | no high ↦ raise_ends (suc f + n) s t shift hs ht (omega arith)
  | yes low ↦ elim (dec_lt s t) [
    | yes lt ↦ (s, t, shift, raise_stops (suc (suc f + n)) s t shift lt ht, lt, ht)
    | no ge ↦
        rw (raise_low (suc (suc f + n)) s t shift (omega arith) hs low, suc-add f n)
          (raise_narrow n f s (t * 2) (increment shift) hs (omega arith)
            (rw (mul_assoc t 2 (2 ^ f), mul_comm 2 (2 ^ f), ← pow-suc 2 f) h))
  ]
]

-- A wider dividend is halved first.
raise_from_wide :
    (g n s t shift : ℕ)
    → s < 2 ^ 32 * 2 ^ g
    → 0 < t
    → t < 2 ^ 32
    → Fraction (raise (g + suc (suc (31 + n))) s t shift)
raise_from_wide zero n s t shift hs pos ht =
    rw zero-add (raise_narrow n 31 s t shift (omega arith) ht (omega arith))
raise_from_wide (suc g) n s t shift hs pos ht = elim (dec_lt s (2 ^ 32)) [
  | no wide ↦
      rw
        (
          suc-add g (suc (suc (31 + n))),
          raise_wide (g + suc (suc (31 + n))) s t shift (omega arith) ht,
        )
        (raise_from_wide g n (s / 2) t (increment shift) (omega (arith, pow-suc 2 g)) pos ht)
  | yes narrow ↦
      let all : suc g + suc (suc (31 + n)) ≡ suc (suc (31 + (suc g + n))) = omega arith in
      rw all (raise_narrow (suc g + n) 31 s t shift narrow ht (omega arith))
]

scaled_by :
    (scaled_hz base_hz t shift s' t' shift' multiplier : ℕ)
    → lower rounds scaled_hz base_hz 0 ≡ some (t, shift)
    → raise rounds scaled_hz (u32 t) shift ≡ some (s', t', shift')
    → div_frac (u32 s') t' ≡ some multiplier
    → kvm_get_time_scale scaled_hz base_hz ≡ some (u8 shift', multiplier)
unfolding kvm_get_time_scale
scaled_by scaled_hz base_hz t shift s' t' shift' multiplier e e' d =
    rw (kvm_get_time_scale, e, e', d)

div_frac-lt : (s t : ℕ) → s < t → (div_frac s t ≡ some (s * 2 ^ 32 / t)) × (s * 2 ^ 32 / t < 2 ^ 32)
unfolding div_frac
div_frac-lt s t lt = (rw (lt→ltb s t lt) refl, (div-lt_iff_lt-mul (omega arith)).1 (omega arith))

-- For two frequencies that are not 0, the first below 2 ^ 63, both loops end within 66 rounds, and the
-- division neither is by 0 nor overflows: the fraction fits 32 bits.
pub kvm_get_time_scale_total :
    (scaled_hz base_hz : ℕ)
    → 0 < scaled_hz
    → scaled_hz < 2 ^ 63
    → 0 < base_hz
    → base_hz < 2 ^ 64
    → (shift : ℕ) × (multiplier : ℕ) × (kvm_get_time_scale scaled_hz base_hz
        ≡ some (shift, multiplier))
      × (shift < 2 ^ 8)
      × (multiplier < 2 ^ 32)
kvm_get_time_scale_total scaled_hz base_hz hs fits hb wide =
    let (t, shift, e, pos, low) = lower_halts 65 scaled_hz base_hz 0 hs fits hb (omega arith) in
    let (s', t', shift', e', lt, low') =
      raise_from_wide 31 2 scaled_hz (u32 t) shift (omega arith) (omega arith) (omega arith) in
    let small : u32 s' ≡ s' = omega arith in
    let (d, fit) = div_frac-lt (u32 s') t' (omega arith) in
    (
      u8 shift',
      u32 s' * 2 ^ 32 / t',
      scaled_by scaled_hz base_hz t shift s' t' shift' (u32 s' * 2 ^ 32 / t') e e' d,
      omega arith,
      fit,
    )
