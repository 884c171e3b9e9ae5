-- ===== src/GuestTsc/TimeScale.antt =====
-- x86.c: `div_frac` and `kvm_get_time_scale` (lines 2423 to 2455), which turn two frequencies into a
-- shift and a 32-bit fraction. Its two loops run on fuel.
pub mod Halts
use pve_anti_detection.Prelude.{
  ℕ, zero, suc, ◌+◌, ◌-◌, ◌*◌, ◌/◌, ◌^◌, Bool, true, false, ◌||◌, Option, none, some, ltb, leb,
  if◌then◌else◌, u8, u32, u64,
}

-- A word with a bit above its lower half: `x & 0xffffffff00000000`.
abbrev pub is_wide : ℕ → Bool
is_wide x = leb (2 ^ 32) x

-- `shift` is an `int32_t`: its bit pattern goes up and down.
abbrev pub increment : ℕ → ℕ
increment shift = u32 (shift + 1)

abbrev pub decrement : ℕ → ℕ
decrement shift = u32 (shift + (2 ^ 32 - 1))

-- The first loop: `tps64` and `shift` at its end.
unfoldable pub lower : ℕ → ℕ → ℕ → ℕ → Option (ℕ × ℕ)
lower zero scaled64 tps64 shift = none
lower (suc fuel) scaled64 tps64 shift =
    let rest = lower fuel scaled64 (tps64 / 2) (decrement shift) in
    if ltb (u64 (scaled64 * 2)) tps64 || is_wide tps64 then rest else some (tps64, shift)

-- The second loop: `scaled64`, `tps32` and `shift` at its end.
unfoldable pub raise : ℕ → ℕ → ℕ → ℕ → Option (ℕ × ℕ × ℕ)
raise zero scaled64 tps32 shift = none
raise (suc fuel) scaled64 tps32 shift =
    let halved = raise fuel (scaled64 / 2) tps32 (increment shift) in
    let doubled = raise fuel scaled64 (u32 (tps32 * 2)) (increment shift) in
    if leb tps32 scaled64 || is_wide scaled64
    then (if is_wide scaled64 || leb (2 ^ 31) tps32 then halved else doubled)
    else some (scaled64, tps32, shift)

-- `div_frac`: `none` where the division does not fit 32 bits, or is by 0, at which the processor faults.
unfoldable pub div_frac : ℕ → ℕ → Option ℕ
div_frac dividend divisor =
    if ltb dividend divisor then some (dividend * 2 ^ 32 / divisor) else none

-- The rounds that either loop may take.
abbrev pub rounds : ℕ
rounds = 66

-- `*pshift`, as the bit pattern of an `s8`, and `*pmultiplier`; none where the loops do not end within
-- `rounds`, or the division faults.
unfoldable pub kvm_get_time_scale : ℕ → ℕ → Option (ℕ × ℕ)
unfolding lower raise div_frac
kvm_get_time_scale scaled_hz base_hz = elim (lower rounds scaled_hz base_hz 0) [
  | none ↦ none
  | some (tps64, shift) ↦ elim (raise rounds scaled_hz (u32 tps64) shift) [
    | none ↦ none
    | some (scaled64, tps32, shift') ↦ elim (div_frac (u32 scaled64) tps32) [
      | none ↦ none
      | some multiplier ↦ some (u8 shift', multiplier)
    ]
  ]
]
