-- ===== src/Vmx/Sequences.antt =====
-- Any sequence of adding and clearing.
use pve_anti_detection.Prelude.{ℕ, Bool, List, [], ◌∷◌, Bool-cases, inl, inr, ◌==◌, ◌&&◌, if_cases}
use pve_anti_detection.Vmx.{
  Vmx, Caps, msr_efer, msr_core_perf_global_ctrl, clear_atomic_switch_msr, add_lists,
  add_atomic_switch_msr,
}
use pve_anti_detection.Vmx.Switch.{
  IsAutoload, has_room, clear_lists_lem, add_lists_lem, add_lists-full,
}

pub data Op : Type 0 where
  clear : ℕ → Op
  add : ℕ → ℕ → ℕ → Bool → Op

abbrev pub apply : Caps → Vmx → Op → Vmx
apply caps v (clear msr) = clear_atomic_switch_msr caps v msr
apply caps v (add msr guest_val host_val entry_only) =
    add_atomic_switch_msr caps v msr guest_val host_val entry_only

abbrev pub apply_all : Caps → Vmx → List Op → Vmx
apply_all caps v [] = v
apply_all caps v (op ∷ ops) = apply_all caps (apply caps v op) ops

clear-IsAutoload :
    (caps : Caps) (v : Vmx) (msr : ℕ)
    → IsAutoload v
    → IsAutoload (clear_atomic_switch_msr caps v msr)
unfolding clear_atomic_switch_msr
clear-IsAutoload caps v msr i =
    if_cases {A = Vmx} IsAutoload (msr == msr_efer && caps.load_ia32_efer) _ _
      (λ _. record { guest = i.guest; host = i.host; entries = i.entries; exits = i.exits })
      (λ _.
        if_cases {A = Vmx} IsAutoload
          (msr == msr_core_perf_global_ctrl && caps.load_perf_global_ctrl) _ _
          (λ _. record { guest = i.guest; host = i.host; entries = i.entries; exits = i.exits })
          (λ _. (clear_lists_lem v msr i).0))

add_lists-IsAutoload :
    (v : Vmx) (msr guest_val host_val : ℕ) (entry_only : Bool)
    → IsAutoload v
    → IsAutoload (add_lists v msr guest_val host_val entry_only)
add_lists-IsAutoload v msr guest_val host_val entry_only i =
    elim (Bool-cases (has_room v msr entry_only)) [
      | inl room ↦ (add_lists_lem v msr guest_val host_val entry_only i room).0
      | inr full ↦ rw (add_lists-full v msr guest_val host_val entry_only full) i
    ]

add-IsAutoload :
    (caps : Caps) (v : Vmx) (msr guest_val host_val : ℕ) (entry_only : Bool)
    → IsAutoload v
    → IsAutoload (add_atomic_switch_msr caps v msr guest_val host_val entry_only)
unfolding add_atomic_switch_msr
add-IsAutoload caps v msr guest_val host_val entry_only i =
    if_cases {A = Vmx} IsAutoload (msr == msr_efer && caps.load_ia32_efer) _ _
      (λ _. record { guest = i.guest; host = i.host; entries = i.entries; exits = i.exits })
      (λ _.
        if_cases {A = Vmx} IsAutoload
          (msr == msr_core_perf_global_ctrl && caps.load_perf_global_ctrl) _ _
          (λ _. record { guest = i.guest; host = i.host; entries = i.entries; exits = i.exits })
          (λ _.
            add_lists-IsAutoload _ msr guest_val host_val entry_only
              (record { guest = i.guest; host = i.host; entries = i.entries; exits = i.exits })))

-- No sequence of adding and clearing registers makes a list longer than its array or gives it a register
-- twice, and the control structure always has the lengths of the lists, if all this held before.
pub apply_all-IsAutoload :
    (caps : Caps) (v : Vmx) (ops : List Op) → IsAutoload v → IsAutoload (apply_all caps v ops)
apply_all-IsAutoload caps v [] i = i
apply_all-IsAutoload caps v (clear msr ∷ ops) i =
    apply_all-IsAutoload caps (clear_atomic_switch_msr caps v msr) ops
      (clear-IsAutoload caps v msr i)
apply_all-IsAutoload caps v (add msr guest_val host_val entry_only ∷ ops) i =
    apply_all-IsAutoload caps (add_atomic_switch_msr caps v msr guest_val host_val entry_only) ops
      (add-IsAutoload caps v msr guest_val host_val entry_only i)
