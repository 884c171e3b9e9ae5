-- ===== src/Vmx/Switch.antt =====
-- What the processor switches after a register was added or cleared.
use pve_anti_detection.Prelude.{
  ℕ, ◌≤◌, ◌<◌, ◌≡◌, ◌≢◌, inl, inr, refl, sym, ap, ◌∙◌, Bool, true, false, not, ◌&&◌, ◌||◌, arith,
  Option, none, some, ◌==◌, ==_iff, if◌then◌else◌, Bool-cases,
}
use pve_anti_detection.Vmx.{
  msr_ia32_pebs_enable, msr_efer, msr_core_perf_global_ctrl, clear_special, set_special, VmxMsrs,
  Vmx, Caps, Special, max_nr, remove, put, clear_one, clear_lists, clear_atomic_switch_msr, add_one,
  has_no_room, add_lists, add_atomic_switch_msr,
}
use pve_anti_detection.Vmx.Lists.{IsList, value_of, found, missing, Slot-find, value_of-missing}
use pve_anti_detection.Vmx.Lists.Set.{set-IsList, set-value_of}
use pve_anti_detection.Vmx.Lists.Append.{append-IsList, append-value_of}
use pve_anti_detection.Vmx.Lists.Remove.{remove-IsList, remove-value_of}

-- Both lists are in order, and the control structure has their lengths.
pub record IsAutoload (v : Vmx) : Type 0 where
  pub guest : IsList v.guest
  pub host : IsList v.host
  pub entries : v.entry_msr_load_count ≡ v.guest.nr
  pub exits : v.exit_msr_load_count ≡ v.host.nr

absent_lem :
    (m : VmxMsrs) (msr other : ℕ)
    → ((i : ℕ) → i < m.nr → (m.val i).index ≢ msr)
    → value_of m other ≡ (if msr == other then none else value_of m other)
absent_lem m msr other nowhere = elim (Bool-cases (msr == other)) [
  | inl one ↦
      rw one
        (value_of-missing m other (λ i lt same. nowhere i lt (same ∙ sym ((==_iff _ _).0 one))))
  | inr two ↦ rw two refl
]

below_lem : (n : ℕ) → n ≤ max_nr → (n == max_nr) ≡ false → n < max_nr
below_lem n bound e = ground arith

clear_one_lem :
    (m : VmxMsrs) (count msr : ℕ)
    → IsList m
    → count ≡ m.nr
    → let (m', count') = clear_one m count msr in
      IsList m'
      × (count' ≡ m'.nr)
      × ((other : ℕ) → value_of m' other ≡ (if msr == other then none else value_of m other))
unfolding clear_one remove
clear_one_lem m count msr l e = elim (Slot-find m msr) [
  | found i lt at s ↦
      rw (clear_one, s) (remove-IsList m l msr i lt at, refl, remove-value_of m l msr i lt at)
  | missing nowhere s ↦ rw (clear_one, s) (l, e, λ other. absent_lem m msr other nowhere)
]

-- Where there is room, the register is loaded with the value, and the others as before.
add_one_lem :
    (m : VmxMsrs) (count msr value : ℕ)
    → IsList m
    → count ≡ m.nr
    → has_no_room m msr ≡ false
    → let (m', count') = add_one m count msr value in
      IsList m'
      × (count' ≡ m'.nr)
      × ((other : ℕ) → value_of m' other ≡ (if msr == other then some value else value_of m other))
unfolding add_one has_no_room put
add_one_lem m count msr value l e room = elim (Slot-find m msr) [
  | found i lt at s ↦
      rw (add_one, s) (set-IsList m l msr i lt at value, e, set-value_of m l msr i lt at value)
  | missing nowhere s ↦
      let below : m.nr < max_nr = below_lem m.nr l.bound (rw (has_no_room, s) at room) in
      rw (add_one, s)
        (
          append-IsList m l msr below nowhere value,
          refl,
          append-value_of m l msr below nowhere value,
        )
]

-- The register that the processor loads by a control of its own, where it can.
abbrev pub special_of : Caps → Vmx → ℕ → Option Special
special_of caps v msr =
    if msr == msr_efer && caps.load_ia32_efer
    then some v.efer
    else (if msr == msr_core_perf_global_ctrl && caps.load_perf_global_ctrl
        then some v.perf_global_ctrl
        else none)

abbrev pub is_special : Caps → ℕ → Bool
is_special caps msr =
    (msr == msr_efer && caps.load_ia32_efer)
    || (msr == msr_core_perf_global_ctrl && caps.load_perf_global_ctrl)

-- What the register gets on an entry into the guest, if it gets anything.
abbrev pub on_entry : Caps → Vmx → ℕ → Option ℕ
on_entry caps v msr = elim (special_of caps v msr) [
  | some s ↦ if s.entry then some s.guest_value else none
  | none ↦ value_of v.guest msr
]

-- The same on an exit.
abbrev pub on_exit : Caps → Vmx → ℕ → Option ℕ
on_exit caps v msr = elim (special_of caps v msr) [
  | some s ↦ if s.exit then some s.host_value else none
  | none ↦ value_of v.host msr
]

pub clear_lists_lem :
    (v : Vmx) (msr : ℕ)
    → IsAutoload v
    → let v' = clear_lists v msr in
      IsAutoload v'
      × ((other : ℕ)
          → (value_of v'.guest other ≡ (if msr == other then none else value_of v.guest other))
            × (value_of v'.host other ≡ (if msr == other then none else value_of v.host other)))
unfolding clear_lists
clear_lists_lem v msr i =
    let (g, cg, vg) = clear_one_lem v.guest v.entry_msr_load_count msr i.guest i.entries in
    let (h, ch, vh) = clear_one_lem v.host v.exit_msr_load_count msr i.host i.exits in
    (record { guest = g; host = h; entries = cg; exits = ch }, λ other. (vg other, vh other))

-- After a register was cleared, the processor loads it neither on an entry nor on an exit, and loads every
-- other one as before, if the lists were in order.
pub clear_atomic_switch_msr-on_entry :
    (caps : Caps) (v : Vmx) (msr other : ℕ)
    → IsAutoload v
    → let v' = clear_atomic_switch_msr caps v msr in
      (on_entry caps v' other ≡ (if msr == other then none else on_entry caps v other))
      × (on_exit caps v' other ≡ (if msr == other then none else on_exit caps v other))
unfolding clear_atomic_switch_msr clear_special
clear_atomic_switch_msr-on_entry caps v msr other i =
    let (keeps, values) = clear_lists_lem v msr i in
    let (on_guest, on_host) = values other in (ground arith, ground arith)

-- There is room for a register that needs the lists, in both unless it is for entries only.
abbrev pub has_room : Vmx → ℕ → Bool → Bool
has_room v msr entry_only =
    not (has_no_room v.guest msr || (not entry_only && has_no_room v.host msr))

and_true : (b : Bool) → (b && true) ≡ b
and_true true = refl
and_true false = refl

not-false : (b : Bool) → not b ≡ false → b ≡ true
not-false true e = refl
not-false false e = cc

pub add_lists_lem :
    (v : Vmx) (msr guest_val host_val : ℕ) (entry_only : Bool)
    → IsAutoload v
    → has_room v msr entry_only ≡ true
    → let v' = add_lists v msr guest_val host_val entry_only in
      IsAutoload v'
      × ((other : ℕ)
          → (value_of v'.guest other
              ≡ (if msr == other then some guest_val else value_of v.guest other))
            × (value_of v'.host other ≡ (
                if (msr == other) && not entry_only then some host_val else value_of v.host other)))
unfolding add_lists
add_lists_lem v msr guest_val host_val true i room =
    let free : has_no_room v.guest msr ≡ false = ground arith in
    let (g, cg, vg) =
      add_one_lem v.guest v.entry_msr_load_count msr guest_val i.guest i.entries free in
    rw (add_lists, free)
      (
        record { guest = g; host = i.host; entries = cg; exits = i.exits },
        λ other. (vg other, ground arith),
      )
add_lists_lem v msr guest_val host_val false i room =
    let free : has_no_room v.guest msr ≡ false = ground arith in
    let free' : has_no_room v.host msr ≡ false = ground arith in
    let (g, cg, vg) =
      add_one_lem v.guest v.entry_msr_load_count msr guest_val i.guest i.entries free in
    let (h, ch, vh) = add_one_lem v.host v.exit_msr_load_count msr host_val i.host i.exits free' in
    rw (add_lists, free, free')
      (
        record { guest = g; host = h; entries = cg; exits = ch },
        λ other. (
          vg other,
          vh other
              ∙ ap (λ b. if b then some host_val else value_of v.host other)
                  (sym (and_true (msr == other))),
        ),
      )

pub add_lists-full :
    (v : Vmx) (msr guest_val host_val : ℕ) (entry_only : Bool)
    → has_room v msr entry_only ≡ false
    → add_lists v msr guest_val host_val entry_only ≡ v
unfolding add_lists
add_lists-full v msr guest_val host_val entry_only full =
    let no_room : has_no_room v.guest msr || (not entry_only && has_no_room v.host msr) ≡ true =
      not-false _ full in
    rw (add_lists, no_room) refl

-- The register is loaded by a control of its own, or there is room for it.
abbrev pub fits : Caps → Vmx → ℕ → Bool → Bool
fits caps v msr entry_only = is_special caps msr || has_room v msr entry_only

-- The host's value of EFER is the one that the control structure has.
abbrev pub exit_value : Caps → Vmx → ℕ → ℕ → ℕ
exit_value caps v msr host_val =
    if msr == msr_efer && caps.load_ia32_efer then v.efer.host_value else host_val

-- After a register was added, the processor loads it with the value given on an entry, and on an exit with
-- the host's, where it is not for entries only or has a control of its own; it loads every other one
-- as before. Where there is no room, nothing changes for any register. The lists must be in order.
pub add_atomic_switch_msr-on_entry :
    (caps : Caps) (v : Vmx) (msr guest_val host_val : ℕ) (entry_only : Bool) (other : ℕ)
    → IsAutoload v
    → let v' = add_atomic_switch_msr caps v msr guest_val host_val entry_only in
      let here = fits caps v msr entry_only && (msr == other) in
      (on_entry caps v' other ≡ (if here then some guest_val else on_entry caps v other))
      × (on_exit caps v' other ≡ (
          if here && (is_special caps msr || not entry_only)
          then some (exit_value caps v msr host_val)
          else on_exit caps v other))
unfolding add_atomic_switch_msr set_special
add_atomic_switch_msr-on_entry caps v msr guest_val host_val entry_only other i =
    let quiet = record v {
      pebs_cleared = if msr == msr_ia32_pebs_enable then true else v.pebs_cleared;
    } in
    let i' : IsAutoload quiet = record {
      guest = i.guest;
      host = i.host;
      entries = i.entries;
      exits = i.exits;
    } in
    elim (Bool-cases (has_room v msr entry_only)) [
      | inl room ↦
          let (keeps, values) = add_lists_lem quiet msr guest_val host_val entry_only i' room in
          let (on_guest, on_host) = values other in (ground arith, ground arith)
      | inr full ↦
          let same = add_lists-full quiet msr guest_val host_val entry_only full in
          (ground arith, ground arith)
    ]
