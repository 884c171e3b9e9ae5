-- ===== src/GuestTsc/Page/Contents.antt =====
-- What the page holds after an update.
use pve_anti_detection.Prelude.{
  ◌==◌, ℕ, ◌+◌, ◌%◌, ◌/◌, ◌||◌, ◌≡◌, ◌⊎◌, inl, inr, refl, ◌∙◌, Bool, true, false, arith, List, [],
  ◌∷◌, ◌++◌, if◌then◌else◌, u32,
}
use pve_anti_detection.GuestTsc.Page.{
  TimeInfo, Field, field_version, field_tsc_timestamp, field_system_time, field_tsc_to_system_mul,
  field_tsc_shift, field_flags, load, Write, write, put, store, store_all, or_one, clear_stable,
  Clock, merged_flags, prepared, memcpy, remaining, kvm_setup_guest_pvclock,
}

-- The field is among those.
abbrev pub Occurs : Field → List Field → Type 0
Occurs f [] = ⊥
Occurs f (g ∷ gs) = (f ≡ g) ⊎ Occurs f gs

-- `memcpy` stores every field.
abbrev pub Covers : List Field → Type 0
Covers order = (f : Field) → Occurs f order

put-load : (info p : TimeInfo) (g : Field) → load (put g (load info g) p) g ≡ load info g
put-load info p field_version = refl
put-load info p field_tsc_timestamp = refl
put-load info p field_system_time = refl
put-load info p field_tsc_to_system_mul = refl
put-load info p field_tsc_shift = refl
put-load info p field_flags = refl

put_kept :
    (info p : TimeInfo) (g f : Field)
    → load p f ≡ load info f
    → load (put g (load info g) p) f ≡ load info f
put_kept info p g f e = ground arith

memcpy_lem :
    (order : List Field) (info p : TimeInfo) (f : Field)
    → (load p f ≡ load info f) ⊎ Occurs f order
    → load (store_all (memcpy order info) p) f ≡ load info f
unfolding memcpy
memcpy_lem [] info p f (inl e) = e
memcpy_lem [] info p f (inr none_left) = absurd none_left
memcpy_lem (g ∷ gs) info p f (inl e) =
    memcpy_lem gs info (put g (load info g) p) f (inl (put_kept info p g f e))
memcpy_lem (g ∷ gs) info p f (inr (inl e)) =
    memcpy_lem gs info (put g (load info g) p) f (inl (rw e (put-load info p g)))
memcpy_lem (g ∷ gs) info p f (inr (inr later)) =
    memcpy_lem gs info (put g (load info g) p) f (inr later)

load_ext : (p q : TimeInfo) → ((f : Field) → load p f ≡ load q f) → p ≡ q
load_ext p q e =
    let a = e field_version in
    let b = e field_tsc_timestamp in
    let c = e field_system_time in
    let d = e field_tsc_to_system_mul in let f = e field_tsc_shift in let g = e field_flags in cc

pub memcpy-Covers :
    (order : List Field) (info p : TimeInfo) → Covers order → store_all (memcpy order info) p ≡ info
memcpy-Covers order info p covers = load_ext _ _ (λ f. memcpy_lem order info p f (inr (covers f)))

store_all-append :
    (ws ws' : List Write) (p : TimeInfo) → store_all (ws ++ ws') p ≡ store_all ws' (store_all ws p)
store_all-append [] ws' p = refl
store_all-append (w ∷ ws) ws' p = store_all-append ws ws' (store w p)

-- The stores after `memcpy`.
published_lem :
    (info : TimeInfo) (force : Bool) (p : TimeInfo)
    → p ≡ info
    → store_all
        ((if force then write field_flags (clear_stable info.flags) ∷ [] else [])
          ++ (write field_version (u32 (info.version + 1)) ∷ []))
        p
      ≡ record info {
        version = u32 (info.version + 1);
        flags = if force then clear_stable info.flags else info.flags;
      }
published_lem info true p e = rw e refl
published_lem info false p e = rw e refl

version_lem : (v : ℕ) → u32 (or_one (u32 (v + 1)) + 1) ≡ u32 (v + (if v % 2 == 0 then 2 else 3))
version_lem v = ground arith

-- The mark of a stopped guest is the bit of weight 2: one flag word marked, the other bits as they were.
abbrev pub mark_of : ℕ → ℕ
mark_of flags = flags / 2 % 2

-- `after` has the other bits of `before`, and the mark exactly where `marked`.
abbrev pub IsMarked : ℕ → ℕ → Bool → Type 0
IsMarked before after marked =
    (after / 4 ≡ before / 4)
    × (after % 2 ≡ before % 2)
    × (mark_of after ≡ (if marked then 1 else 0))

merged_flags-IsMarked :
    (page : TimeInfo) (c : Clock)
    → IsMarked c.hv_clock.flags (merged_flags page c) (
        c.pvclock_set_guest_stopped_request
        || (mark_of page.flags == 1)
        || (mark_of c.hv_clock.flags == 1))
unfolding merged_flags
merged_flags-IsMarked page c = (ground arith, ground arith, ground arith)

-- After an update, the page holds the vCPU's clock, but for the mark of a stable counter where that is to be
-- withheld: the next even version, the four values, and the vCPU's flags, in which the mark of a stopped
-- guest is set exactly where it was, the page had it or it was requested, and every other bit is as it was,
-- if `memcpy` stores every field. The vCPU keeps the same
-- structure, and no request.
pub kvm_setup_guest_pvclock-store_all :
    (order : List Field) (page : TimeInfo) (c : Clock) (force : Bool)
    → Covers order
    → let after = kvm_setup_guest_pvclock order page c force in
      let hv = after.1.hv_clock in
      (store_all after.0 page
        ≡ record hv { flags = if force then clear_stable hv.flags else hv.flags })
      × (hv ≡ record c.hv_clock {
        version = u32 (page.version + (if page.version % 2 == 0 then 2 else 3));
        flags = hv.flags;
      })
      × IsMarked c.hv_clock.flags hv.flags (
          c.pvclock_set_guest_stopped_request
          || (mark_of page.flags == 1)
          || (mark_of c.hv_clock.flags == 1))
      × (after.1.pvclock_set_guest_stopped_request ≡ false)
unfolding kvm_setup_guest_pvclock prepared remaining
kvm_setup_guest_pvclock-store_all order page c force covers =
    let info = prepared page c in
    let first = store (write field_version info.version) page in
    (
      store_all-append (memcpy order info) _ first
          ∙ published_lem info force _ (memcpy-Covers order info first covers),
      rw (version_lem page.version) refl,
      merged_flags-IsMarked page c,
      refl,
    )
