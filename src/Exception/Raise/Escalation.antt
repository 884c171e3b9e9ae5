-- ===== src/Exception/Raise/Escalation.antt =====
-- The exceptions that meet, as the architecture's manual has it: a double fault, a shutdown, or the later one.
use pve_anti_detection.Prelude.{
  ℕ, ◌≡◌, ◌≢◌, ◌↔◌, ◌⊎◌, ◌∙◌, ap, inl, inr, refl, Bool, true, false, not, ◌&&◌, ◌||◌, arith,
  if◌then◌else◌, Bool-cases,
}
use pve_anti_detection.Exception.{
  Vector, de, db, nmi, bp, of, ud, df, ts, np, ss, gp, pf, mc, other, Class, excpt_benign,
  excpt_contributory, excpt_pf, Vcpu, Backend, exception_class,
}
use pve_anti_detection.Exception.Raise.Paths.{
  nested, queue-exception, raise-queue, raise-check_exception, check_exception-df,
  check_exception-double, check_exception-other,
}
use pve_anti_detection.Exception.Raise.{
  Raised, is_df, is_double, with_error, cleared, queue, check_exception, kvm_multiple_exception,
}

-- The manual's contributory exceptions, of which vector 21 is that of control protection, its page faults, of
-- which vector 20 is that of virtualization, and the pairs that make a double fault.
pub data IsContributory : Vector → Type 0 where
  divide : IsContributory de
  task : IsContributory ts
  segment : IsContributory np
  stack : IsContributory ss
  protection : IsContributory gp
  control : IsContributory (other 21)

pub data IsPage : Vector → Type 0 where
  page : IsPage pf
  virtual : IsPage (other 20)

pub data Escalates : Vector → Vector → Type 0 where
  both : {x y : Vector} → IsContributory x → IsContributory y → Escalates x y
  page_first : {x y : Vector} → IsPage x → IsContributory y → Escalates x y
  page_twice : {x y : Vector} → IsPage x → IsPage y → Escalates x y

-- Not benign: what shuts the processor down after a double fault.
abbrev pub IsSerious : Vector → Type 0
IsSerious v = IsContributory v ⊎ IsPage v

-- The two exceptions that the manual has and the code takes for benign ones.
abbrev pub IsNewer : Vector → Type 0
IsNewer v = (v ≡ other 20) ⊎ (v ≡ other 21)

-- What the guest has in front of it.
pub data Slot : Type 0 where
  free shutdown : Slot
  held : Vector → Slot

-- An exception arrives, while no shutdown is requested. After a double fault, one that is not benign shuts
-- the processor down, and a benign one is handled in its turn.
pub data Becomes : Slot → Vector → Slot → Type 0 where
  first : (y : Vector) → Becomes free y (held y)
  triple : {y : Vector} → IsSerious y → Becomes (held df) y shutdown
  serial : {y : Vector} → ¬ IsSerious y → Becomes (held df) y (held y)
  double : {x y : Vector} → Escalates x y → Becomes (held x) y (held df)
  replaced : {x y : Vector} → x ≢ df → ¬ Escalates x y → Becomes (held x) y (held y)

abbrev pub view : Vcpu → Slot
view v =
    if v.triple_fault
    then shutdown
    else (if v.exception.pending || v.exception.injected then held v.exception.vector else free)

exception_class-IsContributory :
    (v : Vector) → exception_class v ≡ excpt_contributory → IsContributory v
unfolding exception_class
exception_class-IsContributory de e = divide
exception_class-IsContributory ts e = task
exception_class-IsContributory np e = segment
exception_class-IsContributory ss e = stack
exception_class-IsContributory gp e = protection
exception_class-IsContributory db e = cc
exception_class-IsContributory nmi e = cc
exception_class-IsContributory bp e = cc
exception_class-IsContributory of e = cc
exception_class-IsContributory ud e = cc
exception_class-IsContributory df e = cc
exception_class-IsContributory pf e = cc
exception_class-IsContributory mc e = cc
exception_class-IsContributory (other n) e = cc

IsContributory-exception_class :
    {v : Vector} → ¬ IsNewer v → IsContributory v → exception_class v ≡ excpt_contributory
unfolding exception_class
IsContributory-exception_class older divide = refl
IsContributory-exception_class older task = refl
IsContributory-exception_class older segment = refl
IsContributory-exception_class older stack = refl
IsContributory-exception_class older protection = refl
IsContributory-exception_class older control = absurd (older (inr refl))

exception_class-pf : (v : Vector) → exception_class v ≡ excpt_pf → v ≡ pf
unfolding exception_class
exception_class-pf v e = ground arith

is_double-Escalates :
    (x y : Vector) (c d : Class)
    → exception_class x ≡ c
    → exception_class y ≡ d
    → is_double c d ≡ true
    → Escalates x y
unfolding is_double
is_double-Escalates x y excpt_contributory excpt_contributory ex ey e =
    both (exception_class-IsContributory x ex) (exception_class-IsContributory y ey)
is_double-Escalates x y excpt_pf excpt_contributory ex ey e =
    rw (exception_class-pf x ex) (page_first page (exception_class-IsContributory y ey))
is_double-Escalates x y excpt_pf excpt_pf ex ey e =
    rw (exception_class-pf x ex, exception_class-pf y ey) (page_twice page page)
is_double-Escalates x y excpt_benign d ex ey e = cc
is_double-Escalates x y excpt_contributory excpt_pf ex ey e = cc
is_double-Escalates x y excpt_contributory excpt_benign ex ey e = cc
is_double-Escalates x y excpt_pf excpt_benign ex ey e = cc

Escalates-is_double :
    {x y : Vector}
    → ¬ IsNewer x
    → ¬ IsNewer y
    → Escalates x y
    → is_double (exception_class x) (exception_class y) ≡ true
unfolding is_double exception_class
Escalates-is_double nx ny (both a b) =
    rw (IsContributory-exception_class nx a, IsContributory-exception_class ny b, is_double) refl
Escalates-is_double nx ny (page_first page b) =
    rw (IsContributory-exception_class ny b, is_double) refl
Escalates-is_double nx ny (page_first virtual b) = absurd (nx (inl refl))
Escalates-is_double nx ny (page_twice page page) = refl
Escalates-is_double nx ny (page_twice page virtual) = absurd (ny (inl refl))
Escalates-is_double nx ny (page_twice virtual b) = absurd (nx (inl refl))

-- The classes are those of the manual, but for the newer exceptions.
is_double_iff :
    (x y : Vector)
    → ¬ IsNewer x
    → ¬ IsNewer y
    → (is_double (exception_class x) (exception_class y) ≡ true) ↔ Escalates x y
is_double_iff x y nx ny = (
  is_double-Escalates x y (exception_class x) (exception_class y) refl refl,
  Escalates-is_double nx ny,
)

is_df-df : (v : Vector) → is_df v ≡ true → v ≡ df
is_df-df v e = ground arith

is_df_other : (v : Vector) → is_df v ≡ false → v ≢ df
is_df_other v e d = cc (rw d at e)

true-not_false : {c : Bool} → c ≡ true → c ≢ false
true-not_false e e' = cc

module _ (b : Backend) where
  queue-view : (v : Vcpu) (x : Raised) → v.triple_fault ≡ false → view (queue b v x) ≡ held x.nr
  queue-view v x up =
      let (pending, injected, vector, still, _) = queue-exception b v x in
      elim (Bool-cases x.reinject) [ inl e ↦ ground arith | inr e ↦ ground arith ]

  check_exception-Becomes :
      (v : Vcpu) (x : Raised)
      → ((nr : Vector) (code : ℕ) → v.is_guest_mode && b.is_exception_vmexit nr code ≡ false)
      → v.triple_fault ≡ false
      → ¬ IsNewer v.exception.vector
      → ¬ IsNewer x.nr
      → (v.exception.vector ≡ df → IsSerious x.nr)
      → Becomes (held v.exception.vector) x.nr (view (check_exception b (nested b) v x))
  check_exception-Becomes v x inside up old_prev old_nr serious =
      let prev = v.exception.vector in
      elim (Bool-cases (is_df prev)) [
        | inl e ↦
            rw (check_exception-df b (nested b) v x e, is_df-df prev e)
              (triple (serious (is_df-df prev e)))
        | inr e ↦ elim (Bool-cases (is_double (exception_class prev) (exception_class x.nr))) [
          | inl two ↦
              rw
                (
                  check_exception-double b (nested b) v x e two,
                  raise-queue b (λ u. u) (cleared v) (with_error df 0) (inside df 0) refl,
                  queue-view (record (cleared v) { event = true }) (with_error df 0) up,
                )
                (double ((is_double_iff prev x.nr old_prev old_nr).0 two))
          | inr one ↦
              rw (check_exception-other b (nested b) v x e one, queue-view v x up)
                (replaced (λ d. absurd (is_df_other prev e d))
                  (λ esc.
                    absurd (true-not_false ((is_double_iff prev x.nr old_prev old_nr).1 esc) one)))
        ]
      ]

  -- Where no exception is to leave a nested guest and no shutdown is requested, what is in front of the guest
  -- after an exception arrives is what the manual says: it, a double fault, or a shutdown. This is of the
  -- exceptions that the code knows, so of none of the vectors 20 and 21, and not of a benign exception that
  -- arrives after a double fault.
  pub kvm_multiple_exception-Becomes :
      (v : Vcpu) (x : Raised)
      → ((nr : Vector) (code : ℕ) → v.is_guest_mode && b.is_exception_vmexit nr code ≡ false)
      → v.triple_fault ≡ false
      → ¬ IsNewer v.exception.vector
      → ¬ IsNewer x.nr
      → (view v ≡ held df → IsSerious x.nr)
      → Becomes (view v) x.nr (view (kvm_multiple_exception b v x))
  unfolding kvm_multiple_exception
  kvm_multiple_exception-Becomes v x inside up old_prev old_nr serious =
      let stay : not x.reinject && v.is_guest_mode && b.is_exception_vmexit x.nr x.error_code
          ≡ false =
        ground (arith, inside x.nr x.error_code) in
      elim (Bool-cases (not v.exception.pending && not v.exception.injected)) [
        | inl none_yet ↦
            let empty : view v ≡ free = ground arith in
            rw
              (
                empty,
                raise-queue b (nested b) v x stay none_yet,
                queue-view (record v { event = true }) x up,
              )
              (first x.nr)
        | inr one ↦
            let full : view v ≡ held v.exception.vector = ground arith in
            rw (full, raise-check_exception b (nested b) v x stay one)
              (check_exception-Becomes (record v { event = true }) x inside up old_prev old_nr
                (λ d. serious (full ∙ ap held d)))
      ]
