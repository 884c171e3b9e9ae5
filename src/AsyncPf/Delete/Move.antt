-- ===== src/AsyncPf/Delete/Move.antt =====
-- An entry is moved into the hole, and leaves one.
use pve_anti_detection.Prelude.{
  ℕ, ◌^◌, ◌≤◌, ◌<◌, ◌≡◌, ◌≢◌, inl, inr, refl, sym, ap, subst, ◌∙◌, arith, false, update_at,
  update_at_cases, update_at-same,
}
use pve_anti_detection.AsyncPf.{empty, Gfns, kvm_async_pf_hash_fn, lies_between}
use pve_anti_detection.AsyncPf.Cyclic.{dist, lies_between-outside}
use pve_anti_detection.AsyncPf.Lookup.{home, home_bound, Has}
use pve_anti_detection.AsyncPf.Delete.Hole.{Past, IsHole}

module _ (size : ℕ) (hash_32 : ℕ → ℕ) (small : size ≤ 2 ^ 31) (low : (x : ℕ) → hash_32 x < size)
    (gfns : Gfns) (i j : ℕ) (h : IsHole size hash_32 small low gfns i j) (j' : ℕ) (lj' : j' < size)
    (busy : gfns j' ≢ empty)
    (outside : lies_between size hash_32 i (kvm_async_pf_hash_fn size hash_32 (gfns j')) j'
      ≡ false) where
  abbrev pub after_move : Gfns
  after_move = update_at (update_at gfns i (gfns j')) j' empty

  -- What is in a slot afterwards.
  data View (s : ℕ) : Type 0 where
    new_hole : j' ≡ s → after_move s ≡ empty → View s
    old_hole : j' ≢ s → i ≡ s → after_move s ≡ gfns j' → View s
    other : j' ≢ s → i ≢ s → after_move s ≡ gfns s → View s

  view : (s : ℕ) → View s
  view s = elim (update_at_cases (update_at gfns i (gfns j')) j' empty s) [
    | inl (js, e) ↦ new_hole js e
    | inr (js, e) ↦ elim (update_at_cases gfns i (gfns j') s) [
      | inl (is, e') ↦ old_hole js is (e ∙ e')
      | inr (is, e') ↦ other js is (e ∙ e')
    ]
  ]

  apart : i ≢ j'
  apart e = busy (ap gfns (sym e) ∙ h.hole)

  -- The moved entry comes nearer to its home.
  nearer :
      dist size hash_32 (home size hash_32 small low (gfns j')) i
      < dist size hash_32 (home size hash_32 small low (gfns j')) j'
  nearer =
      lies_between-outside size hash_32 i (home size hash_32 small low (gfns j')) j' h.bound_i
        (home_bound size hash_32 small low (gfns j')) lj' apart outside

  -- Whether a slot on the way to an entry is free afterwards.
  way_after :
      (s p : ℕ)
      → s < size
      → p < size
      → after_move s ≢ empty
      → Past size hash_32 small low after_move s p
      → p ≢ j'
      → after_move p ≢ empty
  way_after s p ls lp some_s past away free = elim (view p) [
    | new_hole jp e ↦ away (sym jp)
    | old_hole jp ip e ↦ busy (sym e ∙ free)
    | other jp ip e ↦ elim (view s) [
      | new_hole js e' ↦ some_s e'
      | old_hole js is e' ↦
          let past' =
            subst
              (λ g.
                dist size hash_32 (home size hash_32 small low g) p
                < dist size hash_32 (home size hash_32 small low g) s)
              e' past in
          let past_i =
            subst
              (λ x.
                dist size hash_32 (home size hash_32 small low (gfns j')) p
                < dist size hash_32 (home size hash_32 small low (gfns j')) x)
              (sym is) past' in
          h.way j' p lj' lp busy (omega (arith, past_i, nearer)) (λ pi. ip (sym pi)) (sym e ∙ free)
      | other js is e' ↦
          let past' =
            subst
              (λ g.
                dist size hash_32 (home size hash_32 small low g) p
                < dist size hash_32 (home size hash_32 small low g) s)
              e' past in
          h.way s p ls lp (λ x. some_s (e' ∙ x)) past' (λ pi. ip (sym pi)) (sym e ∙ free)
    ]
  ]

  unique_after :
      (s p : ℕ) → s < size → p < size → after_move s ≢ empty → after_move s ≡ after_move p → s ≡ p
  unique_after s p ls lp some_s same = elim (view s) [
    | new_hole js e ↦ absurd (some_s e)
    | old_hole js is e ↦ elim (view p) [
      | new_hole jp e' ↦ absurd (some_s (same ∙ e'))
      | old_hole jp ip e' ↦ sym is ∙ ip
      | other jp ip e' ↦ absurd (jp (h.unique j' p lj' lp busy (sym e ∙ same ∙ e')))
    ]
    | other js is e ↦ elim (view p) [
      | new_hole jp e' ↦ absurd (some_s (same ∙ e'))
      | old_hole jp ip e' ↦
          absurd (js (sym (h.unique s j' ls lj' (λ x. some_s (e ∙ x)) (sym e ∙ same ∙ e'))))
      | other jp ip e' ↦ h.unique s p ls lp (λ x. some_s (e ∙ x)) (sym e ∙ same ∙ e')
    ]
  ]

  no_way :
      (s : ℕ) → 0 < dist size hash_32 j' s → dist size hash_32 j' s ≤ dist size hash_32 j' j' → ⊥
  no_way s pos near = ground arith

  pub move-IsHole : IsHole size hash_32 small low after_move j' j'
  move-IsHole = record {
    bound_i = lj';
    bound_j = lj';
    hole = update_at-same (update_at gfns i (gfns j')) j' empty;
    way = way_after;
    scanned = λ s ls pos near. absurd (no_way s pos near);
    unique = unique_after;
  }

  -- The moved entry is where the hole was.
  moved :
      (x : ℕ) (has : Has size hash_32 small low gfns x)
      → j' ≡ has.0
      → Has size hash_32 small low after_move x
  moved x has js = elim (view i) [
    | new_hole ji e ↦ absurd (apart (sym ji))
    | old_hole ji ii e ↦ (i, h.bound_i, e ∙ ap gfns js ∙ has.2)
    | other ji ii e ↦ absurd (ii refl)
  ]

  -- A free slot other than the hole stays free.
  pub move_free : (e : ℕ) → e ≢ i → gfns e ≡ empty → after_move e ≡ empty
  move_free e away free = elim (view e) [
    | new_hole je at ↦ at
    | old_hole je ie at ↦ absurd (away (sym ie))
    | other je ie at ↦ at ∙ free
  ]

  pub move-Has :
      (x : ℕ)
      → x ≢ empty
      → (Has size hash_32 small low after_move x → Has size hash_32 small low gfns x)
        × (Has size hash_32 small low gfns x → Has size hash_32 small low after_move x)
  move-Has x some_x = (
    λ has. elim (view has.0) [
      | new_hole js e ↦ absurd (some_x (sym has.2 ∙ e))
      | old_hole js is e ↦ (j', lj', sym e ∙ has.2)
      | other js is e ↦ (has.0, has.1, sym e ∙ has.2)
    ],
    λ has. elim (view has.0) [
      | new_hole js e ↦ moved x has js
      | old_hole js is e ↦ absurd (some_x (sym has.2 ∙ ap gfns (sym is) ∙ h.hole))
      | other js is e ↦ (has.0, has.1, e ∙ has.2)
    ],
  )
