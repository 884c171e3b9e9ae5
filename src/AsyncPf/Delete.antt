-- ===== src/AsyncPf/Delete.antt =====
-- Taking a frame out of the table.
pub mod Hole
pub mod Move
use pve_anti_detection.Prelude.{
  ℕ, zero, suc, ◌+◌, ◌-◌, ◌%◌, ◌^◌, ◌≤◌, ◌<◌, ◌≡◌, ◌≢◌, ◌⊎◌, inl, inr, refl, sym, ap, subst, ◌∙◌,
  arith, Bool, true, false, not, ◌&&◌, Option, none, some, ◌==◌, ==_iff, if◌then◌else◌, Bool-cases,
  update_at, update_at_cases, update_at-same,
}
use pve_anti_detection.AsyncPf.{
  empty, Gfns, kvm_async_pf_hash_fn, kvm_async_pf_next_probe, kvm_async_pf_gfn_slot,
  kvm_find_async_pf_gfn, lies_between, fill_hole, kvm_del_async_pf_gfn,
}
use pve_anti_detection.AsyncPf.Cyclic.{
  dist, next_bound, next_cases, dist_next, dist_nearer, dist_further, dist_bound, dist_inj,
  dist_zero, way_on, lies_between-outside, lies_between-inside,
}
use pve_anti_detection.AsyncPf.Lookup.{
  home, home_bound, IsTable, Has, find-Has, Has-find, find_true, ne_test, slot-Has, false-not-true,
}
use pve_anti_detection.AsyncPf.Delete.Hole.{Past, IsHole, IsHole-IsTable, IsHole-further}
use pve_anti_detection.AsyncPf.Delete.Move.{after_move, move-IsHole, move-Has, move_free}

and_true : {a b : Bool} → a ≡ false → b ≡ true → (not a && b) ≡ true
and_true e d = rw (e, d) refl

and_cases : (a b : Bool) → (not a && b) ≡ true → (a ≡ false) × (b ≡ true)
and_cases true b e = absurd (false-not-true e)
and_cases false b e = (refl, e)

module _ (size : ℕ) (hash_32 : ℕ → ℕ) (small : size ≤ 2 ^ 31)
    (low : (x : ℕ) → hash_32 x < size) where
  -- Both tables hold the same frames.
  abbrev Same : Gfns → Gfns → Type 0
  Same gfns gfns' =
      (x : ℕ)
      → x ≢ empty
      → (Has size hash_32 small low gfns' x → Has size hash_32 small low gfns x)
        × (Has size hash_32 small low gfns x → Has size hash_32 small low gfns' x)

  -- The loops end before they come to a free slot, and leave a table in order with the same frames.
  fill_hole_lem :
      (fuel : ℕ) (gfns : Gfns) (i j e : ℕ)
      → IsHole size hash_32 small low gfns i j
      → e < size
      → gfns e ≡ empty
      → e ≢ i
      → j ≢ e
      → dist size hash_32 j e ≤ fuel
      → (gfns' : Gfns) × (fill_hole size hash_32 fuel gfns i j ≡ some gfns')
        × IsTable size hash_32 small low gfns'
        × Same gfns gfns'
  unfolding fill_hole
  fill_hole_lem zero gfns i j e h le free away apart few =
      absurd (apart (dist_zero size hash_32 j e h.bound_j le (omega arith)))
  fill_hole_lem (suc fuel) gfns i j e h le free away apart few =
      let j' = kvm_async_pf_next_probe size hash_32 j in
      let lj' = next_bound size hash_32 j h.bound_j in
      let nearer =
        dist_nearer size hash_32 e j j' le h.bound_j (next_cases size hash_32 j h.bound_j small)
          apart in
      elim (Bool-cases (gfns j' == empty)) [
        | inl stop ↦ (
          gfns,
          rw stop refl,
          IsHole-IsTable size hash_32 small low gfns i j h ((==_iff _ _).0 stop),
          λ x some_x. (λ has. has, λ has. has),
        )
        | inr on ↦
            let busy : gfns j' ≢ empty = λ b. false-not-true (sym on ∙ (==_iff _ _).1 b) in
            let apart' : j' ≢ e = λ je. busy (ap gfns je ∙ free) in
            elim (Bool-cases
              (lies_between size hash_32 i (kvm_async_pf_hash_fn size hash_32 (gfns j')) j')) [
                | inl inside ↦
                    let (gfns', r, t, same) =
                      fill_hole_lem fuel gfns i j' e
                        (IsHole-further size hash_32 small low gfns i j h busy inside) le free away
                        apart' (omega (arith, nearer)) in
                    (gfns', rw (on, inside) r, t, same)
                | inr outside ↦
                    let m = after_move size hash_32 small low gfns i j h j' lj' busy outside in
                    let (gfns', r, t, same) =
                      fill_hole_lem fuel m j' j' e
                        (move-IsHole size hash_32 small low gfns i j h j' lj' busy outside) le
                        (move_free size hash_32 small low gfns i j h j' lj' busy outside e away
                          free)
                        (λ ej. apart' (sym ej)) apart' (omega (arith, nearer)) in
                    (
                      gfns',
                      rw (on, outside) r,
                      t,
                      λ x some_x.
                          let (a, b) = same x some_x in
                          let (c, d) =
                            move-Has size hash_32 small low gfns i j h j' lj' busy outside x
                              some_x in
                          (λ has. c (a has), λ has. b (d has)),
                    )
              ]
      ]

  -- The table without the entry at `i`.
  module _ (gfns : Gfns) (t : IsTable size hash_32 small low gfns) (g i : ℕ) (li : i < size)
      (at : gfns i ≡ g) (some_g : g ≢ empty) where
    abbrev cut : Gfns
    cut = update_at gfns i empty

    -- What is left in a slot.
    cut_busy : (s : ℕ) → cut s ≢ empty → (i ≢ s) × (cut s ≡ gfns s)
    cut_busy s busy = elim (update_at_cases gfns i empty s) [
      | inl (is, e) ↦ absurd (busy e)
      | inr (is, e) ↦ (is, e)
    ]

    cut_other : (p : ℕ) → p ≢ i → cut p ≡ gfns p
    cut_other p away = elim (update_at_cases gfns i empty p) [
      | inl (ip, e) ↦ absurd (away (sym ip))
      | inr (ip, e) ↦ e
    ]

    no_way : (s : ℕ) → 0 < dist size hash_32 i s → dist size hash_32 i s ≤ dist size hash_32 i i → ⊥
    no_way s pos near = ground arith

    cut-IsHole : IsHole size hash_32 small low cut i i
    cut-IsHole = record {
      bound_i = li;
      bound_j = li;
      hole = update_at-same gfns i empty;
      way = λ s p ls lp busy past away free.
          let (is, e) = cut_busy s busy in
          t.way s p ls lp (λ x. busy (e ∙ x))
            (subst
              (λ y.
                dist size hash_32 (home size hash_32 small low y) p
                < dist size hash_32 (home size hash_32 small low y) s)
              e past)
            (sym (cut_other p away) ∙ free);
      scanned = λ s ls pos near. absurd (no_way s pos near);
      unique = λ s p ls lp busy same.
          let (is, e) = cut_busy s busy in
          let (ip, d) = cut_busy p (λ x. busy (same ∙ x)) in
          t.unique s p ls lp (λ x. busy (e ∙ x)) (sym e ∙ same ∙ d);
    }

    cut-Has :
        (x : ℕ)
        → x ≢ empty
        → Has size hash_32 small low cut x
        → (x ≢ g) × Has size hash_32 small low gfns x
    cut-Has x some_x (s, ls, has) =
        let (is, e) = cut_busy s (λ b. some_x (sym has ∙ b)) in
        let there : gfns s ≡ x = sym e ∙ has in
        (
          λ xg. is (t.unique i s li ls (λ b. some_g (sym at ∙ b)) (at ∙ sym xg ∙ sym there)),
          (s, ls, there),
        )

    Has-cut : (x : ℕ) → x ≢ g → Has size hash_32 small low gfns x → Has size hash_32 small low cut x
    Has-cut x other (s, ls, has) =
        (s, ls, cut_other s (λ si. other (sym has ∙ ap gfns si ∙ at)) ∙ has)

  -- A frame that is not found stays so.
  lost_lem :
      (gfns : Gfns) (g x : ℕ)
      → kvm_find_async_pf_gfn size hash_32 gfns g ≡ false
      → kvm_find_async_pf_gfn size hash_32 gfns x
        ≡ (not (x == g) && kvm_find_async_pf_gfn size hash_32 gfns x)
  lost_lem gfns g x lost = elim (Bool-cases (x == g)) [
    | inl same ↦ rw same (
        subst (λ y. kvm_find_async_pf_gfn size hash_32 gfns y ≡ false) (sym ((==_iff x g).0 same))
          lost)
    | inr other ↦ rw other refl
  ]

  -- A frame is taken out of a table that has a free slot: the loops end, the table stays in order, and the
  -- search finds what it found before, but for that frame. Where the search does not find the frame,
  -- nothing changes. `~0` stands for no frame, and is neither taken out nor searched for.
  pub kvm_del_async_pf_gfn-find :
      (gfns : Gfns) (g e x : ℕ)
      → IsTable size hash_32 small low gfns
      → e < size
      → gfns e ≡ empty
      → g ≢ empty
      → x ≢ empty
      → (gfns' : Gfns) × (kvm_del_async_pf_gfn size hash_32 gfns g ≡ some gfns')
        × IsTable size hash_32 small low gfns'
        × (kvm_find_async_pf_gfn size hash_32 gfns' x
            ≡ (not (x == g) && kvm_find_async_pf_gfn size hash_32 gfns x))
  unfolding kvm_del_async_pf_gfn kvm_find_async_pf_gfn
  kvm_del_async_pf_gfn-find gfns g e x t le free some_g some_x =
      let i = kvm_async_pf_gfn_slot size hash_32 gfns g in
      elim (Bool-cases (gfns i == g)) [
        | inr lost ↦ (gfns, rw (kvm_del_async_pf_gfn, lost) refl, t, lost_lem gfns g x lost)
        | inl found ↦
            let (li, at) =
              slot-Has size hash_32 small low gfns g t some_g
                (find-Has size hash_32 small low gfns g found) in
            let away : e ≢ i = λ ei. some_g (sym at ∙ ap gfns (sym ei) ∙ free) in
            let h = cut-IsHole gfns t g i li at some_g in
            let (gfns', r, t', same) =
              fill_hole_lem size (update_at gfns i empty) i i e h le
                (cut_other gfns t g i li at some_g e away ∙ free) away (λ ie. away (sym ie))
                (omega (arith, dist_bound size hash_32 i e li le)) in
            (
              gfns',
              rw (kvm_del_async_pf_gfn, found) r,
              t',
              find_true size hash_32 small low gfns' x
                  (not (x == g) && kvm_find_async_pf_gfn size hash_32 gfns x) t' some_x
                  (λ has.
                    let (other, old) =
                      cut-Has gfns t g i li at some_g x some_x ((same x some_x).0 has) in
                    and_true (ne_test size hash_32 small low other)
                      (Has-find size hash_32 small low gfns x t some_x old))
                  (λ both.
                    let (other, old) = and_cases (x == g) _ both in
                    (same x some_x).1 (
                      Has-cut gfns t g i li at some_g x
                        (λ xg. false-not-true (sym other ∙ (==_iff x g).1 xg))
                        (find-Has size hash_32 small low gfns x old))),
            )
      ]
