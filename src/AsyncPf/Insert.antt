-- ===== src/AsyncPf/Insert.antt =====
-- Adding a frame to the table.
use pve_anti_detection.Prelude.{
  ℕ, zero, suc, ◌^◌, ◌≤◌, ◌<◌, ◌≡◌, ◌≢◌, ◌⊎◌, inl, inr, refl, sym, ap, subst, ◌∙◌, arith, Bool,
  true, false, some, ◌||◌, ◌==◌, ==_iff, Bool-cases, update_at, update_at_cases, update_at-same,
}
use pve_anti_detection.AsyncPf.{
  empty, Gfns, kvm_async_pf_next_probe, free_slot, kvm_add_async_pf_gfn, kvm_find_async_pf_gfn,
}
use pve_anti_detection.AsyncPf.Cyclic.{dist, next_bound, next_cases, dist_nearer, dist_bound}
use pve_anti_detection.AsyncPf.Lookup.{
  home, home_bound, IsTable, Has, find-Has, Has-find, find_true, false-not-true,
}

or_true : (a b : Bool) → b ≡ true → (a || b) ≡ true
or_true true b e = refl
or_true false b e = e

or_cases : (a b : Bool) → (a || b) ≡ true → (a ≡ true) ⊎ (b ≡ true)
or_cases true b e = inl refl
or_cases false b e = inr e

module _ (size : ℕ) (hash_32 : ℕ → ℕ) (small : size ≤ 2 ^ 31)
    (low : (x : ℕ) → hash_32 x < size) where
  -- The first free slot on the way from `key`.
  record IsFirst (gfns : Gfns) (key k : ℕ) : Type 0 where
    bound : k < size
    free : gfns k ≡ empty
    busy : (p : ℕ) → p < size → dist size hash_32 key p < dist size hash_32 key k → gfns p ≢ empty

  never : (h p : ℕ) → dist size hash_32 h p < dist size hash_32 h h → ⊥
  never h p before = ground arith

  free_slot_lem :
      (gfns : Gfns) (e : ℕ) (le : e < size) (free : gfns e ≡ empty) (fuel key : ℕ)
      → key < size
      → dist size hash_32 key e < fuel
      → (k : ℕ) × (free_slot size hash_32 fuel gfns key ≡ some k) × IsFirst gfns key k
  unfolding free_slot
  free_slot_lem gfns e le free zero key lt near = absurd (omega arith)
  free_slot_lem gfns e le free (suc fuel) key lt near = elim (Bool-cases (gfns key == empty)) [
    | inl here ↦ (
      key,
      rw here refl,
      record {
        bound = lt;
        free = (==_iff _ _).0 here;
        busy = λ p lp before. absurd (never key p before);
      },
    )
    | inr other ↦
        let key' = kvm_async_pf_next_probe size hash_32 key in
        let lt' = next_bound size hash_32 key lt in
        let cases = next_cases size hash_32 key lt small in
        let apart : (x : ℕ) → gfns x ≡ empty → key ≢ x =
          λ x fx same. false-not-true (sym other ∙ (==_iff _ _).1 (ap gfns same ∙ fx)) in
        let nearer = dist_nearer size hash_32 e key key' le lt cases (apart e free) in
        let (k, found, first) =
          free_slot_lem gfns e le free fuel key' lt' (omega (arith, nearer)) in
        let nearer' =
          dist_nearer size hash_32 k key key' first.bound lt cases (apart k first.free) in
        (
          k,
          rw other found,
          record {
            bound = first.bound;
            free = first.free;
            busy = λ p lp before empty_p.
                let nearer'' = dist_nearer size hash_32 p key key' lp lt cases (apart p empty_p) in
                first.busy p lp (omega (arith, nearer', nearer'')) empty_p;
          },
        )
  ]

  -- The table with the frame in that slot.
  module _ (gfns : Gfns) (t : IsTable size hash_32 small low gfns) (g : ℕ) (some_g : g ≢ empty)
      (k : ℕ) (first : IsFirst gfns (home size hash_32 small low g) k)
      (absent : Has size hash_32 small low gfns g → ⊥) where
    add-IsTable : IsTable size hash_32 small low (update_at gfns k g)
    add-IsTable = record {
      way = λ s p ls lp busy before free_p. elim (update_at_cases gfns k g p) [
        | inl (kp, ep) ↦ some_g (sym ep ∙ free_p)
        | inr (kp, ep) ↦ elim (update_at_cases gfns k g s) [
          | inl (ks, es) ↦
              first.busy p lp
                (subst
                  (λ y.
                    dist size hash_32 (home size hash_32 small low g) p
                    < dist size hash_32 (home size hash_32 small low g) y)
                  (sym ks)
                  (subst
                    (λ y.
                      dist size hash_32 (home size hash_32 small low y) p
                      < dist size hash_32 (home size hash_32 small low y) s)
                    es before))
                (sym ep ∙ free_p)
          | inr (ks, es) ↦
              t.way s p ls lp (λ e. busy (es ∙ e))
                (subst
                  (λ x.
                    dist size hash_32 (home size hash_32 small low x) p
                    < dist size hash_32 (home size hash_32 small low x) s)
                  es before)
                (sym ep ∙ free_p)
        ]
      ];
      unique = λ s p ls lp busy same. elim (update_at_cases gfns k g s) [
        | inl (ks, es) ↦ elim (update_at_cases gfns k g p) [
          | inl (kp, ep) ↦ sym ks ∙ kp
          | inr (kp, ep) ↦ absurd (absent (p, lp, sym ep ∙ sym same ∙ es))
        ]
        | inr (ks, es) ↦ elim (update_at_cases gfns k g p) [
          | inl (kp, ep) ↦ absurd (absent (s, ls, sym es ∙ same ∙ ep))
          | inr (kp, ep) ↦ t.unique s p ls lp (λ e. busy (es ∙ e)) (sym es ∙ same ∙ ep)
        ]
      ];
    }

    add-Has :
        (x : ℕ)
        → Has size hash_32 small low (update_at gfns k g) x
        → (x ≡ g) ⊎ Has size hash_32 small low gfns x
    add-Has x (s, ls, at) = elim (update_at_cases gfns k g s) [
      | inl (ks, es) ↦ inl (sym at ∙ es)
      | inr (ks, es) ↦ inr (s, ls, sym es ∙ at)
    ]

    Has-add :
        (x : ℕ)
        → x ≢ empty
        → (x ≡ g) ⊎ Has size hash_32 small low gfns x
        → Has size hash_32 small low (update_at gfns k g) x
    Has-add x some_x (inl same) = (k, first.bound, update_at-same gfns k g ∙ sym same)
    Has-add x some_x (inr (s, ls, at)) = elim (update_at_cases gfns k g s) [
      | inl (ks, es) ↦ absurd (some_x (sym at ∙ ap gfns (sym ks) ∙ first.free))
      | inr (ks, es) ↦ (s, ls, es ∙ at)
    ]

  -- A frame that is not in the table is added to one with a free slot: the loop ends, the table stays in
  -- order, and the search finds that frame and those that it found before. `~0` stands for no frame, and is
  -- neither added nor searched for.
  pub kvm_add_async_pf_gfn-find :
      (gfns : Gfns) (g e x : ℕ)
      → IsTable size hash_32 small low gfns
      → e < size
      → gfns e ≡ empty
      → g ≢ empty
      → kvm_find_async_pf_gfn size hash_32 gfns g ≡ false
      → x ≢ empty
      → (gfns' : Gfns) × (kvm_add_async_pf_gfn size hash_32 gfns g ≡ some gfns')
        × IsTable size hash_32 small low gfns'
        × (kvm_find_async_pf_gfn size hash_32 gfns' x
            ≡ ((x == g) || kvm_find_async_pf_gfn size hash_32 gfns x))
  unfolding kvm_add_async_pf_gfn
  kvm_add_async_pf_gfn-find gfns g e x t le free some_g absent some_x =
      let h = home size hash_32 small low g in
      let lh = home_bound size hash_32 small low g in
      let (k, found, first) =
        free_slot_lem gfns e le free size h lh (dist_bound size hash_32 h e lh le) in
      let no_g : Has size hash_32 small low gfns g → ⊥ =
        λ has. false-not-true (sym absent ∙ Has-find size hash_32 small low gfns g t some_g has) in
      let t' = add-IsTable gfns t g some_g k first no_g in
      (
        update_at gfns k g,
        rw (kvm_add_async_pf_gfn, found) refl,
        t',
        find_true size hash_32 small low (update_at gfns k g) x
            ((x == g) || kvm_find_async_pf_gfn size hash_32 gfns x) t' some_x
            (λ has. elim (add-Has gfns t g some_g k first no_g x has) [
              | inl same ↦ rw ((==_iff x g).1 same) refl
              | inr old ↦ or_true (x == g) _ (Has-find size hash_32 small low gfns x t some_x old)
            ])
            (λ either.
              Has-add gfns t g some_g k first no_g x some_x (elim (or_cases (x == g) _ either) [
                | inl same ↦ inl ((==_iff x g).0 same)
                | inr old ↦ inr (find-Has size hash_32 small low gfns x old)
              ])),
      )
