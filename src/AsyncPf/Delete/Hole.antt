-- ===== src/AsyncPf/Delete/Hole.antt =====
-- The table while a hole in it is being filled.
use pve_anti_detection.Prelude.{
  ℕ, ◌+◌, ◌^◌, ◌≤◌, ◌<◌, ◌≡◌, ◌≢◌, ◌⊎◌, inl, inr, sym, ap, subst, ◌∙◌, arith, true, ◌==◌, ==_iff,
  Bool-cases,
}
use pve_anti_detection.AsyncPf.{
  empty, Gfns, kvm_async_pf_hash_fn, kvm_async_pf_next_probe, lies_between,
}
use pve_anti_detection.AsyncPf.Cyclic.{
  dist, next_bound, next_cases, dist_next, dist_further, dist_bound, dist_inj, dist_zero, way_on,
  lies_between-inside,
}
use pve_anti_detection.AsyncPf.Lookup.{home, home_bound, IsTable, false-not-true}

module _ (size : ℕ) (hash_32 : ℕ → ℕ) (small : size ≤ 2 ^ 31)
    (low : (x : ℕ) → hash_32 x < size) where
  -- The way from the home of the entry at `s` to `s` goes past `p`.
  abbrev pub Past : Gfns → ℕ → ℕ → Type 0
  Past gfns s p =
      dist size hash_32 (home size hash_32 small low (gfns s)) p
      < dist size hash_32 (home size hash_32 small low (gfns s)) s

  -- Only the hole at `i` may be free on the way to an entry, and it is not on the way to those up to `j`.
  pub record IsHole (gfns : Gfns) (i j : ℕ) : Type 0 where
    pub bound_i : i < size
    pub bound_j : j < size
    pub hole : gfns i ≡ empty
    pub way :
        (s p : ℕ) → s < size → p < size → gfns s ≢ empty → Past gfns s p → p ≢ i → gfns p ≢ empty
    pub scanned :
        (s : ℕ)
        → s < size
        → 0 < dist size hash_32 i s
        → dist size hash_32 i s ≤ dist size hash_32 i j
        → (gfns s ≢ empty) × (Past gfns s i → ⊥)
    pub unique : (s p : ℕ) → s < size → p < size → gfns s ≢ empty → gfns s ≡ gfns p → s ≡ p

  positive : (n : ℕ) → n ≢ 0 → 0 < n
  positive n other = omega arith

  split : (a b : ℕ) → (a ≤ b) ⊎ (b < a)
  split a b = ground arith

  beyond_lem : (a b : ℕ) → (a ≤ b → ⊥) → b < a
  beyond_lem a b no_le = elim (split a b) [ inl le ↦ absurd (no_le le) | inr lt ↦ lt ]

  not_start : (i j : ℕ) → j ≡ i → 0 < dist size hash_32 i j → ⊥
  not_start i j e pos = ground arith

  up_to : (a b : ℕ) → a ≤ b + 1 → (a ≤ b) ⊎ (a ≡ b + 1)
  up_to a b le = ground arith

  -- No entry needs the hole, if the slot after the scan is free.
  harmless :
      (gfns : Gfns) (i j s : ℕ)
      → IsHole gfns i j
      → gfns (kvm_async_pf_next_probe size hash_32 j) ≡ empty
      → s < size
      → gfns s ≢ empty
      → Past gfns s i
      → ⊥
  harmless gfns i j s h free ls busy past =
      let j' = kvm_async_pf_next_probe size hash_32 j in
      let lj' = next_bound size hash_32 j h.bound_j in
      let cases = next_cases size hash_32 j h.bound_j small in
      let away : 0 < dist size hash_32 i s =
        positive _
          (λ e. busy (ap gfns (sym (dist_zero size hash_32 i s h.bound_i ls e)) ∙ h.hole)) in
      let beyond : dist size hash_32 i j < dist size hash_32 i s =
        beyond_lem _ _ (λ le. (h.scanned s ls away le).1 past) in
      let step =
        dist_further size hash_32 i j j' h.bound_i h.bound_j cases
          (omega (arith, beyond, dist_bound size hash_32 i s h.bound_i ls)) in
      let other : dist size hash_32 i j' ≢ dist size hash_32 i s =
        λ e. busy (ap gfns (sym (dist_inj size hash_32 i j' s h.bound_i lj' ls e)) ∙ free) in
      let home_s = home size hash_32 small low (gfns s) in
      let on =
        way_on size hash_32 home_s i j' s (home_bound size hash_32 small low (gfns s)) h.bound_i lj'
          ls past (omega (arith, step)) (omega (arith, step, beyond, other)) in
      h.way s j' ls lj' busy on (λ e. not_start i j' e (omega (arith, step))) free

  -- Where the next slot is free, the hole does no harm.
  pub IsHole-IsTable :
      (gfns : Gfns) (i j : ℕ)
      → IsHole gfns i j
      → gfns (kvm_async_pf_next_probe size hash_32 j) ≡ empty
      → IsTable size hash_32 small low gfns
  IsHole-IsTable gfns i j h free = record {
    way = λ s p ls lp busy past free_p. elim (Bool-cases (p == i)) [
      | inr away ↦
          h.way s p ls lp busy past (λ e. false-not-true (sym away ∙ (==_iff _ _).1 e)) free_p
      | inl at_i ↦
          harmless gfns i j s h free ls busy (subst (Past gfns s) ((==_iff p i).0 at_i) past)
    ];
    unique = h.unique;
  }

  -- The scan goes past an entry whose home lies between the hole and it.
  pub IsHole-further :
      (gfns : Gfns) (i j : ℕ)
      → IsHole gfns i j
      → let j' = kvm_async_pf_next_probe size hash_32 j in
        gfns j' ≢ empty
        → lies_between size hash_32 i (kvm_async_pf_hash_fn size hash_32 (gfns j')) j' ≡ true
        → IsHole gfns i j'
  IsHole-further gfns i j h busy inside =
      let j' = kvm_async_pf_next_probe size hash_32 j in
      let lj' = next_bound size hash_32 j h.bound_j in
      let apart : j' ≢ i = λ e. busy (ap gfns e ∙ h.hole) in
      let step =
        dist_next size hash_32 i j j' h.bound_i h.bound_j
          (next_cases size hash_32 j h.bound_j small) apart in
      record {
        bound_i = h.bound_i;
        bound_j = lj';
        hole = h.hole;
        way = h.way;
        scanned = λ s ls pos near.
            elim (up_to (dist size hash_32 i s) (dist size hash_32 i j)
              (omega (arith, step, near))) [
                | inl before ↦ h.scanned s ls pos before
                | inr last ↦
                    let same : j' ≡ s =
                      dist_inj size hash_32 i j' s h.bound_i lj' ls (step ∙ sym last) in
                    subst (λ x. (gfns x ≢ empty) × (Past gfns x i → ⊥)) same
                      (
                        busy,
                        λ past. omega (
                          arith,
                          past,
                          lies_between-inside size hash_32 i (home size hash_32 small low (gfns j'))
                              j' h.bound_i (home_bound size hash_32 small low (gfns j')) lj'
                              (λ e. apart (sym e)) inside,
                        ),
                      )
              ];
        unique = h.unique;
      }
