-- ===== src/AsyncPf/Lookup.antt =====
-- What the table holds, and how it is found.
use pve_anti_detection.Prelude.{
  ℕ, zero, suc, ◌+◌, ◌^◌, ◌≤◌, ◌<◌, ◌≡◌, ◌≢◌, inl, inr, refl, sym, ap, subst, ◌∙◌, arith, Bool,
  true, false, ◌||◌, ◌==◌, ==_iff, if_cases, Bool-cases,
}
use pve_anti_detection.AsyncPf.{
  empty, Gfns, kvm_async_pf_hash_fn, slot_from, kvm_async_pf_gfn_slot, kvm_find_async_pf_gfn,
}
use pve_anti_detection.AsyncPf.Cyclic.{
  dist, next_bound, next_cases, dist_further, dist_bound, dist_inj,
}

pub false-not-true : false ≡ true → ⊥
false-not-true e = cc

module _ (size : ℕ) (hash_32 : ℕ → ℕ) (small : size ≤ 2 ^ 31)
    (low : (x : ℕ) → hash_32 x < size) where
  abbrev pub home : ℕ → ℕ
  home = kvm_async_pf_hash_fn size hash_32

  pub home_bound : (g : ℕ) → home g < size
  unfolding kvm_async_pf_hash_fn
  home_bound g = low _

  -- The way from the home of an entry to its slot has no free slot, and no frame is there twice.
  pub record IsTable (gfns : Gfns) : Type 0 where
    pub way :
        (s p : ℕ)
        → s < size
        → p < size
        → gfns s ≢ empty
        → dist size hash_32 (home (gfns s)) p < dist size hash_32 (home (gfns s)) s
        → gfns p ≢ empty
    pub unique : (s p : ℕ) → s < size → p < size → gfns s ≢ empty → gfns s ≡ gfns p → s ≡ p

  -- The frame is in the table.
  abbrev pub Has : Gfns → ℕ → Type 0
  Has gfns g = (s : ℕ) × (s < size) × (gfns s ≡ g)

  slot_from_bound :
      (left : ℕ) (gfns : Gfns) (g key : ℕ)
      → key < size
      → slot_from size hash_32 left gfns g key < size
  unfolding slot_from
  slot_from_bound zero gfns g key lt = lt
  slot_from_bound (suc left) gfns g key lt =
      if_cases {A = ℕ} (λ k. k < size) (gfns key == g || gfns key == empty) _ _ (λ _. lt)
        (λ _. slot_from_bound left gfns g _ (next_bound size hash_32 key lt))

  not_equal : {a b : ℕ} → (a == b) ≡ false → a ≢ b
  not_equal e same = false-not-true (sym e ∙ (==_iff _ _).1 same)

  pub ne_test : {a b : ℕ} → a ≢ b → (a == b) ≡ false
  ne_test differs = ground arith

  dist_home : (h : ℕ) → dist size hash_32 h h ≡ 0
  dist_home h = ground arith

  -- The probing gets to a frame that is further on.
  slot_from_lem :
      (gfns : Gfns) (t : IsTable gfns) (g s : ℕ) (here : s < size) (at : gfns s ≡ g)
      (some_g : g ≢ empty) (left key : ℕ)
      → key < size
      → dist size hash_32 (home g) key ≤ dist size hash_32 (home g) s
      → dist size hash_32 (home g) s < dist size hash_32 (home g) key + left
      → gfns (slot_from size hash_32 left gfns g key) ≡ g
  unfolding slot_from
  slot_from_lem gfns t g s here at some_g zero key lt before few = absurd (omega arith)
  slot_from_lem gfns t g s here at some_g (suc left) key lt before few =
      elim (Bool-cases (gfns key == g)) [
        | inl found ↦ rw found ((==_iff _ _).0 found)
        | inr other ↦
            let apart : dist size hash_32 (home g) key ≢ dist size hash_32 (home g) s = λ e.
              not_equal other
                (ap gfns (dist_inj size hash_32 (home g) key s (home_bound g) lt here e) ∙ at) in
            let past : dist size hash_32 (home g) key < dist size hash_32 (home g) s =
              omega arith in
            let busy : gfns key ≢ empty =
              t.way s key here lt (λ e. some_g (sym at ∙ e))
                (subst (λ x. dist size hash_32 (home x) key < dist size hash_32 (home x) s) (sym at)
                  past) in
            let further =
              dist_further size hash_32 (home g) key _ (home_bound g) lt
                (next_cases size hash_32 key lt small)
                (omega (arith, dist_bound size hash_32 (home g) s (home_bound g) here)) in
            rw (other, ne_test busy)
              (slot_from_lem gfns t g s here at some_g left _ (next_bound size hash_32 key lt)
                (omega (arith, further)) (omega (arith, further)))
      ]

  -- The search finds exactly the frames in the table.
  pub find-Has :
      (gfns : Gfns) (g : ℕ) → kvm_find_async_pf_gfn size hash_32 gfns g ≡ true → Has gfns g
  unfolding kvm_find_async_pf_gfn kvm_async_pf_gfn_slot
  find-Has gfns g e = (
    kvm_async_pf_gfn_slot size hash_32 gfns g,
    slot_from_bound size gfns g (home g) (home_bound g),
    (==_iff _ _).0 e,
  )

  -- The slot of a frame that is in the table.
  pub slot-Has :
      (gfns : Gfns) (g : ℕ)
      → IsTable gfns
      → g ≢ empty
      → Has gfns g
      → let i = kvm_async_pf_gfn_slot size hash_32 gfns g in (i < size) × (gfns i ≡ g)
  unfolding kvm_async_pf_gfn_slot
  slot-Has gfns g t some_g (s, here, at) = (
    slot_from_bound size gfns g (home g) (home_bound g),
    slot_from_lem gfns t g s here at some_g size (home g) (home_bound g)
        (omega (arith, dist_home (home g)))
        (omega (arith, dist_home (home g), dist_bound size hash_32 (home g) s (home_bound g) here)),
  )

  pub Has-find :
      (gfns : Gfns) (g : ℕ)
      → IsTable gfns
      → g ≢ empty
      → Has gfns g
      → kvm_find_async_pf_gfn size hash_32 gfns g ≡ true
  unfolding kvm_find_async_pf_gfn
  Has-find gfns g t some_g has = (==_iff _ _).1 (slot-Has gfns g t some_g has).1

  -- What the search answers, from what is in the table.
  pub find_true :
      (gfns : Gfns) (g : ℕ) (b : Bool)
      → IsTable gfns
      → g ≢ empty
      → (Has gfns g → b ≡ true)
      → (b ≡ true → Has gfns g)
      → kvm_find_async_pf_gfn size hash_32 gfns g ≡ b
  find_true gfns g true t some_g to from = Has-find gfns g t some_g (from refl)
  find_true gfns g false t some_g to from =
      elim (Bool-cases (kvm_find_async_pf_gfn size hash_32 gfns g)) [
        | inl found ↦ absurd (false-not-true (to (find-Has gfns g found)))
        | inr lost ↦ lost
      ]
