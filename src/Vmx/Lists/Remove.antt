-- ===== src/Vmx/Lists/Remove.antt =====
-- Taking a register out of a list.
use pve_anti_detection.Prelude.{
  ℕ, ◌-◌, ◌<◌, ◌≡◌, ◌≢◌, ◌⊎◌, inl, inr, refl, sym, ap, ◌∙◌, arith, none, some, ◌==◌, ==_iff,
  if◌then◌else◌, update_at, update_at_cases, update_at-same, Bool-cases,
}
use pve_anti_detection.Vmx.{VmxMsrs, remove}
use pve_anti_detection.Vmx.Lists.{
  IsList, value_of, found, missing, Slot-find, value_of-found, value_of-missing, false-true,
}

module _ (m : VmxMsrs) (l : IsList m) (msr i : ℕ) (lt : i < m.nr) (at : (m.val i).index ≡ msr) where
  -- Where the entry that is found at `j` afterwards was before.
  origin :
      (j : ℕ)
      → j < m.nr - 1
      → (k : ℕ) × (k < m.nr)
        × (k ≢ i)
        × (update_at m.val i (m.val (m.nr - 1)) j ≡ m.val k)
        × (((i ≡ j) × (k ≡ m.nr - 1)) ⊎ (k ≡ j))
  origin j ltj = elim (update_at_cases m.val i (m.val (m.nr - 1)) j) [
    | inl (same, e) ↦ (m.nr - 1, omega arith, λ last. omega arith, e, inl (same, refl))
    | inr (other, e) ↦ (j, omega arith, λ same. other (sym same), e, inr refl)
  ]

  last_or_below : (k : ℕ) → k < m.nr → (k ≡ m.nr - 1) ⊎ (k < m.nr - 1)
  last_or_below k ltk = ground arith

  -- Where an entry is afterwards.
  image :
      (k : ℕ)
      → k < m.nr
      → k ≢ i
      → (j : ℕ) × (j < m.nr - 1) × (update_at m.val i (m.val (m.nr - 1)) j ≡ m.val k)
  image k ltk away = elim (last_or_below k ltk) [
    | inl last ↦ (i, omega arith, update_at-same m.val i (m.val (m.nr - 1)) ∙ ap m.val (sym last))
    | inr below ↦ elim (update_at_cases m.val i (m.val (m.nr - 1)) k) [
      | inl (same, e) ↦ absurd (away (sym same))
      | inr (other, e) ↦ (k, below, e)
    ]
  ]

  same_place :
      (a b j k : ℕ)
      → ((i ≡ a) × (j ≡ m.nr - 1)) ⊎ (j ≡ a)
      → ((i ≡ b) × (k ≡ m.nr - 1)) ⊎ (k ≡ b)
      → j ≡ k
      → a < m.nr - 1
      → b < m.nr - 1
      → a ≡ b
  same_place a b j k (inl (ia, je)) (inl (ib, ke)) one lta ltb = omega arith
  same_place a b j k (inl (ia, je)) (inr kb) one lta ltb = omega arith
  same_place a b j k (inr ja) (inl (ib, ke)) one lta ltb = omega arith
  same_place a b j k (inr ja) (inr kb) one lta ltb = omega arith

  pub remove-IsList : IsList (remove m i)
  unfolding remove
  remove-IsList = record {
    bound = omega (arith, l.bound);
    unique = λ a b lta ltb same.
        let (j, ltj, awayj, ej, hj) = origin a lta in
        let (k, ltk, awayk, ek, hk) = origin b ltb in
        let one : j ≡ k =
          l.unique j k ltj ltk (ap (λ x. x.index) (sym ej) ∙ same ∙ ap (λ x. x.index) ek) in
        same_place a b j k hj hk one lta ltb;
  }

  pub remove-value_of :
      (other : ℕ) → value_of (remove m i) other ≡ (if msr == other then none else value_of m other)
  unfolding remove
  remove-value_of other =
      let m' = remove m i in
      let gone : (other ≡ msr) → value_of m' other ≡ none = λ one.
        value_of-missing m' other (λ j ltj same.
          let (k, ltk, away, e, h) = origin j ltj in
          away (l.unique k i ltk lt (ap (λ x. x.index) (sym e) ∙ same ∙ one ∙ sym at))) in
      elim (Bool-cases (msr == other)) [
        | inl one ↦ rw one (gone (sym ((==_iff _ _).0 one)))
        | inr two ↦ elim (Slot-find m other) [
          | missing absent e ↦
              rw (two, value_of-missing m other absent)
                (value_of-missing m' other (λ j ltj same.
                  let (k, ltk, away, e', h) = origin j ltj in
                  absent k ltk (ap (λ x. x.index) (sym e') ∙ same)))
          | found k ltk same e ↦
              let (j, ltj, e') = image k ltk (λ ki.
                false-true (
                  sym two ∙ (==_iff _ _).1 (sym at ∙ ap (λ x. (m.val x).index) (sym ki) ∙ same))) in
              rw (two, value_of-found m other k l ltk same)
                (value_of-found m' other j remove-IsList ltj (ap (λ x. x.index) e' ∙ same)
                  ∙ ap (λ x. some x.value) e')
        ]
      ]
