-- ===== src/Vmx/Lists/Set.antt =====
-- Setting a register that is in a list already.
use pve_anti_detection.Prelude.{
  ℕ, ◌<◌, ◌≡◌, inl, inr, sym, ap, ◌∙◌, some, ◌==◌, ==_iff, if◌then◌else◌, update_at,
  update_at_cases, update_at-same, Bool-cases,
}
use pve_anti_detection.Vmx.{VmxMsrs, put}
use pve_anti_detection.Vmx.Lists.{
  IsList, value_of, found, missing, Slot-find, value_of-found, value_of-missing, false-true,
}

-- Setting a register that the list has.
module _ (m : VmxMsrs) (l : IsList m) (msr i : ℕ) (lt : i < m.nr) (at : (m.val i).index ≡ msr) where
  kept :
      (value j : ℕ)
      → (update_at m.val i (record { index = msr; value = value }) j).index ≡ (m.val j).index
  kept value j = elim (update_at_cases m.val i (record { index = msr; value = value }) j) [
    | inl (ij, e) ↦ ap (λ x. x.index) e ∙ sym at ∙ ap (λ x. (m.val x).index) ij
    | inr (ij, e) ↦ ap (λ x. x.index) e
  ]

  pub set-IsList : (value : ℕ) → IsList (put m (some i) msr value)
  unfolding put
  set-IsList value = record {
    bound = l.bound;
    unique = λ j k ltj ltk same. l.unique j k ltj ltk (sym (kept value j) ∙ same ∙ kept value k);
  }

  pub set-value_of :
      (value other : ℕ)
      → value_of (put m (some i) msr value) other
        ≡ (if msr == other then some value else value_of m other)
  unfolding put
  set-value_of value other =
      let m' = put m (some i) msr value in
      let l' = set-IsList value in
      elim (Bool-cases (msr == other)) [
        | inl one ↦
            let here = update_at-same m.val i (record { index = msr; value = value }) in
            rw one (
              value_of-found m' other i l' lt (ap (λ x. x.index) here ∙ (==_iff _ _).0 one)
              ∙ ap (λ x. some x.value) here)
        | inr two ↦ elim (Slot-find m other) [
          | missing nowhere e ↦
              rw (two, value_of-missing m other nowhere)
                (value_of-missing m' other
                  (λ j ltj same. nowhere j ltj (sym (kept value j) ∙ same)))
          | found j ltj same e ↦
              let away : update_at m.val i (record { index = msr; value = value }) j ≡ m.val j =
                elim (update_at_cases m.val i (record { index = msr; value = value }) j) [
                  | inl (ij, e') ↦ absurd (
                      false-true
                        (sym two ∙ (==_iff _ _).1 (sym at ∙ ap (λ x. (m.val x).index) ij ∙ same)))
                  | inr (ij, e') ↦ e'
                ] in
              rw (two, value_of-found m other j l ltj same)
                (value_of-found m' other j l' ltj (ap (λ x. x.index) away ∙ same)
                  ∙ ap (λ x. some x.value) away)
        ]
      ]
