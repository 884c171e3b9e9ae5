-- ===== src/Vmx/Lists/Append.antt =====
-- Adding a register to a list.
use pve_anti_detection.Prelude.{
  ℕ, ◌+◌, ◌<◌, ◌≡◌, ◌≢◌, ◌⊎◌, inl, inr, sym, ap, ◌∙◌, arith, none, some, ◌==◌, ==_iff,
  if◌then◌else◌, update_at, update_at_cases, update_at-same, Bool-cases,
}
use pve_anti_detection.Vmx.{VmxMsrs, max_nr, put}
use pve_anti_detection.Vmx.Lists.{
  IsList, value_of, found, missing, Slot-find, value_of-found, value_of-missing, false-true,
}

module _ (m : VmxMsrs) (l : IsList m) (msr : ℕ) (room : m.nr < max_nr)
    (nowhere : (i : ℕ) → i < m.nr → (m.val i).index ≢ msr) where
  old :
      (value j : ℕ)
      → j < m.nr
      → update_at m.val m.nr (record { index = msr; value = value }) j ≡ m.val j
  old value j lt = elim (update_at_cases m.val m.nr (record { index = msr; value = value }) j) [
    | inl (same, e) ↦ absurd (omega arith)
    | inr (other, e) ↦ e
  ]

  new :
      (value : ℕ)
      → update_at m.val m.nr (record { index = msr; value = value }) m.nr
        ≡ record { index = msr; value = value }
  new value = update_at-same m.val m.nr (record { index = msr; value = value })

  -- The new register is none of the old ones.
  apart :
      (value j : ℕ)
      → j < m.nr
      → (update_at m.val m.nr (record { index = msr; value = value }) j).index
        ≢ (update_at m.val m.nr (record { index = msr; value = value }) m.nr).index
  apart value j lt same =
      nowhere j lt (ap (λ x. x.index) (sym (old value j lt)) ∙ same ∙ ap (λ x. x.index) (new value))

  last_cases : (j : ℕ) → j < m.nr + 1 → (j ≡ m.nr) ⊎ (j < m.nr)
  last_cases j lt = ground arith

  pub append-IsList : (value : ℕ) → IsList (put m none msr value)
  unfolding put
  append-IsList value = record {
    bound = omega (arith, l.bound);
    unique = λ i j lti ltj same. elim (last_cases i lti) [
      | inl ei ↦ elim (last_cases j ltj) [
        | inl ej ↦ ei ∙ sym ej
        | inr below ↦ absurd (
            apart value j below (
              sym same
              ∙ ap (λ k. (update_at m.val m.nr (record { index = msr; value = value }) k).index)
                  ei))
      ]
      | inr belowi ↦ elim (last_cases j ltj) [
        | inl ej ↦ absurd (
            apart value i belowi (
              same
              ∙ ap (λ k. (update_at m.val m.nr (record { index = msr; value = value }) k).index)
                  ej))
        | inr below ↦ l.unique i j belowi below (
            ap (λ x. x.index) (sym (old value i belowi))
            ∙ same
            ∙ ap (λ x. x.index) (old value j below))
      ]
    ];
  }

  pub append-value_of :
      (value other : ℕ)
      → value_of (put m none msr value) other
        ≡ (if msr == other then some value else value_of m other)
  unfolding put
  append-value_of value other =
      let m' = put m none msr value in
      let l' = append-IsList value in
      elim (Bool-cases (msr == other)) [
        | inl one ↦ rw one (
            value_of-found m' other m.nr l' (omega arith)
              (ap (λ x. x.index) (new value) ∙ (==_iff _ _).0 one)
            ∙ ap (λ x. some x.value) (new value))
        | inr two ↦ elim (Slot-find m other) [
          | missing absent e ↦
              rw (two, value_of-missing m other absent)
                (value_of-missing m' other (λ j ltj same. elim (last_cases j ltj) [
                  | inl ej ↦ false-true (
                      sym two
                      ∙ (==_iff _ _).1 (
                          ap (λ x. x.index) (sym (new value))
                          ∙ ap
                              (λ k.
                                (update_at m.val m.nr (record { index = msr; value = value })
                                  k).index)
                              (sym ej)
                          ∙ same))
                  | inr below ↦ absent j below (ap (λ x. x.index) (sym (old value j below)) ∙ same)
                ]))
          | found j ltj same e ↦
              rw (two, value_of-found m other j l ltj same)
                (value_of-found m' other j l' (omega arith)
                    (ap (λ x. x.index) (old value j ltj) ∙ same)
                  ∙ ap (λ x. some x.value) (old value j ltj))
        ]
      ]
