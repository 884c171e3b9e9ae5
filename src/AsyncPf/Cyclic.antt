-- ===== src/AsyncPf/Cyclic.antt =====
-- Distances around the table.
use native.Mathlib.Nat.{mod-lt, mod-eq_of_lt, mod_self}
use pve_anti_detection.Prelude.{
  ap, ◌∙◌, ℕ, ◌+◌, ◌-◌, ◌%◌, ◌^◌, ◌≤◌, ◌<◌, ◌≡◌, ◌≢◌, ◌⊎◌, inl, inr, arith, true, false, leb,
  if◌then◌else◌, u32,
}
use pve_anti_detection.AsyncPf.{kvm_async_pf_next_probe, lies_between}

module _ (size : ℕ) (hash_32 : ℕ → ℕ) where
  -- How far `b` lies behind `a`.
  abbrev pub dist : ℕ → ℕ → ℕ
  dist a b = if leb a b then b - a else b + size - a

  pub dist_bound : (a b : ℕ) → a < size → b < size → dist a b < size
  dist_bound a b la lb = ground arith

  pub dist_zero : (a b : ℕ) → a < size → b < size → dist a b ≡ 0 → a ≡ b
  dist_zero a b la lb e = ground arith

  pub dist_inj : (h a b : ℕ) → h < size → a < size → b < size → dist h a ≡ dist h b → a ≡ b
  dist_inj h a b lh la lb e = ground arith

  pub next_bound : (a : ℕ) → a < size → kvm_async_pf_next_probe size hash_32 a < size
  unfolding kvm_async_pf_next_probe
  next_bound a la = mod-lt (u32 (a + 1)) (omega arith)

  last_cases : (a : ℕ) → a < size → (a + 1 < size) ⊎ (a + 1 ≡ size)
  last_cases a la = ground arith

  pub next_cases :
      (a : ℕ)
      → a < size
      → size ≤ 2 ^ 31
      → let a' = kvm_async_pf_next_probe size hash_32 a in
        ((a' ≡ a + 1) × (a + 1 < size)) ⊎ ((a' ≡ 0) × (a + 1 ≡ size))
  unfolding kvm_async_pf_next_probe
  next_cases a la small =
      let word : u32 (a + 1) ≡ a + 1 = omega arith in
      elim (last_cases a la) [
        | inl below ↦ inl (ap (λ x. x % size) word ∙ mod-eq_of_lt below, below)
        | inr last ↦ inr (ap (λ x. x % size) (word ∙ last) ∙ mod_self size, last)
      ]

  -- Shifting the one end of a distance.
  pub dist_next :
      (i j j' : ℕ)
      → i < size
      → j < size
      → ((j' ≡ j + 1) × (j + 1 < size)) ⊎ ((j' ≡ 0) × (j + 1 ≡ size))
      → j' ≢ i
      → dist i j' ≡ dist i j + 1
  dist_next i j j' li lj (inl (e, b)) other = ground arith
  dist_next i j j' li lj (inr (e, b)) other = ground arith

  pub dist_further :
      (i j j' : ℕ)
      → i < size
      → j < size
      → ((j' ≡ j + 1) × (j + 1 < size)) ⊎ ((j' ≡ 0) × (j + 1 ≡ size))
      → dist i j + 1 < size
      → dist i j' ≡ dist i j + 1
  dist_further i j j' li lj (inl (e, b)) other = ground arith
  dist_further i j j' li lj (inr (e, b)) other = ground arith

  pub dist_nearer :
      (e j j' : ℕ)
      → e < size
      → j < size
      → ((j' ≡ j + 1) × (j + 1 < size)) ⊎ ((j' ≡ 0) × (j + 1 ≡ size))
      → j ≢ e
      → dist j e ≡ dist j' e + 1
  dist_nearer e j j' le lj (inl (d, b)) other = ground arith
  dist_nearer e j j' le lj (inr (d, b)) other = ground arith

  -- A way from `h` to `s` past `i` goes on past all that lies between `i` and `s`.
  pub way_on :
      (h i q s : ℕ)
      → h < size
      → i < size
      → q < size
      → s < size
      → dist h i < dist h s
      → 0 < dist i q
      → dist i q < dist i s
      → dist h q < dist h s
  way_on h i q s lh li lq ls past pos before = ground arith

  -- The test of the source: where the slot lies outside of `]i, j]`, the way from it to `j` goes past `i`.
  pub lies_between-outside :
      (i k j : ℕ)
      → i < size
      → k < size
      → j < size
      → i ≢ j
      → lies_between size hash_32 i k j ≡ false
      → dist k i < dist k j
  lies_between-outside i k j li lk lj differs e = ground arith

  pub lies_between-inside :
      (i k j : ℕ)
      → i < size
      → k < size
      → j < size
      → i ≢ j
      → lies_between size hash_32 i k j ≡ true
      → dist k j ≤ dist k i
  lies_between-inside i k j li lk lj differs e = ground arith
