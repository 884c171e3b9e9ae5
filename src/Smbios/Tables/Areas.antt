-- ===== src/Smbios/Tables/Areas.antt =====
-- The memory areas that types 19 and 20 describe: one is read for each module, and there may be
-- fewer of them.
use native.Mathlib.Decide.{dec_lt}
use pve_anti_detection.Prelude.{
  ℕ, zero, suc, ◌+◌, ◌≤◌, ◌<◌, ◌≡◌, true, some, List, [], ◌∷◌, arith, length, get_elem?,
  get_elem?_below, get_elem?_beyond, All, lt→ltb, inl, inr, Bool-cases, subst,
}
use pve_anti_detection.Prelude.Outcome.{
  stray, IsDone, >>=-IsDone, >>=-not-IsDone, >>=-not-IsDone_left, IsDone-eq,
}
use pve_anti_detection.Smbios.State.{Smbios}
use pve_anti_detection.Smbios.Qemu.{Qemu}
use pve_anti_detection.Smbios.Build.Processor.{Machine}
use pve_anti_detection.Smbios.Build.Memory.{
  area_end, smbios_build_type_19_table, smbios_build_type_20_table,
}
use pve_anti_detection.Smbios.Tables.{
  SmbiosPhysMemArea, dimm_size, dimm_count, handle_offset, type_17_loop, type_19_loop, build_dimms,
}

-- The area starts below its end, whichever module's size it is given: neither assertion fails.
abbrev pub IsArea : Machine → ℕ → SmbiosPhysMemArea → Type 0
IsArea ms cnt a = (j : ℕ) → a.address < area_end a.address (dimm_size ms cnt j)

All-get_elem? :
    (P : SmbiosPhysMemArea → Type 0) (areas : List SmbiosPhysMemArea) (i : ℕ)
    (a : SmbiosPhysMemArea)
    → All P areas
    → get_elem? areas i ≡ some a
    → P a
All-get_elem? P [] i a h e = cc
All-get_elem? P (x ∷ xs) zero a h e = subst P (same x a e) h.0
  where
    same : (b c : SmbiosPhysMemArea) → some b ≡ some c → b ≡ c
    same b c r = cc
All-get_elem? P (x ∷ xs) (suc i) a h e = All-get_elem? P xs i a h.1 e

module _ (q : Qemu) (ms : Machine) (mem_array : List SmbiosPhysMemArea) where
  type_19-IsDone :
      (cnt i offset : ℕ) (a : SmbiosPhysMemArea) (s : Smbios)
      → IsArea ms cnt a
      → IsDone (smbios_build_type_19_table q i offset a.address (dimm_size ms cnt i) s)
  unfolding smbios_build_type_19_table
  type_19-IsDone cnt i offset a s h = elim (Bool-cases (q.skips s 19 true)) [
    | inl e ↦ rw (e, smbios_build_type_19_table) tt
    | inr e ↦ rw (e, lt→ltb _ _ (h i), smbios_build_type_19_table) tt
  ]

  type_20-IsDone :
      (cnt i : ℕ) (a : SmbiosPhysMemArea) (s : Smbios)
      → IsArea ms cnt a
      → IsDone (smbios_build_type_20_table q a.address (dimm_size ms cnt i) s)
  unfolding smbios_build_type_20_table
  type_20-IsDone cnt i a s h = rw (lt→ltb _ _ (h i), smbios_build_type_20_table) tt

  type_19_loop-IsDone :
      (cnt k i : ℕ) (s : Smbios)
      → i + k ≤ length mem_array
      → All (IsArea ms cnt) mem_array
      → IsDone (type_19_loop q ms mem_array cnt k i s)
  unfolding type_19_loop
  type_19_loop-IsDone cnt zero i s h v = tt
  type_19_loop-IsDone cnt (suc k) i s h v =
      let (a, e) = get_elem?_below mem_array i (omega arith) in
      let valid = All-get_elem? (IsArea ms cnt) mem_array i a v e in
      rw (e, type_19_loop)
        (>>=-IsDone
          (smbios_build_type_19_table q i (handle_offset cnt) a.address (dimm_size ms cnt i) s) _
          (type_19-IsDone cnt i (handle_offset cnt) a s valid)
          λ s1.
            >>=-IsDone (smbios_build_type_20_table q a.address (dimm_size ms cnt i) s1) _
              (type_20-IsDone cnt i a s1 valid)
              λ s2. type_19_loop-IsDone cnt k (i + 1) s2 (omega arith) v)

  type_19_loop-not-IsDone :
      (cnt k i : ℕ) (s : Smbios)
      → length mem_array < i + k
      → i ≤ length mem_array
      → ¬ IsDone (type_19_loop q ms mem_array cnt k i s)
  unfolding type_19_loop
  type_19_loop-not-IsDone cnt zero i s h b = absurd (omega arith)
  type_19_loop-not-IsDone cnt (suc k) i s h b = elim (dec_lt i (length mem_array)) [
    | no end ↦ rw (get_elem?_beyond mem_array i (omega arith), type_19_loop) (λ x. x)
    | yes more ↦
        let (a, e) = get_elem?_below mem_array i more in
        rw (e, type_19_loop)
          (>>=-not-IsDone
            (smbios_build_type_19_table q i (handle_offset cnt) a.address (dimm_size ms cnt i) s) _
            λ s1.
              >>=-not-IsDone (smbios_build_type_20_table q a.address (dimm_size ms cnt i) s1) _
                λ s2. type_19_loop-not-IsDone cnt k (i + 1) s2 (omega arith) (omega arith))
  ]

  type_19_loop-stray_from :
      (cnt k i : ℕ) (s : Smbios)
      → length mem_array < i + k
      → i ≤ length mem_array
      → All (IsArea ms cnt) mem_array
      → type_19_loop q ms mem_array cnt k i s ≡ stray
  unfolding type_19_loop
  type_19_loop-stray_from cnt zero i s h b v = absurd (omega arith)
  type_19_loop-stray_from cnt (suc k) i s h b v = elim (dec_lt i (length mem_array)) [
    | no end ↦ rw (get_elem?_beyond mem_array i (omega arith), type_19_loop)
    | yes more ↦
        let (a, e) = get_elem?_below mem_array i more in
        let valid = All-get_elem? (IsArea ms cnt) mem_array i a v e in
        let (s1, e1) = IsDone-eq _ (type_19-IsDone cnt i (handle_offset cnt) a s valid) in
        let (s2, e2) = IsDone-eq _ (type_20-IsDone cnt i a s1 valid) in
        rw (e, type_19_loop, e1, e2)
          (type_19_loop-stray_from cnt k (i + 1) s2 (omega arith) (omega arith) v)
  ]

  -- With fewer areas than modules, the loop over the modules reads the array outside its bounds, even
  -- where every area that there is would do.
  pub type_19_loop-stray :
      (s : Smbios)
      → length mem_array < dimm_count q ms
      → All (IsArea ms (dimm_count q ms)) mem_array
      → type_19_loop q ms mem_array (dimm_count q ms) (dimm_count q ms) 0 s ≡ stray
  type_19_loop-stray s h v =
      type_19_loop-stray_from (dimm_count q ms) (dimm_count q ms) 0 s (omega arith) (omega arith) v

  -- With an area for each module, none of them empty or reaching past 64 bits, the structures of types
  -- 19 and 20 are built: no read outside the array, no failed assertion.
  pub type_19_loop-completes :
      (s : Smbios)
      → dimm_count q ms ≤ length mem_array
      → All (IsArea ms (dimm_count q ms)) mem_array
      → IsDone (type_19_loop q ms mem_array (dimm_count q ms) (dimm_count q ms) 0 s)
  type_19_loop-completes s h v =
      type_19_loop-IsDone (dimm_count q ms) (dimm_count q ms) 0 s (omega arith) v

  -- With fewer areas than modules, building the memory structures never ends with a value, also where
  -- the structures are skipped.
  pub build_dimms-not-IsDone :
      (s : Smbios) → length mem_array < dimm_count q ms → ¬ IsDone (build_dimms q ms mem_array s)
  unfolding build_dimms
  build_dimms-not-IsDone s h =
      >>=-not-IsDone (type_17_loop q ms (dimm_count q ms) (dimm_count q ms) 0 _) _ λ s1 x.
        >>=-not-IsDone_left (type_19_loop q ms mem_array (dimm_count q ms) (dimm_count q ms) 0 s1) _
          (type_19_loop-not-IsDone (dimm_count q ms) (dimm_count q ms) 0 s1 (omega arith)
            (omega arith))
          x
