-- ===== src/AsyncPf.antt =====
-- x86.c: the table of a vCPU's asynchronous page faults that are not answered yet (lines 355 to 360 and
-- 13249 to 13320): `kvm_async_pf_hash_reset`, `kvm_add_async_pf_gfn`, `kvm_async_pf_gfn_slot`,
-- `kvm_find_async_pf_gfn` and `kvm_del_async_pf_gfn`. It is a hash table with open addressing.
--
-- The size, `ASYNC_PF_PER_VCPU`, and `hash_32` are parameters. The array is a family of which the
-- first `size` elements count.
pub mod Cyclic
pub mod Lookup
pub mod Insert
pub mod Delete
mod Tests
use pve_anti_detection.Prelude.{
  ℕ, zero, suc, ◌+◌, ◌-◌, ◌%◌, ◌^◌, Bool, true, false, not, ◌&&◌, ◌||◌, Option, none, some, ltb,
  leb, ◌==◌, if◌then◌else◌, u32, update_at,
}

-- `~0`
abbrev pub empty : ℕ
empty = 2 ^ 64 - 1

-- `apf.gfns`
abbrev pub Gfns : Type 0
Gfns = ℕ → ℕ

module _ (size : ℕ) (hash_32 : ℕ → ℕ) where
  unfoldable pub kvm_async_pf_hash_reset : Gfns → Gfns
  kvm_async_pf_hash_reset gfns i = if ltb i size then empty else gfns i

  unfoldable pub kvm_async_pf_hash_fn : ℕ → ℕ
  kvm_async_pf_hash_fn gfn = hash_32 (u32 gfn)

  -- The size is a power of 2.
  unfoldable pub kvm_async_pf_next_probe : ℕ → ℕ
  kvm_async_pf_next_probe key = u32 (key + 1) % size

  -- The loop of `kvm_add_async_pf_gfn`: the free slot it ends at.
  unfoldable pub free_slot : ℕ → Gfns → ℕ → Option ℕ
  unfolding kvm_async_pf_next_probe
  free_slot zero gfns key = none
  free_slot (suc fuel) gfns key =
      let rest = free_slot fuel gfns (kvm_async_pf_next_probe key) in
      if gfns key == empty then some key else rest

  -- `none`: no slot is free, and the loop does not end.
  unfoldable pub kvm_add_async_pf_gfn : Gfns → ℕ → Option Gfns
  unfolding free_slot kvm_async_pf_hash_fn
  kvm_add_async_pf_gfn gfns gfn = elim (free_slot size gfns (kvm_async_pf_hash_fn gfn)) [
    | none ↦ none
    | some key ↦ some (update_at gfns key gfn)
  ]

  -- The loop of `kvm_async_pf_gfn_slot`, with so many rounds to go.
  unfoldable pub slot_from : ℕ → Gfns → ℕ → ℕ → ℕ
  unfolding kvm_async_pf_next_probe
  slot_from zero gfns gfn key = key
  slot_from (suc left) gfns gfn key =
      let rest = slot_from left gfns gfn (kvm_async_pf_next_probe key) in
      if gfns key == gfn || gfns key == empty then key else rest

  unfoldable pub kvm_async_pf_gfn_slot : Gfns → ℕ → ℕ
  unfolding slot_from kvm_async_pf_hash_fn
  kvm_async_pf_gfn_slot gfns gfn = slot_from size gfns gfn (kvm_async_pf_hash_fn gfn)

  unfoldable pub kvm_find_async_pf_gfn : Gfns → ℕ → Bool
  unfolding kvm_async_pf_gfn_slot
  kvm_find_async_pf_gfn gfns gfn = gfns (kvm_async_pf_gfn_slot gfns gfn) == gfn

  -- `k` lies cyclically in `]i, j]`.
  abbrev pub lies_between : ℕ → ℕ → ℕ → Bool
  lies_between i k j = if leb i j then ltb i k && leb k j else ltb i k || leb k j

  -- The loops of `kvm_del_async_pf_gfn`, with a hole at `i` and the scan at `j`. `none`: out of fuel.
  unfoldable pub fill_hole : ℕ → Gfns → ℕ → ℕ → Option Gfns
  unfolding kvm_async_pf_next_probe kvm_async_pf_hash_fn
  fill_hole zero gfns i j = none
  fill_hole (suc fuel) gfns i j =
      let j' = kvm_async_pf_next_probe j in
      let further = fill_hole fuel gfns i j' in
      let moved = fill_hole fuel (update_at (update_at gfns i (gfns j')) j' empty) j' j' in
      if gfns j' == empty
      then some gfns
      else (if lies_between i (kvm_async_pf_hash_fn (gfns j')) j' then further else moved)

  -- A frame that is not in the table leaves it as it is, with a warning.
  unfoldable pub kvm_del_async_pf_gfn : Gfns → ℕ → Option Gfns
  unfolding kvm_async_pf_gfn_slot fill_hole
  kvm_del_async_pf_gfn gfns gfn =
      let i = kvm_async_pf_gfn_slot gfns gfn in
      if not (gfns i == gfn) then some gfns else fill_hole size (update_at gfns i empty) i i
