-- ===== src/AsyncPf/Tests.antt =====
-- A table of four slots, whose hash is the low bits.
use pve_anti_detection.Prelude.{ℕ, ◌%◌, ◌<◌, ◌≡◌, refl, sym, subst, arith, true, some, update_at}
use pve_anti_detection.AsyncPf.{
  empty, Gfns, kvm_async_pf_hash_reset, kvm_async_pf_hash_fn, kvm_async_pf_next_probe, free_slot,
  kvm_add_async_pf_gfn, slot_from, kvm_async_pf_gfn_slot, kvm_find_async_pf_gfn,
  kvm_del_async_pf_gfn,
}
use pve_anti_detection.AsyncPf.Lookup.{IsTable}
use pve_anti_detection.AsyncPf.Insert.{kvm_add_async_pf_gfn-find}
use pve_anti_detection.AsyncPf.Delete.{kvm_del_async_pf_gfn-find}

abbrev hash : ℕ → ℕ
hash x = x % 4

hash_low : (x : ℕ) → hash x < 4
hash_low x = omega arith

-- After a reset.
abbrev clear : Gfns
clear = kvm_async_pf_hash_reset 4 hash (λ i. 0)

reset_lem : (s : ℕ) → s < 4 → clear s ≡ empty
unfolding kvm_async_pf_hash_reset
reset_lem s ls = ground arith

clear-IsTable : IsTable 4 hash (omega arith) hash_low clear
unfolding kvm_async_pf_hash_reset
clear-IsTable = record {
  way = λ s p ls lp busy past. absurd (busy (reset_lem s ls));
  unique = λ s p ls lp busy same. absurd (busy (reset_lem s ls));
}

some_inj : {a b : Gfns} → some a ≡ some b → a ≡ b
some_inj e = cc

-- Two frames of one home.
abbrev one : Gfns
one = update_at clear 1 5

abbrev two : Gfns
two = update_at one 2 9

kvm_add_async_pf_gfn-find_example :
    (gfns' : Gfns) × (kvm_add_async_pf_gfn 4 hash clear 5 ≡ some gfns')
    × IsTable 4 hash (omega arith) hash_low gfns'
    × (kvm_find_async_pf_gfn 4 hash gfns' 5 ≡ true)
unfolding kvm_async_pf_hash_reset kvm_find_async_pf_gfn kvm_async_pf_gfn_slot slot_from
    kvm_async_pf_hash_fn kvm_async_pf_next_probe
kvm_add_async_pf_gfn-find_example =
    kvm_add_async_pf_gfn-find 4 hash (omega arith) hash_low clear 5 0 5 clear-IsTable (omega arith)
      refl (λ e. omega arith) refl (λ e. omega arith)

one-IsTable : IsTable 4 hash (omega arith) hash_low one
unfolding kvm_async_pf_hash_reset kvm_add_async_pf_gfn free_slot kvm_find_async_pf_gfn
    kvm_async_pf_gfn_slot slot_from kvm_async_pf_hash_fn kvm_async_pf_next_probe
one-IsTable =
    let (gfns', e, t, f) =
      kvm_add_async_pf_gfn-find 4 hash (omega arith) hash_low clear 5 0 5 clear-IsTable
        (omega arith) refl (λ e. omega arith) refl (λ e. omega arith) in
    subst (IsTable 4 hash (omega arith) hash_low) (some_inj (sym e)) t

two-IsTable : IsTable 4 hash (omega arith) hash_low two
unfolding kvm_async_pf_hash_reset kvm_add_async_pf_gfn free_slot kvm_find_async_pf_gfn
    kvm_async_pf_gfn_slot slot_from kvm_async_pf_hash_fn kvm_async_pf_next_probe
two-IsTable =
    let (gfns', e, t, f) =
      kvm_add_async_pf_gfn-find 4 hash (omega arith) hash_low one 9 0 5 one-IsTable (omega arith)
        refl (λ e. omega arith) refl (λ e. omega arith) in
    subst (IsTable 4 hash (omega arith) hash_low) (some_inj (sym e)) t

kvm_del_async_pf_gfn-find_example :
    (gfns' : Gfns) × (kvm_del_async_pf_gfn 4 hash two 5 ≡ some gfns')
    × IsTable 4 hash (omega arith) hash_low gfns'
    × (kvm_find_async_pf_gfn 4 hash gfns' 9 ≡ true)
unfolding kvm_async_pf_hash_reset kvm_find_async_pf_gfn kvm_async_pf_gfn_slot slot_from
    kvm_async_pf_hash_fn kvm_async_pf_next_probe
kvm_del_async_pf_gfn-find_example =
    kvm_del_async_pf_gfn-find 4 hash (omega arith) hash_low two 5 0 9 two-IsTable (omega arith) refl
      (λ e. omega arith) (λ e. omega arith)
