-- ===== src/Hash/Tests.antt =====
-- The theorems on hash tables at one of two elements, pointers that hash to themselves.
use os_pintos.Common.{ℕ, zero, suc, ◌+◌, ◌<◌, ◌≡◌, refl, [], ◌∷◌, true, Option, arith, ltb}
use os_pintos.Hash.{
  Functions, Hash, bucket, equal, bucket_idx, hash_insert, hash_delete, hash_replace,
}
use os_pintos.Hash.Sums.{one, count, all}
use os_pintos.Hash.Buckets.{IsHashing, IsTable, holds}
use os_pintos.Hash.Refine.{
  Inserted, Deleted, Replaced, hash_insert_lem, hash_delete_lem, hash_replace_lem,
}

abbrev by_address : Functions
by_address = record { hash = λ e. e; less = ltb }

eq_of_equal : (a b : ℕ) → equal by_address a b ≡ true → a ≡ b
eq_of_equal a b e = ground (arith, e)

by_address-IsHashing : IsHashing by_address
by_address-IsHashing = record {
  irreflexive = λ a. ground arith;
  transitive = λ a b c p q. ground (arith, p, q);
  respects = λ a b e. eq_of_equal a b e;
}

abbrev two : Hash
two = record { elem_cnt = 2; bucket_cnt = 4; buckets = (8 ∷ []) ∷ (5 ∷ []) ∷ [] ∷ [] ∷ [] }

holds-two : (y : ℕ) → holds two y ≡ one 8 y + one 5 y
unfolding count all
holds-two y = omega arith

in_place : (i y : ℕ) → 0 < count y (bucket two.buckets i) → bucket_idx by_address 4 y ≡ i
unfolding count
in_place zero y h = let e : y ≡ 8 = ground (arith, h) in rw e refl
in_place (suc zero) y h = let e : y ≡ 5 = ground (arith, h) in rw e refl
in_place (suc (suc zero)) y h = absurd (omega (arith, h))
in_place (suc (suc (suc zero))) y h = absurd (omega (arith, h))
in_place (suc (suc (suc (suc i)))) y h = absurd (omega (arith, h))

two-IsTable : IsTable by_address two
unfolding all
two-IsTable = record {
  some_buckets = omega arith;
  in_place = record { width = refl; placed = in_place };
  size = refl;
  single = record {
    once = λ x. ground (arith, holds-two x);
    alone = λ x y p q e. eq_of_equal x y e;
  };
}

hash_insert_lem_example :
    (h' : Hash) × (r : Option ℕ) × (hash_insert by_address true two 9 ≡ (h', r))
    × IsTable by_address h'
    × Inserted by_address two 9 h' r
hash_insert_lem_example = hash_insert_lem by_address by_address-IsHashing true two 9 two-IsTable

hash_delete_lem_example :
    (h' : Hash) × (r : Option ℕ) × (hash_delete by_address true two 5 ≡ (h', r))
    × IsTable by_address h'
    × Deleted by_address two 5 h' r
hash_delete_lem_example = hash_delete_lem by_address by_address-IsHashing true two 5 two-IsTable

hash_replace_lem_example :
    (h' : Hash) × (r : Option ℕ) × (hash_replace by_address true two 8 ≡ (h', r))
    × IsTable by_address h'
    × Replaced by_address two 8 h' r
hash_replace_lem_example = hash_replace_lem by_address by_address-IsHashing true two 8 two-IsTable
