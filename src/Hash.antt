-- ===== src/Hash.antt =====
-- Hash tables, lib/kernel/hash.c of project5: chains of elements in an array of buckets. An element
-- is its pointer; a bucket is the sequence of its list. The two functions of a table are a record.
-- Whether malloc finds room for new buckets is a parameter.
pub mod Sums
pub mod Buckets
pub mod Rehash
pub mod Insert
pub mod Remove
pub mod Refine
mod Tests
use Prim.Native.Nat.{bit_and, bit_xor}
use os_pintos.Common.{
  ℕ, zero, suc, ◌+◌, ◌-◌, ◌*◌, ◌/◌, ◌%◌, ◌^◌, List, [], ◌∷◌, ◌++◌, Bool, true, false, not, ◌&&◌,
  Option, none, some, ◌==◌, ltb, set, get_or, replicate, if◌then◌else◌,
}
use os_pintos.Sched.{list_remove}

-- The functions that a table calls.
pub record Functions : Type 0 where
  pub hash : ℕ → ℕ
  pub less : ℕ → ℕ → Bool

-- `struct hash`, without its functions.
pub record Hash : Type 0 where
  pub elem_cnt : ℕ
  pub bucket_cnt : ℕ
  pub buckets : List (List ℕ)

abbrev pub bucket : List (List ℕ) → ℕ → List ℕ
bucket bs i = get_or bs i []

-- MIN and BEST of the bucket counts: at least 4 buckets, one for every 2 elements.
abbrev pub best_elems_per_bucket : ℕ
best_elems_per_bucket = 2

abbrev pub turn_off_least_1bit : ℕ → ℕ
turn_off_least_1bit x = bit_and x (x - 1)

abbrev pub is_power_of_2 : ℕ → Bool
is_power_of_2 x = not (x == 0) && turn_off_least_1bit x == 0

-- The loop of rehash that finds the number of buckets; each round makes the number smaller, so that
-- it is fuel enough for itself.
unfoldable pub power_below : ℕ → ℕ → ℕ
power_below zero n = n
power_below (suc fuel) n =
    let rest = power_below fuel (turn_off_least_1bit n) in if is_power_of_2 n then n else rest

unfoldable pub new_bucket_cnt : ℕ → ℕ
unfolding power_below
new_bucket_cnt elem_cnt =
    let n = elem_cnt / best_elems_per_bucket in
    let least = if ltb n 4 then 4 else n in power_below least least

module _ (f : Functions) where
  -- The test of find_elem.
  abbrev pub equal : ℕ → ℕ → Bool
  equal a b = not (f.less a b) && not (f.less b a)

  abbrev pub bucket_idx : ℕ → ℕ → ℕ
  bucket_idx cnt e = bit_and (f.hash e) (cnt - 1)

  abbrev pub find_bucket : Hash → ℕ → ℕ
  find_bucket h e = bucket_idx h.bucket_cnt e

  unfoldable pub find_elem : List ℕ → ℕ → Option ℕ
  find_elem [] e = none
  find_elem (x ∷ l) e = if equal x e then some x else find_elem l e

  -- list_push_front into the bucket of an element.
  abbrev pub push_front : ℕ → ℕ → List (List ℕ) → List (List ℕ)
  push_front cnt e bs = set bs (bucket_idx cnt e) (e ∷ bucket bs (bucket_idx cnt e))

  unfoldable pub insert_elem : Hash → ℕ → ℕ → Hash
  insert_elem h i e = record h {
    elem_cnt = h.elem_cnt + 1;
    buckets = set h.buckets i (e ∷ bucket h.buckets i);
  }

  -- The element is in the bucket `i`, from which list_remove takes it.
  unfoldable pub remove_elem : Hash → ℕ → ℕ → Hash
  unfolding list_remove
  remove_elem h i e = record h {
    elem_cnt = h.elem_cnt - 1;
    buckets = set h.buckets i (list_remove e (bucket h.buckets i));
  }

  -- The loops of rehash that move the elements of a bucket, and of all buckets.
  unfoldable pub move_bucket : ℕ → List ℕ → List (List ℕ) → List (List ℕ)
  move_bucket cnt [] bs = bs
  move_bucket cnt (e ∷ l) bs = move_bucket cnt l (push_front cnt e bs)

  unfoldable pub move_all : ℕ → List (List ℕ) → List (List ℕ) → List (List ℕ)
  unfolding move_bucket
  move_all cnt [] bs = bs
  move_all cnt (b ∷ old) bs = move_all cnt old (move_bucket cnt b bs)

  unfoldable pub rehash : Bool → Hash → Hash
  unfolding new_bucket_cnt move_all
  rehash room h =
      let n = new_bucket_cnt h.elem_cnt in
      if n == h.bucket_cnt
      then h
      else if room
      then record h { bucket_cnt = n; buckets = move_all n h.buckets (replicate n []) }
      else h

  unfoldable pub hash_find : Hash → ℕ → Option ℕ
  unfolding find_elem
  hash_find h e = find_elem (bucket h.buckets (find_bucket h e)) e

  unfoldable pub hash_insert : Bool → Hash → ℕ → Hash × Option ℕ
  unfolding hash_find insert_elem rehash
  hash_insert room h e =
      let old = hash_find h e in
      elim old [
        | none ↦ (rehash room (insert_elem h (find_bucket h e) e), none)
        | some x ↦ (rehash room h, some x)
      ]

  unfoldable pub hash_replace : Bool → Hash → ℕ → Hash × Option ℕ
  unfolding hash_find insert_elem remove_elem rehash
  hash_replace room h e =
      let i = find_bucket h e in
      elim (hash_find h e) [
        | none ↦ (rehash room (insert_elem h i e), none)
        | some x ↦ (rehash room (insert_elem (remove_elem h i x) i e), some x)
      ]

  unfoldable pub hash_delete : Bool → Hash → ℕ → Hash × Option ℕ
  unfolding hash_find remove_elem rehash
  hash_delete room h e = elim (hash_find h e) [
    | none ↦ (h, none)
    | some x ↦ (rehash room (remove_elem h (find_bucket h e) x), some x)
  ]

-- hash_init and hash_clear without a destructor; none is a failed malloc.
abbrev pub hash_clear : Hash → Hash
hash_clear h = record h { elem_cnt = 0; buckets = replicate h.bucket_cnt [] }

abbrev pub hash_init : Bool → Option Hash
hash_init room =
    if room then some (hash_clear (record { elem_cnt = 0; bucket_cnt = 4; buckets = [] })) else none

-- The 32-bit hash of some bytes, by FNV_32_PRIME and FNV_32_BASIS.
unfoldable pub hash_from : List ℕ → ℕ → ℕ
hash_from [] h = h
hash_from (b ∷ l) h = hash_from l (bit_xor (h * 16_777_619 % 2 ^ 32) b)

abbrev pub hash_bytes : List ℕ → ℕ
hash_bytes l = hash_from l 2_166_136_261
