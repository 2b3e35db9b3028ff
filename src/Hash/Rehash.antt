-- ===== src/Hash/Rehash.antt =====
-- rehash finds a power of two and keeps every element.
use os_pintos.Common.{
  ℕ, zero, suc, ◌+◌, ◌-◌, ◌/◌, ◌≤◌, ◌<◌, ◌≡◌, refl, ap, List, [], ◌∷◌, Bool, true, false, arith,
  ◌==◌, ltb, length, replicate, length-replicate, length-append, if◌then◌else◌, inl, inr,
  Bool-cases, ◌&&◌, not,
}
use os_pintos.Hash.{
  Functions, Hash, bucket, turn_off_least_1bit, is_power_of_2, power_below, new_bucket_cnt,
  push_front, move_bucket, move_all, rehash,
}
use os_pintos.Hash.Sums.{
  count, all, count-append, count-replicate, length-replicate-all, bucket-replicate,
}
use os_pintos.Hash.Buckets.{
  bit_and_le, IsPlaced, IsSingle, IsTable, holds, IsPlaced-push_front, count-push_front,
  length-push_front,
}

smaller_lem : (n : ℕ) → 0 < n → turn_off_least_1bit n < n
smaller_lem n h = omega (arith, h, bit_and_le n (n - 1))

not_zero : (n : ℕ) → 0 < n → is_power_of_2 n ≡ false → 0 < turn_off_least_1bit n
not_zero n h e = nonzero (turn_off_least_1bit n) (n == 0) e (ground (arith, h))
  where
    nonzero : (t : ℕ) (b : Bool) → (not b && t == 0) ≡ false → b ≡ false → 0 < t
    nonzero t b e p = ground (arith, e, p)

-- The loop ends within its fuel, at a power of two.
pub power_below_lem : (fuel n : ℕ) → 0 < n → n ≤ fuel → is_power_of_2 (power_below fuel n) ≡ true
unfolding power_below
power_below_lem zero n h b = absurd (omega (arith, h, b))
power_below_lem (suc fuel) n h b = elim (Bool-cases (is_power_of_2 n)) [
  | inl y ↦ rw y y
  | inr x ↦ rw x (
      power_below_lem fuel (turn_off_least_1bit n) (not_zero n h x)
        (omega (arith, smaller_lem n h, b)))
]

positive_of_power : (n : ℕ) → is_power_of_2 n ≡ true → 0 < n
positive_of_power n e = both (n == 0) (turn_off_least_1bit n == 0) n e refl
  where
    both : (b c : Bool) (n : ℕ) → (not b && c) ≡ true → (n == 0) ≡ b → 0 < n
    both b c n e p = ground (arith, e, p)

pub new_bucket_cnt_lem : (n : ℕ) → is_power_of_2 (new_bucket_cnt n) ≡ true
unfolding new_bucket_cnt
new_bucket_cnt_lem n =
    let least = if ltb (n / 2) 4 then 4 else n / 2 in
    power_below_lem least least (at_least (n / 2)) (omega arith)
  where
    at_least : (k : ℕ) → 0 < (if ltb k 4 then 4 else k)
    at_least k = ground arith

-- What moving some elements into the buckets leaves.
record Moved (f : Functions) (cnt : ℕ) (l : List ℕ) (bs bs' : List (List ℕ)) : Type 0 where
  placed : IsPlaced f cnt bs'
  counts : (y : ℕ) → count y (all bs') ≡ count y l + count y (all bs)
  lengths : length (all bs') ≡ length l + length (all bs)

module _ (f : Functions) (cnt : ℕ) (z : 0 < cnt) where
  move_bucket_lem :
      (l : List ℕ) (bs : List (List ℕ))
      → IsPlaced f cnt bs
      → Moved f cnt l bs (move_bucket f cnt l bs)
  unfolding move_bucket count
  move_bucket_lem [] bs p = record { placed = p; counts = λ y. omega arith; lengths = omega arith }
  move_bucket_lem (e ∷ l) bs p =
      let m = move_bucket_lem l (push_front f cnt e bs) (IsPlaced-push_front f cnt e bs z p) in
      record {
        placed = m.placed;
        counts = λ y. omega (arith, m.counts y, count-push_front f cnt e y bs z p.width);
        lengths = omega (arith, m.lengths, length-push_front f cnt e bs z p.width);
      }

  move_all_lem :
      (old bs : List (List ℕ))
      → IsPlaced f cnt bs
      → Moved f cnt (all old) bs (move_all f cnt old bs)
  unfolding move_all all count
  move_all_lem [] bs p = record { placed = p; counts = λ y. omega arith; lengths = omega arith }
  move_all_lem (b ∷ old) bs p =
      let m = move_bucket_lem b bs p in
      let n = move_all_lem old (move_bucket f cnt b bs) m.placed in
      record {
        placed = n.placed;
        counts = λ y. omega (arith, n.counts y, m.counts y, count-append y b (all old));
        lengths = omega (arith, n.lengths, m.lengths, length-append b (all old));
      }

  IsPlaced-empty : IsPlaced f cnt (replicate cnt [])
  unfolding count
  IsPlaced-empty = record {
    width = length-replicate cnt [];
    placed = λ i y h.
        let e : count y (bucket (replicate cnt []) i) ≡ 0 = ap (count y) (bucket-replicate cnt i) in
        absurd (omega (arith, h, e));
  }

-- The elements are the same, each as often.
pub IsSingle-same :
    (f : Functions) (bs bs' : List (List ℕ))
    → ((y : ℕ) → count y (all bs') ≡ count y (all bs))
    → IsSingle f bs
    → IsSingle f bs'
IsSingle-same f bs bs' e s = record {
  once = λ x. omega (arith, e x, s.once x);
  alone = λ x y p q. s.alone x y (omega (arith, e x, p)) (omega (arith, e y, q));
}

module _ (f : Functions) where
  grown :
      (h : Hash) (n : ℕ)
      → 0 < n
      → IsTable f h
      → IsTable f (record h { bucket_cnt = n; buckets = move_all f n h.buckets (replicate n []) })
        × ((y : ℕ) → count y (all (move_all f n h.buckets (replicate n []))) ≡ holds h y)
  grown h n z t =
      let m = move_all_lem f n z h.buckets (replicate n []) (IsPlaced-empty f n z) in
      let same : (y : ℕ) → count y (all (move_all f n h.buckets (replicate n []))) ≡ holds h y =
        λ y. omega (arith, m.counts y, count-replicate y n) in
      (
        record {
          some_buckets = z;
          in_place = m.placed;
          size = omega (arith, t.size, m.lengths, length-replicate-all n);
          single = IsSingle-same f h.buckets _ same t.single;
        },
        same,
      )

  -- rehash keeps a table with the same elements, each as often.
  pub rehash_lem :
      (room : Bool) (h : Hash)
      → IsTable f h
      → IsTable f (rehash f room h) × ((y : ℕ) → holds (rehash f room h) y ≡ holds h y)
  unfolding rehash
  rehash_lem room h t = elim (Bool-cases (new_bucket_cnt h.elem_cnt == h.bucket_cnt)) [
    | inl e ↦ rw e (t, λ y. refl)
    | inr e ↦ elim (Bool-cases room) [
      | inr none_left ↦ rw (e, none_left) (t, λ y. refl)
      | inl given ↦
          let n = new_bucket_cnt h.elem_cnt in
          rw (e, given) (grown h n (positive_of_power n (new_bucket_cnt_lem h.elem_cnt)) t)
    ]
  ]
