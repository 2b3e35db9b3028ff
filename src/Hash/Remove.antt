-- ===== src/Hash/Remove.antt =====
-- An element that is taken out of a table.
use mathlib.Core.Path.{subst}
use os_pintos.Common.{
  ℕ, ◌+◌, ◌-◌, ◌<◌, ◌≡◌, refl, sym, ◌∙◌, ap, List, true, arith, ◌==◌, length, length-set, set, inl,
  inr, Bool-cases,
}
use Prim.Native.Nat.{bit_and}
use os_pintos.Sched.{list_remove}
use os_pintos.Hash.{Functions, Hash, bucket, equal, find_bucket, remove_elem}
use os_pintos.Hash.Sums.{
  one, count, all, count-set, length-set-all, bucket-set, in_bucket, count-list_remove,
  length-list_remove,
}
use os_pintos.Hash.Buckets.{IsHashing, IsTable, holds}
use os_pintos.Hash.Insert.{eq_of}

module _ (f : Functions) (law : IsHashing f) where
  -- An element that is found is in the bucket that was searched.
  pub in_place :
      (h : Hash) (e x : ℕ)
      → IsTable f h
      → 0 < holds h x
      → equal f x e ≡ true
      → 0 < count x (bucket h.buckets (find_bucket f h e))
  in_place h e x t p q =
      let (j, r) = in_bucket x h.buckets p in
      let at : j ≡ find_bucket f h e =
        sym (t.in_place.placed j x r)
        ∙ ap (λ k. bit_and k (h.bucket_cnt - 1)) (law.respects x e q) in
      subst (λ k. 0 < count x (bucket h.buckets k)) at r

  pub remove_elem_lem :
      (h : Hash) (i x : ℕ)
      → IsTable f h
      → i < h.bucket_cnt
      → 0 < count x (bucket h.buckets i)
      → IsTable f (remove_elem f h i x)
        × ((y : ℕ) → holds (remove_elem f h i x) y + one x y ≡ holds h y)
  unfolding remove_elem
  remove_elem_lem h i x t b p = (
    record {
      some_buckets = t.some_buckets;
      in_place = record {
        width = length-set h.buckets i l ∙ t.in_place.width;
        placed = λ j y q. elim (Bool-cases (i == j)) [
          | inr n ↦
              let e : bucket (set h.buckets i l) j ≡ bucket h.buckets j =
                bucket-set h.buckets i j l w ∙ rw n refl in
              t.in_place.placed j y (subst (λ b. 0 < count y b) e q)
          | inl s ↦
              let e : bucket (set h.buckets i l) j ≡ l = bucket-set h.buckets i j l w ∙ rw s refl in
              let q2 : 0 < count y l = subst (λ b. 0 < count y b) e q in
              t.in_place.placed i y
                (omega (arith, q2, count-list_remove x y (bucket h.buckets i) p))
              ∙ eq_of i j s
        ];
      };
      size = omega (
        arith,
        t.size,
        length-set-all h.buckets i l w,
        length-list_remove x (bucket h.buckets i) p,
      );
      single = record {
        once = λ y. omega (arith, t.single.once y, counts y);
        alone =
            λ y z c d. t.single.alone y z (omega (arith, counts y, c)) (omega (arith, counts z, d));
      };
    },
    counts,
  )
    where
      l : List ℕ
      l = list_remove x (bucket h.buckets i)

      w : i < length h.buckets
      w = omega (arith, b, t.in_place.width)

      counts : (y : ℕ) → count y (all (set h.buckets i l)) + one x y ≡ count y (all h.buckets)
      counts y =
          omega (arith, count-set y h.buckets i l w, count-list_remove x y (bucket h.buckets i) p)
