-- ===== src/Hash/Buckets.antt =====
-- The invariant of a hash table, and what the changes of one bucket do to it.
use Prim.Native.Nat.{min, bit_and, digits, bit_and-bitwise}
use mathlib.Core.Path.{subst}
use os_pintos.Common.{
  ℕ, zero, suc, ◌+◌, ◌-◌, ◌/◌, ◌≤◌, ◌<◌, ◌≡◌, refl, sym, ◌∙◌, ap, List, [], ◌∷◌, true, false,
  Option, none, some, arith, ◌==◌, length, set, inl, inr, Bool-cases, length-set,
}
use os_pintos.Hash.{Functions, Hash, bucket, equal, bucket_idx, find_elem, push_front, hash_find}
use os_pintos.Hash.Sums.{
  one, count, all, count-set, length-set-all, bucket-set, count-bucket_le, in_bucket,
}

digits_le : (n a b : ℕ) → digits (λ y. 0) min n a b ≤ b
digits_le zero a b = omega arith
digits_le (suc n) zero b = omega arith
digits_le (suc n) (suc a) b = omega (arith, digits_le n (suc a / 2) (b / 2))

pub bit_and_le : (a b : ℕ) → bit_and a b ≤ b
bit_and_le a b = rw (bit_and-bitwise a b) (digits_le a a b)

eq_of : (a b : ℕ) → a == b ≡ true → a ≡ b
eq_of a b e = ground (arith, e)

-- What a table asks of its functions: a comparison, and the same hash for equal elements.
pub record IsHashing (f : Functions) : Type 0 where
  pub irreflexive : (a : ℕ) → f.less a a ≡ false
  pub transitive : (a b c : ℕ) → equal f a b ≡ true → equal f b c ≡ true → equal f a c ≡ true
  pub respects : (a b : ℕ) → equal f a b ≡ true → f.hash a ≡ f.hash b

-- The buckets of `cnt`: every element is in the bucket of its hash.
pub record IsPlaced (f : Functions) (cnt : ℕ) (bs : List (List ℕ)) : Type 0 where
  pub width : length bs ≡ cnt
  pub placed : (i y : ℕ) → 0 < count y (bucket bs i) → bucket_idx f cnt y ≡ i

-- The elements are different, and no two of them are equal.
pub record IsSingle (f : Functions) (bs : List (List ℕ)) : Type 0 where
  pub once : (x : ℕ) → count x (all bs) ≤ 1
  pub alone : (x y : ℕ) → 0 < count x (all bs) → 0 < count y (all bs) → equal f x y ≡ true → x ≡ y

pub record IsTable (f : Functions) (h : Hash) : Type 0 where
  pub some_buckets : 0 < h.bucket_cnt
  pub in_place : IsPlaced f h.bucket_cnt h.buckets
  pub size : h.elem_cnt ≡ length (all h.buckets)
  pub single : IsSingle f h.buckets

-- The elements of a table, with how often each stands in it.
abbrev pub holds : Hash → ℕ → ℕ
holds h x = count x (all h.buckets)

module _ (f : Functions) where
  pub idx_lt : (cnt e : ℕ) → 0 < cnt → bucket_idx f cnt e < cnt
  idx_lt cnt e h = omega (arith, h, bit_and_le (f.hash e) (cnt - 1))

  pub IsPlaced-push_front :
      (cnt e : ℕ) (bs : List (List ℕ))
      → 0 < cnt
      → IsPlaced f cnt bs
      → IsPlaced f cnt (push_front f cnt e bs)
  unfolding count
  IsPlaced-push_front cnt e bs z p = record {
    width = length-set bs i l ∙ p.width;
    placed = λ j y q. elim (Bool-cases (i == j)) [
      | inr n ↦
          let e : bucket (set bs i l) j ≡ bucket bs j = bucket-set bs i j l h ∙ rw n refl in
          p.placed j y (subst (λ b. 0 < count y b) e q)
      | inl s ↦
          let k : i ≡ j = ground (arith, s) in
          let r : bucket (set bs i l) j ≡ l = bucket-set bs i j l h ∙ rw s refl in
          let q2 : 0 < count y l = subst (λ b. 0 < count y b) r q in
          elim (Bool-cases (e == y)) [
            | inl same ↦ ap (bucket_idx f cnt) (sym (eq_of e y same)) ∙ k
            | inr other ↦
                let old : 0 < count y (bucket bs i) = ground (arith, q2, other) in
                p.placed i y old ∙ k
          ]
    ];
  }
    where
      i : ℕ
      i = bucket_idx f cnt e

      l : List ℕ
      l = e ∷ bucket bs i

      h : i < length bs
      h = omega (arith, idx_lt cnt e z, p.width)

  pub count-push_front :
      (cnt e y : ℕ) (bs : List (List ℕ))
      → 0 < cnt
      → length bs ≡ cnt
      → count y (all (push_front f cnt e bs)) ≡ one e y + count y (all bs)
  unfolding count
  count-push_front cnt e y bs z w =
      let i = bucket_idx f cnt e in
      omega (arith, count-set y bs i (e ∷ bucket bs i) (omega (arith, idx_lt cnt e z, w)))

  pub length-push_front :
      (cnt e : ℕ) (bs : List (List ℕ))
      → 0 < cnt
      → length bs ≡ cnt
      → length (all (push_front f cnt e bs)) ≡ suc (length (all bs))
  length-push_front cnt e bs z w =
      let i = bucket_idx f cnt e in
      omega (arith, length-set-all bs i (e ∷ bucket bs i) (omega (arith, idx_lt cnt e z, w)))

-- What a search finds among some elements.
pub data Found (f : Functions) (m : ℕ → ℕ) (e : ℕ) : Option ℕ → Type 0 where
  hit : {x : ℕ} → 0 < m x → equal f x e ≡ true → Found f m e (some x)
  miss : ((x : ℕ) → 0 < m x → equal f x e ≡ false) → Found f m e none

module _ (f : Functions) (e : ℕ) where
  find_elem_lem : (l : List ℕ) → Found f (λ x. count x l) e (find_elem f l e)
  unfolding find_elem count
  find_elem_lem [] = miss (λ x h. absurd (omega (arith, h)))
  find_elem_lem (x ∷ l) = elim (Bool-cases (equal f x e)) [
    | inl y ↦ rw y (hit (ground arith) y)
    | inr n ↦ rw n (behind (find_elem f l e) n (find_elem_lem l))
  ]
    where
      behind :
          (r : Option ℕ)
          → equal f x e ≡ false
          → Found f (λ x. count x l) e r
          → Found f (λ y. count y (x ∷ l)) e r
      behind _ n (hit p q) = hit (omega (arith, p)) q
      behind _ n (miss a) = miss (λ y h. elim (Bool-cases (x == y)) [
        | inl s ↦ ap (λ k. equal f k e) (sym (eq_of x y s)) ∙ n
        | inr o ↦ a y (ground (arith, h, o))
      ])

  -- hash_find returns an element of the table that is equal to the one that is searched for, or that
  -- there is none.
  pub find_lem : (h : Hash) → IsHashing f → IsTable f h → Found f (holds h) e (hash_find f h e)
  unfolding hash_find
  find_lem h law t = widen (find_elem f b e) (find_elem_lem b)
    where
      i : ℕ
      i = bucket_idx f h.bucket_cnt e

      b : List ℕ
      b = bucket h.buckets i

      widen : (r : Option ℕ) → Found f (λ x. count x b) e r → Found f (holds h) e r
      widen _ (hit {x} p q) = hit (omega (arith, p, count-bucket_le x h.buckets i)) q
      widen _ (miss a) = miss (λ x p. elim (Bool-cases (equal f x e)) [
        | inr n ↦ n
        | inl y ↦
            let (j, q) = in_bucket x h.buckets p in
            let at : j ≡ i =
              sym (t.in_place.placed j x q)
              ∙ ap (λ k. bit_and k (h.bucket_cnt - 1)) (law.respects x e y) in
            a x (subst (λ k. 0 < count x (bucket h.buckets k)) at q)
      ])
