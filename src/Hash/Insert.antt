-- ===== src/Hash/Insert.antt =====
-- An element that is new to a table.
use os_pintos.Common.{
  ℕ, ◌+◌, ◌<◌, ◌≡◌, refl, sym, ◌∙◌, ap, Bool, true, false, arith, ◌==◌, inl, inr, Bool-cases, ◌&&◌,
  not,
}
use os_pintos.Hash.{Functions, Hash, equal, find_bucket, insert_elem}
use os_pintos.Hash.Sums.{one}
use os_pintos.Hash.Buckets.{
  IsHashing, IsTable, holds, IsPlaced-push_front, count-push_front, length-push_front,
}

equal_self : (f : Functions) (a : ℕ) → IsHashing f → equal f a a ≡ true
equal_self f a law = let e = law.irreflexive a in rw e refl

pub equal_comm : (f : Functions) (a b : ℕ) → equal f a b ≡ true → equal f b a ≡ true
equal_comm f a b e = swap (f.less a b) (f.less b a) e
  where
    swap : (p q : Bool) → (not p && not q) ≡ true → (not q && not p) ≡ true
    swap p q e = ground (arith, e)

pub clash : (b : Bool) → b ≡ true → b ≡ false → ⊥
clash b p q = ground (arith, p, q)

pub eq_of : (a b : ℕ) → a == b ≡ true → a ≡ b
eq_of a b e = ground (arith, e)

module _ (f : Functions) (law : IsHashing f) where
  absent :
      (h : Hash) (e : ℕ)
      → IsTable f h
      → ((x : ℕ) → 0 < holds h x → equal f x e ≡ false)
      → holds h e ≡ 0
  absent h e t new = elim (Bool-cases (holds h e == 0)) [
    | inl z ↦ ground (arith, z)
    | inr n ↦ absurd (clash (equal f e e) (equal_self f e law) (new e (ground (arith, n))))
  ]

  pair :
      (h : Hash) (e : ℕ)
      → IsTable f h
      → ((x : ℕ) → 0 < holds h x → equal f x e ≡ false)
      → {m : ℕ → ℕ} → ((y : ℕ) → m y ≡ one e y + holds h y)
      → (x y : ℕ) → 0 < m x
      → 0 < m y
      → equal f x y ≡ true
      → x ≡ y
  pair h e t new counts x y a b q = elim (Bool-cases (e == x)) [
    | inl s ↦ elim (Bool-cases (e == y)) [
      | inl r ↦ sym (eq_of e x s) ∙ eq_of e y r
      | inr n ↦
          let z = new y (ground (arith, counts y, b, n)) in
          let w = equal_comm f x y q ∙ refl in
          absurd (clash (equal f y e) (ap (λ k. equal f y k) (eq_of e x s) ∙ w) z)
    ]
    | inr n ↦ elim (Bool-cases (e == y)) [
      | inl r ↦
          let z = new x (ground (arith, counts x, a, n)) in
          absurd (clash (equal f x e) (ap (λ k. equal f x k) (eq_of e y r) ∙ q) z)
      | inr o ↦
          t.single.alone x y (ground (arith, counts x, a, n)) (ground (arith, counts y, b, o)) q
    ]
  ]

  -- The element is new to the table.
  pub insert_elem_lem :
      (h : Hash) (e : ℕ)
      → IsTable f h
      → ((x : ℕ) → 0 < holds h x → equal f x e ≡ false)
      → IsTable f (insert_elem f h (find_bucket f h e) e)
        × ((y : ℕ) → holds (insert_elem f h (find_bucket f h e) e) y ≡ one e y + holds h y)
  unfolding insert_elem
  insert_elem_lem h e t new =
      let p = t.in_place in
      let counts : (y : ℕ) → holds (insert_elem f h (find_bucket f h e) e) y ≡ one e y + holds h y =
        λ y. count-push_front f h.bucket_cnt e y h.buckets t.some_buckets p.width in
      (
        record {
          some_buckets = t.some_buckets;
          in_place = IsPlaced-push_front f h.bucket_cnt e h.buckets t.some_buckets p;
          size =
              omega (
                arith,
                t.size,
                length-push_front f h.bucket_cnt e h.buckets t.some_buckets p.width,
              );
          single = record {
            once = λ x. elim (Bool-cases (e == x)) [
              | inl s ↦
                  let z : holds h x ≡ 0 = ap (holds h) (sym (eq_of e x s)) ∙ absent h e t new in
                  ground (arith, counts x, z, s)
              | inr n ↦ ground (arith, counts x, n, t.single.once x)
            ];
            alone = λ x y a b q. pair h e t new counts x y a b q;
          };
        },
        counts,
      )
