-- ===== src/Hash/Refine.antt =====
-- The operations of a hash table on the elements that it holds.
use os_pintos.Common.{
  ℕ, ◌+◌, ◌≤◌, ◌<◌, ◌≡◌, refl, sym, ◌∙◌, ap, Bool, true, false, Option, none, some, arith, inl, inr,
  Bool-cases,
}
use os_pintos.Hash.{
  Functions, Hash, equal, find_bucket, insert_elem, remove_elem, rehash, hash_find, hash_insert,
  hash_replace, hash_delete,
}
use os_pintos.Hash.Sums.{one}
use os_pintos.Hash.Buckets.{IsHashing, IsTable, holds, idx_lt, Found, hit, miss, find_lem}
use os_pintos.Hash.Insert.{equal_comm, insert_elem_lem}
use os_pintos.Hash.Rehash.{rehash_lem}
use os_pintos.Hash.Remove.{in_place, remove_elem_lem}

-- What hash_insert does: the element is new, or one that is equal to it stays.
pub data Inserted (f : Functions) (h : Hash) (e : ℕ) (h' : Hash) : Option ℕ → Type 0 where
  fresh :
      ((x : ℕ) → 0 < holds h x → equal f x e ≡ false)
      → ((y : ℕ) → holds h' y ≡ one e y + holds h y)
      → Inserted f h e h' none
  present :
      {x : ℕ}
      → 0 < holds h x
      → equal f x e ≡ true
      → ((y : ℕ) → holds h' y ≡ holds h y)
      → Inserted f h e h' (some x)

-- What hash_replace does: an equal element makes way.
pub data Replaced (f : Functions) (h : Hash) (e : ℕ) (h' : Hash) : Option ℕ → Type 0 where
  added :
      ((x : ℕ) → 0 < holds h x → equal f x e ≡ false)
      → ((y : ℕ) → holds h' y ≡ one e y + holds h y)
      → Replaced f h e h' none
  swapped :
      {x : ℕ}
      → 0 < holds h x
      → equal f x e ≡ true
      → ((y : ℕ) → holds h' y + one x y ≡ one e y + holds h y)
      → Replaced f h e h' (some x)

-- What hash_delete does.
pub data Deleted (f : Functions) (h : Hash) (e : ℕ) (h' : Hash) : Option ℕ → Type 0 where
  absent : ((x : ℕ) → 0 < holds h x → equal f x e ≡ false) → h' ≡ h → Deleted f h e h' none
  removed :
      {x : ℕ}
      → 0 < holds h x
      → equal f x e ≡ true
      → ((y : ℕ) → holds h' y + one x y ≡ holds h y)
      → Deleted f h e h' (some x)

module _ (f : Functions) (law : IsHashing f) (room : Bool) where
  -- hash_insert into a table, whose functions are a comparison and a hash that agree, keeps it one:
  -- without an equal element it adds the new one, and otherwise it returns the equal one and keeps
  -- the elements; whether the buckets are rehashed, and whether there is room for that, has no part
  -- in it.
  pub hash_insert_lem :
      (h : Hash) (e : ℕ)
      → IsTable f h
      → (h' : Hash) × (r : Option ℕ) × (hash_insert f room h e ≡ (h', r))
        × IsTable f h'
        × Inserted f h e h' r
  unfolding hash_insert
  hash_insert_lem h e t = insert (hash_find f h e) refl (find_lem f e h law t)
    where
      insert :
          (r : Option ℕ)
          → hash_find f h e ≡ r
          → Found f (holds h) e r
          → (h' : Hash) × (r : Option ℕ) × (hash_insert f room h e ≡ (h', r))
            × IsTable f h'
            × Inserted f h e h' r
      insert (some x) q (hit p y) =
          let (u, same) = rehash_lem f room h t in
          (rehash f room h, some x, rw (q, hash_insert) refl, u, present p y same)
      insert none q (miss a) =
          let (u, more) = insert_elem_lem f law h e t a in
          let h1 = insert_elem f h (find_bucket f h e) e in
          let (v, same) = rehash_lem f room h1 u in
          (rehash f room h1, none, rw (q, hash_insert) refl, v, fresh a (λ y. same y ∙ more y))

  -- hash_delete from such a table takes the element that is equal to the one given, and no other,
  -- out of it, or changes nothing where there is none.
  pub hash_delete_lem :
      (h : Hash) (e : ℕ)
      → IsTable f h
      → (h' : Hash) × (r : Option ℕ) × (hash_delete f room h e ≡ (h', r))
        × IsTable f h'
        × Deleted f h e h' r
  unfolding hash_delete
  hash_delete_lem h e t = delete (hash_find f h e) refl (find_lem f e h law t)
    where
      delete :
          (r : Option ℕ)
          → hash_find f h e ≡ r
          → Found f (holds h) e r
          → (h' : Hash) × (r : Option ℕ) × (hash_delete f room h e ≡ (h', r))
            × IsTable f h'
            × Deleted f h e h' r
      delete none q (miss a) = (h, none, rw (q, hash_delete) refl, t, absent a refl)
      delete (some x) q (hit p y) =
          let i = find_bucket f h e in
          let (u, less) =
            remove_elem_lem f law h i x t (idx_lt f h.bucket_cnt e t.some_buckets)
              (in_place f law h e x t p y) in
          let (v, same) = rehash_lem f room (remove_elem f h i x) u in
          (
            rehash f room (remove_elem f h i x),
            some x,
            rw (q, hash_delete) refl,
            v,
            removed p y (λ y. ap (λ n. n + one x y) (same y) ∙ less y),
          )

  -- hash_replace in such a table puts the new element in the push_front of an equal one, if there is
  -- one, and keeps all others.
  pub hash_replace_lem :
      (h : Hash) (e : ℕ)
      → IsTable f h
      → (h' : Hash) × (r : Option ℕ) × (hash_replace f room h e ≡ (h', r))
        × IsTable f h'
        × Replaced f h e h' r
  unfolding hash_replace remove_elem
  hash_replace_lem h e t = replace (hash_find f h e) refl (find_lem f e h law t)
    where
      i : ℕ
      i = find_bucket f h e

      -- With the equal element gone, no element is equal.
      gone :
          (x : ℕ)
          → 0 < holds h x
          → equal f x e ≡ true
          → ((y : ℕ) → holds (remove_elem f h i x) y + one x y ≡ holds h y)
          → (z : ℕ) → 0 < holds (remove_elem f h i x) z
          → equal f z e ≡ false
      gone x p y less z q = elim (Bool-cases (equal f z e)) [
        | inr n ↦ n
        | inl w ↦
            let same =
              t.single.alone z x (omega (arith, less z, q)) p
                (law.transitive z e x w (equal_comm f x e y)) in
            absurd (twice x z (sym same) (t.single.once z) (less z) q)
      ]
        where
          twice : (x z : ℕ) {m n : ℕ} → x ≡ z → n ≤ 1 → m + one x z ≡ n → 0 < m → ⊥
          twice x z e a b c = ground (arith, e, a, b, c)

      replace :
          (r : Option ℕ)
          → hash_find f h e ≡ r
          → Found f (holds h) e r
          → (h' : Hash) × (r : Option ℕ) × (hash_replace f room h e ≡ (h', r))
            × IsTable f h'
            × Replaced f h e h' r
      replace none q (miss a) =
          let (u, more) = insert_elem_lem f law h e t a in
          let h1 = insert_elem f h i e in
          let (v, same) = rehash_lem f room h1 u in
          (rehash f room h1, none, rw (q, hash_replace) refl, v, added a (λ y. same y ∙ more y))
      replace (some x) q (hit p y) =
          let (u, less) =
            remove_elem_lem f law h i x t (idx_lt f h.bucket_cnt e t.some_buckets)
              (in_place f law h e x t p y) in
          let h1 = remove_elem f h i x in
          let (w, more) = insert_elem_lem f law h1 e u (gone x p y less) in
          let h2 = insert_elem f h1 i e in
          let (v, same) = rehash_lem f room h2 w in
          (
            rehash f room h2,
            some x,
            rw (q, hash_replace) refl,
            v,
            swapped p y (λ y. omega (arith, same y, more y, less y)),
          )
