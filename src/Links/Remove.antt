-- ===== src/Links/Remove.antt =====
-- list_remove takes an element out.
use mathlib.Core.Path.{subst}
use os_pintos.Common.{
  ℕ, ◌≡◌, ◌≢◌, refl, sym, ◌∙◌, ap, List, [], ◌∷◌, ◌++◌, true, false, not, ◌&&◌, ok, Each, arith,
  ◌==◌,
}
use os_pintos.Links.{Memory, Ends, store, unlink, list_remove}
use os_pintos.Links.Chain.{
  Chain, Distinct, IsList, Each-left, Each-right, Each-map, last_in, first_in, Chain-same,
  Chain-split,
}
use os_pintos.Links.Places.{
  append_assoc, nodes_at, Distinct-right, Distinct-across, Each-delete, Distinct-delete, Place-of,
}
use os_pintos.Links.Insert.{store_eq, store_ne}

-- What the two stores leave, for an element that is not the one before itself.
module _ (m : Memory) (e : ℕ) (pe : m.prev e ≢ e) where
  unlink_prev : (t : ℕ) → (unlink m e e).prev t ≡ store m.prev (m.next e) (m.prev e) t
  unlink_prev t = ap (λ q. store m.prev q (m.prev e) t) (store_ne m.next (m.prev e) (m.next e) e pe)

  next_joined : (unlink m e e).next (m.prev e) ≡ m.next e
  next_joined = store_eq m.next (m.prev e) (m.next e)

  pub next_kept : (t : ℕ) → m.prev e ≢ t → (unlink m e e).next t ≡ m.next t
  next_kept t h = store_ne m.next (m.prev e) (m.next e) t h

  prev_joined : (unlink m e e).prev (m.next e) ≡ m.prev e
  prev_joined = unlink_prev (m.next e) ∙ store_eq m.prev (m.next e) (m.prev e)

  pub prev_kept : (t : ℕ) → m.next e ≢ t → (unlink m e e).prev t ≡ m.prev t
  prev_kept t h = unlink_prev t ∙ store_ne m.prev (m.next e) (m.prev e) t h

  kept_next :
      (l : List ℕ) → Each (λ t. m.prev e ≢ t) l → Each (λ t. (unlink m e e).next t ≡ m.next t) l
  kept_next l h = Each-map (λ t. m.prev e ≢ t) _ l next_kept h

  kept_prev :
      (l : List ℕ) → Each (λ t. m.next e ≢ t) l → Each (λ t. (unlink m e e).prev t ≡ m.prev t) l
  kept_prev l h = Each-map (λ t. m.next e ≢ t) _ l prev_kept h

  -- The chain behind the element, from the one before it on.
  Chain-close :
      (a : ℕ) (r : List ℕ) (z : ℕ)
      → m.prev e ≡ a
      → Chain m e r z
      → Each (λ t. m.prev e ≢ t) r
      → Distinct (r ++ (z ∷ []))
      → Chain (unlink m e e) a r z
  Chain-close a [] z p c ps d = (
    subst (λ t. (unlink m e e).next t ≡ z) p (next_joined ∙ c.0),
    subst (λ t. (unlink m e e).prev t ≡ a) c.0 (prev_joined ∙ p),
  )
  Chain-close a (y ∷ r) z p c ps d =
      let ys = subst (λ k. Each (λ t. k ≢ t) (r ++ (z ∷ []))) (sym c.0) d.0 in
      (
        subst (λ t. (unlink m e e).next t ≡ y) p (next_joined ∙ c.0),
        subst (λ t. (unlink m e e).prev t ≡ a) c.0 (prev_joined ∙ p),
        Chain-same m (unlink m e e) y r z (next_kept y ps.0) (kept_next r ps.1)
            (kept_prev r (Each-left (λ t. m.next e ≢ t) r (z ∷ []) ys))
            (prev_kept z (Each-right (λ t. m.next e ≢ t) r (z ∷ []) ys).0) c.2,
      )

  Chain-unlink :
      (a : ℕ) (l r : List ℕ) (z : ℕ)
      → Chain m a l e
      → Chain m e r z
      → Distinct (a ∷ l)
      → Each (λ t. m.prev e ≢ t) r
      → Each (λ t. m.next e ≢ t) l
      → Distinct (r ++ (z ∷ []))
      → Chain (unlink m e e) a (l ++ r) z
  Chain-unlink a [] r z c k d ps qs dr = Chain-close a r z c.1 k ps dr
  Chain-unlink a (x ∷ l) r z c k d ps qs dr =
      let away : m.prev e ≢ a = λ p.
        last_in m x l e (λ t. t ≢ a) c.2 (λ q. d.0.0 (sym q))
          (Each-map (λ y. a ≢ y) (λ y. y ≢ a) l (λ y n q. n (sym q)) d.0.1) p in
      (next_kept a away ∙ c.0, prev_kept x qs.0 ∙ c.1, Chain-unlink x l r z c.2 k d.1 ps qs.1 dr)

interior :
    (e p n : ℕ) → e ≢ 0 → p ≢ 0 → n ≢ 0 → (not (e == 0) && (not (p == 0) && not (n == 0))) ≡ true
interior e p n h k j =
    let a : e == 0 ≡ false = ground (arith, h) in
    let b : p == 0 ≡ false = ground (arith, k) in
    let c : n == 0 ≡ false = ground (arith, j) in rw (a, b, c) refl

remove_step :
    (m : Memory) (e : ℕ)
    → e ≢ 0
    → m.prev e ≢ 0
    → m.next e ≢ 0
    → m.prev e ≢ e
    → list_remove m e ≡ ok (unlink m e e, m.next e)
unfolding list_remove
remove_step m e h p n d =
    let a = interior e (m.prev e) (m.next e) h p n in
    rw a (ap (λ k. ok (unlink m e e, k)) (next_kept m e d e d))

-- list_remove of an element takes it out of its list, which keeps the others in their order, and
-- returns the element behind it.
pub list_remove_lem :
    (m : Memory) (ends : Ends) (l : List ℕ) (e : ℕ) (r : List ℕ)
    → IsList m ends (l ++ (e ∷ r))
    → (n : Memory) × (list_remove m e ≡ ok (n, m.next e)) × IsList n ends (l ++ r)
list_remove_lem m ends l e r h =
    let rest = r ++ (ends.tail ∷ []) in
    let left = ends.head ∷ l in
    let at = nodes_at ends l e r in
    let d = subst Distinct at h.distinct in
    let real = subst (Each (λ t. t ≢ 0)) at h.real in
    let (c1, c2) = Chain-split m ends.head l e r ends.tail h.chain in
    let p = Place-of m ends.head l e rest c1 d in
    let real_left = Each-left (λ t. t ≢ 0) left (e ∷ rest) real in
    let real_right = Each-right (λ t. t ≢ 0) left (e ∷ rest) real in
    let tail_real = (Each-right (λ t. t ≢ 0) r (ends.tail ∷ []) real_right.1).0 in
    let across = Distinct-across left (e ∷ rest) d in
    let split = λ (P : ℕ → Type 0) (q : Each P rest). Each-left P r (ends.tail ∷ []) q in
    let next_apart = λ (x : ℕ) (q : Each (λ y. x ≢ y) (e ∷ rest)).
      first_in m e r ends.tail (λ t. t ≢ x) c2
        (Each-map (λ y. x ≢ y) (λ y. y ≢ x) r (λ y k s. k (sym s)) (split (λ y. x ≢ y) q.1))
        (λ s. (Each-right (λ y. x ≢ y) r (ends.tail ∷ []) q.1).0 (sym s)) in
    let qs =
      Each-map (λ x. Each (λ y. x ≢ y) (e ∷ rest)) (λ x. m.next e ≢ x) left next_apart across in
    let next_real =
      first_in m e r ends.tail (λ t. t ≢ 0) c2 (split (λ t. t ≢ 0) real_right.1) tail_real in
    let old = append_assoc l r (ends.tail ∷ []) in
    let new_nodes = ap (λ k. ends.head ∷ k) old in
    (
      unlink m e e,
      remove_step m e real_right.0 (last_in m ends.head l e (λ t. t ≢ 0) c1 real_left.0 real_left.1)
          next_real p.before.0,
      record {
        chain =
            Chain-unlink m e p.before.0 ends.head l r ends.tail c1 c2 p.left
              (split (λ t. m.prev e ≢ t) p.before.1) qs.1 (Distinct-right left (e ∷ rest) d).1;
        first = prev_kept m e p.before.0 ends.head qs.0 ∙ h.first;
        last =
            next_kept m e p.before.0 ends.tail
              (Each-right (λ t. m.prev e ≢ t) r (ends.tail ∷ []) p.before.1).0
            ∙ h.last;
        distinct = subst Distinct (sym new_nodes) (Distinct-delete left e rest d);
        real =
            subst (Each (λ t. t ≢ 0)) (sym new_nodes) (Each-delete (λ t. t ≢ 0) left e rest real);
      },
    )
