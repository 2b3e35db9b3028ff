-- ===== src/Links/Insert.antt =====
-- list_insert puts an element before another one.
use mathlib.Core.Path.{subst}
use os_pintos.Common.{ℕ, ◌≡◌, ◌≢◌, sym, ◌∙◌, ap, List, [], ◌∷◌, ◌++◌, Each, arith}
use os_pintos.Links.{Memory, store, link}
use os_pintos.Links.Chain.{Chain, Distinct, Each-left, Each-right, Each-map, last_in, Chain-same}

pub store_eq : (f : ℕ → ℕ) (a v : ℕ) → store f a v a ≡ v
store_eq f a v = ground arith

pub store_ne : (f : ℕ → ℕ) (a v t : ℕ) → a ≢ t → store f a v t ≡ f t
store_ne f a v t h = ground (arith, h)

-- What the four stores leave, for an element that is neither `b` nor before it.
module _ (m : Memory) (b e : ℕ) (eb : e ≢ b) (ep : e ≢ m.prev b) where
  seen : store m.prev e (m.prev b) b ≡ m.prev b
  seen = store_ne m.prev e (m.prev b) b eb

  link_next : (t : ℕ) → (link m b e).next t ≡ store (store m.next e b) (m.prev b) e t
  link_next t = ap (λ p. store (store m.next e b) p e t) seen

  next_before : (link m b e).next (m.prev b) ≡ e
  next_before = link_next (m.prev b) ∙ store_eq (store m.next e b) (m.prev b) e

  next_new : (link m b e).next e ≡ b
  next_new =
      link_next e
      ∙ store_ne (store m.next e b) (m.prev b) e e (λ p. ep (sym p))
      ∙ store_eq m.next e b

  pub next_other : (t : ℕ) → m.prev b ≢ t → e ≢ t → (link m b e).next t ≡ m.next t
  next_other t p q =
      link_next t ∙ store_ne (store m.next e b) (m.prev b) e t p ∙ store_ne m.next e b t q

  prev_here : (link m b e).prev b ≡ e
  prev_here = store_eq (store m.prev e (m.prev b)) b e

  prev_new : (link m b e).prev e ≡ m.prev b
  prev_new =
      store_ne (store m.prev e (m.prev b)) b e e (λ p. eb (sym p)) ∙ store_eq m.prev e (m.prev b)

  pub prev_other : (t : ℕ) → b ≢ t → e ≢ t → (link m b e).prev t ≡ m.prev t
  prev_other t p q = store_ne (store m.prev e (m.prev b)) b e t p ∙ store_ne m.prev e (m.prev b) t q

  -- The chain up to `b` gets the element at its end.
  pub Chain-link :
      (a : ℕ) (l : List ℕ)
      → Chain m a l b
      → Distinct (a ∷ l)
      → Each (λ t. b ≢ t) l
      → Each (λ t. e ≢ t) (a ∷ l)
      → Chain (link m b e) a (l ++ (e ∷ [])) b
  Chain-link a [] c d bs es =
      let p : m.prev b ≡ a = c.1 in
      (subst (λ t. (link m b e).next t ≡ e) p next_before, prev_new ∙ p, (next_new, prev_here))
  Chain-link a (x ∷ l) c d bs es =
      let away : m.prev b ≢ a = λ p.
        last_in m x l b (λ t. t ≢ a) c.2 (λ q. d.0.0 (sym q))
          (Each-map (λ y. a ≢ y) (λ y. y ≢ a) l (λ y n q. n (sym q)) d.0.1) p in
      (
        next_other a away es.0 ∙ c.0,
        prev_other x bs.0 es.1.0 ∙ c.1,
        Chain-link x l c.2 d.1 bs.1 es.1,
      )

  -- A chain from `b` on does not change.
  pub Chain-behind :
      (l : List ℕ) (z : ℕ)
      → Chain m b l z
      → Each (λ t. m.prev b ≢ t) (b ∷ l)
      → Each (λ t. b ≢ t) (l ++ (z ∷ []))
      → Each (λ t. e ≢ t) (l ++ (z ∷ []))
      → Chain (link m b e) b l z
  Chain-behind l z c ps bs es =
      Chain-same m (link m b e) b l z (next_other b ps.0 eb)
        (both l ps.1 (Each-left (λ t. e ≢ t) l (z ∷ []) es))
        (both_prev l (Each-left (λ t. b ≢ t) l (z ∷ []) bs) (Each-left (λ t. e ≢ t) l (z ∷ []) es))
        (prev_other z (Each-right (λ t. b ≢ t) l (z ∷ []) bs).0
          (Each-right (λ t. e ≢ t) l (z ∷ []) es).0)
        c
    where
      both :
          (l : List ℕ)
          → Each (λ t. m.prev b ≢ t) l
          → Each (λ t. e ≢ t) l
          → Each (λ t. (link m b e).next t ≡ m.next t) l
      both [] p q = tt
      both (x ∷ l) p q = (next_other x p.0 q.0, both l p.1 q.1)

      both_prev :
          (l : List ℕ)
          → Each (λ t. b ≢ t) l
          → Each (λ t. e ≢ t) l
          → Each (λ t. (link m b e).prev t ≡ m.prev t) l
      both_prev [] p q = tt
      both_prev (x ∷ l) p q = (prev_other x p.0 q.0, both_prev l p.1 q.1)
