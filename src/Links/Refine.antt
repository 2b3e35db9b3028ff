-- ===== src/Links/Refine.antt =====
-- The routines on links are those on sequences.
use mathlib.Core.Path.{subst}
use os_pintos.Common.{
  ℕ, ◌≡◌, ◌≢◌, refl, sym, ◌∙◌, List, [], ◌∷◌, ◌++◌, true, not, ◌&&◌, ◌||◌, ok, Each, arith, ◌==◌,
  inl, inr, Bool-cases,
}
use os_pintos.Links.{Memory, Ends, link, null, list_insert}
use os_pintos.Links.Chain.{
  Chain, Distinct, nodes, IsList, Each-left, Each-right, last_in, Chain-split, Chain-join,
}
use os_pintos.Links.Places.{append_assoc, nodes_at, Each-insert, Distinct-insert, Place-of}
use os_pintos.Links.Insert.{next_other, prev_other, Chain-link, Chain-behind}

-- An element that is not of the list.
pub record IsNew (ends : Ends) (l : List ℕ) (e : ℕ) : Type 0 where
  pub real : e ≢ 0
  pub apart : Each (λ t. e ≢ t) (nodes ends l)

inner_or_tail :
    (b p n : ℕ)
    → b ≢ 0
    → p ≢ 0
    → (not (b == 0) && (not (p == 0) && not (n == 0)) || not (b == 0) && (not (p == 0) && n == 0))
      ≡ true
inner_or_tail b p n h k = elim (Bool-cases (n == 0)) [
  | inl y ↦ ground (arith, y, h, k)
  | inr x ↦ ground (arith, x, h, k)
]

pub insert_step :
    (m : Memory) (b e : ℕ) → b ≢ 0 → m.prev b ≢ 0 → e ≢ 0 → list_insert m b e ≡ ok (link m b e)
unfolding list_insert
insert_step m b e h k n =
    let a = inner_or_tail b (m.prev b) (m.next b) h k in
    let c : not (null e) ≡ true = ground (arith, n) in rw (a, c) refl

-- list_insert before the element `b` of a list.
pub list_insert_lem :
    (m : Memory) (ends : Ends) (l : List ℕ) (b : ℕ) (r : List ℕ) (e : ℕ)
    → IsList m ends (l ++ (b ∷ r))
    → IsNew ends (l ++ (b ∷ r)) e
    → (n : Memory) × (list_insert m b e ≡ ok n) × IsList n ends (l ++ (e ∷ b ∷ r))
list_insert_lem m ends l b r e h w =
    let rest = r ++ (ends.tail ∷ []) in
    let left = ends.head ∷ l in
    let at = nodes_at ends l b r in
    let d = subst Distinct at h.distinct in
    let es = subst (Each (λ t. e ≢ t)) at w.apart in
    let real = subst (Each (λ t. t ≢ 0)) at h.real in
    let (c1, c2) = Chain-split m ends.head l b r ends.tail h.chain in
    let p = Place-of m ends.head l b rest c1 d in
    let e_left = Each-left (λ t. e ≢ t) left (b ∷ rest) es in
    let e_right = Each-right (λ t. e ≢ t) left (b ∷ rest) es in
    let real_left = Each-left (λ t. t ≢ 0) left (b ∷ rest) real in
    let eb = e_right.0 in
    let ep = last_in m ends.head l b (λ t. e ≢ t) c1 e_left.0 e_left.1 in
    let new_at = nodes_at ends l e (b ∷ r) in
    let last = (Each-right (λ t. m.prev b ≢ t) r (ends.tail ∷ []) p.before.1).0 in
    let e_tail = (Each-right (λ t. e ≢ t) r (ends.tail ∷ []) e_right.1).0 in
    (
      link m b e,
      insert_step m b e (Each-right (λ t. t ≢ 0) left (b ∷ rest) real).0
          (last_in m ends.head l b (λ t. t ≢ 0) c1 real_left.0 real_left.1) w.real,
      record {
        chain =
            subst (λ k. Chain (link m b e) ends.head k ends.tail) (append_assoc l (e ∷ []) (b ∷ r))
              (Chain-join (link m b e) ends.head (l ++ (e ∷ [])) b r ends.tail
                (Chain-link m b e eb ep ends.head l c1 p.left p.not_left.1 e_left)
                (Chain-behind m b e eb ep r ends.tail c2
                  (p.before.0, Each-left (λ t. m.prev b ≢ t) r (ends.tail ∷ []) p.before.1)
                  p.not_right e_right.1));
        first = prev_other m b e eb ep ends.head p.not_left.0 e_left.0 ∙ h.first;
        last = next_other m b e eb ep ends.tail last e_tail ∙ h.last;
        distinct = subst Distinct (sym new_at) (Distinct-insert left e (b ∷ rest) es d);
        real =
            subst (Each (λ t. t ≢ 0)) (sym new_at)
              (Each-insert (λ t. t ≢ 0) left e (b ∷ rest) w.real real);
      },
    )
