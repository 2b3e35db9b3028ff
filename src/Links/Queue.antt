-- ===== src/Links/Queue.antt =====
-- The ends of a list: pushing at both and popping from both.
use mathlib.Core.Path.{subst}
use os_pintos.Common.{
  ℕ, ◌≡◌, ◌≢◌, refl, sym, ◌∙◌, ap, List, [], ◌∷◌, ◌++◌, true, not, ok, Each, arith, ◌==◌,
}
use os_pintos.Links.{
  Memory, Ends, link, list_empty, list_insert, list_remove, list_front, list_back, list_push_front,
  list_push_back, list_pop_front, list_pop_back,
}
use os_pintos.Links.Chain.{Distinct, IsList, Each-left, Each-right, last_in, Chain-split}
use os_pintos.Links.Places.{append_assoc, Each-insert, Distinct-insert, Place-of}
use os_pintos.Links.Insert.{next_other, prev_other, Chain-link}
use os_pintos.Links.Refine.{IsNew, insert_step, list_insert_lem}
use os_pintos.Links.Remove.{list_remove_lem}

-- list_push_back appends an element.
pub list_push_back_lem :
    (m : Memory) (ends : Ends) (l : List ℕ) (e : ℕ)
    → IsList m ends l
    → IsNew ends l e
    → (n : Memory) × (list_push_back m ends e ≡ ok n) × IsList n ends (l ++ (e ∷ []))
unfolding list_push_back
list_push_back_lem m ends l e h w =
    let b = ends.tail in
    let left = ends.head ∷ l in
    let p = Place-of m ends.head l b [] h.chain h.distinct in
    let e_left = Each-left (λ t. e ≢ t) left (b ∷ []) w.apart in
    let eb = (Each-right (λ t. e ≢ t) left (b ∷ []) w.apart).0 in
    let ep = last_in m ends.head l b (λ t. e ≢ t) h.chain e_left.0 e_left.1 in
    let real_left = Each-left (λ t. t ≢ 0) left (b ∷ []) h.real in
    let new_at = ap (λ k. ends.head ∷ k) (append_assoc l (e ∷ []) (b ∷ [])) in
    (
      link m b e,
      insert_step m b e (Each-right (λ t. t ≢ 0) left (b ∷ []) h.real).0
          (last_in m ends.head l b (λ t. t ≢ 0) h.chain real_left.0 real_left.1) w.real,
      record {
        chain = Chain-link m b e eb ep ends.head l h.chain p.left p.not_left.1 e_left;
        first = prev_other m b e eb ep ends.head p.not_left.0 e_left.0 ∙ h.first;
        last = next_other m b e eb ep b p.before.0 eb ∙ h.last;
        distinct = subst Distinct (sym new_at) (Distinct-insert left e (b ∷ []) w.apart h.distinct);
        real =
            subst (Each (λ t. t ≢ 0)) (sym new_at)
              (Each-insert (λ t. t ≢ 0) left e (b ∷ []) w.real h.real);
      },
    )

-- list_push_front puts an element before all others.
pub list_push_front_lem :
    (m : Memory) (ends : Ends) (l : List ℕ) (e : ℕ)
    → IsList m ends l
    → IsNew ends l e
    → (n : Memory) × (list_push_front m ends e ≡ ok n) × IsList n ends (e ∷ l)
unfolding list_push_front list_push_back
list_push_front_lem m ends [] e h w =
    let (n, q, r) = list_push_back_lem m ends [] e h w in
    (n, ap (λ b. list_insert m b e) h.chain.0 ∙ q, r)
list_push_front_lem m ends (x ∷ l) e h w =
    let (n, q, r) = list_insert_lem m ends [] x l e h w in
    (n, ap (λ b. list_insert m b e) h.chain.0 ∙ q, r)

unequal : (a b : ℕ) → a ≢ b → not (a == b) ≡ true
unequal a b h = ground (arith, h)

full :
    (m : Memory) (ends : Ends) (x : ℕ) (l : List ℕ)
    → IsList m ends (x ∷ l)
    → not (list_empty m ends) ≡ true
full m ends x l h =
    ap (λ a. not (a == ends.tail)) h.chain.0
    ∙ unequal x ends.tail (Each-right (λ t. x ≢ t) l (ends.tail ∷ []) h.distinct.1.0).0

full_end :
    (m : Memory) (ends : Ends) (l : List ℕ) (x : ℕ)
    → IsList m ends (l ++ (x ∷ []))
    → not (list_empty m ends) ≡ true
full_end m ends [] x h = full m ends x [] h
full_end m ends (y ∷ l) x h = full m ends y (l ++ (x ∷ [])) h

front_step :
    (m : Memory) (ends : Ends)
    → not (list_empty m ends) ≡ true
    → list_front m ends ≡ ok (m.next ends.head)
unfolding list_front
front_step m ends h = rw h refl

back_step :
    (m : Memory) (ends : Ends)
    → not (list_empty m ends) ≡ true
    → list_back m ends ≡ ok (m.prev ends.tail)
unfolding list_back
back_step m ends h = rw h refl

pop_front_step :
    (m n : Memory) (ends : Ends) (x : ℕ)
    → list_front m ends ≡ ok x
    → list_remove m x ≡ ok (n, m.next x)
    → list_pop_front m ends ≡ ok (n, x)
unfolding list_pop_front
pop_front_step m n ends x p q = rw (p, q) refl

pop_back_step :
    (m n : Memory) (ends : Ends) (x : ℕ)
    → list_back m ends ≡ ok x
    → list_remove m x ≡ ok (n, m.next x)
    → list_pop_back m ends ≡ ok (n, x)
unfolding list_pop_back
pop_back_step m n ends x p q = rw (p, q) refl

-- list_pop_front takes the first element.
pub list_pop_front_lem :
    (m : Memory) (ends : Ends) (x : ℕ) (l : List ℕ)
    → IsList m ends (x ∷ l)
    → (n : Memory) × (list_pop_front m ends ≡ ok (n, x)) × IsList n ends l
list_pop_front_lem m ends x l h =
    let (n, q, r) = list_remove_lem m ends [] x l h in
    (n, pop_front_step m n ends x (front_step m ends (full m ends x l h) ∙ ap ok h.chain.0) q, r)

pub append_nil : (l : List ℕ) → l ++ [] ≡ l
append_nil [] = refl
append_nil (x ∷ l) = ap (λ k. x ∷ k) (append_nil l)

-- list_pop_back takes the last element.
pub list_pop_back_lem :
    (m : Memory) (ends : Ends) (l : List ℕ) (x : ℕ)
    → IsList m ends (l ++ (x ∷ []))
    → (n : Memory) × (list_pop_back m ends ≡ ok (n, x)) × IsList n ends l
list_pop_back_lem m ends l x h =
    let (n, q, r) = list_remove_lem m ends l x [] h in
    let (c1, c2) = Chain-split m ends.head l x [] ends.tail h.chain in
    let p = back_step m ends (full_end m ends l x h) ∙ ap ok c2.1 in
    (n, pop_back_step m n ends x p q, subst (IsList n ends) (append_nil l) r)
