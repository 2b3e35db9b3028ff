-- ===== src/Links/Fifo.antt =====
-- A list as a queue, from list_init on.
use mathlib.Core.Path.{subst}
use os_pintos.Common.{
  ℕ, zero, suc, ◌≡◌, ◌≢◌, refl, sym, List, [], ◌∷◌, ◌++◌, Outcome, ok, ◌>>=◌, Each, arith, length,
}
use os_pintos.Links.{Memory, Ends, list_init, list_push_back, list_pop_front}
use os_pintos.Links.Chain.{Distinct, nodes, IsList, Each-append, Each-left, Each-right, Each-map}
use os_pintos.Links.Places.{append_assoc, nodes_at, Distinct-right, Distinct-across, Each-flip}
use os_pintos.Links.Refine.{IsNew}
use os_pintos.Links.Queue.{append_nil, list_push_back_lem, list_pop_front_lem}

-- Some elements pushed at the back, one after the other.
unfoldable pub push_all : Memory → Ends → List ℕ → Outcome Memory
push_all m ends [] = ok m
push_all m ends (e ∷ l) = do n ← list_push_back m ends e; push_all n ends l

-- So many elements popped from the front, with the memory.
unfoldable pub pop_all : ℕ → Memory → Ends → Outcome (Memory × List ℕ)
pop_all zero m ends = ok (m, [])
pop_all (suc c) m ends = do
  (n, e) ← list_pop_front m ends
  (n1, l) ← pop_all c n ends
  ok (n1, e ∷ l)

init-IsList :
    (m : Memory) (ends : Ends)
    → ends.head ≢ 0
    → ends.tail ≢ 0
    → ends.head ≢ ends.tail
    → IsList (list_init m ends) ends []
init-IsList m ends h t d = record {
  chain = (ground (arith, d), ground (arith, d));
  first = ground (arith, d);
  last = ground (arith, d);
  distinct = ((d, tt), (tt, tt));
  real = (h, (t, tt));
}

fresh :
    (ends : Ends) (l : List ℕ) (e : ℕ) (r : List ℕ)
    → e ≢ 0
    → Distinct (nodes ends (l ++ (e ∷ r)))
    → IsNew ends l e
fresh ends l e r h d =
    let left = ends.head ∷ l in
    let rest = e ∷ (r ++ (ends.tail ∷ [])) in
    let s = subst Distinct (nodes_at ends l e r) d in
    let across =
      Each-map (λ x. Each (λ y. x ≢ y) rest) (λ x. x ≢ e) left (λ x p. p.0)
        (Distinct-across left rest s) in
    let behind = Each-right (λ t. e ≢ t) r (ends.tail ∷ []) (Distinct-right left rest s).0 in
    record {
      real = h;
      apart = Each-append (λ t. e ≢ t) left (ends.tail ∷ []) (Each-flip e left across) behind;
    }

push_all_lem :
    (m : Memory) (ends : Ends) (l k : List ℕ)
    → IsList m ends l
    → Each (λ x. x ≢ 0) k
    → Distinct (nodes ends (l ++ k))
    → (n : Memory) × (push_all m ends k ≡ ok n) × IsList n ends (l ++ k)
unfolding push_all
push_all_lem m ends l [] h r d = (m, refl, subst (IsList m ends) (sym (append_nil l)) h)
push_all_lem m ends l (e ∷ k) h r d =
    let (n, q, s) = list_push_back_lem m ends l e h (fresh ends l e k r.0 d) in
    let at = append_assoc l (e ∷ []) k in
    let (n1, q1, s1) =
      push_all_lem n ends (l ++ (e ∷ [])) k s r.1
        (subst (λ t. Distinct (nodes ends t)) (sym at) d) in
    (n1, rw q q1, subst (IsList n1 ends) at s1)

pop_all_lem :
    (m : Memory) (ends : Ends) (l : List ℕ)
    → IsList m ends l
    → (n : Memory) × (pop_all (length l) m ends ≡ ok (n, l)) × IsList n ends []
unfolding pop_all
pop_all_lem m ends [] h = (m, refl, h)
pop_all_lem m ends (e ∷ l) h =
    let (n, q, s) = list_pop_front_lem m ends e l h in
    let (n1, q1, s1) = pop_all_lem n ends l s in (n1, rw (q, q1) refl, s1)

-- What is pushed at the back of a fresh list is popped from its front in the same order.
pub fifo :
    (m : Memory) (ends : Ends) (l : List ℕ)
    → Distinct (nodes ends l)
    → Each (λ x. x ≢ 0) (nodes ends l)
    → (n : Memory) × (n1 : Memory) × (push_all (list_init m ends) ends l ≡ ok n)
      × IsList n ends l
      × (pop_all (length l) n ends ≡ ok (n1, l))
      × IsList n1 ends []
fifo m ends l d r =
    let tail_real = (Each-right (λ x. x ≢ 0) l (ends.tail ∷ []) r.1).0 in
    let apart = (Each-right (λ x. ends.head ≢ x) l (ends.tail ∷ []) d.0).0 in
    let (n, q, s) =
      push_all_lem (list_init m ends) ends [] l (init-IsList m ends r.0 tail_real apart)
        (Each-left (λ x. x ≢ 0) l (ends.tail ∷ []) r.1) d in
    let (n1, q1, s1) = pop_all_lem n ends l s in (n, n1, q, s, q1, s1)
