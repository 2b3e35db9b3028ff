-- ===== src/Links/Places.antt =====
-- A place in a list of different addresses.
use os_pintos.Common.{ℕ, ◌≡◌, ◌≢◌, refl, sym, ap, List, [], ◌∷◌, ◌++◌, Each}
use os_pintos.Links.{Memory, Ends}
use os_pintos.Links.Chain.{Chain, Distinct, nodes, Each-left, Each-right, Each-map, last_in}

pub append_assoc : (a b c : List ℕ) → a ++ b ++ c ≡ a ++ (b ++ c)
append_assoc [] b c = refl
append_assoc (x ∷ a) b c = ap (λ l. x ∷ l) (append_assoc a b c)

-- The addresses of a list with `b` in it.
pub nodes_at :
    (e : Ends) (l : List ℕ) (b : ℕ) (r : List ℕ)
    → nodes e (l ++ (b ∷ r)) ≡ (e.head ∷ l) ++ (b ∷ (r ++ (e.tail ∷ [])))
nodes_at e l b r = ap (λ k. e.head ∷ k) (append_assoc l (b ∷ r) (e.tail ∷ []))

pub Distinct-left : (a b : List ℕ) → Distinct (a ++ b) → Distinct a
Distinct-left [] b d = tt
Distinct-left (x ∷ a) b d = (Each-left (λ y. x ≢ y) a b d.0, Distinct-left a b d.1)

pub Distinct-right : (a b : List ℕ) → Distinct (a ++ b) → Distinct b
Distinct-right [] b d = d
Distinct-right (x ∷ a) b d = Distinct-right a b d.1

-- An element of the one part is none of the other.
pub Distinct-across : (a b : List ℕ) → Distinct (a ++ b) → Each (λ x. Each (λ y. x ≢ y) b) a
Distinct-across [] b d = tt
Distinct-across (x ∷ a) b d = (Each-right (λ y. x ≢ y) a b d.0, Distinct-across a b d.1)

pub Each-flip : (b : ℕ) (a : List ℕ) → Each (λ x. x ≢ b) a → Each (λ x. b ≢ x) a
Each-flip b a p = Each-map (λ x. x ≢ b) (λ x. b ≢ x) a (λ x n q. n (sym q)) p

pub Each-insert :
    (P : ℕ → Type 0) (a : List ℕ) (e : ℕ) (b : List ℕ)
    → P e
    → Each P (a ++ b)
    → Each P (a ++ (e ∷ b))
Each-insert P [] e b p q = (p, q)
Each-insert P (x ∷ a) e b p q = (q.0, Each-insert P a e b p q.1)

pub Distinct-insert :
    (a : List ℕ) (e : ℕ) (b : List ℕ)
    → Each (λ t. e ≢ t) (a ++ b)
    → Distinct (a ++ b)
    → Distinct (a ++ (e ∷ b))
Distinct-insert [] e b n d = (n, d)
Distinct-insert (x ∷ a) e b n d =
    (Each-insert (λ y. x ≢ y) a e b (λ q. n.0 (sym q)) d.0, Distinct-insert a e b n.1 d.1)

pub Each-delete :
    (P : ℕ → Type 0) (a : List ℕ) (e : ℕ) (b : List ℕ) → Each P (a ++ (e ∷ b)) → Each P (a ++ b)
Each-delete P [] e b q = q.1
Each-delete P (x ∷ a) e b q = (q.0, Each-delete P a e b q.1)

pub Distinct-delete :
    (a : List ℕ) (e : ℕ) (b : List ℕ) → Distinct (a ++ (e ∷ b)) → Distinct (a ++ b)
Distinct-delete [] e b d = d.1
Distinct-delete (x ∷ a) e b d = (Each-delete (λ y. x ≢ y) a e b d.0, Distinct-delete a e b d.1)

-- What is known of `b`, behind the elements `a :: l` and before `r`, and of the element before it.
pub record Place (m : Memory) (a : ℕ) (l : List ℕ) (b : ℕ) (r : List ℕ) : Type 0 where
  pub left : Distinct (a ∷ l)
  pub not_left : Each (λ t. b ≢ t) (a ∷ l)
  pub not_right : Each (λ t. b ≢ t) r
  pub before : Each (λ t. m.prev b ≢ t) (b ∷ r)

pub Place-of :
    (m : Memory) (a : ℕ) (l : List ℕ) (b : ℕ) (r : List ℕ)
    → Chain m a l b
    → Distinct ((a ∷ l) ++ (b ∷ r))
    → Place m a l b r
Place-of m a l b r c d =
    let across = Distinct-across (a ∷ l) (b ∷ r) d in
    record {
      left = Distinct-left (a ∷ l) (b ∷ r) d;
      not_left =
          Each-flip b (a ∷ l)
            (Each-map (λ x. Each (λ y. x ≢ y) (b ∷ r)) (λ x. x ≢ b) (a ∷ l) (λ x p. p.0) across);
      not_right = (Distinct-right (a ∷ l) (b ∷ r) d).0;
      before = last_in m a l b (λ x. Each (λ y. x ≢ y) (b ∷ r)) c across.0 across.1;
    }
