-- ===== src/Links/Chain.antt =====
-- A doubly linked chain of elements, and what of the memory it depends on.
use mathlib.Core.Path.{subst}
use os_pintos.Common.{ℕ, ◌≡◌, ◌≢◌, sym, ◌∙◌, List, [], ◌∷◌, ◌++◌, Each}
use os_pintos.Links.{Memory, Ends}

-- From `a` the elements `l` lead to `b`, and back.
abbrev pub Chain : Memory → ℕ → List ℕ → ℕ → Type 0
Chain m a [] b = (m.next a ≡ b) × (m.prev b ≡ a)
Chain m a (x ∷ l) b = (m.next a ≡ x) × (m.prev x ≡ a) × Chain m x l b

-- No address stands twice.
abbrev pub Distinct : List ℕ → Type 0
Distinct [] = Unit {0}
Distinct (x ∷ l) = Each (λ y. x ≢ y) l × Distinct l

-- The addresses of a list, with those of its ends.
abbrev pub nodes : Ends → List ℕ → List ℕ
nodes e l = e.head ∷ (l ++ (e.tail ∷ []))

-- The memory holds a list of the elements `l`.
pub record IsList (m : Memory) (e : Ends) (l : List ℕ) : Type 0 where
  pub chain : Chain m e.head l e.tail
  pub first : m.prev e.head ≡ 0
  pub last : m.next e.tail ≡ 0
  pub distinct : Distinct (nodes e l)
  pub real : Each (λ x. x ≢ 0) (nodes e l)

pub Each-append : (P : ℕ → Type 0) (a b : List ℕ) → Each P a → Each P b → Each P (a ++ b)
Each-append P [] b p q = q
Each-append P (x ∷ a) b p q = (p.0, Each-append P a b p.1 q)

pub Each-left : (P : ℕ → Type 0) (a b : List ℕ) → Each P (a ++ b) → Each P a
Each-left P [] b p = tt
Each-left P (x ∷ a) b p = (p.0, Each-left P a b p.1)

pub Each-right : (P : ℕ → Type 0) (a b : List ℕ) → Each P (a ++ b) → Each P b
Each-right P [] b p = p
Each-right P (x ∷ a) b p = Each-right P a b p.1

pub Each-map : (P Q : ℕ → Type 0) (l : List ℕ) → ((x : ℕ) → P x → Q x) → Each P l → Each Q l
Each-map P Q [] f p = tt
Each-map P Q (x ∷ l) f p = (f x p.0, Each-map P Q l f p.1)

-- The element before the end of a chain is one of the chain.
pub last_in :
    (m : Memory) (a : ℕ) (l : List ℕ) (b : ℕ) (P : ℕ → Type 0)
    → Chain m a l b
    → P a
    → Each P l
    → P (m.prev b)
last_in m a [] b P c p q = subst P (sym c.1) p
last_in m a (x ∷ l) b P c p q = last_in m x l b P c.2 q.0 q.1

pub first_in :
    (m : Memory) (a : ℕ) (l : List ℕ) (b : ℕ) (P : ℕ → Type 0)
    → Chain m a l b
    → Each P l
    → P b
    → P (m.next a)
first_in m a [] b P c q p = subst P (sym c.0) p
first_in m a (x ∷ l) b P c q p = subst P (sym c.0) q.0

-- A chain depends on what its elements have for next, and what they and its end have for prev.
pub Chain-same :
    (m n : Memory) (a : ℕ) (l : List ℕ) (b : ℕ)
    → (n.next a ≡ m.next a)
    → Each (λ t. n.next t ≡ m.next t) l
    → Each (λ t. n.prev t ≡ m.prev t) l
    → (n.prev b ≡ m.prev b)
    → Chain m a l b
    → Chain n a l b
Chain-same m n a [] b p ps qs q c = (p ∙ c.0, q ∙ c.1)
Chain-same m n a (x ∷ l) b p ps qs q c =
    (p ∙ c.0, qs.0 ∙ c.1, Chain-same m n x l b ps.0 ps.1 qs.1 q c.2)

pub Chain-split :
    (m : Memory) (a : ℕ) (l : List ℕ) (x : ℕ) (r : List ℕ) (b : ℕ)
    → Chain m a (l ++ (x ∷ r)) b
    → Chain m a l x × Chain m x r b
Chain-split m a [] x r b c = ((c.0, c.1), c.2)
Chain-split m a (y ∷ l) x r b c = let (p, q) = Chain-split m y l x r b c.2 in ((c.0, c.1, p), q)

pub Chain-join :
    (m : Memory) (a : ℕ) (l : List ℕ) (x : ℕ) (r : List ℕ) (b : ℕ)
    → Chain m a l x
    → Chain m x r b
    → Chain m a (l ++ (x ∷ r)) b
Chain-join m a [] x r b p q = (p.0, p.1, q)
Chain-join m a (y ∷ l) x r b p q = (p.0, p.1, Chain-join m y l x r b p.2 q)
