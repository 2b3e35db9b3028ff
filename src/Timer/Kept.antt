-- ===== src/Timer/Kept.antt =====
-- What a pass over a list keeps.
use os_pintos.Common.{
  ℕ, ◌≡◌, ◌≢◌, refl, List, [], ◌∷◌, Bool, false, ◌&&◌, arith, if◌then◌else◌, Bool-cases, inl, inr,
}
use os_pintos.Klist.Order.{All, Unique}
use os_pintos.Sched.Aging.{mem}

-- The sleepers that stay.
abbrev pub kept : (ℕ → Bool) → List ℕ → List ℕ
kept d [] = []
kept d (t ∷ l) = if d t then kept d l else t ∷ kept d l

-- What is kept of a list has the properties of the list, and is not due.
pub All-kept : (P : ℕ → Type 0) (d : ℕ → Bool) (l : List ℕ) → All P l → All P (kept d l)
All-kept P d [] a = tt
All-kept P d (t ∷ l) a = elim (Bool-cases (d t)) [
  | inl h ↦ rw h (All-kept P d l a.1)
  | inr h ↦ rw h (a.0, All-kept P d l a.1)
]

pub Unique-kept : (d : ℕ → Bool) (l : List ℕ) → Unique l → Unique (kept d l)
Unique-kept d [] a = tt
Unique-kept d (t ∷ l) a = elim (Bool-cases (d t)) [
  | inl h ↦ rw h (Unique-kept d l a.1)
  | inr h ↦ rw h (All-kept (λ u. t ≢ u) d l a.0, Unique-kept d l a.1)
]

pub kept-not_due : (d : ℕ → Bool) (l : List ℕ) → All (λ t. d t ≡ false) (kept d l)
kept-not_due d [] = tt
kept-not_due d (t ∷ l) = elim (Bool-cases (d t)) [
  | inl h ↦ rw h (kept-not_due d l)
  | inr h ↦ rw h (h, kept-not_due d l)
]

pub kept-none : (d : ℕ → Bool) (l : List ℕ) → All (λ t. d t ≡ false) l → kept d l ≡ l
kept-none d [] a = refl
kept-none d (t ∷ l) a = ground (arith, a.0, kept-none d l a.1)

pub mem-none :
    (d : ℕ → Bool) (u : ℕ) (l : List ℕ) → All (λ t. d t ≡ false) l → mem u l && d u ≡ false
mem-none d u [] a = refl
mem-none d u (t ∷ l) a = ground (arith, a.0, mem-none d u l a.1)
