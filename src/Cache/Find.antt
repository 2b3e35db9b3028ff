-- ===== src/Cache/Find.antt =====
-- What the array of cache entries holds for a sector, and how a change of one entry changes that.
use os_pintos.Common.{
  ℕ, zero, suc, ◌+◌, ◌≡◌, refl, ap, List, [], ◌∷◌, Bool, true, false, Option, none, some, inl, inr,
  arith, if◌then◌else◌, get_elem?, set, get_elem?-set_self, lt-length_of_get_elem?, Bool-cases,
}
use os_pintos.Block.{Sector}
use os_pintos.Cache.{Entry, matches, lookup_from}

-- The buffer that the entries hold for a sector, and its dirty bit.
abbrev pub find : List Entry → ℕ → Option (Sector × Bool)
find [] s = none
find (e ∷ es) s = if matches e s then some (e.buffer, e.dirty_bit) else find es s

-- No sector is cached twice.
abbrev pub Distinct : List Entry → Type 0
Distinct [] = Unit {0}
Distinct (e ∷ es) = (e.valid_bit ≡ true → find es e.disk_sector ≡ none) × Distinct es

abbrev pub remove_at : List Entry → ℕ → List Entry
remove_at [] i = []
remove_at (e ∷ es) zero = es
remove_at (e ∷ es) (suc i) = e ∷ remove_at es i

pub remove_at-set :
    (es : List Entry) (i : ℕ) (e : Entry) → remove_at (set es i e) i ≡ remove_at es i
remove_at-set [] i e = refl
remove_at-set (x ∷ es) zero e = refl
remove_at-set (x ∷ es) (suc i) e = ap (◌∷◌ x) (remove_at-set es i e)

-- An entry is found under its own sector, and hides nothing.
pub find-remove_at :
    (es : List Entry) (i : ℕ) (e : Entry) (t : ℕ)
    → Distinct es
    → get_elem? es i ≡ some e
    → find es t ≡ (if matches e t then some (e.buffer, e.dirty_bit) else find (remove_at es i) t)
find-remove_at [] i e t d h = cc
find-remove_at (x ∷ es) zero e t d h = ground arith
find-remove_at (x ∷ es) (suc i) e t d h = ground (arith, find-remove_at es i e t d.1 h)

find-remove_at-none :
    (es : List Entry) (i t : ℕ) → find es t ≡ none → find (remove_at es i) t ≡ none
find-remove_at-none [] i t h = refl
find-remove_at-none (x ∷ es) zero t h = ground arith
find-remove_at-none (x ∷ es) (suc i) t h = ground (arith, find-remove_at-none es i t)

pub find-set-none :
    (es : List Entry) (i : ℕ) (e : Entry) (t : ℕ)
    → find es t ≡ none
    → matches e t ≡ false
    → find (set es i e) t ≡ none
find-set-none [] i e t h m = refl
find-set-none (x ∷ es) zero e t h m = ground arith
find-set-none (x ∷ es) (suc i) e t h m = ground (arith, find-set-none es i e t)

pub Distinct-remove_at : (es : List Entry) (i : ℕ) → Distinct es → Distinct (remove_at es i)
Distinct-remove_at [] i d = d
Distinct-remove_at (x ∷ es) zero d = d.1
Distinct-remove_at (x ∷ es) (suc i) d =
    (λ v. find-remove_at-none es i x.disk_sector (d.0 v), Distinct-remove_at es i d.1)

pub Distinct-set :
    (es : List Entry) (i : ℕ) (e : Entry)
    → Distinct es
    → (e.valid_bit ≡ true → find (remove_at es i) e.disk_sector ≡ none)
    → Distinct (set es i e)
Distinct-set [] i e d h = d
Distinct-set (x ∷ es) zero e d h = (h, d.1)
Distinct-set (x ∷ es) (suc i) e d h = (
  λ v. find-set-none es i e x.disk_sector (d.0 v) (ground arith),
  Distinct-set es i e d.1 (λ v. ground (arith, h v)),
)

-- The new contents after a change of entry `i`, as one test.
pub find-set :
    (es : List Entry) (i : ℕ) (e e' : Entry) (t : ℕ)
    → get_elem? es i ≡ some e
    → Distinct (set es i e')
    → find (set es i e') t
      ≡ (if matches e' t then some (e'.buffer, e'.dirty_bit) else find (remove_at es i) t)
find-set es i e e' t h d = rw (← remove_at-set es i e') (
    find-remove_at (set es i e') i e' t d
      (get_elem?-set_self es i e' (lt-length_of_get_elem? es i h)))

pub lookup_miss : (k : ℕ) (es : List Entry) (s : ℕ) → lookup_from k es s ≡ none → find es s ≡ none
unfolding lookup_from
lookup_miss k [] s h = refl
lookup_miss k (e ∷ es) s h = ground (arith, lookup_miss (suc k) es s)

-- The index that a search from `k` returns is that of an entry which holds the sector.
pub lookup_hit :
    (k : ℕ) (es : List Entry) (s j : ℕ)
    → lookup_from k es s ≡ some j
    → (i : ℕ) × (e : Entry) × (j ≡ k + i) × (get_elem? es i ≡ some e) × (matches e s ≡ true)
unfolding lookup_from
lookup_hit k [] s j h = cc
lookup_hit k (x ∷ es) s j h = elim (Bool-cases (matches x s)) [
  | inl m ↦ (0, x, ground arith, refl, m)
  | inr m ↦
      let (i, e, p, q, r) = lookup_hit (suc k) es s j (rw m at h) in (suc i, e, omega arith, q, r)
]

-- No other entry holds the sector of a valid one.
pub find-remove_at_own :
    (es : List Entry) (i : ℕ) (e : Entry)
    → Distinct es
    → get_elem? es i ≡ some e
    → e.valid_bit ≡ true
    → find (remove_at es i) e.disk_sector ≡ none
find-remove_at_own [] i e d h v = cc
find-remove_at_own (x ∷ es) zero e d h v = ground (arith, d.0)
find-remove_at_own (x ∷ es) (suc i) e d h v =
    ground (arith, find-remove_at_own es i e d.1 h v, find-remove_at es i e e.disk_sector d.1 h)
