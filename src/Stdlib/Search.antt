-- ===== src/Stdlib/Search.antt =====
-- binary_search finds what a search of every element finds.
use os_pintos.Common.{
  ℕ, zero, suc, ◌+◌, ◌-◌, ◌/◌, ◌≤◌, ◌<◌, ◌≡◌, refl, sym, List, [], ◌∷◌, Bool, true, false, Option,
  none, some, arith, ltb, get_or, length, inl, inr, Bool-cases, ◌&&◌, ◌||◌, not,
}
use os_pintos.Common.Int.{ℤ}
use os_pintos.Stdlib.{negative, positive, search_from, binary_search}

-- An element that compares as equal.
abbrev pub is_match : ℤ → Bool
is_match c = not (negative c) && not (positive c)

-- The reference: every element is compared.
unfoldable pub any_match : (ℕ → ℤ) → List ℕ → Bool
any_match compare [] = false
any_match compare (x ∷ l) = is_match (compare x) || any_match compare l

abbrev pub is_found : Option ℕ → Bool
is_found none = false
is_found (some i) = true

-- The comparison of the key with the element at an index.
abbrev pub at : (ℕ → ℤ) → List ℕ → ℕ → ℤ
at compare array i = compare (get_or array i 0)

-- The array is ordered: what is behind an element above the key is above it, and what is before an
-- element below the key is below it.
pub record IsOrdered (compare : ℕ → ℤ) (array : List ℕ) : Type 0 where
  pub above :
      (i j : ℕ)
      → i ≤ j
      → j < length array
      → negative (at compare array i) ≡ true
      → negative (at compare array j) ≡ true
  pub below :
      (i j : ℕ)
      → i ≤ j
      → j < length array
      → positive (at compare array j) ≡ true
      → positive (at compare array i) ≡ true

-- What a search of a range returns.
pub data Searched (compare : ℕ → ℤ) (array : List ℕ) (first last : ℕ) : Option ℕ → Type 0 where
  hit :
      {i : ℕ}
      → first ≤ i
      → i < last
      → is_match (at compare array i) ≡ true
      → Searched compare array first last (some i)
  miss :
      ((i : ℕ) → first ≤ i → i < last → is_match (at compare array i) ≡ false)
      → Searched compare array first last none

module _ (compare : ℕ → ℤ) (array : List ℕ) (o : IsOrdered compare array) where
  no_match : (c : ℤ) → negative c ≡ true → is_match c ≡ false
  no_match c h = ground (arith, h)

  no_match_above : (c : ℤ) → positive c ≡ true → is_match c ≡ false
  no_match_above c h = elim (Bool-cases (negative c)) [
    | inl y ↦ no_match c y
    | inr n ↦ ground (arith, h, n)
  ]

  lower :
      (first middle last : ℕ) (r : Option ℕ)
      → middle < last
      → last ≤ length array
      → negative (at compare array middle) ≡ true
      → Searched compare array first middle r
      → Searched compare array first last r
  lower first middle last _ h b n (hit p q e) = hit p (omega (arith, q, h)) e
  lower first middle last _ h b n (miss a) = miss (λ i p q. elim (Bool-cases (ltb i middle)) [
    | inl y ↦ a i p (ground (arith, y))
    | inr x ↦
        no_match (at compare array i) (o.above middle i (ground (arith, x)) (omega (arith, q, b)) n)
  ])

  upper :
      (first middle last : ℕ) (r : Option ℕ)
      → first ≤ middle
      → last ≤ length array
      → middle < last
      → positive (at compare array middle) ≡ true
      → Searched compare array (middle + 1) last r
      → Searched compare array first last r
  upper first middle last _ h b m n (hit p q e) = hit (omega (arith, p, h)) q e
  upper first middle last _ h b m n (miss a) = miss (λ i p q. elim (Bool-cases (ltb middle i)) [
    | inl y ↦ a i (ground (arith, y)) q
    | inr x ↦
        no_match_above (at compare array i)
          (o.below i middle (ground (arith, x)) (omega (arith, m, b)) n)
  ])

  search_from_lem :
      (n first last : ℕ)
      → first ≤ last
      → last ≤ length array
      → last < first + n
      → (r : Option ℕ) × (search_from n compare array first last ≡ some r)
        × Searched compare array first last r
  unfolding search_from
  search_from_lem zero first last a b h = absurd (omega (arith, a, h))
  search_from_lem (suc n) first last a b h =
      let middle = first + (last - first) / 2 in
      let c = at compare array middle in
      elim (Bool-cases (ltb first last)) [
        | inr x ↦ (none, rw (x, search_from) refl, miss (λ i p q. absurd (ground (arith, x, p, q))))
        | inl y ↦
            let inside : middle < last = ground (arith, y) in
            elim (Bool-cases (negative c)) [
              | inl s ↦
                  let (r, e, k) =
                    search_from_lem n first middle (omega arith) (omega (arith, inside, b))
                      (omega (arith, inside, h)) in
                  (r, rw (y, s, search_from) e, lower first middle last r inside b s k)
              | inr s ↦ elim (Bool-cases (positive c)) [
                | inl t ↦
                    let (r, e, k) =
                      search_from_lem n (middle + 1) last (omega (arith, inside)) b
                        (omega (arith, h)) in
                    (
                      r,
                      rw (y, s, t, search_from) e,
                      upper first middle last r (omega arith) b inside t k,
                    )
                | inr t ↦ (
                  some middle,
                  rw (y, s, t, search_from) refl,
                  hit (omega arith) inside (ground (arith, s, t)),
                )
              ]
            ]
      ]

any_at :
    (compare : ℕ → ℤ) (l : List ℕ) (i : ℕ)
    → i < length l
    → is_match (at compare l i) ≡ true
    → any_match compare l ≡ true
unfolding any_match
any_at compare [] i h e = absurd (omega (arith, h))
any_at compare (x ∷ l) zero h e = rw e refl
any_at compare (x ∷ l) (suc i) h e = elim (Bool-cases (is_match (compare x))) [
  | inl y ↦ rw y refl
  | inr n ↦ rw n (any_at compare l i (omega (arith, h)) e)
]

none_at :
    (compare : ℕ → ℤ) (l : List ℕ)
    → ((i : ℕ) → i < length l → is_match (at compare l i) ≡ false)
    → any_match compare l ≡ false
unfolding any_match
none_at compare [] a = refl
none_at compare (x ∷ l) a =
    rw (a 0 (omega arith)) (none_at compare l (λ i h. a (suc i) (omega (arith, h))))

-- binary_search of an ordered array ends within its fuel; it finds an element, and one that compares
-- as equal, exactly if a comparison of every element finds one.
pub binary_search_lem :
    (compare : ℕ → ℤ) (array : List ℕ)
    → IsOrdered compare array
    → (r : Option ℕ) × (binary_search compare array ≡ some r)
      × Searched compare array 0 (length array) r
      × (is_found r ≡ any_match compare array)
unfolding binary_search
binary_search_lem compare array o =
    let (r, e, s) =
      search_from_lem compare array o (length array + 1) 0 (length array) (omega arith)
        (omega arith) (omega arith) in
    (r, e, s, agrees r s)
  where
    agrees :
        (r : Option ℕ)
        → Searched compare array 0 (length array) r
        → is_found r ≡ any_match compare array
    agrees _ (hit {i} p q e) = sym (any_at compare array i q e)
    agrees _ (miss a) = sym (none_at compare array (λ i h. a i (omega arith) h))
