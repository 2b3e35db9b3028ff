-- ===== src/Stdlib/Tests.antt =====
-- The search at an array of three numbers, compared by size.
use os_pintos.Common.{
  Option, ℕ, zero, suc, ◌≡◌, ◌≤◌, ◌<◌, refl, List, [], ◌∷◌, true, some, arith, get_or,
}
use os_pintos.Common.Int.{ℤ, pos, ◌-ℤ◌}
use os_pintos.Stdlib.{negative, positive, binary_search}
use os_pintos.Stdlib.Search.{IsOrdered, Searched, is_found, any_match, binary_search_lem}

abbrev numbers : List ℕ
numbers = 3 ∷ 5 ∷ 8 ∷ []

abbrev less_key : ℕ → ℤ
less_key x = pos 8 -ℤ pos x

found_third : binary_search less_key numbers ≡ some (some 2)
unfolding binary_search ◌-ℤ◌
found_third = refl

further : (x y : ℕ) → x ≤ y → negative (less_key x) ≡ true → negative (less_key y) ≡ true
unfolding ◌-ℤ◌
further x y h n = ground (arith, h, n)

nearer : (x y : ℕ) → x ≤ y → positive (less_key y) ≡ true → positive (less_key x) ≡ true
unfolding ◌-ℤ◌
nearer x y h n = ground (arith, h, n)

numbers_sorted : (i j : ℕ) → i ≤ j → j < 3 → get_or numbers i 0 ≤ get_or numbers j 0
numbers_sorted zero zero h k = omega arith
numbers_sorted zero (suc zero) h k = omega arith
numbers_sorted zero (suc (suc zero)) h k = omega arith
numbers_sorted (suc zero) (suc zero) h k = omega arith
numbers_sorted (suc zero) (suc (suc zero)) h k = omega arith
numbers_sorted (suc (suc zero)) (suc (suc zero)) h k = omega arith
numbers_sorted i (suc (suc (suc j))) h k = absurd (omega (arith, k))
numbers_sorted (suc i) zero h k = absurd (omega (arith, h))
numbers_sorted (suc (suc i)) (suc zero) h k = absurd (omega (arith, h))
numbers_sorted (suc (suc (suc i))) (suc (suc zero)) h k = absurd (omega (arith, h))

numbers-IsOrdered : IsOrdered less_key numbers
numbers-IsOrdered = record {
  above = λ i j h k. further (get_or numbers i 0) (get_or numbers j 0) (numbers_sorted i j h k);
  below = λ i j h k. nearer (get_or numbers i 0) (get_or numbers j 0) (numbers_sorted i j h k);
}

binary_search_lem_example :
    (r : Option ℕ) × (binary_search less_key numbers ≡ some r)
    × Searched less_key numbers 0 3 r
    × (is_found r ≡ any_match less_key numbers)
binary_search_lem_example = binary_search_lem less_key numbers numbers-IsOrdered
