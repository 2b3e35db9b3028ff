-- ===== src/Stdlib.antt =====
-- Searches in arrays, lib/stdlib.c of project5. An array is the sequence of its elements, the
-- comparison with the key a function from elements to integers, as the code calls it; the result is
-- the index of an element.
pub mod Search
mod Tests
use os_pintos.Common.{
  ℕ, zero, suc, ◌+◌, ◌-◌, ◌*◌, ◌/◌, List, [], ◌∷◌, Bool, true, false, Option, none, some, ltb,
  get_or, length, if◌then◌else◌,
}
use os_pintos.Common.Int.{ℤ, pos, ltb_ℤ}

abbrev pub negative : ℤ → Bool
negative c = ltb_ℤ c (pos 0)

abbrev pub positive : ℤ → Bool
positive c = ltb_ℤ (pos 0) c

-- The loop of binary_search; each round takes at least one element out of the range, and one more
-- round finds it empty. `none` is a loop that goes on when the fuel is used up, `some none` is NULL.
unfoldable pub search_from : ℕ → (ℕ → ℤ) → List ℕ → ℕ → ℕ → Option (Option ℕ)
search_from zero compare array first last = none
search_from (suc n) compare array first last =
    let middle = first + (last - first) / 2 in
    let cmp = compare (get_or array middle 0) in
    elim (ltb first last) [
      | false ↦ some none
      | true ↦ elim (negative cmp) [
        | true ↦ search_from n compare array first middle
        | false ↦ elim (positive cmp) [
          | true ↦ search_from n compare array (middle + 1) last
          | false ↦ some (some middle)
        ]
      ]
    ]

unfoldable pub binary_search : (ℕ → ℤ) → List ℕ → Option (Option ℕ)
unfolding search_from
binary_search compare array = search_from (length array + 1) compare array 0 (length array)
