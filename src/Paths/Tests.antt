-- ===== src/Paths/Tests.antt =====
-- divide_fn at the paths /a/b and a, in characters.
use os_pintos.Common.{ℕ, ◌≡◌, refl, List, [], ◌∷◌, ◌++◌, true}
use os_pintos.Paths.{tokens, starts_with_slash, divide_fn}
use os_pintos.Paths.Divide.{last_part, divide_fn_lem}

abbrev a_b : List ℕ
a_b = 47 ∷ 97 ∷ 47 ∷ 98 ∷ []

divide_absolute : divide_fn (1 ∷ []) a_b ≡ (47 ∷ 97 ∷ 47 ∷ [], 98 ∷ [])
divide_absolute = refl

divide_zero : divide_fn [] a_b ≡ (97 ∷ 47 ∷ [], 98 ∷ [])
divide_zero = refl

divide_single : divide_fn (1 ∷ []) (97 ∷ []) ≡ ([], 97 ∷ [])
divide_single = refl

divide_fn_lem_example :
    (tokens (divide_fn (1 ∷ []) a_b).0 ++ last_part (divide_fn (1 ∷ []) a_b).1
      ≡ (97 ∷ []) ∷ (98 ∷ []) ∷ [])
    × (starts_with_slash (divide_fn (1 ∷ []) a_b).0 ≡ true)
divide_fn_lem_example = divide_fn_lem (1 ∷ []) a_b
