-- ===== src/Klist/Tests.antt =====
-- The theorems on ordered lists at a small order, and list_sort at work.
use mathlib.Core.List.{Perm}
use os_pintos.Common.{◌≡◌, refl, List, [], ◌∷◌, ok, arith, ltb}
use os_pintos.Klist.{list_sort, list_insert_ordered, list_unique, Elem}
use os_pintos.Klist.Order.{IsOrder, Sorted, Inserted, insert_ordered_lem}
use os_pintos.Klist.Sort.{sort_total}

sort_runs : list_sort ltb (3 ∷ 1 ∷ 2 ∷ 9 ∷ 8 ∷ 1 ∷ []) ≡ ok (1 ∷ 1 ∷ 2 ∷ 3 ∷ 8 ∷ 9 ∷ [])
unfolding list_sort
sort_runs = refl

unique_runs : list_unique ltb (1 ∷ 1 ∷ 2 ∷ 2 ∷ 2 ∷ 1 ∷ []) ≡ (1 ∷ 2 ∷ 1 ∷ [], 1 ∷ 2 ∷ 2 ∷ [])
unfolding list_unique
unique_runs = refl

ltb-IsOrder : IsOrder ltb
ltb-IsOrder = record { asym = λ a b h. ground arith; trans = λ a b c p q. ground arith }

insert_ordered_lem_example :
    Inserted ltb ltb-IsOrder 2 (1 ∷ 2 ∷ 5 ∷ []) (list_insert_ordered ltb 2 (1 ∷ 2 ∷ 5 ∷ []))
insert_ordered_lem_example =
    insert_ordered_lem ltb ltb-IsOrder 2 (1 ∷ 2 ∷ 5 ∷ [])
      ((refl, (refl, tt)), ((refl, tt), (tt, tt)))

sort_total_example :
    (l' : List Elem) × (list_sort ltb (3 ∷ 1 ∷ 2 ∷ []) ≡ ok l')
    × Perm l' (3 ∷ 1 ∷ 2 ∷ [])
    × Sorted ltb l'
sort_total_example = sort_total ltb ltb-IsOrder (3 ∷ 1 ∷ 2 ∷ [])
