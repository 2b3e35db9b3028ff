-- ===== src/Klist.antt =====
-- The ordered operations of kernel lists, lib/kernel/list.c of project5, on the sequence of element
-- pointers that a list links. `less` is the list_less_func with its auxiliary data.
pub mod Order
pub mod Permuted
pub mod Sort
mod Tests
use os_pintos.Common.{
  ℕ, zero, suc, ◌+◌, ◌≤◌, ◌<◌, List, [], ◌∷◌, ◌++◌, Bool, true, false, not, ◌&&◌, Option, none,
  some, ltb, if◌then◌else◌, length, Outcome, ok, panic, assert, ◌>>=◌, ◌>>◌,
}

-- `struct list_elem *`
abbrev pub Elem : Type 0
Elem = ℕ

module _ (less : Elem → Elem → Bool) where
  -- list_insert_ordered: before the first element that the new one is less than.
  unfoldable pub list_insert_ordered : Elem → List Elem → List Elem
  list_insert_ordered elem [] = elem ∷ []
  list_insert_ordered elem (e ∷ es) =
      if less elem e then elem ∷ e ∷ es else e ∷ list_insert_ordered elem es

  -- is_sorted, from an element on.
  unfoldable pub sorted_from : Elem → List Elem → Bool
  sorted_from a [] = true
  sorted_from a (b ∷ l) = not (less b a) && sorted_from b l

  unfoldable pub is_sorted : List Elem → Bool
  unfolding sorted_from
  is_sorted [] = true
  is_sorted (a ∷ l) = sorted_from a l

  -- find_end_of_run: the elements after `a` up to the end of its run, and those from there on.
  unfoldable pub find_end_of_run : Elem → List Elem → List Elem × List Elem
  find_end_of_run a [] = ([], [])
  find_end_of_run a (b ∷ l) =
      let (run, after) = find_end_of_run b l in if less b a then ([], b ∷ l) else (b ∷ run, after)

  -- The loop of inplace_merge.
  unfoldable pub merge_from : List Elem → List Elem → List Elem
  merge_from [] ys = ys
  merge_from (x ∷ xs) [] = x ∷ xs
  merge_from (x ∷ xs) (y ∷ ys) =
      let keep = x ∷ merge_from xs (y ∷ ys) in
      let move = y ∷ merge_from (x ∷ xs) ys in if not (less y x) then keep else move

  unfoldable pub inplace_merge : List Elem → List Elem → Outcome (List Elem)
  unfolding is_sorted merge_from
  inplace_merge xs ys = do assert (is_sorted xs); assert (is_sorted ys); ok (merge_from xs ys)

  -- The body of a pass behind its first run: it ends the pass, or merges the run with the next one
  -- and goes on.
  unfoldable pub merge_next :
      (List Elem → Outcome (List Elem × ℕ)) → List Elem → List Elem → Outcome (List Elem × ℕ)
  unfolding find_end_of_run inplace_merge
  merge_next go run0 [] = ok (run0, 1)
  merge_next go run0 (a1 ∷ l1) =
      let (run1, b1) = find_end_of_run a1 l1 in
      do merged ← inplace_merge run0 (a1 ∷ run1); (rest, n) ← go b1; ok (merged ++ rest, suc n)

  -- One pass of list_sort: adjacent runs are merged by twos. The result is the new sequence and
  -- output_run_cnt; the fuel bounds the number of elements left. A loop that goes on when the fuel is
  -- used up, here and below, is taken to stop the machine.
  unfoldable pub sort_pass : ℕ → List Elem → Outcome (List Elem × ℕ)
  unfolding merge_next
  sort_pass f [] = ok ([], 0)
  sort_pass zero (a0 ∷ l) = panic
  sort_pass (suc f) (a0 ∷ l) =
      let (run0, a1b0) = find_end_of_run a0 l in merge_next (sort_pass f) (a0 ∷ run0) a1b0

  -- The do loop of list_sort.
  unfoldable pub sort_loop : ℕ → List Elem → Outcome (List Elem)
  unfolding sort_pass
  sort_loop zero l = panic
  sort_loop (suc f) l = do
    (l', output_run_cnt) ← sort_pass (length l) l
    elim (ltb 1 output_run_cnt) [ true ↦ sort_loop f l' | false ↦ ok l' ]

  -- The first element of the largest, or smallest, value; none for the tail of an empty list.
  unfoldable pub max_from : Elem → List Elem → Elem
  max_from max [] = max
  max_from max (e ∷ l) = max_from (if less max e then e else max) l

  unfoldable pub list_max : List Elem → Option Elem
  unfolding max_from
  list_max [] = none
  list_max (a ∷ l) = some (max_from a l)

  unfoldable pub min_from : Elem → List Elem → Elem
  min_from min [] = min
  min_from min (e ∷ l) = min_from (if less e min then e else min) l

  unfoldable pub list_min : List Elem → Option Elem
  unfolding min_from
  list_min [] = none
  list_min (a ∷ l) = some (min_from a l)

  -- list_unique: the list without an element that equals the one kept before it, and those removed.
  unfoldable pub unique_from : Elem → List Elem → List Elem × List Elem
  unique_from elem [] = ([], [])
  unique_from elem (next ∷ l) =
      let (kept, removed) = unique_from elem l in
      let (kept', removed') = unique_from next l in
      if not (less elem next) && not (less next elem)
      then (kept, next ∷ removed)
      else (next ∷ kept', removed')

  unfoldable pub list_unique : List Elem → List Elem × List Elem
  unfolding unique_from
  list_unique [] = ([], [])
  list_unique (a ∷ l) = let (kept, removed) = unique_from a l in (a ∷ kept, removed)

unfoldable pub list_sort : (Elem → Elem → Bool) → List Elem → Outcome (List Elem)
unfolding sort_loop is_sorted
list_sort less l = do l' ← sort_loop less (length l + 1) l; assert (is_sorted less l'); ok l'
