-- ===== src/Klist/Sort.antt =====
-- list_sort: its runs, its merges, and that the passes end with an ordered permutation.
use mathlib.Core.List.{Perm, perm_middle, append_assoc, append-nil}
use mathlib.Core.List.Perm
use mathlib.Core.Path.{subst}
use os_pintos.Common.{
  ◌∙◌, ℕ, zero, suc, ◌+◌, ◌≤◌, ◌<◌, ◌≡◌, refl, ap, sym, List, [], ◌∷◌, ◌++◌, Bool, false, arith,
  if◌then◌else◌, length, Bool-cases, inl, inr, true, Outcome, ok, ◌>>=◌, length-append, ltb, ltb→lt,
}
use os_pintos.Klist.{
  Elem, find_end_of_run, merge_from, inplace_merge, is_sorted, sorted_from, merge_next, sort_pass,
  sort_loop, list_sort,
}
use os_pintos.Klist.Order.{IsOrder, Above, Sorted, Above-trans, Sorted-sorted_from}

module _ (less : Elem → Elem → Bool) (o : IsOrder less) where
  Above-merge :
      (a : Elem) (xs ys : List Elem)
      → Above less a xs
      → Above less a ys
      → Above less a (merge_from less xs ys)
  unfolding merge_from
  Above-merge a [] ys p q = q
  Above-merge a (x ∷ xs) [] p q = p
  Above-merge a (x ∷ xs) (y ∷ ys) p q = elim (Bool-cases (less y x)) [
    | inr h ↦ rw h (p.0, Above-merge a xs (y ∷ ys) p.1 q)
    | inl h ↦ rw h (q.0, Above-merge a (x ∷ xs) ys p q.1)
  ]

  Sorted-merge :
      (xs ys : List Elem) → Sorted less xs → Sorted less ys → Sorted less (merge_from less xs ys)
  unfolding merge_from
  Sorted-merge [] ys p q = q
  Sorted-merge (x ∷ xs) [] p q = p
  Sorted-merge (x ∷ xs) (y ∷ ys) p q = elim (Bool-cases (less y x)) [
    | inr h ↦ rw h (
      Above-merge x xs (y ∷ ys) p.0 (h, Above-trans less o x y ys h q.0),
      Sorted-merge xs (y ∷ ys) p.1 q,
    )
    | inl h ↦
        let k = o.asym y x h in
        rw h (
          Above-merge y (x ∷ xs) ys (k, Above-trans less o y x xs k p.0) q.0,
          Sorted-merge (x ∷ xs) ys p q.1,
        )
  ]

  merge-perm : (xs ys : List Elem) → Perm (merge_from less xs ys) (xs ++ ys)
  unfolding merge_from
  merge-perm [] ys = Perm.refl ys
  merge-perm (x ∷ xs) [] = rw (append-nil xs) (Perm.refl (x ∷ xs))
  merge-perm (x ∷ xs) (y ∷ ys) = elim (Bool-cases (less y x)) [
    | inr h ↦ rw h (Perm.cons x (merge-perm xs (y ∷ ys)))
    | inl h ↦
        rw h
          (Perm.trans (Perm.cons y (merge-perm (x ∷ xs) ys)) (Perm.symm (perm_middle (x ∷ xs) ys)))
  ]

  -- The number of places where the order breaks, after `a`.
  abbrev breaks : Elem → List Elem → ℕ
  breaks a [] = 0
  breaks a (b ∷ l) = if less b a then suc (breaks b l) else breaks b l

  -- The number of runs.
  abbrev runs : List Elem → ℕ
  runs [] = 0
  runs (a ∷ l) = suc (breaks a l)

  breaks-le-length : (a : Elem) (l : List Elem) → breaks a l ≤ length l
  breaks-le-length a [] = omega arith
  breaks-le-length a (b ∷ l) = ground (arith, breaks-le-length b l)

  Sorted-of_breaks : (a : Elem) (l : List Elem) → breaks a l ≡ 0 → Sorted less (a ∷ l)
  Sorted-of_breaks a [] h = (tt, tt)
  Sorted-of_breaks a (b ∷ l) h =
      let p : less b a ≡ false = ground arith in
      let s = Sorted-of_breaks b l (ground arith) in ((p, Above-trans less o a b l p s.0), s)

  runs-le : (l : List Elem) → runs l ≤ length l
  runs-le [] = omega arith
  runs-le (a ∷ l) = omega (arith, breaks-le-length a l)

  Sorted-of_runs : (l : List Elem) → runs l ≤ 1 → Sorted less l
  Sorted-of_runs [] h = tt
  Sorted-of_runs (a ∷ l) h = Sorted-of_breaks a l (omega arith)

  -- A run is ordered; what follows it starts the next one.
  record IsRun (a : Elem) (l : List Elem) (out : List Elem × List Elem) : Type 0 where
    whole : l ≡ out.0 ++ out.1
    sorted : Sorted less (a ∷ out.0)
    count : breaks a l ≡ runs out.1

  find_end_of_run-IsRun : (a : Elem) (l : List Elem) → IsRun a l (find_end_of_run less a l)
  unfolding find_end_of_run
  find_end_of_run-IsRun a [] = record { whole = refl; sorted = (tt, tt); count = refl }
  find_end_of_run-IsRun a (b ∷ l) =
      let r = find_end_of_run-IsRun b l in
      elim (Bool-cases (less b a)) [
        | inl h ↦ rw h (record { whole = refl; sorted = (tt, tt); count = rw h })
        | inr h ↦ rw h (record {
          whole = ap (◌∷◌ b) r.whole;
          sorted = ((h, Above-trans less o a b _ h r.sorted.0), r.sorted);
          count = rw h r.count;
        })
      ]

  -- An ordered list in front adds one run at most.
  breaks-append :
      (a : Elem) (xs ys : List Elem) → Sorted less (a ∷ xs) → breaks a (xs ++ ys) ≤ runs ys
  breaks-append a [] [] s = omega arith
  breaks-append a [] (y ∷ ys) s = ground arith
  breaks-append a (x ∷ xs) ys s = ground (arith, breaks-append x xs ys s.1, s.0.0)

  runs-append : (xs ys : List Elem) → Sorted less xs → runs (xs ++ ys) ≤ runs ys + 1
  runs-append [] ys s = omega arith
  runs-append (x ∷ xs) ys s = omega (arith, breaks-append x xs ys s)

  is_sorted-true : (l : List Elem) → Sorted less l → is_sorted less l ≡ true
  unfolding is_sorted
  is_sorted-true [] s = refl
  is_sorted-true (a ∷ l) s = Sorted-sorted_from less o a l s

  -- The ASSERTs of a merge hold for ordered lists.
  merge_lem :
      (xs ys : List Elem)
      → Sorted less xs
      → Sorted less ys
      → inplace_merge less xs ys ≡ ok (merge_from less xs ys)
  unfolding inplace_merge
  merge_lem xs ys p q = rw (is_sorted-true xs p, is_sorted-true ys q) refl

  -- What one pass does: the elements are the same, and the runs are counted and halved.
  record Passed (l : List Elem) (out : List Elem × ℕ) : Type 0 where
    perm : Perm out.0 l
    bound : runs out.0 ≤ out.1
    halved : out.1 + out.1 ≤ runs l + 1

  -- The rest of a pass whose first run is `run0`.
  record PassedNext (run0 l : List Elem) (out : List Elem × ℕ) : Type 0 where
    perm : Perm out.0 (run0 ++ l)
    bound : runs out.0 ≤ out.1
    halved : out.1 + out.1 ≤ runs l + 2

  merge_next-Passed :
      (f : ℕ) (go : List Elem → Outcome (List Elem × ℕ)) (a : Elem) (run l : List Elem)
      → ((l' : List Elem)
          → length l' ≤ f
          → (out : List Elem × ℕ) × (go l' ≡ ok out) × Passed l' out)
      → Sorted less (a ∷ run)
      → length l ≤ f
      → (out : List Elem × ℕ) × (merge_next less go (a ∷ run) l ≡ ok out)
        × PassedNext (a ∷ run) l out
  unfolding merge_next
  merge_next-Passed f go a run [] ih s h = (
    (a ∷ run, 1),
    refl,
    record {
      perm = rw (append-nil run) (Perm.refl (a ∷ run));
      bound = omega (arith, runs-append (a ∷ run) [] s, ap runs (append-nil (a ∷ run)));
      halved = omega arith;
    },
  )
  merge_next-Passed f go a run (b ∷ l) ih s h =
      let r = find_end_of_run-IsRun b l in
      let (run1, b1) = find_end_of_run less b l in
      let (out, e, p) = ih b1 (omega (arith, ap length r.whole, length-append run1 b1)) in
      let m = merge_from less (a ∷ run) (b ∷ run1) in
      (
        (m ++ out.0, suc out.1),
        rw (merge_lem (a ∷ run) (b ∷ run1) s r.sorted, e) refl,
        record {
          perm =
              subst (λ z. Perm (m ++ out.0) ((a ∷ run) ++ (b ∷ z))) (sym r.whole)
                (subst (Perm (m ++ out.0)) (append_assoc (a ∷ run) (b ∷ run1) b1)
                  (Perm.append (merge-perm (a ∷ run) (b ∷ run1)) p.perm));
          bound =
              omega (
                arith,
                runs-append m out.0 (Sorted-merge (a ∷ run) (b ∷ run1) s r.sorted),
                p.bound,
              );
          halved = omega (arith, p.halved, r.count);
        },
      )

  pass-Passed :
      (f : ℕ) (l : List Elem)
      → length l ≤ f
      → (out : List Elem × ℕ) × (sort_pass less f l ≡ ok out) × Passed l out
  unfolding sort_pass
  pass-Passed f [] h =
      (([], 0), refl, record { perm = Perm.refl []; bound = omega arith; halved = omega arith })
  pass-Passed zero (a ∷ l) h = absurd (omega arith)
  pass-Passed (suc f) (a ∷ l) h =
      let r = find_end_of_run-IsRun a l in
      let (run, rest) = find_end_of_run less a l in
      let (out, e, p) =
        merge_next-Passed f (sort_pass less f) a run rest (pass-Passed f) r.sorted
          (omega (arith, ap length r.whole, length-append run rest)) in
      (
        out,
        e,
        record {
          perm = subst (λ z. Perm out.0 (a ∷ z)) (sym r.whole) p.perm;
          bound = p.bound;
          halved = omega (arith, p.halved, r.count);
        },
      )

  loop_more :
      (f : ℕ) (l l1 : List Elem) (n : ℕ)
      → sort_pass less (length l) l ≡ ok (l1, n)
      → ltb 1 n ≡ true
      → sort_loop less (suc f) l ≡ sort_loop less f l1
  unfolding sort_loop
  loop_more f l l1 n e h = rw e (
      ap (λ b. elim b as (λ _. Outcome (List Elem)) [ true ↦ sort_loop less f l1 | false ↦ ok l1 ])
        h)

  loop_done :
      (f : ℕ) (l l1 : List Elem) (n : ℕ)
      → sort_pass less (length l) l ≡ ok (l1, n)
      → ltb 1 n ≡ false
      → sort_loop less (suc f) l ≡ ok l1
  unfolding sort_loop
  loop_done f l l1 n e h = rw e (
      ap (λ b. elim b as (λ _. Outcome (List Elem)) [ true ↦ sort_loop less f l1 | false ↦ ok l1 ])
        h)

  sort_loop_total :
      (f : ℕ) (l : List Elem)
      → runs l < f
      → (l' : List Elem) × (sort_loop less f l ≡ ok l') × Perm l' l × Sorted less l'
  sort_loop_total zero l h = elim h [ ]
  sort_loop_total (suc f) l h =
      let (out, e, p) = pass-Passed (length l) l (omega arith) in
      let (l1, n) = out in
      elim (Bool-cases (ltb 1 n)) [
        | inl more ↦
            let (l', q, m, s) =
              sort_loop_total f l1 (omega (arith, p.bound, p.halved, ltb→lt 1 n more)) in
            (l', loop_more f l l1 n e more ∙ q, Perm.trans m p.perm, s)
        | inr done ↦ (
          l1,
          loop_done f l l1 n e done,
          p.perm,
          Sorted-of_runs l1 (ground (arith, p.bound, done)),
        )
      ]

  -- list_sort ends, its assertions hold, and the list has the same elements as often, in order.
  pub sort_total :
      (l : List Elem) → (l' : List Elem) × (list_sort less l ≡ ok l') × Perm l' l × Sorted less l'
  unfolding list_sort
  sort_total l =
      let (l', e, p, s) = sort_loop_total (length l + 1) l (omega (arith, runs-le l)) in
      (l', rw (e, is_sorted-true l' s) refl, p, s)
