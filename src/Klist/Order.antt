-- ===== src/Klist/Order.antt =====
-- Order of a kernel list: where list_insert_ordered puts an element, and that a merge of ordered
-- lists is ordered.
use os_pintos.Common.{
  ◌≡◌, ◌≢◌, sym, refl, ap, List, [], ◌∷◌, ◌++◌, Bool, true, false, arith, Bool-cases, inl, inr,
}
use os_pintos.Klist.{Elem, list_insert_ordered, sorted_from}

-- What a list_less_func must be: an order in which incomparable elements are equal.
pub record IsOrder (less : Elem → Elem → Bool) : Type 0 where
  pub asym : (a b : Elem) → less a b ≡ true → less b a ≡ false
  pub trans : (a b c : Elem) → less b a ≡ false → less c b ≡ false → less c a ≡ false

abbrev pub All : (Elem → Type 0) → List Elem → Type 0
All P [] = Unit {0}
All P (x ∷ l) = P x × All P l

-- No element stands twice.
abbrev pub Unique : List Elem → Type 0
Unique [] = Unit {0}
Unique (x ∷ l) = All (λ y. x ≢ y) l × Unique l

module _ (less : Elem → Elem → Bool) where
  -- No element of the list is less than `a`.
  abbrev pub Above : Elem → List Elem → Type 0
  Above a l = All (λ b. less b a ≡ false) l

  abbrev pub Sorted : List Elem → Type 0
  Sorted [] = Unit {0}
  Sorted (a ∷ l) = Above a l × Sorted l

module _ (less : Elem → Elem → Bool) where
  pub All-insert :
      (P : Elem → Type 0) (x : Elem) (l : List Elem)
      → P x
      → All P l
      → All P (list_insert_ordered less x l)
  unfolding list_insert_ordered
  All-insert P x [] h p = (h, tt)
  All-insert P x (e ∷ l) h p = elim (Bool-cases (less x e)) [
    | inl q ↦ rw q (h, p)
    | inr q ↦ rw q (p.0, All-insert P x l h p.1)
  ]

  pub Unique-insert :
      (x : Elem) (l : List Elem)
      → All (λ y. x ≢ y) l
      → Unique l
      → Unique (list_insert_ordered less x l)
  unfolding list_insert_ordered
  Unique-insert x [] h u = (tt, tt)
  Unique-insert x (e ∷ l) h u = elim (Bool-cases (less x e)) [
    | inl q ↦ rw q (h, u)
    | inr q ↦ rw q (All-insert (λ y. e ≢ y) x l (λ p. h.0 (sym p)) u.0, Unique-insert x l h.1 u.1)
  ]

module _ (less : Elem → Elem → Bool) (o : IsOrder less) where
  pub Above-trans :
      (a b : Elem) (l : List Elem) → less b a ≡ false → Above less b l → Above less a l
  Above-trans a b [] h p = tt
  Above-trans a b (c ∷ l) h p = (o.trans a b c h p.0, Above-trans a b l h p.1)

  -- The executable test is_sorted is true exactly of ordered lists.
  sorted_from-Sorted :
      (a : Elem) (l : List Elem) → sorted_from less a l ≡ true → Sorted less (a ∷ l)
  unfolding sorted_from
  sorted_from-Sorted a [] h = (tt, tt)
  sorted_from-Sorted a (b ∷ l) h =
      let s = sorted_from-Sorted b l (ground arith) in
      let p : less b a ≡ false = ground arith in ((p, Above-trans a b l p s.0), s)

  pub Sorted-sorted_from :
      (a : Elem) (l : List Elem) → Sorted less (a ∷ l) → sorted_from less a l ≡ true
  unfolding sorted_from
  Sorted-sorted_from a [] s = refl
  Sorted-sorted_from a (b ∷ l) s = ground (arith, Sorted-sorted_from b l s.1, s.0.0)

  -- Where the new element goes: after every element that it is not less than, which keeps equal
  -- elements in order of arrival, and before every element that it is less than.
  pub record Inserted (x : Elem) (l l' : List Elem) : Type 0 where
    pub before : List Elem
    pub after : List Elem
    pub old : l ≡ before ++ after
    pub new : l' ≡ before ++ (x ∷ after)
    pub not_less : All (λ b. less x b ≡ false) before
    pub less_all : All (λ b. less x b ≡ true) after

  less-All-Above :
      (x e : Elem) (l : List Elem) → less x e ≡ true → Above less e l → All (λ b. less x b ≡ true) l
  less-All-Above x e [] h p = tt
  less-All-Above x e (b ∷ l) h p = (ground (arith, o.trans e b x p.0), less-All-Above x e l h p.1)

  pub insert_ordered_lem :
      (x : Elem) (l : List Elem) → Sorted less l → Inserted x l (list_insert_ordered less x l)
  unfolding list_insert_ordered
  insert_ordered_lem x [] s = record {
    before = [];
    after = [];
    old = refl;
    new = refl;
    not_less = tt;
    less_all = tt;
  }
  insert_ordered_lem x (e ∷ l) s = elim (Bool-cases (less x e)) [
    | inl h ↦ record {
      before = [];
      after = e ∷ l;
      old = refl;
      new = rw h;
      not_less = tt;
      less_all = (h, less-All-Above x e l h s.0);
    }
    | inr h ↦
        let r = insert_ordered_lem x l s.1 in
        record {
          before = e ∷ r.before;
          after = r.after;
          old = ap (◌∷◌ e) r.old;
          new = rw h (ap (◌∷◌ e) r.new);
          not_less = (h, r.not_less);
          less_all = r.less_all;
        }
  ]

  pub Sorted-insert :
      (x : Elem) (l : List Elem) → Sorted less l → Sorted less (list_insert_ordered less x l)
  unfolding list_insert_ordered
  Sorted-insert x [] s = (tt, tt)
  Sorted-insert x (e ∷ l) s = elim (Bool-cases (less x e)) [
    | inl h ↦ let p = o.asym x e h in rw h ((p, Above-trans x e l p s.0), s)
    | inr h ↦ rw h (All-insert less (λ b. less b e ≡ false) x l h s.0, Sorted-insert x l s.1)
  ]
