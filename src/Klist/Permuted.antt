-- ===== src/Klist/Permuted.antt =====
-- What holds of all elements of a list, and that none stands twice, does not depend on the order.
use mathlib.Core.Path.{subst}
use mathlib.Core.HLevel.{¬_prop}
use mathlib.Core.Logic.{∥∥₁_elim}
use mathlib.Core.List.{Perm, Mem, Memᴰ, mem-cons_self, mem-cons_of_mem, Nodup, Pairwise}
use mathlib.Core.List.Perm
use os_pintos.Common.{◌≢◌, sym, List, [], ◌∷◌}
use os_pintos.Klist.{Elem}
use os_pintos.Klist.Order.{All, Unique}

All_of_mem : (P : Elem → Type 0) (l : List Elem) → ((x : Elem) → Mem x l → P x) → All P l
All_of_mem P [] h = tt
All_of_mem P (x ∷ l) h = (h x mem-cons_self, All_of_mem P l (λ y m. h y (mem-cons_of_mem x m)))

All-at : (P : Elem → Type 0) (l : List Elem) (x : Elem) → Memᴰ x l → All P l → P x
All-at P [] x m a = elim m [ ]
All-at P (y ∷ l) x (Memᴰ.head e) a = subst P (sym e) a.0
All-at P (y ∷ l) x (Memᴰ.tail m) a = All-at P l x m a.1

module _ (P : Elem → Type 0) (prop : (x : Elem) → IsProp (P x)) where
  mem_of_all : (l : List Elem) → All P l → (x : Elem) → Mem x l → P x
  mem_of_all l a x m = ∥∥₁_elim m (prop x) (λ d. All-at P l x d a)

  pub All_of_perm : {l l' : List Elem} → Perm l l' → All P l → All P l'
  All_of_perm {l} {l'} p a = All_of_mem P l' (λ x m. mem_of_all l a x ((Perm.mem_iff p).1 m))

ne_prop : (x y : Elem) → IsProp (x ≢ y)
ne_prop x y = ¬_prop

Unique-of_Nodup : (l : List Elem) → Nodup l → Unique l
Unique-of_Nodup [] n = tt
Unique-of_Nodup (x ∷ l) (Pairwise.cons h p) =
    (All_of_mem (λ y. x ≢ y) l (λ y m. h y m), Unique-of_Nodup l p)

Nodup-of_Unique : (l : List Elem) → Unique l → Nodup l
Nodup-of_Unique [] u = Pairwise.nil
Nodup-of_Unique (x ∷ l) u =
    Pairwise.cons (λ y m. mem_of_all (λ z. x ≢ z) (ne_prop x) l u.0 y m) (Nodup-of_Unique l u.1)

pub Unique-of_perm : {l l' : List Elem} → Perm l l' → Unique l → Unique l'
Unique-of_perm {l} {l'} p u = Unique-of_Nodup l' ((Perm.Nodup-iff p).0 (Nodup-of_Unique l u))
