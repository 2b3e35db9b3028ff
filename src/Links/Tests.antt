-- ===== src/Links/Tests.antt =====
-- The routines on links at a list of two elements, 3 and 4, between the sentinels 1 and 2.
use os_pintos.Common.{◌≡◌, ◌≢◌, refl, [], ◌∷◌, ok, Each, arith, ◌==◌, if◌then◌else◌}
use os_pintos.Links.{Memory, Ends, list_init, list_insert, list_remove}
use os_pintos.Links.Chain.{Distinct, nodes, IsList}
use os_pintos.Links.Refine.{IsNew, list_insert_lem}
use os_pintos.Links.Remove.{list_remove_lem}
use os_pintos.Links.Fifo.{push_all, pop_all, fifo}

abbrev ends : Ends
ends = record { head = 1; tail = 2 }

abbrev blank : Memory
blank = record { next = λ a. 0; prev = λ a. 0 }

abbrev pair : Memory
pair = record {
  next = λ a. if a == 1 then 3 else if a == 3 then 4 else if a == 4 then 2 else 0;
  prev = λ a. if a == 2 then 4 else if a == 4 then 3 else if a == 3 then 1 else 0;
}

apart : Distinct (nodes ends (3 ∷ 4 ∷ []))
apart = (
  (omega arith, (omega arith, (omega arith, tt))),
  ((omega arith, (omega arith, tt)), ((omega arith, tt), (tt, tt))),
)

real : Each (λ x. x ≢ 0) (nodes ends (3 ∷ 4 ∷ []))
real = (omega arith, (omega arith, (omega arith, (omega arith, tt))))

pair-IsList : IsList pair ends (3 ∷ 4 ∷ [])
pair-IsList = record {
  chain = (refl, refl, (refl, refl, (refl, refl)));
  first = refl;
  last = refl;
  distinct = apart;
  real = real;
}

five-IsNew : IsNew ends (3 ∷ 4 ∷ []) 5
five-IsNew = record {
  real = omega arith;
  apart = (omega arith, (omega arith, (omega arith, (omega arith, tt))));
}

list_insert_lem_example :
    (n : Memory) × (list_insert pair 4 5 ≡ ok n) × IsList n ends (3 ∷ 5 ∷ 4 ∷ [])
list_insert_lem_example = list_insert_lem pair ends (3 ∷ []) 4 [] 5 pair-IsList five-IsNew

list_remove_lem_example : (n : Memory) × (list_remove pair 3 ≡ ok (n, 4)) × IsList n ends (4 ∷ [])
list_remove_lem_example = list_remove_lem pair ends [] 3 (4 ∷ []) pair-IsList

fifo_example :
    (n : Memory) × (n1 : Memory) × (push_all (list_init blank ends) ends (3 ∷ 4 ∷ []) ≡ ok n)
    × IsList n ends (3 ∷ 4 ∷ [])
    × (pop_all 2 n ends ≡ ok (n1, 3 ∷ 4 ∷ []))
    × IsList n1 ends []
fifo_example = fifo blank ends (3 ∷ 4 ∷ []) apart real
