-- ===== src/Sched/Aging.antt =====
-- thread_aging: the ready threads move up together, so the ready list stays in order.
use os_pintos.Common.{
  ℕ, ◌≡◌, ◌≢◌, refl, ap, List, [], ◌∷◌, Bool, true, false, arith, ◌==◌, if◌then◌else◌,
}
use os_pintos.Common.Int.{ℤ, pos, ltb_ℤ, ◌+ℤ◌}
use os_pintos.Klist.Order.{All, Above, Sorted, Unique}
use os_pintos.Sched.{Thread, Kernel, prio, is_prior_larger, set_priority, age_all, thread_aging}
use os_pintos.Sched.Invariant.{IsQueue, IsValid}

abbrev pub mem : ℕ → List ℕ → Bool
mem t [] = false
mem t (u ∷ l) = if t == u then true else mem t l

pub mem_of_all : (t : ℕ) (l : List ℕ) → All (λ u. t ≢ u) l → mem t l ≡ false
mem_of_all t [] h = refl
mem_of_all t (u ∷ l) h = ground (arith, h.0, mem_of_all t l h.1)

abbrev older : Thread → Thread
older th = record th { priority = th.priority +ℤ pos 1 }

-- What the loop does to each thread.
age_all_lem :
    (l : List ℕ) (k : Kernel) (u : ℕ)
    → Unique l
    → (age_all l k).threads u ≡ (if mem u l then older (k.threads u) else k.threads u)
unfolding age_all
age_all_lem [] k u h = refl
age_all_lem (t ∷ l) k u h =
    ground (
      arith,
      age_all_lem l (set_priority k t (prio k.threads t +ℤ pos 1)) u h.1,
      mem_of_all t l h.0,
    )

pub age_all-rest :
    (l : List ℕ) (k : Kernel) → age_all l k ≡ record k { threads = (age_all l k).threads }
unfolding age_all
age_all-rest [] k = refl
age_all-rest (t ∷ l) k = let k1 = set_priority k t (prio k.threads t +ℤ pos 1) in age_all-rest l k1

-- The members of a list are its members.
All-mem : (l m : List ℕ) → ((u : ℕ) → mem u l ≡ true → mem u m ≡ true) → All (λ u. mem u m ≡ true) l
All-mem [] m h = tt
All-mem (t ∷ l) m h = (h t (ground arith), All-mem l m (λ u g. h u (ground (arith, g))))

ltb_shift : (a b : ℤ) → ltb_ℤ (a +ℤ pos 1) (b +ℤ pos 1) ≡ ltb_ℤ a b
unfolding ◌+ℤ◌
ltb_shift a b = ground arith

Above-shift :
    (p q : ℕ → ℤ) (t : ℕ) (l : List ℕ)
    → q t ≡ p t +ℤ pos 1
    → All (λ u. q u ≡ p u +ℤ pos 1) l
    → Above (is_prior_larger p) t l
    → Above (is_prior_larger q) t l
Above-shift p q t [] e h a = tt
Above-shift p q t (u ∷ l) e h a = (rw (e, h.0, ltb_shift) a.0, Above-shift p q t l e h.1 a.1)

Sorted-shift :
    (p q : ℕ → ℤ) (l : List ℕ)
    → All (λ u. q u ≡ p u +ℤ pos 1) l
    → Sorted (is_prior_larger p) l
    → Sorted (is_prior_larger q) l
Sorted-shift p q [] h s = tt
Sorted-shift p q (u ∷ l) h s = (Above-shift p q u l h.0 h.1 s.0, Sorted-shift p q l h.1 s.1)

pub All-map : {P Q : ℕ → Type 0} → ((u : ℕ) → P u → Q u) → (l : List ℕ) → All P l → All Q l
All-map f [] a = tt
All-map f (u ∷ l) a = (f u a.0, All-map f l a.1)

-- After thread_aging of a valid kernel the priority of every thread in the ready list is one more,
-- no other thread is changed, and the kernel is valid, its ready list the same and in order.
pub aging_lem :
    (k : Kernel)
    → IsValid k
    → IsValid (thread_aging k)
      × ((thread_aging k).ready_list ≡ k.ready_list)
      × ((u : ℕ)
          → (thread_aging k).threads u ≡ (
              if mem u k.ready_list
              then record (k.threads u) { priority = prio k.threads u +ℤ pos 1 }
              else k.threads u))
unfolding thread_aging
aging_lem k v =
    let l = k.ready_list in
    let k1 = age_all l k in
    let each = λ (u : ℕ). age_all_lem l k u v.queue.unique in
    let rest = age_all-rest l k in
    let members = All-mem l l (λ u h. h) in
    let queue : IsQueue k1.threads l = record {
      sorted =
          Sorted-shift (prio k.threads) (prio k1.threads) l
            (All-map (λ u h. ground (arith, each u, h)) l members) v.queue.sorted;
      unique = v.queue.unique;
      all_ready = All-map (λ u h. ground (arith, each u, h)) l v.queue.all_ready;
    } in
    let aged : IsValid (record k { threads = k1.threads }) = record {
      queue = queue;
      current_runs = ground (arith, each k.current, v.current_runs);
      one_runs = λ u r. ground (arith, each u, v.one_runs u, r);
    } in
    (rw rest aged, ap (λ (j : Kernel). j.ready_list) rest, each)
