-- ===== src/Sched/Priority.antt =====
-- Priorities: a change of the running thread's, and a new thread's.
use os_pintos.Common.{
  ap, ◌∙◌, ◌++◌, ◌&&◌, ◌==◌, not, true, if◌then◌else◌, ℕ, ◌≡◌, ◌≢◌, refl, sym, List, [], ◌∷◌, false,
  ok, arith, Bool-cases, inl, inr,
}
use os_pintos.Common.Int.{ℤ, ltb_ℤ, ◌≤ℤ◌}
use os_pintos.Klist.Order.{All, Above, All-insert}
use os_pintos.Sched.{
  ready, Thread, Kernel, with_thread, set_status, prio, is_prior_larger, insert_ready,
  thread_current, set_priority, thread_get_priority, thread_set_priority, thread_create, pri_min,
  pri_max, fresh_thread, with_new,
}
use os_pintos.Sched.Invariant.{
  IsValid, IsTop, IsQueue-with_thread, prio-with_status, Above-prio, Above-congr, prio-outside,
}
use os_pintos.Sched.Switch.{
  current-ne, yield_lem, unblock_lem, IsRunnable, mem-insert, mem-inserted,
}
use os_pintos.Sched.Aging.{mem}

-- A change of a thread that is not ready, and not its state, keeps a kernel valid.
pub with_thread-IsValid :
    (k : Kernel) (t : ℕ) (th : Thread)
    → IsValid k
    → All (λ u. t ≢ u) k.ready_list
    → th.status ≡ (k.threads t).status
    → IsValid (record k { threads = with_thread k.threads t th })
with_thread-IsValid k t th v h e = record {
  queue = IsQueue-with_thread k.threads t th k.ready_list h v.queue;
  current_runs = ground (arith, v.current_runs);
  one_runs = λ u r. ground (arith, v.one_runs u);
}

Above-raised :
    (p q : ℕ → ℤ) (t : ℕ) (l : List ℕ)
    → p t ≤ℤ q t
    → All (λ u. p u ≡ q u) l
    → Above (is_prior_larger p) t l
    → Above (is_prior_larger q) t l
Above-raised p q t [] e h a = tt
Above-raised p q t (u ∷ l) e h a = (ground (arith, h.0, a.0), Above-raised p q t l e h.1 a.1)

-- The running thread's priority is set to `n` in all but the feedback queue, and no other changes.
abbrev pub Reprioritised : Kernel → ℤ → Kernel → Type 0
Reprioritised k n k' =
    (u : ℕ) → prio k'.threads u ≡ (if not k.mlfqs && k.current == u then n else prio k.threads u)

-- After thread_set_priority the thread that ran has the new priority, except with the feedback queue,
-- where nothing changes; no other priority changes, the kernel is valid, and a running thread has a
-- largest priority: one that lowers its own below a ready one's gives way at once. The thread that
-- called runs or is ready, unless it idles.
pub set_priority_lem :
    (k : Kernel) (new_priority : ℤ)
    → IsValid k
    → IsTop k
    → (k' : Kernel) × (thread_set_priority k new_priority ≡ ok k')
      × Reprioritised k new_priority k'
      × IsValid k'
      × IsTop k'
      × (k.current ≢ k.idle_thread → IsRunnable k' k.current)
unfolding thread_set_priority thread_get_priority thread_current
set_priority_lem k n v top =
    let cur = k.current in
    let k1 = set_priority k cur n in
    let v1 = with_thread-IsValid k cur _ v (current-ne k v) refl in
    let (k2, e, y) = yield_lem k1 v1 in
    elim (Bool-cases k.mlfqs) [
      | inl m ↦ (k, ground arith, λ u. ground (arith, m), v, top, λ _. inl refl)
      | inr m ↦
          let set : Reprioritised k n k1 = λ u. ground (arith, m) in
          elim (Bool-cases (ltb_ℤ n (prio k.threads cur))) [
            | inl lower ↦ (
              k2,
              ground (arith, v.current_runs, e),
              λ u. ap (λ (p : ℕ → ℤ). p u) y.kept.prios ∙ set u,
              y.valid,
              y.top,
              y.gave_way,
            )
            | inr higher ↦ (
              k1,
              ground (arith, v.current_runs),
              set,
              v1,
              Above-raised (prio k.threads) (prio k1.threads) cur k.ready_list (ground arith)
                  (prio-outside k.threads cur _ k.ready_list (current-ne k v)) top,
              λ _. inl refl,
            )
          ]
    ]

with_new-IsValid :
    (k : Kernel) (t : ℕ) (priority : ℤ)
    → IsValid k
    → t ≢ k.current
    → All (λ u. t ≢ u) k.ready_list
    → IsValid (with_new k t priority)
with_new-IsValid k t priority v ne out = record {
  queue = IsQueue-with_thread k.threads t (fresh_thread k priority) k.ready_list out v.queue;
  current_runs = ground (arith, v.current_runs, ne);
  one_runs = λ u r. ground (arith, v.one_runs u);
}

-- What thread_create of thread `t` leaves.
pub record Created (k : Kernel) (t : ℕ) (priority : ℤ) (k' : Kernel) : Type 0 where
  pub valid : IsValid k'
  pub top : IsTop k'
  pub runnable : IsRunnable k' t
  pub priorities : (u : ℕ) → prio k'.threads u ≡ (if t == u then priority else prio k.threads u)
  pub all_list : k'.all_list ≡ k.all_list ++ (t ∷ [])
  pub others : (u : ℕ) → mem u k.ready_list ≡ true → IsRunnable k' u

-- A new thread, on a page that no thread has, of a priority in range: afterwards it has that priority,
-- is among all threads and runs or waits in the ready list, as every thread does that was ready; the
-- kernel is valid and no ready thread has a larger priority than the running one.
pub create_lem :
    (k : Kernel) (t : ℕ) (priority : ℤ)
    → IsValid k
    → IsTop k
    → t ≢ k.current
    → All (λ u. t ≢ u) k.ready_list
    → pri_min ≤ℤ priority
    → priority ≤ℤ pri_max
    → (k' : Kernel) × (thread_create k t priority ≡ ok k') × Created k t priority k'
unfolding thread_create
create_lem k t priority v top ne out lo hi =
    let k1 = with_new k t priority in
    let p1 = prio k1.threads in
    let less = is_prior_larger p1 in
    let v1 = with_new-IsValid k t priority v ne out in
    let (e2, v2) = unblock_lem k1 t v1 (ground arith) in
    let k2 = set_status (insert_ready k1 t) t ready in
    let (k3, e3, y) = yield_lem k2 v2 in
    let same = prio-with_status k1.threads t ready in
    let new : (u : ℕ) → prio k2.threads u ≡ (if t == u then priority else prio k.threads u) =
      λ u. ap (λ (p : ℕ → ℤ). p u) same ∙ ground arith in
    let here = mem-inserted less t k.ready_list in
    let there = λ (u : ℕ) (h : mem u k.ready_list ≡ true). mem-insert less t u k.ready_list h in
    elim (Bool-cases (ltb_ℤ (prio k2.threads k2.current) (prio k2.threads t))) [
      | inl larger ↦ (
        k3,
        ground (arith, e2, e3, v2.current_runs),
        record {
          valid = y.valid;
          top = y.top;
          runnable = y.runnable t here;
          priorities = λ u. ap (λ (p : ℕ → ℤ). p u) y.kept.prios ∙ new u;
          all_list = y.kept.all_list;
          others = λ u h. y.runnable u (there u h);
        },
      )
      | inr not_larger ↦ (
        k2,
        ground (arith, e2, v2.current_runs),
        record {
          valid = v2;
          top = Above-prio k.current k2.ready_list (sym same) (
              All-insert less (λ b. is_prior_larger p1 b k.current ≡ false) t k.ready_list
                (ground arith)
                (Above-congr (prio k.threads) p1 k.current k.ready_list (ground arith)
                  (prio-outside k.threads t (fresh_thread k priority) k.ready_list out) top));
          runnable = inr here;
          priorities = new;
          all_list = refl;
          others = λ u h. inr (there u h);
        },
      )
    ]
