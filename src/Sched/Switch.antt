-- ===== src/Sched/Switch.antt =====
-- What thread_block, thread_yield and thread_unblock do to a valid kernel.
use mathlib.Core.Path.{subst}
use os_pintos.Common.{
  ℕ, ◌≡◌, ◌≢◌, refl, sym, List, [], ◌∷◌, Bool, true, false, ok, arith, ◌==◌, Bool-cases, inl, inr,
  ◌∙◌, ap, ◌⊎◌,
}
use os_pintos.Common.Int.{ℤ}
use os_pintos.Klist.{list_insert_ordered}
use os_pintos.Klist.Order.{All, Sorted}
use os_pintos.Sched.{
  running, ready, blocked, Kernel, with_status, set_status, prio, is_prior_larger, insert_ready,
  thread_unblock, schedule, thread_block, thread_yield, thread_schedule_tail, next_from,
}
use os_pintos.Sched.Invariant.{
  IsQueue, IsValid, IsTop, IsQueue-with_thread, IsQueue-insert, not_ready-ne, run_next, Chosen,
  run_next_lem, prio-with_status, Sorted-prio, not-Chosen,
}
use os_pintos.Sched.Aging.{mem}

schedule-run_next :
    (k : Kernel)
    → ((t : ℕ) → (k.threads t).status ≢ running)
    → schedule k ≡ ok (run_next k k.ready_list)
unfolding schedule
schedule-run_next k n = ground (arith, n k.current)

pub current-ne : (k : Kernel) → IsValid k → All (λ u. k.current ≢ u) k.ready_list
current-ne k v =
    not_ready-ne k.threads k.current k.ready_list (λ h. ground (arith, v.current_runs))
      v.queue.all_ready

-- From `k` the running thread has blocked, and `k'` runs another, or the idle thread.
pub record Blocked (k k' : Kernel) : Type 0 where
  pub valid : IsValid k'
  pub chosen : Chosen k' k.ready_list
  pub sleeper :
      k.current ≢ k'.current
      → k'.threads k.current ≡ record (k.threads k.current) { status = blocked }
  pub others : (u : ℕ) → u ≢ k.current → u ≢ k'.current → k'.threads u ≡ k.threads u
  pub idle : k'.idle_thread ≡ k.idle_thread

run_next-idle : (k : Kernel) (l : List ℕ) → (run_next k l).idle_thread ≡ k.idle_thread
unfolding next_from thread_schedule_tail
run_next-idle k [] = refl
run_next-idle k (t ∷ l) = refl

-- thread_block of a valid kernel returns a valid kernel, in which the front of the ready list runs,
-- or the idle thread if no thread was ready; a thread that ran before and runs no longer is blocked,
-- and no other thread is changed.
pub block_lem : (k : Kernel) → IsValid k → (k' : Kernel) × (thread_block k ≡ ok k') × Blocked k k'
unfolding thread_block
block_lem k v =
    let k1 = set_status k k.current blocked in
    let n : (t : ℕ) → (k1.threads t).status ≢ running = λ t h. ground (arith, v.one_runs t) in
    let q =
      IsQueue-with_thread k.threads k.current (record (k.threads k.current) { status = blocked })
        k.ready_list (current-ne k v) v.queue in
    let (w, c, same) = run_next_lem k1 k.ready_list refl q n in
    (
      run_next k1 k.ready_list,
      ground (arith, schedule-run_next k1 n, v.current_runs),
      record {
        valid = w;
        chosen = c;
        sleeper = λ h. ground (arith, same k.current h);
        others = λ u g h. ground (arith, same u h, g);
        idle = run_next-idle k1 k.ready_list;
      },
    )

-- The front of an ordered list is not below any of its elements.
All-front :
    (less : ℕ → ℕ → Bool) (P : ℕ → Type 0) (x : ℕ) (l : List ℕ)
    → All P (list_insert_ordered less x l)
    → P x
unfolding list_insert_ordered
All-front less P x [] a = a.0
All-front less P x (e ∷ l) a = elim (Bool-cases (less x e)) [
  | inl h ↦ let b : All P (x ∷ e ∷ l) = rw h at a in b.0
  | inr h ↦ let b : All P (e ∷ list_insert_ordered less x l) = rw h at a in All-front less P x l b.1
]

irrefl : (p : ℕ → ℤ) (t : ℕ) → is_prior_larger p t t ≡ false
irrefl p t = ground arith

-- Whoever is chosen from a queue is not below a thread that was put into it.
Chosen-not_below :
    (k : Kernel) (p : ℕ → ℤ) (x : ℕ) (ready_list l : List ℕ)
    → list_insert_ordered (is_prior_larger p) x ready_list ≡ l
    → Sorted (is_prior_larger p) l
    → Chosen k l
    → is_prior_larger p x k.current ≡ false
Chosen-not_below k p x r [] e s c =
    absurd (All-front (is_prior_larger p) (λ _. ⊥) x r (subst (All (λ _. ⊥)) (sym e) tt))
Chosen-not_below k p x r (h ∷ l) e s c = rw c.0 (
    All-front (is_prior_larger p) (λ y. is_prior_larger p y h ≡ false) x r
      (subst (All (λ y. is_prior_larger p y h ≡ false)) (sym e) (irrefl p h, s.0)))

Chosen-IsTop : (k : Kernel) (l : List ℕ) → Chosen k l → IsTop k
Chosen-IsTop k [] c = rw c.1 tt
Chosen-IsTop k (h ∷ l) c = c.2

-- A thread that runs, or waits in the ready list to run.
abbrev pub IsRunnable : Kernel → ℕ → Type 0
IsRunnable k t = (t ≡ k.current) ⊎ (mem t k.ready_list ≡ true)

pub mem-insert :
    (less : ℕ → ℕ → Bool) (x u : ℕ) (l : List ℕ)
    → mem u l ≡ true
    → mem u (list_insert_ordered less x l) ≡ true
unfolding list_insert_ordered
mem-insert less x u [] h = cc
mem-insert less x u (e ∷ l) h = elim (Bool-cases (less x e)) [
  | inl y ↦ ground (arith, y, h)
  | inr n ↦ ground (arith, n, h, mem-insert less x u l)
]

pub mem-inserted :
    (less : ℕ → ℕ → Bool) (x : ℕ) (l : List ℕ) → mem x (list_insert_ordered less x l) ≡ true
unfolding list_insert_ordered
mem-inserted less x [] = ground arith
mem-inserted less x (e ∷ l) = elim (Bool-cases (less x e)) [
  | inl y ↦ ground (arith, y)
  | inr n ↦ ground (arith, n, mem-inserted less x l)
]

Chosen-IsRunnable : (k : Kernel) (l : List ℕ) (u : ℕ) → Chosen k l → mem u l ≡ true → IsRunnable k u
Chosen-IsRunnable k [] u c h = cc
Chosen-IsRunnable k (t ∷ l) u c h = elim (Bool-cases (u == t)) [
  | inl y ↦ let e : u ≡ t = ground (arith, y) in inl (e ∙ sym c.0)
  | inr n ↦ let m : mem u l ≡ true = ground (arith, n, h) in inr (ap (mem u) c.1 ∙ m)
]

-- What a switch from `k` to `k'` keeps of the threads and the variables.
pub record Kept (k k' : Kernel) : Type 0 where
  pub prios : prio k'.threads ≡ prio k.threads
  pub wake_t : (u : ℕ) → (k'.threads u).wake_t ≡ (k.threads u).wake_t
  pub blocked_ones :
      (u : ℕ) → (k.threads u).status ≡ blocked → k.idle_thread ≢ u → k'.threads u ≡ k.threads u
  pub idle : k'.idle_thread ≡ k.idle_thread
  pub mlfqs : k'.mlfqs ≡ k.mlfqs
  pub all_list : k'.all_list ≡ k.all_list

-- After a yield a thread of the largest priority runs, the old one included unless it idles; the
-- old one and those that were ready run or are ready.
pub record Yielded (k k' : Kernel) : Type 0 where
  pub valid : IsValid k'
  pub top : IsTop k'
  pub not_below :
      k.current ≢ k.idle_thread → is_prior_larger (prio k.threads) k.current k'.current ≡ false
  pub runnable : (u : ℕ) → mem u k.ready_list ≡ true → IsRunnable k' u
  pub gave_way : k.current ≢ k.idle_thread → IsRunnable k' k.current
  pub kept : Kept k k'

run_next-Kept :
    (k : Kernel) (l : List ℕ)
    → (prio (run_next k l).threads ≡ prio k.threads)
      × ((u : ℕ) → ((run_next k l).threads u).wake_t ≡ (k.threads u).wake_t)
      × ((run_next k l).mlfqs ≡ k.mlfqs)
      × ((run_next k l).all_list ≡ k.all_list)
unfolding next_from thread_schedule_tail
run_next-Kept k [] =
    (prio-with_status k.threads k.idle_thread running, λ u. ground arith, refl, refl)
run_next-Kept k (t ∷ l) = (prio-with_status k.threads t running, λ u. ground arith, refl, refl)

yield_to :
    (k : Kernel) (l : List ℕ)
    → IsValid k
    → IsQueue (with_status k.threads k.current ready) l
    → (k' : Kernel) × (schedule (set_status (record k { ready_list = l }) k.current ready) ≡ ok k')
      × IsValid k'
      × Chosen k' l
      × Kept k k'
yield_to k l v q =
    let k1 = set_status (record k { ready_list = l }) k.current ready in
    let n : (t : ℕ) → (k1.threads t).status ≢ running = λ t h. ground (arith, v.one_runs t) in
    let (w, c, same) = run_next_lem k1 l refl q n in
    let (p, wake, mlfqs, all) = run_next-Kept k1 l in
    let k' = run_next k1 l in
    let idle = run_next-idle k1 l in
    (
      k',
      schedule-run_next k1 n,
      w,
      c,
      record {
        prios = p ∙ prio-with_status k.threads k.current ready;
        wake_t = λ u. wake u ∙ ground arith;
        blocked_ones = λ u b i.
            let other : u ≢ k.current = λ e. ground (arith, v.current_runs, b, e) in
            let away =
              not-Chosen k1 k' u l q.all_ready c (λ h. ground (arith, b, other, h))
                (λ e. i (sym idle ∙ e)) in
            same u away ∙ ground (arith, other);
        idle = idle;
        mlfqs = mlfqs;
        all_list = all;
      },
    )

-- thread_yield lets a thread of the largest priority run, and keeps the ready list in order.
pub yield_lem : (k : Kernel) → IsValid k → (k' : Kernel) × (thread_yield k ≡ ok k') × Yielded k k'
unfolding thread_yield
yield_lem k v = elim (Bool-cases (k.current == k.idle_thread)) [
  | inl idle ↦
      let q = IsQueue-with_thread k.threads k.current _ k.ready_list (current-ne k v) v.queue in
      let (k', e, w, c, s) = yield_to k k.ready_list v q in
      (
        k',
        ground (arith, e, v.current_runs),
        record {
          valid = w;
          top = Chosen-IsTop k' k.ready_list c;
          not_below = λ h. absurd (ground arith);
          runnable = λ u h. Chosen-IsRunnable k' k.ready_list u c h;
          gave_way = λ h. absurd (ground arith);
          kept = s;
        },
      )
  | inr busy ↦
      let p = prio k.threads in
      let less = is_prior_larger p in
      let l = list_insert_ordered less k.current k.ready_list in
      let q =
        IsQueue-insert k.threads k.current k.ready_list (λ h. ground (arith, v.current_runs))
          v.queue in
      let (k', e, w, c, s) = yield_to k l v q in
      (
        k',
        ground (arith, e, v.current_runs),
        record {
          valid = w;
          top = Chosen-IsTop k' l c;
          not_below = λ h.
              Chosen-not_below k' p k.current k.ready_list l refl
                (Sorted-prio l (prio-with_status k.threads k.current ready) q.sorted) c;
          runnable = λ u h. Chosen-IsRunnable k' l u c (mem-insert less k.current u k.ready_list h);
          gave_way =
              λ h. Chosen-IsRunnable k' l k.current c (mem-inserted less k.current k.ready_list);
          kept = s;
        },
      )
]

-- thread_unblock makes a blocked thread ready and puts it into the ready list, in order; any other
-- thread stops the machine.
pub unblock_lem :
    (k : Kernel) (t : ℕ)
    → IsValid k
    → (k.threads t).status ≡ blocked
    → (thread_unblock k t ≡ ok (set_status (insert_ready k t) t ready))
      × IsValid (set_status (insert_ready k t) t ready)
unfolding thread_unblock
unblock_lem k t v b = (
  ground (arith, b),
  record {
    queue = IsQueue-insert k.threads t k.ready_list (λ h. ground (arith, b)) v.queue;
    current_runs = ground (arith, v.current_runs, b);
    one_runs = λ u h. ground (arith, v.one_runs u, b);
  },
)
