-- ===== src/Sched/Invariant.antt =====
-- The scheduler's invariant, and that each switch of threads keeps it and runs a thread of the
-- highest priority.
use mathlib.Core.Path.{fun_ext, subst}
use os_pintos.Common.{ℕ, ◌≡◌, ◌≢◌, refl, sym, ◌∙◌, List, [], ◌∷◌, arith}
use os_pintos.Common.Int.{ℤ}
use os_pintos.Klist.{list_insert_ordered}
use os_pintos.Klist.Order.{
  IsOrder, All, Above, Sorted, Sorted-insert, Unique, Unique-insert, All-insert,
}
use os_pintos.Sched.{
  Status, running, ready, Thread, Kernel, Threads, with_thread, with_status, prio, is_prior_larger,
  next_from, thread_schedule_tail,
}

-- Larger priorities first is an order, whatever the priorities are.
pub prior-IsOrder : (p : ℕ → ℤ) → IsOrder (is_prior_larger p)
prior-IsOrder p = record { asym = λ a b h. ground arith; trans = λ a b c g h. ground arith }

pub prio-with_status : (f : Threads) (t : ℕ) (s : Status) → prio (with_status f t s) ≡ prio f
prio-with_status f t s = fun_ext (λ u. ground arith)

abbrev pub IsReady : Threads → ℕ → Type 0
IsReady f t = (f t).status ≡ ready

-- Of a ready list: it is in order, without repetition, and holds ready threads.
pub record IsQueue (f : Threads) (l : List ℕ) : Type 0 where
  pub sorted : Sorted (is_prior_larger (prio f)) l
  pub unique : Unique l
  pub all_ready : All (IsReady f) l

-- While a thread runs: the ready list is a queue, and one thread runs.
pub record IsValid (k : Kernel) : Type 0 where
  pub queue : IsQueue k.threads k.ready_list
  pub current_runs : (k.threads k.current).status ≡ running
  pub one_runs : (t : ℕ) → (k.threads t).status ≡ running → t ≡ k.current

-- Just before a switch no thread runs.
pub record IsStopped (k : Kernel) : Type 0 where
  pub queue : IsQueue k.threads k.ready_list
  pub none_runs : (t : ℕ) → (k.threads t).status ≢ running

-- No ready thread has a larger priority than the running one.
abbrev pub IsTop : Kernel → Type 0
IsTop k = Above (is_prior_larger (prio k.threads)) k.current k.ready_list

-- The assignments to thread `t` are outside a list that `t` is not in.
pub prio-outside :
    (f : Threads) (t : ℕ) (th : Thread) (l : List ℕ)
    → All (λ u. t ≢ u) l
    → All (λ u. prio f u ≡ prio (with_thread f t th) u) l
prio-outside f t th [] h = tt
prio-outside f t th (u ∷ l) h = (ground (arith, h.0), prio-outside f t th l h.1)

All-with_thread :
    (f : Threads) (t : ℕ) (th : Thread) (l : List ℕ)
    → All (λ u. t ≢ u) l
    → All (IsReady f) l
    → All (IsReady (with_thread f t th)) l
All-with_thread f t th [] h a = tt
All-with_thread f t th (u ∷ l) h a = (ground (arith, h.0, a.0), All-with_thread f t th l h.1 a.1)

-- Only the priorities of the elements matter for their order.
pub Above-congr :
    (p q : ℕ → ℤ) (t : ℕ) (l : List ℕ)
    → p t ≡ q t
    → All (λ u. p u ≡ q u) l
    → Above (is_prior_larger p) t l
    → Above (is_prior_larger q) t l
Above-congr p q t [] e h a = tt
Above-congr p q t (u ∷ l) e h a = (rw (← e, ← h.0) a.0, Above-congr p q t l e h.1 a.1)

pub Sorted-congr :
    (p q : ℕ → ℤ) (l : List ℕ)
    → All (λ u. p u ≡ q u) l
    → Sorted (is_prior_larger p) l
    → Sorted (is_prior_larger q) l
Sorted-congr p q [] h s = tt
Sorted-congr p q (u ∷ l) h s = (Above-congr p q u l h.0 h.1 s.0, Sorted-congr p q l h.1 s.1)

-- A thread whose state is another than ready is not in the ready list.
pub not_ready-ne :
    (f : Threads) (t : ℕ) (l : List ℕ)
    → (f t).status ≢ ready
    → All (IsReady f) l
    → All (λ u. t ≢ u) l
not_ready-ne f t [] h a = tt
not_ready-ne f t (u ∷ l) h a = (λ e. h (rw e a.0), not_ready-ne f t l h a.1)

pub Sorted-prio :
    {p q : ℕ → ℤ} (l : List ℕ) → p ≡ q → Sorted (is_prior_larger p) l → Sorted (is_prior_larger q) l
Sorted-prio l e s = subst (λ r. Sorted (is_prior_larger r) l) e s

pub Above-prio :
    {p q : ℕ → ℤ} (t : ℕ) (l : List ℕ)
    → p ≡ q
    → Above (is_prior_larger p) t l
    → Above (is_prior_larger q) t l
Above-prio t l e s = subst (λ r. Above (is_prior_larger r) t l) e s

-- A change of a thread outside the queue leaves it a queue.
pub IsQueue-with_thread :
    (f : Threads) (t : ℕ) (th : Thread) (l : List ℕ)
    → All (λ u. t ≢ u) l
    → IsQueue f l
    → IsQueue (with_thread f t th) l
IsQueue-with_thread f t th l h q = record {
  sorted = Sorted-congr (prio f) (prio (with_thread f t th)) l (prio-outside f t th l h) q.sorted;
  unique = q.unique;
  all_ready = All-with_thread f t th l h q.all_ready;
}

-- A thread that was not ready joins the queue.
pub IsQueue-insert :
    (f : Threads) (t : ℕ) (l : List ℕ)
    → (f t).status ≢ ready
    → IsQueue f l
    → IsQueue (with_status f t ready) (list_insert_ordered (is_prior_larger (prio f)) t l)
IsQueue-insert f t l h q =
    let less = is_prior_larger (prio f) in
    let out = not_ready-ne f t l h q.all_ready in
    record {
      sorted =
          Sorted-prio _ (sym (prio-with_status f t ready))
            (Sorted-insert less (prior-IsOrder (prio f)) t l q.sorted);
      unique = Unique-insert less t l out q.unique;
      all_ready =
          All-insert less (IsReady (with_status f t ready)) t l (ground arith)
            (All-with_thread f t (record (f t) { status = ready }) l out q.all_ready);
    }

-- The switch takes the front of the queue, or the idle thread if the queue is empty.
abbrev pub run_next : Kernel → List ℕ → Kernel
run_next k l = let (k1, next) = next_from k l in thread_schedule_tail k1 next

-- Who runs after a switch: the idle thread where none was ready, else a thread of the largest
-- priority.
abbrev pub Chosen : Kernel → List ℕ → Type 0
Chosen k [] = (k.current ≡ k.idle_thread) × (k.ready_list ≡ [])
Chosen k (t ∷ l) = (k.current ≡ t) × (k.ready_list ≡ l) × IsTop k

pub run_next_lem :
    (k : Kernel) (l : List ℕ)
    → k.ready_list ≡ l
    → IsQueue k.threads l
    → ((t : ℕ) → (k.threads t).status ≢ running)
    → IsValid (run_next k l)
      × Chosen (run_next k l) l
      × ((u : ℕ) → u ≢ (run_next k l).current → (run_next k l).threads u ≡ k.threads u)
unfolding next_from thread_schedule_tail
run_next_lem k [] e q n = (
  record {
    queue = rw e (IsQueue-with_thread k.threads k.idle_thread _ [] tt q);
    current_runs = ground arith;
    one_runs = λ t h. ground (arith, n t);
  },
  (refl, e),
  λ u h. ground (arith, h),
)
run_next_lem k (t ∷ l) e q n =
    let tail : IsQueue k.threads l = record {
      sorted = q.sorted.1;
      unique = q.unique.1;
      all_ready = q.all_ready.1;
    } in
    (
      record {
        queue = IsQueue-with_thread k.threads t _ l q.unique.0 tail;
        current_runs = ground arith;
        one_runs = λ u h. ground (arith, n u);
      },
      (refl, refl, Above-prio t l (sym (prio-with_status k.threads t running)) q.sorted.0),
      λ u h. ground (arith, h),
    )

-- A thread that was not ready, and is not the idle thread, does not run next.
pub not-Chosen :
    (k k' : Kernel) (u : ℕ) (l : List ℕ)
    → All (λ t. (k.threads t).status ≡ ready) l
    → Chosen k' l
    → (k.threads u).status ≢ ready
    → k'.idle_thread ≢ u
    → u ≢ k'.current
not-Chosen k k' u [] a c h g e = g (sym c.0 ∙ sym e)
not-Chosen k k' u (t ∷ l) a c h g e = h (rw (e, c.0) a.0)
