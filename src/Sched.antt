-- ===== src/Sched.antt =====
-- The scheduler, threads/thread.c of project5 as the kernel without user programs builds it: the
-- ready list, thread states, priorities and their aging. A thread is its pointer. Every routine
-- runs with interrupts off, which it sees to itself or asserts; a routine that switches threads
-- ends, in the model, with the next thread running.
pub mod Invariant
pub mod Switch
pub mod Priority
pub mod Aging
pub mod Sample
mod Tests
use os_pintos.Common.{
  ℕ, zero, suc, ◌+◌, ◌%◌, ◌^◌, ◌≡◌, List, [], ◌∷◌, ◌++◌, Bool, true, false, not, ◌&&◌, Outcome, ok,
  panic, ◌>>=◌, ◌>>◌, assert, ◌==◌, leb, if◌then◌else◌,
}
use os_pintos.Common.Int.{ℤ, pos, ltb_ℤ, ◌+ℤ◌, ◌≤ℤ◌}
use os_pintos.Klist.{list_insert_ordered}

-- `enum thread_status`
pub data Status : Type 0 where
  running ready blocked dying : Status

abbrev pub is_running : Status → Bool
is_running running = true
is_running _ = false

abbrev pub is_blocked : Status → Bool
is_blocked blocked = true
is_blocked _ = false

-- `struct thread`, without its memory and the fields of user programs.
pub record Thread : Type 0 where
  pub status : Status
  pub priority : ℤ
  pub nice : ℤ
  pub recent_cpu : ℤ
  pub wake_t : ℤ

-- The threads by their pointers, and the variables of thread.c.
pub record Kernel : Type 0 where
  pub threads : ℕ → Thread
  pub ready_list : List ℕ
  pub all_list : List ℕ
  pub current : ℕ
  pub idle_thread : ℕ
  pub thread_ticks : ℕ
  pub idle_ticks : ℕ
  pub kernel_ticks : ℕ
  pub mlfqs : Bool
  pub prior_aging : Bool
  pub load_avg : ℤ

-- PRI_MIN, PRI_DEFAULT, PRI_MAX
abbrev pub pri_min : ℤ
pri_min = pos 0

abbrev pub pri_default : ℤ
pri_default = pos 31

abbrev pub pri_max : ℤ
pri_max = pos 63

-- The memory of the threads, and an assignment to a field of thread `t`.
abbrev pub Threads : Type 0
Threads = ℕ → Thread

abbrev pub with_thread : Threads → ℕ → Thread → Threads
with_thread f t th u = if t == u then th else f u

abbrev pub with_status : Threads → ℕ → Status → Threads
with_status f t s = with_thread f t (record (f t) { status = s })

abbrev pub set_status : Kernel → ℕ → Status → Kernel
set_status k t s = record k { threads = with_status k.threads t s }

abbrev pub prio : Threads → ℕ → ℤ
prio f t = (f t).priority

-- is_prior_larger, with the priorities that the threads have.
abbrev pub is_prior_larger : (ℕ → ℤ) → ℕ → ℕ → Bool
is_prior_larger p a b = ltb_ℤ (p b) (p a)

abbrev pub insert_ready : Kernel → ℕ → Kernel
insert_ready k t = record k {
  ready_list = list_insert_ordered (is_prior_larger (prio k.threads)) t k.ready_list;
}

unfoldable pub thread_unblock : Kernel → ℕ → Outcome Kernel
thread_unblock k t = do
  assert (is_blocked (k.threads t).status)
  ok (set_status (insert_ready k t) t ready)

-- The thread to run next, taken off the ready list.
unfoldable pub next_from : Kernel → List ℕ → Kernel × ℕ
next_from k [] = (k, k.idle_thread)
next_from k (t ∷ l) = (record k { ready_list = l }, t)

unfoldable pub next_thread_to_run : Kernel → Kernel × ℕ
unfolding next_from
next_thread_to_run k = next_from k k.ready_list

-- The new thread runs and starts its time slice.
unfoldable pub thread_schedule_tail : Kernel → ℕ → Kernel
thread_schedule_tail k next =
    set_status (record k { current = next; thread_ticks = 0 }) next running

unfoldable pub schedule : Kernel → Outcome Kernel
unfolding next_thread_to_run thread_schedule_tail
schedule k = do
  assert (not (is_running (k.threads k.current).status))
  let (k', next) = next_thread_to_run k
  ok (thread_schedule_tail k' next)

unfoldable pub thread_current : Kernel → Outcome ℕ
thread_current k = do assert (is_running (k.threads k.current).status); ok k.current

unfoldable pub thread_block : Kernel → Outcome Kernel
unfolding schedule thread_current
thread_block k = do cur ← thread_current k; schedule (set_status k cur blocked)

unfoldable pub thread_yield : Kernel → Outcome Kernel
unfolding schedule thread_current
thread_yield k = do
  cur ← thread_current k
  let k' = if not (cur == k.idle_thread) then insert_ready k cur else k
  schedule (set_status k' cur ready)

-- list_remove of a thread's `allelem`.
unfoldable pub list_remove : ℕ → List ℕ → List ℕ
list_remove t [] = []
list_remove t (u ∷ l) = if t == u then l else u ∷ list_remove t l

unfoldable pub thread_exit : Kernel → Outcome Kernel
unfolding schedule thread_current list_remove
thread_exit k = do
  cur ← thread_current k
  schedule (set_status (record k { all_list = list_remove cur k.all_list }) cur dying)

unfoldable pub thread_get_priority : Kernel → Outcome ℤ
unfolding thread_current
thread_get_priority k = do cur ← thread_current k; ok (prio k.threads cur)

abbrev pub set_priority : Kernel → ℕ → ℤ → Kernel
set_priority k t p = record k {
  threads = with_thread k.threads t (record (k.threads t) { priority = p });
}

unfoldable pub thread_set_priority : Kernel → ℤ → Outcome Kernel
unfolding thread_get_priority thread_yield
thread_set_priority k new_priority =
    if not k.mlfqs
    then (do
      prec_prior ← thread_get_priority k
      cur ← thread_current k
      let k' = set_priority k cur new_priority
      if ltb_ℤ new_priority prec_prior then thread_yield k' else ok k')
    else ok k

-- init_thread: a blocked thread, which takes nice and recent_cpu from the running one.
abbrev pub fresh_thread : Kernel → ℤ → Thread
fresh_thread k priority = record {
  status = blocked;
  priority = priority;
  nice = (k.threads k.current).nice;
  recent_cpu = (k.threads k.current).recent_cpu;
  wake_t = pos 0;
}

abbrev pub with_new : Kernel → ℕ → ℤ → Kernel
with_new k t priority = record k {
  threads = with_thread k.threads t (fresh_thread k priority);
  all_list = k.all_list ++ (t ∷ []);
}

unfoldable pub init_thread : Kernel → ℕ → ℤ → Outcome Kernel
init_thread k t priority = do
  assert (not (ltb_ℤ priority pri_min) && not (ltb_ℤ pri_max priority))
  ok (with_new k t priority)

-- thread_create, for a page `t` that palloc_get_page has given.
unfoldable pub thread_create : Kernel → ℕ → ℤ → Outcome Kernel
unfolding init_thread thread_unblock thread_get_priority thread_yield
thread_create k t priority = do
  k1 ← init_thread k t priority
  k2 ← thread_unblock k1 t
  p ← thread_get_priority k2
  if ltb_ℤ p (prio k2.threads t) then thread_yield k2 else ok k2

-- The loop of thread_aging over the ready list.
unfoldable pub age_all : List ℕ → Kernel → Kernel
age_all [] k = k
age_all (t ∷ l) k = age_all l (set_priority k t (prio k.threads t +ℤ pos 1))

unfoldable pub thread_aging : Kernel → Kernel
unfolding age_all
thread_aging k = age_all k.ready_list k
