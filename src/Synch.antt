-- ===== src/Synch.antt =====
-- Semaphores and locks of threads/synch.c, over the scheduler. A call that sleeps is a sequence of
-- rounds: a round of sema_down ends with the semaphore lowered, or with the thread in the list of
-- waiters and another thread running; the thread starts the next round when it runs again.
pub mod Up
pub mod Down
pub mod Machine
pub mod Exclusion
mod Tests
use os_pintos.Common.{
  ℕ, suc, ◌+◌, ◌-◌, ◌%◌, ◌^◌, List, [], ◌∷◌, Bool, true, false, not, Option, none, some, Outcome,
  ok, panic, ◌>>=◌, ◌>>◌, assert, ◌==◌, if◌then◌else◌,
}
use os_pintos.Klist.{list_insert_ordered, list_sort}
use os_pintos.Sched.{
  Kernel, prio, is_prior_larger, thread_current, thread_block, thread_unblock, thread_yield,
  list_remove,
}

-- The value is an unsigned.
pub record Semaphore : Type 0 where
  pub value : ℕ
  pub waiters : List ℕ

pub record Lock : Type 0 where
  pub holder : Option ℕ
  pub semaphore : Semaphore

abbrev pub sema_init : ℕ → Semaphore
sema_init value = record { value = value; waiters = [] }

-- The body of the loop of sema_down.
unfoldable pub sema_sleep : Kernel → Semaphore → Outcome (Kernel × Semaphore × Bool)
unfolding thread_current thread_block
sema_sleep k s = do
  cur ← thread_current k
  let less = is_prior_larger (prio k.threads)
  let s' = record s { waiters = list_insert_ordered less cur s.waiters }
  k' ← thread_block k
  ok (k', s', false)

-- One round of the loop: the Boolean is whether the semaphore was lowered.
unfoldable pub sema_down : Kernel → Semaphore → Outcome (Kernel × Semaphore × Bool)
unfolding sema_sleep
sema_down k s =
    if s.value == 0 then sema_sleep k s else ok (k, record s { value = s.value - 1 }, true)

unfoldable pub sema_try_down : Semaphore → Semaphore × Bool
sema_try_down s =
    if not (s.value == 0) then (record s { value = s.value - 1 }, true) else (s, false)

-- The front of the sorted waiters is taken off the list, a second time by list_remove, and woken.
unfoldable pub wake_front : Kernel → List ℕ → Outcome (Kernel × List ℕ)
unfolding thread_unblock list_remove
wake_front k [] = ok (k, [])
wake_front k (t ∷ l) = do k' ← thread_unblock k t; ok (k', list_remove t l)

unfoldable pub sema_up : Kernel → Semaphore → Outcome (Kernel × Semaphore)
unfolding list_sort wake_front thread_yield
sema_up k s = do
  l ← list_sort (is_prior_larger (prio k.threads)) s.waiters
  (k1, rest) ← wake_front k l
  k2 ← thread_yield k1
  ok (k2, record { value = (s.value + 1) % 2 ^ 32; waiters = rest })

abbrev pub lock_init : Lock
lock_init = record { holder = none; semaphore = sema_init 1 }

abbrev pub is_some : Option ℕ → ℕ → Bool
is_some none t = false
is_some (some u) t = u == t

unfoldable pub lock_held_by_current_thread : Kernel → Lock → Outcome Bool
unfolding thread_current
lock_held_by_current_thread k l = do cur ← thread_current k; ok (is_some l.holder cur)

-- lock_acquire up to its loop, the rounds of the loop, and what follows them.
unfoldable pub acquire_check : Kernel → Lock → Outcome (Unit {0})
unfolding lock_held_by_current_thread
acquire_check k l = do held ← lock_held_by_current_thread k l; assert (not held)

unfoldable pub acquire_down : Kernel → Lock → Outcome (Kernel × Lock × Bool)
unfolding sema_down
acquire_down k l = do
  (k', s, done) ← sema_down k l.semaphore
  ok (k', record l { semaphore = s }, done)

unfoldable pub acquire_own : Kernel → Lock → Outcome Lock
unfolding thread_current
acquire_own k l = do cur ← thread_current k; ok (record l { holder = some cur })

unfoldable pub lock_try_acquire : Kernel → Lock → Outcome (Lock × Bool)
unfolding acquire_check sema_try_down acquire_own
lock_try_acquire k l =
    acquire_check k l
    >> (let (s, success) = sema_try_down l.semaphore in
        let l' = record l { semaphore = s } in
        if success then (acquire_own k l' >>= λ m. ok (m, true)) else ok (l', false))

-- lock_release up to its call of sema_up, and the call.
unfoldable pub release_drop : Kernel → Lock → Outcome Lock
unfolding lock_held_by_current_thread
release_drop k l = do
  held ← lock_held_by_current_thread k l
  assert held
  ok (record l { holder = none })

unfoldable pub release_up : Kernel → Lock → Outcome (Kernel × Lock)
unfolding sema_up
release_up k l = do (k', s) ← sema_up k l.semaphore; ok (k', record l { semaphore = s })

unfoldable pub lock_release : Kernel → Lock → Outcome (Kernel × Lock)
unfolding release_drop release_up
lock_release k l = release_drop k l >>= release_up k
