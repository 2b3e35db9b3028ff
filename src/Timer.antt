-- ===== src/Timer.antt =====
-- The alarm clock of devices/timer.c: sleeping threads, which the timer interrupt wakes.
-- threads/thread.h declares smallest_tick static, so thread.c and timer.c each have their own.
pub mod Kept
pub mod Wake
pub mod Tick
pub mod Sleep
pub mod Interrupt
pub mod Alarm
mod Tests
use os_pintos.Common.{
  ℕ, suc, ◌+◌, ◌%◌, ◌^◌, List, [], ◌∷◌, ◌++◌, Bool, true, false, not, Outcome, ok, panic, ◌>>=◌,
  ◌>>◌, assert, ◌==◌, if◌then◌else◌,
}
use os_pintos.Common.Int.{ℤ, pos, ltb_ℤ, ◌+ℤ◌}
use os_pintos.Sched.{
  Thread, Kernel, with_thread, thread_current, thread_block, thread_unblock, thread_yield,
}
use os_pintos.Mlfqs.{thread_tick}

-- INT64_MAX
abbrev pub int64_max : ℤ
int64_max = pos 9223372036854775807

pub record Timer : Type 0 where
  pub kernel : Kernel
  pub block_list : List ℕ
  pub ticks : ℕ
  pub thread_smallest : ℤ
  pub timer_smallest : ℤ

unfoldable pub update_smallest_tick : Timer → ℤ → Timer
update_smallest_tick c ticks = record c {
  thread_smallest = if ltb_ℤ ticks c.thread_smallest then ticks else c.thread_smallest;
}

abbrev pub get_next_awake : Timer → ℤ
get_next_awake c = c.thread_smallest

abbrev pub set_wake : Timer → ℕ → ℤ → Timer
set_wake c t w =
    let k = c.kernel in
    record c {
      kernel = record k { threads = with_thread k.threads t (record (k.threads t) { wake_t = w }) };
    }

abbrev pub leb_ℤ : ℤ → ℤ → Bool
leb_ℤ a b = not (ltb_ℤ b a)

abbrev pub push_sleeper : Timer → ℕ → Timer
push_sleeper c t = record c { block_list = c.block_list ++ (t ∷ []) }

-- A call with interrupts on, as it asserts.
unfoldable pub timer_sleep : Timer → ℤ → Outcome Timer
unfolding thread_current update_smallest_tick thread_block ◌+ℤ◌
timer_sleep c n = if leb_ℤ n (pos 0) then ok c else (do
  cur ← thread_current c.kernel
  let w = n +ℤ pos c.ticks
  let c' = push_sleeper (update_smallest_tick (set_wake c cur w) w) cur
  k ← thread_block c'.kernel
  ok (record c' { kernel = k }))

abbrev pub due : Timer → ℕ → Bool
due c t = leb_ℤ (c.kernel.threads t).wake_t (pos c.ticks)

-- One round of the loop of wake_thread: whether the thread stays in the list.
unfoldable pub wake_one : ℕ → Timer → Outcome (Timer × Bool)
unfolding update_smallest_tick thread_unblock
wake_one t c =
    if due c t
    then (do k ← thread_unblock c.kernel t; ok (record c { kernel = k }, false))
    else ok (update_smallest_tick c (c.kernel.threads t).wake_t, true)

-- The loop from a place in the list: what stays of the rest.
unfoldable pub wake_from : List ℕ → Timer → Outcome (Timer × List ℕ)
unfolding wake_one
wake_from [] c = ok (c, [])
wake_from (t ∷ l) c = do
  (c1, stays) ← wake_one t c
  (c2, rest) ← wake_from l c1
  ok (c2, (if stays then t ∷ rest else rest))

unfoldable pub wake_thread : Timer → Outcome Timer
unfolding wake_from
wake_thread c = do
  (c', l) ← wake_from c.block_list (record c { timer_smallest = int64_max })
  ok (record c' { block_list = l })

-- The Boolean is whether the running thread must yield on return from the interrupt.
unfoldable pub timer_interrupt : Timer → Outcome (Timer × Bool)
unfolding thread_tick wake_thread
timer_interrupt c = do
  let c1 = record c { ticks = suc c.ticks }
  (k, yield) ← thread_tick c1.ticks c1.kernel
  let c2 = record c1 { kernel = k }
  c3 ← if leb_ℤ (get_next_awake c2) (pos c2.ticks) then wake_thread c2 else ok c2
  ok (c3, yield)

-- intr_handler for the timer's interrupt: it runs the handler, and then carries out the yield that the
-- handler asked for.
unfoldable pub intr_handler : Timer → Outcome Timer
unfolding timer_interrupt thread_yield
intr_handler c = do
  (c1, yield_on_return) ← timer_interrupt c
  k ← if yield_on_return then thread_yield c1.kernel else ok c1.kernel
  ok (record c1 { kernel = k })
