-- ===== src/Mlfqs.antt =====
-- The multi-level feedback queue of threads/thread.c: fixed-point arithmetic, the load average,
-- recent_cpu and the priorities computed from them, and thread_tick. The arithmetic of int wraps
-- around, as it does on the machine (C leaves its overflow undefined).
pub mod Bounds
mod Tests
use os_pintos.Common.{
  ℕ, suc, ◌+◌, ◌-◌, ◌*◌, ◌/◌, ◌%◌, ◌^◌, List, [], ◌∷◌, Bool, true, false, not, Outcome, ok, panic,
  ◌>>=◌, ◌>>◌, assert, ◌==◌, ltb, leb, length, if◌then◌else◌,
}
use os_pintos.Common.Int.{ℤ, pos, negsuc, pos_part, neg_part, sub_ℕ, ltb_ℤ, ◌+ℤ◌, ◌-ℤ◌, ◌*ℤ◌}
use os_pintos.Sched.{
  Thread, Kernel, with_thread, set_priority, pri_min, pri_max, thread_current, thread_aging,
}

-- Division of C, towards zero, by a number that is not zero.
unfoldable pub quot_ℕ : ℤ → ℕ → ℤ
quot_ℕ (pos a) b = pos (a / b)
quot_ℕ (negsuc a) b = sub_ℕ 0 (suc a / b)

unfoldable pub quot : ℤ → ℤ → ℤ
unfolding quot_ℕ ◌-ℤ◌
quot a (pos b) = quot_ℕ a b
quot a (negsuc b) = pos 0 -ℤ quot_ℕ a (suc b)

-- (int) of an int64_t.
unfoldable pub from_bits : ℕ → ℤ
from_bits r = if ltb r (2 ^ 31) then pos r else sub_ℕ r (2 ^ 32)

unfoldable pub to_int : ℤ → ℤ
unfolding from_bits
to_int (pos a) = from_bits (a % 2 ^ 32)
to_int (negsuc a) = from_bits (2 ^ 32 - 1 - a % 2 ^ 32)

-- FRACT, TIME_SLICE and TIMER_FREQ
abbrev pub fract : ℤ
fract = pos 16384

abbrev pub time_slice : ℕ
time_slice = 4

abbrev pub timer_freq : ℕ
timer_freq = 100

unfoldable pub isf : ℤ → ℤ → ℤ
unfolding to_int ◌-ℤ◌ ◌*ℤ◌
isf i f = to_int (i *ℤ fract -ℤ f)

unfoldable pub fai : ℤ → ℤ → ℤ
unfolding to_int ◌+ℤ◌ ◌*ℤ◌
fai f i = to_int (f +ℤ i *ℤ fract)

unfoldable pub fmf : ℤ → ℤ → ℤ
unfolding quot to_int ◌*ℤ◌
fmf f1 f2 = to_int (quot (f1 *ℤ f2) fract)

abbrev pub is_zero : ℤ → Bool
is_zero (pos n) = n == 0
is_zero (negsuc n) = false

-- A division by zero traps.
unfoldable pub fdf : ℤ → ℤ → Outcome ℤ
unfolding quot to_int ◌*ℤ◌
fdf f1 f2 = do assert (not (is_zero f2)); ok (to_int (quot (f1 *ℤ fract) f2))

-- The priority that renew_prior and thread_set_nice give a thread.
abbrev pub clamp : ℤ → ℤ
clamp p = if ltb_ℤ p pri_min then pri_min else if ltb_ℤ pri_max p then pri_max else p

unfoldable pub raw_priority : Thread → ℤ
unfolding fai quot to_int ◌-ℤ◌ ◌*ℤ◌
raw_priority th =
    quot
      (to_int (fai (pos 0) pri_max -ℤ quot th.recent_cpu (pos 4) -ℤ pos 2 *ℤ fai (pos 0) th.nice))
      fract

unfoldable pub mlfqs_priority : Thread → ℤ
unfolding raw_priority
mlfqs_priority th = clamp (raw_priority th)

unfoldable pub thread_set_nice : Kernel → ℤ → Outcome Kernel
unfolding thread_current mlfqs_priority
thread_set_nice k nice = do
  cur ← thread_current k
  let th = record (k.threads cur) { nice = nice }
  ok (record k { threads = with_thread k.threads cur (record th { priority = mlfqs_priority th }) })

unfoldable pub thread_get_nice : Kernel → Outcome ℤ
unfolding thread_current
thread_get_nice k = do cur ← thread_current k; ok (k.threads cur).nice

unfoldable pub thread_get_load_avg : Kernel → ℤ
unfolding quot to_int ◌*ℤ◌
thread_get_load_avg k = quot (to_int (pos 100 *ℤ k.load_avg)) fract

unfoldable pub thread_get_recent_cpu : Kernel → Outcome ℤ
unfolding thread_current quot to_int ◌*ℤ◌
thread_get_recent_cpu k = do
  cur ← thread_current k
  ok (quot (to_int ((k.threads cur).recent_cpu *ℤ pos 100)) fract)

-- The running thread counts, unless it idles.
unfoldable pub ready_threads : Kernel → ℕ → ℕ
ready_threads k cur =
    if not (cur == k.idle_thread) then length k.ready_list + 1 else length k.ready_list

unfoldable pub renew_load_avg : Kernel → Outcome Kernel
unfolding thread_current ready_threads fai quot to_int ◌*ℤ◌
renew_load_avg k = do
  cur ← thread_current k
  ok (record k {
    load_avg = quot (fai (to_int (pos 59 *ℤ k.load_avg)) (pos (ready_threads k cur))) (pos 60);
  })

abbrev pub set_recent_cpu : Kernel → ℕ → ℤ → Kernel
set_recent_cpu k t r = record k {
  threads = with_thread k.threads t (record (k.threads t) { recent_cpu = r });
}

unfoldable pub renew_one : ℕ → Kernel → Outcome Kernel
unfolding fai fmf fdf to_int ◌*ℤ◌
renew_one t k =
    if not (t == k.idle_thread)
    then (do
      decay ← fdf (to_int (pos 2 *ℤ k.load_avg)) (fai (to_int (pos 2 *ℤ k.load_avg)) (pos 1))
      ok (set_recent_cpu k t (fai (fmf decay (k.threads t).recent_cpu) (k.threads t).nice)))
    else ok k

-- The loops of renew_recent_cpu and renew_prior over all threads.
unfoldable pub renew_cpu_from : List ℕ → Kernel → Outcome Kernel
unfolding renew_one
renew_cpu_from [] k = ok k
renew_cpu_from (t ∷ l) k = renew_one t k >>= renew_cpu_from l

unfoldable pub renew_recent_cpu : Kernel → Outcome Kernel
unfolding renew_cpu_from
renew_recent_cpu k = renew_cpu_from k.all_list k

unfoldable pub renew_prior_from : List ℕ → Kernel → Kernel
unfolding mlfqs_priority
renew_prior_from [] k = k
renew_prior_from (t ∷ l) k = renew_prior_from l (set_priority k t (mlfqs_priority (k.threads t)))

unfoldable pub renew_prior : Kernel → Kernel
unfolding renew_prior_from
renew_prior k = renew_prior_from k.all_list k

-- The statistics and the time slice, whose ticks are an unsigned; the Boolean is a call of intr_yield_on_return.
unfoldable pub count_tick : Kernel → ℕ → Kernel × Bool
count_tick k cur =
    let n = (k.thread_ticks + 1) % 2 ^ 32 in
    (
      record k {
        idle_ticks = if cur == k.idle_thread then suc k.idle_ticks else k.idle_ticks;
        kernel_ticks = if cur == k.idle_thread then k.kernel_ticks else suc k.kernel_ticks;
        thread_ticks = n;
      },
      leb time_slice n,
    )

unfoldable pub each_second : ℕ → Kernel → Outcome Kernel
unfolding renew_load_avg renew_recent_cpu
each_second ticks k =
    if ticks % timer_freq == 0 then renew_load_avg k >>= renew_recent_cpu else ok k

unfoldable pub mlfqs_tick : ℕ → Kernel → ℕ → Outcome Kernel
unfolding fai each_second renew_prior
mlfqs_tick ticks k cur = do
  k' ← each_second ticks (set_recent_cpu k cur (fai (k.threads cur).recent_cpu (pos 1)))
  ok (if ticks % 4 == 0 then renew_prior k' else k')

unfoldable pub thread_tick : ℕ → Kernel → Outcome (Kernel × Bool)
unfolding thread_current count_tick thread_aging mlfqs_tick
thread_tick ticks k = do
  cur ← thread_current k
  let (k1, yield) = count_tick k cur
  k2 ←
      if k1.prior_aging
      then ok (thread_aging k1)
      else if k1.mlfqs
      then mlfqs_tick ticks k1 cur
      else ok k1
  ok (k2, yield)
