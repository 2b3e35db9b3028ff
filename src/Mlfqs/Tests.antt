-- ===== src/Mlfqs/Tests.antt =====
-- The theorems on the feedback queue at a kernel with it, the fixed-point operations at work, and a
-- ready list that renew_prior leaves out of order.
use os_pintos.Common.{◌≡◌, refl, true, false, ok, arith, leb, if◌then◌else◌}
use os_pintos.Common.Int.{pos, negsuc, ◌≤ℤ◌}
use os_pintos.Klist.{is_sorted}
use os_pintos.Sched.{Kernel, prio, is_prior_larger, pri_min, pri_max}
use os_pintos.Sched.Aging.{mem}
use os_pintos.Sched.Sample.{kernel, threads}
use os_pintos.Mlfqs.{
  fai, fmf, fdf, quot, to_int, mlfqs_priority, renew_prior, thread_tick, time_slice,
  thread_get_load_avg, ready_threads,
}
use os_pintos.Mlfqs.Bounds.{renew_prior_lem, IsLoad, mlfqs_total}

abbrev queue : Kernel
queue = record kernel { mlfqs = true; load_avg = pos 16384 }

load_runs : thread_get_load_avg queue ≡ pos 100
unfolding thread_get_load_avg
load_runs = refl

-- 2/3 of 3.5, and -7 / 2 towards zero
fixed_point_runs :
    (fdf (pos 32768) (fai (pos 32768) (pos 1)) ≡ ok (pos 10922))
    × (fmf (pos 10922) (pos 57344) ≡ pos 38227)
    × (quot (negsuc 6) (pos 2) ≡ negsuc 2)
    × (to_int (pos 4294967295) ≡ negsuc 0)
unfolding fdf fmf fai
fixed_point_runs = (refl, refl, refl, refl)

-- The priorities of the ready threads 2 and 3 before and after, and the ready list.
abbrev busy : Kernel
busy = record kernel {
  threads = λ t. if leb t 2 then record (threads t) { recent_cpu = pos 655360 } else threads t;
}

reordered :
    (is_sorted (is_prior_larger (prio busy.threads)) busy.ready_list ≡ true)
    × (is_sorted (is_prior_larger (prio (renew_prior busy).threads)) (renew_prior busy).ready_list
        ≡ false)
unfolding is_sorted renew_prior
reordered = (refl, refl)

renew_prior_lem_example :
    ((renew_prior busy).threads 2 ≡ (
      if mem 2 busy.all_list
      then record (busy.threads 2) { priority = mlfqs_priority (busy.threads 2) }
      else busy.threads 2))
    × (pri_min ≤ℤ mlfqs_priority (busy.threads 2))
    × (mlfqs_priority (busy.threads 2) ≤ℤ pri_max)
renew_prior_lem_example = renew_prior_lem busy 2 (
  (ground arith, (ground arith, (ground arith, tt))),
  ((ground arith, (ground arith, tt)), ((ground arith, tt), (tt, tt))),
)

mlfqs_total_example :
    (k' : Kernel) × (thread_tick 100 queue ≡ ok (k', leb time_slice 3)) × IsLoad k'
unfolding ready_threads
mlfqs_total_example = mlfqs_total 100 queue refl (omega arith) (16384, refl, omega arith) refl refl
