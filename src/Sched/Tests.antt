-- ===== src/Sched/Tests.antt =====
-- The theorems on the scheduler at a kernel of three threads, and a run of thread_create.
use os_pintos.Common.{◌≡◌, ◌≢◌, refl, ok, arith}
use os_pintos.Common.Int.{pos}
use os_pintos.Sched.{Kernel, thread_yield, thread_set_priority, thread_create}
use os_pintos.Sched.Invariant.{IsValid, IsTop}
use os_pintos.Sched.Sample.{kernel, kernel-IsValid}
use os_pintos.Sched.Switch.{IsRunnable, Yielded, yield_lem}
use os_pintos.Sched.Priority.{Reprioritised, set_priority_lem, Created, create_lem}

yield_lem_example : (k' : Kernel) × (thread_yield kernel ≡ ok k') × Yielded kernel k'
yield_lem_example = yield_lem kernel kernel-IsValid

set_priority_lem_example :
    (k' : Kernel) × (thread_set_priority kernel (pos 33) ≡ ok k')
    × Reprioritised kernel (pos 33) k'
    × IsValid k'
    × IsTop k'
    × (kernel.current ≢ kernel.idle_thread → IsRunnable k' 1)
set_priority_lem_example = set_priority_lem kernel (pos 33) kernel-IsValid (refl, (refl, tt))

create_lem_example :
    (k' : Kernel) × (thread_create kernel 9 (pos 50) ≡ ok k') × Created kernel 9 (pos 50) k'
create_lem_example =
    create_lem kernel 9 (pos 50) kernel-IsValid (refl, (refl, tt)) (ground arith)
      (ground arith, (ground arith, tt)) (ground arith) (ground arith)
