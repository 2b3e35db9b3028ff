-- ===== src/Sched/Sample.antt =====
-- A kernel of four threads, for the tests of the modules that stand on the scheduler.
use os_pintos.Common.{ℕ, refl, [], ◌∷◌, false, arith, ◌==◌, if◌then◌else◌}
use os_pintos.Common.Int.{pos}
use os_pintos.Sched.{Status, running, ready, blocked, Thread, Kernel}
use os_pintos.Sched.Invariant.{IsValid}

abbrev pub thread : Status → ℕ → Thread
thread s p = record {
  status = s;
  priority = pos p;
  nice = pos 0;
  recent_cpu = pos 0;
  wake_t = pos 0;
}

abbrev pub threads : ℕ → Thread
threads t =
    if t == 1
    then thread running 40
    else if t == 2
    then thread ready 35
    else if t == 3
    then thread ready 31
    else thread blocked 20

-- Thread 1 runs, 2 and 3 are ready, and the idle thread 4 is blocked, as all others.
abbrev pub kernel : Kernel
kernel = record {
  threads = threads;
  ready_list = 2 ∷ 3 ∷ [];
  all_list = 1 ∷ 2 ∷ 3 ∷ 4 ∷ [];
  current = 1;
  idle_thread = 4;
  thread_ticks = 2;
  idle_ticks = 0;
  kernel_ticks = 2;
  mlfqs = false;
  prior_aging = false;
  load_avg = pos 0;
}

pub kernel-IsValid : IsValid kernel
kernel-IsValid = record {
  queue = record {
    sorted = ((refl, tt), (tt, tt));
    unique = ((ground arith, tt), (tt, tt));
    all_ready = (refl, (refl, tt));
  };
  current_runs = refl;
  one_runs = λ t h. ground arith;
}
