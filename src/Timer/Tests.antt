-- ===== src/Timer/Tests.antt =====
-- The theorems on the alarm clock at a clock with two sleepers, one of them due at the next tick.
use os_pintos.Common.{◌≡◌, refl, [], ◌∷◌, ok, arith, leb, ◌==◌, if◌then◌else◌}
use os_pintos.Common.Int.{pos}
use os_pintos.Sched.{Kernel, blocked}
use os_pintos.Sched.Invariant.{IsValid}
use os_pintos.Sched.Sample.{thread, threads, kernel}
use os_pintos.Mlfqs.{time_slice}
use os_pintos.Timer.{Timer, timer_sleep, timer_interrupt}
use os_pintos.Timer.Sleep.{IsCalm, Slept, sleep_lem}
use os_pintos.Timer.Alarm.{interrupts, Alarmed, wakes_up}
use os_pintos.Timer.Interrupt.{Alarm, interrupt_lem}

-- Threads 5 and 6 sleep until the ticks 10 and 20.
abbrev asleep : Kernel
asleep = record kernel {
  threads = λ t.
      if t == 5
      then record (thread blocked 40) { wake_t = pos 10 }
      else if t == 6
      then record (thread blocked 35) { wake_t = pos 20 }
      else threads t;
}

abbrev clock : Timer
clock = record {
  kernel = asleep;
  block_list = 6 ∷ 5 ∷ [];
  ticks = 9;
  thread_smallest = pos 0;
  timer_smallest = pos 0;
}

asleep-IsValid : IsValid asleep
asleep-IsValid = record {
  queue = record {
    sorted = ((refl, tt), (tt, tt));
    unique = ((ground arith, tt), (tt, tt));
    all_ready = (refl, (refl, tt));
  };
  current_runs = refl;
  one_runs = λ t h. ground arith;
}

clock-IsCalm : IsCalm clock
clock-IsCalm = record {
  valid = asleep-IsValid;
  unique = ((ground arith, tt), (tt, tt));
  asleep = (refl, (refl, tt));
  not_idle = (ground arith, (ground arith, tt));
  smallest = (omega arith, (omega arith, tt));
}

sleep_lem_example : (c' : Timer) × (timer_sleep clock (pos 3) ≡ ok c') × Slept (pos 3) clock c'
sleep_lem_example = sleep_lem clock (pos 3) clock-IsCalm (ground arith) (omega arith)

interrupt_lem_example :
    (c' : Timer) × (timer_interrupt clock ≡ ok (c', leb time_slice 3)) × Alarm clock c'
interrupt_lem_example = interrupt_lem clock clock-IsCalm refl

wakes_up_example : (c' : Timer) × (interrupts 15 clock ≡ ok c') × Alarmed clock c' 6 20 15
wakes_up_example =
    wakes_up 15 clock 6 20 clock-IsCalm refl (record { listed = refl; wake = refl }) (omega arith)
