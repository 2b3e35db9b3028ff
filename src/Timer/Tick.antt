-- ===== src/Timer/Tick.antt =====
-- A tick of the scheduler, as the timer interrupt calls it.
use os_pintos.Common.{
  ℕ, ◌+◌, ◌%◌, ◌^◌, ◌≡◌, refl, ◌∙◌, ap, false, ok, arith, leb, Bool-cases, inl, inr,
}
use os_pintos.Sched.{Kernel, thread_current, thread_aging}
use os_pintos.Sched.Invariant.{IsValid}
use os_pintos.Sched.Aging.{age_all-rest, aging_lem}
use os_pintos.Mlfqs.{time_slice, count_tick, thread_tick}

-- A tick of the scheduler leaves the kernel valid and every thread's state and wake-up time.
pub record Ticked (k k' : Kernel) : Type 0 where
  pub valid : IsValid k'
  pub same_status : (u : ℕ) → (k'.threads u).status ≡ (k.threads u).status
  pub same_wake : (u : ℕ) → (k'.threads u).wake_t ≡ (k.threads u).wake_t
  pub current : k'.current ≡ k.current
  pub idle : k'.idle_thread ≡ k.idle_thread
  pub mlfqs : k'.mlfqs ≡ k.mlfqs
  pub ready_list : k'.ready_list ≡ k.ready_list

Ticked-count : (k : Kernel) → IsValid k → Ticked k (count_tick k k.current).0
unfolding count_tick
Ticked-count k v = record {
  valid = record { queue = v.queue; current_runs = v.current_runs; one_runs = v.one_runs };
  same_status = λ u. refl;
  same_wake = λ u. refl;
  current = refl;
  idle = refl;
  mlfqs = refl;
  ready_list = refl;
}

Ticked-aging : (k : Kernel) → IsValid k → Ticked k (thread_aging k)
unfolding thread_aging
Ticked-aging k v =
    let (w, q, each) = aging_lem k v in
    let rest = age_all-rest k.ready_list k in
    record {
      valid = w;
      same_status = λ u. ground (arith, each u);
      same_wake = λ u. ground (arith, each u);
      current = ap (λ (j : Kernel). j.current) rest;
      idle = ap (λ (j : Kernel). j.idle_thread) rest;
      mlfqs = ap (λ (j : Kernel). j.mlfqs) rest;
      ready_list = ap (λ (j : Kernel). j.ready_list) rest;
    }

Ticked-trans : (a b c : Kernel) → Ticked a b → Ticked b c → Ticked a c
Ticked-trans a b c p q = record {
  valid = q.valid;
  same_status = λ u. q.same_status u ∙ p.same_status u;
  same_wake = λ u. q.same_wake u ∙ p.same_wake u;
  current = q.current ∙ p.current;
  idle = q.idle ∙ p.idle;
  mlfqs = q.mlfqs ∙ p.mlfqs;
  ready_list = q.ready_list ∙ p.ready_list;
}

-- thread_tick without the feedback queue returns: the running thread must yield once
-- its time slice is used up, and the kernel stays valid, with aging or without.
pub tick_lem :
    (ticks : ℕ) (k : Kernel)
    → IsValid k
    → k.mlfqs ≡ false
    → (k' : Kernel) × (thread_tick ticks k
        ≡ ok (k', leb time_slice ((k.thread_ticks + 1) % 2 ^ 32)))
      × Ticked k k'
unfolding thread_tick thread_current count_tick
tick_lem ticks k v m =
    let k1 = (count_tick k k.current).0 in
    let p = Ticked-count k v in
    elim (Bool-cases k.prior_aging) [
      | inl a ↦ (
        thread_aging k1,
        ground (arith, v.current_runs, a, m),
        Ticked-trans k k1 (thread_aging k1) p (Ticked-aging k1 p.valid),
      )
      | inr a ↦ (k1, ground (arith, v.current_runs, a, m), p)
    ]
