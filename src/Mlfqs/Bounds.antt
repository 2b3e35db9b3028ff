-- ===== src/Mlfqs/Bounds.antt =====
-- What the recomputations of the feedback queue keep.
use os_pintos.Common.{
  ap, ltb, ◌+◌, ◌*◌, ◌/◌, ◌^◌, ◌≤◌, ◌<◌, ℕ, suc, ◌≡◌, refl, ◌∙◌, List, [], ◌∷◌, true, false, ok,
  arith, leb, ◌==◌, ◌%◌, if◌then◌else◌, Bool-cases, inl, inr,
}
use os_pintos.Common.Int.{ℤ, pos, negsuc, ◌≤ℤ◌, ◌+ℤ◌, ◌*ℤ◌}
use os_pintos.Klist.Order.{Unique}
use os_pintos.Sched.{running, Thread, Kernel, set_priority, thread_current, pri_min, pri_max}
use os_pintos.Sched.Aging.{mem, mem_of_all}
use os_pintos.Mlfqs.{
  clamp, raw_priority, quot, to_int, from_bits, fmf, quot_ℕ, fract, fai, fdf, mlfqs_priority,
  ready_threads, renew_load_avg, renew_one, renew_cpu_from, renew_recent_cpu, renew_prior_from,
  renew_prior, count_tick, each_second, mlfqs_tick, thread_tick, time_slice, timer_freq,
  set_recent_cpu, is_zero,
}

clamp_range : (p : ℤ) → (pri_min ≤ℤ clamp p) × (clamp p ≤ℤ pri_max)
clamp_range p = (ground arith, ground arith)

priority_range : (th : Thread) → (pri_min ≤ℤ mlfqs_priority th) × (mlfqs_priority th ≤ℤ pri_max)
unfolding mlfqs_priority
priority_range th = clamp_range (raw_priority th)

assigned :
    (k : Kernel) (t u : ℕ) (p : Thread → ℤ)
    → t ≡ u
    → (set_priority k t (p (k.threads t))).threads u
      ≡ record (k.threads u) { priority = p (k.threads u) }
assigned k t u p e = ground arith

renew_prior_from_lem :
    (l : List ℕ) (k : Kernel) (u : ℕ)
    → Unique l
    → (renew_prior_from l k).threads u ≡ (
        if mem u l
        then record (k.threads u) { priority = mlfqs_priority (k.threads u) }
        else k.threads u)
unfolding renew_prior_from
renew_prior_from_lem [] k u h = refl
renew_prior_from_lem (t ∷ l) k u h =
    let k1 = set_priority k t (mlfqs_priority (k.threads t)) in
    let ih = renew_prior_from_lem l k1 u h.1 in
    elim (Bool-cases (u == t)) [
      | inl same ↦
          let e : t ≡ u = ground (arith, same) in
          let m0 = mem_of_all t l h.0 in
          let m : mem u l ≡ false = rw e at m0 in
          let w = rw m at ih in rw same (w ∙ assigned k t u mlfqs_priority e)
      | inr other ↦
          let v : k1.threads u ≡ k.threads u = ground (arith, other) in rw other (rw v at ih)
    ]

-- renew_prior gives each thread of a list without repetition the priority that its recent_cpu and
-- its nice say, which is from PRI_MIN to PRI_MAX, and changes nothing else of any thread.
pub renew_prior_lem :
    (k : Kernel) (u : ℕ)
    → Unique k.all_list
    → ((renew_prior k).threads u ≡ (
        if mem u k.all_list
        then record (k.threads u) { priority = mlfqs_priority (k.threads u) }
        else k.threads u))
      × (pri_min ≤ℤ mlfqs_priority (k.threads u))
      × (mlfqs_priority (k.threads u) ≤ℤ pri_max)
unfolding renew_prior
renew_prior_lem k u h =
    let (a, b) = priority_range (k.threads u) in (renew_prior_from_lem k.all_list k u h, a, b)

-- A kernel whose load average is at least 0 and at most 2048, in fixed point.
abbrev pub IsLoad : Kernel → Type 0
IsLoad k = (l : ℕ) × (k.load_avg ≡ pos l) × (l ≤ 2 ^ 25)

to_int_small : (a : ℕ) → a < 2 ^ 31 → to_int (pos a) ≡ pos a
unfolding to_int from_bits
to_int_small a h =
    let m : a % 2 ^ 32 ≡ a = omega (arith, h) in
    let t : ltb a (2 ^ 31) ≡ true = ground (arith, h) in rw (m, t) refl

product : (n l : ℕ) → pos n *ℤ pos l ≡ pos (n * l)
unfolding ◌*ℤ◌
product n l = ground arith

sum : (a b : ℕ) → pos a +ℤ pos b ≡ pos (a + b)
unfolding ◌+ℤ◌
sum a b = ground arith

scaled_small : (n l : ℕ) → n * l < 2 ^ 31 → to_int (pos n *ℤ pos l) ≡ pos (n * l)
scaled_small n l h = ap to_int (product n l) ∙ to_int_small (n * l) h

fai_small : (a n : ℕ) → a + n * 16384 < 2 ^ 31 → fai (pos a) (pos n) ≡ pos (a + n * 16384)
unfolding fai
fai_small a n h =
    ap to_int (ap (λ (x : ℤ). pos a +ℤ x) (product n 16384) ∙ sum a (n * 16384))
    ∙ to_int_small (a + n * 16384) h

-- The load average of the next second, for at most 2048 threads, does not overflow.
new_load :
    (l n : ℕ)
    → l ≤ 2 ^ 25
    → n ≤ 2048
    → quot (fai (to_int (pos 59 *ℤ pos l)) (pos n)) (pos 60) ≡ pos ((59 * l + n * 16384) / 60)
unfolding quot quot_ℕ
new_load l n h k =
    let a = scaled_small 59 l (omega (arith, h)) in
    let b = fai_small (59 * l) n (omega (arith, h, k)) in
    ap (λ (x : ℤ). quot (fai x (pos n)) (pos 60)) a ∙ ap (λ (x : ℤ). quot x (pos 60)) b

load_lem :
    (k : Kernel)
    → (k.threads k.current).status ≡ running
    → ready_threads k k.current ≤ 2048
    → IsLoad k
    → (k' : Kernel) × (renew_load_avg k ≡ ok k')
      × IsLoad k'
      × ((l : ℕ) × (k.load_avg ≡ pos l)
          × (k'.load_avg ≡ pos ((59 * l + ready_threads k k.current * 16384) / 60)))
unfolding renew_load_avg thread_current
load_lem k r few (l, e, h) =
    let n = ready_threads k k.current in
    let q : quot (fai (to_int (pos 59 *ℤ k.load_avg)) (pos n)) (pos 60)
        ≡ pos ((59 * l + n * 16384) / 60) =
      ap (λ (x : ℤ). quot (fai (to_int (pos 59 *ℤ x)) (pos n)) (pos 60)) e ∙ new_load l n h few in
    (
      record k { load_avg = quot (fai (to_int (pos 59 *ℤ k.load_avg)) (pos n)) (pos 60) },
      ground (arith, r),
      ((59 * l + n * 16384) / 60, q, omega (arith, h, few)),
      (l, e, q),
    )

divisor_positive : (l : ℕ) → l ≤ 2 ^ 25 → is_zero (fai (to_int (pos 2 *ℤ pos l)) (pos 1)) ≡ false
divisor_positive l h =
    let a = scaled_small 2 l (omega (arith, h)) in
    let b = fai_small (2 * l) 1 (omega (arith, h)) in
    ap (λ (x : ℤ). is_zero (fai x (pos 1))) a ∙ ap is_zero b ∙ ground arith

one_lem : (t : ℕ) (k : Kernel) → IsLoad k → (k' : Kernel) × (renew_one t k ≡ ok k') × IsLoad k'
unfolding renew_one fdf
one_lem t k (l, q, h) =
    let a = to_int (pos 2 *ℤ k.load_avg) in
    let th = k.threads t in
    let decay = to_int (quot (a *ℤ fract) (fai a (pos 1))) in
    let z : is_zero (fai a (pos 1)) ≡ false =
      ap (λ (x : ℤ). is_zero (fai (to_int (pos 2 *ℤ x)) (pos 1))) q ∙ divisor_positive l h in
    elim (Bool-cases (t == k.idle_thread)) [
      | inl i ↦ (k, ground (arith, i), (l, q, h))
      | inr i ↦ (
        set_recent_cpu k t (fai (fmf decay th.recent_cpu) th.nice),
        ground (arith, i, z),
        (l, q, h),
      )
    ]

cpu_lem :
    (l : List ℕ) (k : Kernel) → IsLoad k → (k' : Kernel) × (renew_cpu_from l k ≡ ok k') × IsLoad k'
unfolding renew_cpu_from
cpu_lem [] k h = (k, refl, h)
cpu_lem (t ∷ l) k h =
    let (k1, e, h1) = one_lem t k h in
    let (k2, f, h2) = cpu_lem l k1 h1 in (k2, ground (arith, e, f), h2)

second_lem :
    (ticks : ℕ) (k : Kernel)
    → (k.threads k.current).status ≡ running
    → ready_threads k k.current ≤ 2048
    → IsLoad k
    → (k' : Kernel) × (each_second ticks k ≡ ok k') × IsLoad k'
unfolding each_second renew_recent_cpu
second_lem ticks k r few h = elim (Bool-cases (ticks % timer_freq == 0)) [
  | inl z ↦
      let (k1, e, h1, _) = load_lem k r few h in
      let (k2, f, h2) = cpu_lem k1.all_list k1 h1 in (k2, ground (arith, z, e, f), h2)
  | inr z ↦ (k, ground (arith, z), h)
]

renew_prior-IsLoad : (l : List ℕ) (k : Kernel) → IsLoad k → IsLoad (renew_prior_from l k)
unfolding renew_prior_from
renew_prior-IsLoad [] k h = h
renew_prior-IsLoad (t ∷ l) k h =
    renew_prior-IsLoad l (set_priority k t (mlfqs_priority (k.threads t))) h

mlfqs_tick_lem :
    (ticks : ℕ) (k : Kernel)
    → (k.threads k.current).status ≡ running
    → ready_threads k k.current ≤ 2048
    → IsLoad k
    → (k' : Kernel) × (mlfqs_tick ticks k k.current ≡ ok k') × IsLoad k'
unfolding mlfqs_tick renew_prior ready_threads
mlfqs_tick_lem ticks k r few h =
    let cur = k.current in
    let k1 = set_recent_cpu k cur (fai (k.threads cur).recent_cpu (pos 1)) in
    let (k2, e, h2) = second_lem ticks k1 (ground (arith, r)) few h in
    elim (Bool-cases (ticks % 4 == 0)) [
      | inl z ↦ (renew_prior k2, ground (arith, z, e), renew_prior-IsLoad k2.all_list k2 h2)
      | inr z ↦ (k2, ground (arith, z, e), h2)
    ]

-- With the feedback queue and without aging, while the running thread is in its state, at most 2048
-- threads are ready or running and the load average is from 0 to 2048, thread_tick returns: no
-- division by zero stops it, the load average stays in its range, and the thread must yield once its
-- time slice is used up.
pub mlfqs_total :
    (ticks : ℕ) (k : Kernel)
    → (k.threads k.current).status ≡ running
    → ready_threads k k.current ≤ 2048
    → IsLoad k
    → k.mlfqs ≡ true
    → k.prior_aging ≡ false
    → (k' : Kernel) × (thread_tick ticks k
        ≡ ok (k', leb time_slice ((k.thread_ticks + 1) % 2 ^ 32)))
      × IsLoad k'
unfolding thread_tick thread_current count_tick ready_threads
mlfqs_total ticks k r few h m a =
    let k1 = (count_tick k k.current).0 in
    let (k2, e, h2) = mlfqs_tick_lem ticks k1 r few h in (k2, ground (arith, r, m, a, e), h2)
