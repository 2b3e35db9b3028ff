-- ===== src/Timer/Interrupt.antt =====
-- A tick of the alarm clock: exactly the threads whose time has come are readied.
use mathlib.Core.Path.{fun_ext}
use os_pintos.Common.{
  Bool, true, ◌+◌, ◌%◌, ◌^◌, ℕ, suc, ◌≡◌, ◌≢◌, refl, sym, ◌∙◌, ap, false, ◌&&◌, ok, arith, leb,
  if◌then◌else◌, Bool-cases, inl, inr,
}
use os_pintos.Common.Int.{pos, ◌≤ℤ◌}
use os_pintos.Klist.Order.{All}
use os_pintos.Sched.{ready, Kernel}
use os_pintos.Sched.Aging.{All-map, mem}
use os_pintos.Mlfqs.{time_slice}
use os_pintos.Timer.{Timer, due, leb_ℤ, wake_thread, timer_interrupt, int64_max}
use os_pintos.Timer.Wake.{IsBlocked, woken, wake_from_lem}
use os_pintos.Timer.Kept.{kept, All-kept, Unique-kept, kept-not_due, kept-none, mem-none}
use os_pintos.Timer.Tick.{Ticked, tick_lem}
use os_pintos.Timer.Sleep.{IsCalm, All-both}

-- What a call of wake_thread does.
pub record Woken (c c' : Timer) : Type 0 where
  pub calm : IsCalm c'
  pub mlfqs : c'.kernel.mlfqs ≡ c.kernel.mlfqs
  pub ticks : c'.ticks ≡ c.ticks
  pub block_list : c'.block_list ≡ kept (due c) c.block_list
  pub threads : (u : ℕ) → c'.kernel.threads u ≡ woken (due c) c.block_list c.kernel.threads u
  pub current : c'.kernel.current ≡ c.kernel.current
  pub idle : c'.kernel.idle_thread ≡ c.kernel.idle_thread
  pub queued : (u : ℕ) → mem u c.kernel.ready_list ≡ true → mem u c'.kernel.ready_list ≡ true
  pub joined :
      (u : ℕ) → mem u c.block_list ≡ true → due c u ≡ true → mem u c'.kernel.ready_list ≡ true
  pub lower : c'.thread_smallest ≤ℤ c.thread_smallest

-- wake_thread of a calm clock readies exactly the sleepers that are due, keeps the others in their
-- order, and leaves the clock calm.
pub wake_lem : (c : Timer) → IsCalm c → (c' : Timer) × (wake_thread c ≡ ok c') × Woken c c'
unfolding wake_thread
wake_lem c m =
    let l = c.block_list in
    let d = due c in
    let (c1, e, p) =
      wake_from_lem l (record c { timer_smallest = int64_max }) m.valid m.unique m.asleep in
    let early = kept-not_due d l in
    let same : (u : ℕ) → d u ≡ false → c1.kernel.threads u ≡ c.kernel.threads u =
      λ u h. ground (arith, p.threads u, h) in
    let sames = All-map same (kept d l) early in
    (
      record c1 { block_list = kept d l },
      ground (arith, e),
      record {
        calm = record {
          valid = p.valid;
          unique = Unique-kept d l m.unique;
          asleep =
              All-both (λ u s a. ground (arith, s, a)) (kept d l) sames
                (All-kept (IsBlocked c.kernel.threads) d l m.asleep);
          not_idle =
              All-map (λ u h. rw p.idle h) (kept d l)
                (All-kept (λ u. c.kernel.idle_thread ≢ u) d l m.not_idle);
          smallest =
              All-both (λ u s a. ground (arith, s, a, p.smallest)) (kept d l) sames
                (All-kept (λ u. c.thread_smallest ≤ℤ (c.kernel.threads u).wake_t) d l m.smallest);
        };
        mlfqs = p.mlfqs;
        ticks = p.ticks;
        block_list = refl;
        threads = p.threads;
        current = p.current;
        idle = p.idle;
        queued = p.queued;
        joined = p.joined;
        lower = p.smallest;
      },
    )

-- The clock after a scheduler's tick.
IsCalm-Ticked :
    (c : Timer) (k : Kernel) (n : ℕ)
    → IsCalm c
    → Ticked c.kernel k
    → IsCalm (record c { kernel = k; ticks = n })
IsCalm-Ticked c k n m p = record {
  valid = p.valid;
  unique = m.unique;
  asleep = All-map (λ u h. p.same_status u ∙ h) c.block_list m.asleep;
  not_idle = All-map (λ u h. rw p.idle h) c.block_list m.not_idle;
  smallest = All-map (λ u h. rw (p.same_wake u) h) c.block_list m.smallest;
}

-- What a timer interrupt does.
pub record Alarm (c c' : Timer) : Type 0 where
  pub calm : IsCalm c'
  pub mlfqs : c'.kernel.mlfqs ≡ c.kernel.mlfqs
  pub wake_t : (u : ℕ) → (c'.kernel.threads u).wake_t ≡ (c.kernel.threads u).wake_t
  pub ticks : c'.ticks ≡ suc c.ticks
  pub block_list : c'.block_list ≡ kept (due (record c { ticks = suc c.ticks })) c.block_list
  pub status :
      (u : ℕ)
      → (c'.kernel.threads u).status ≡ (
          if mem u c.block_list && due (record c { ticks = suc c.ticks }) u
          then ready
          else (c.kernel.threads u).status)
  pub current : c'.kernel.current ≡ c.kernel.current
  pub idle : c'.kernel.idle_thread ≡ c.kernel.idle_thread
  pub queued : (u : ℕ) → mem u c.kernel.ready_list ≡ true → mem u c'.kernel.ready_list ≡ true
  pub joined :
      (u : ℕ)
      → mem u c.block_list ≡ true
      → due (record c { ticks = suc c.ticks }) u ≡ true
      → mem u c'.kernel.ready_list ≡ true
  pub lower : c'.thread_smallest ≤ℤ c.thread_smallest

-- No one is due before the tick that get_next_awake tells.
none_due :
    (c : Timer)
    → IsCalm c
    → leb_ℤ c.thread_smallest (pos c.ticks) ≡ false
    → All (λ t. due c t ≡ false) c.block_list
none_due c m h = All-map (λ u s. ground (arith, s, h)) c.block_list m.smallest

never : (m d : Bool) → (m && d) ≡ false → m ≡ true → d ≡ true → ⊥
never m d p q r = ground (arith, p, q, r)

-- A timer interrupt of a calm clock, without the feedback queue, returns; it counts the tick, the
-- sleepers that are due at that tick are ready, in the ready list and off their own, no other thread changes its state,
-- the same thread runs, and the clock is calm. It asks for a yield once the time slice of the running
-- thread is used up.
pub interrupt_lem :
    (c : Timer)
    → IsCalm c
    → c.kernel.mlfqs ≡ false
    → (c' : Timer) × (timer_interrupt c
        ≡ ok (c', leb time_slice ((c.kernel.thread_ticks + 1) % 2 ^ 32)))
      × Alarm c c'
unfolding timer_interrupt
interrupt_lem c m off =
    let (k, e, p) = tick_lem (suc c.ticks) c.kernel m.valid off in
    let c2 = record c { kernel = k; ticks = suc c.ticks } in
    let m2 = IsCalm-Ticked c k (suc c.ticks) m p in
    let d : due c2 ≡ due (record c { ticks = suc c.ticks }) =
      fun_ext (λ u. ground (arith, p.same_wake u)) in
    elim (Bool-cases (leb_ℤ c2.thread_smallest (pos c2.ticks))) [
      | inl now ↦
          let (c3, f, w) = wake_lem c2 m2 in
          (
            c3,
            ground (arith, e, now, f),
            record {
              calm = w.calm;
              mlfqs = w.mlfqs ∙ p.mlfqs;
              wake_t = λ u. ground (arith, w.threads u, p.same_wake u);
              ticks = w.ticks;
              block_list = w.block_list ∙ ap (λ f. kept f c.block_list) d;
              status = λ u. ground (arith, w.threads u, p.same_status u, p.same_wake u);
              current = w.current ∙ p.current;
              idle = w.idle ∙ p.idle;
              queued = λ u h. w.queued u (ap (mem u) p.ready_list ∙ h);
              joined = λ u h y. w.joined u h (ap (λ (g : ℕ → Bool). g u) d ∙ y);
              lower = w.lower;
            },
          )
      | inr later ↦
          let none = none_due c2 m2 later in
          (
            c2,
            ground (arith, e, later),
            record {
              calm = m2;
              mlfqs = p.mlfqs;
              wake_t = p.same_wake;
              ticks = refl;
              block_list =
                  sym (kept-none (due c2) c.block_list none) ∙ ap (λ f. kept f c.block_list) d;
              status = λ u.
                  ground
                    (arith, mem-none (due c2) u c.block_list none, p.same_status u, p.same_wake u);
              current = p.current;
              idle = p.idle;
              queued = λ u h. ap (mem u) p.ready_list ∙ h;
              joined = λ u h y. absurd (
                  never (mem u c.block_list) (due c2 u) (mem-none (due c2) u c.block_list none) h
                    (ap (λ (g : ℕ → Bool). g u) d ∙ y));
              lower = omega arith;
            },
          )
    ]
