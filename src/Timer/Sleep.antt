-- ===== src/Timer/Sleep.antt =====
-- The invariant of the alarm clock, and that timer_sleep keeps it.
use os_pintos.Common.{ℕ, ◌≡◌, ◌≢◌, refl, sym, ◌∙◌, List, [], ◌∷◌, ◌++◌, ok, arith}
use os_pintos.Common.Int.{ℤ, pos, ◌≤ℤ◌, ◌+ℤ◌}
use os_pintos.Klist.Order.{All, Unique}
use os_pintos.Sched.{ready, thread_current}
use os_pintos.Sched.Invariant.{IsValid, not-Chosen}
use os_pintos.Sched.Switch.{current-ne, block_lem}
use os_pintos.Sched.Priority.{with_thread-IsValid}
use os_pintos.Sched.Aging.{All-map}
use os_pintos.Timer.{Timer, update_smallest_tick, set_wake, push_sleeper, timer_sleep}
use os_pintos.Timer.Wake.{IsBlocked}

-- Every sleeper is blocked and in the list once, none of them is the idle thread, and none wakes
-- before the tick that get_next_awake tells.
pub record IsCalm (c : Timer) : Type 0 where
  pub valid : IsValid c.kernel
  pub unique : Unique c.block_list
  pub asleep : All (IsBlocked c.kernel.threads) c.block_list
  pub not_idle : All (λ t. c.kernel.idle_thread ≢ t) c.block_list
  pub smallest : All (λ t. c.thread_smallest ≤ℤ (c.kernel.threads t).wake_t) c.block_list

All-push : (P : ℕ → Type 0) (x : ℕ) (l : List ℕ) → All P l → P x → All P (l ++ (x ∷ []))
All-push P x [] a p = (p, tt)
All-push P x (y ∷ l) a p = (a.0, All-push P x l a.1 p)

Unique-push : (x : ℕ) (l : List ℕ) → Unique l → All (λ y. y ≢ x) l → Unique (l ++ (x ∷ []))
Unique-push x [] u a = (tt, tt)
Unique-push x (y ∷ l) u a = (All-push (λ z. y ≢ z) x l u.0 a.0, Unique-push x l u.1 a.1)

pub All-both :
    {P Q R : ℕ → Type 0} → ((u : ℕ) → P u → Q u → R u) → (l : List ℕ) → All P l → All Q l → All R l
All-both f [] a b = tt
All-both f (u ∷ l) a b = (f u a.0 b.0, All-both f l a.1 b.1)

-- What a sleep of `n` ticks from `c` leaves.
pub record Slept (n : ℤ) (c c' : Timer) : Type 0 where
  pub calm : IsCalm c'
  pub block_list : c'.block_list ≡ c.block_list ++ (c.kernel.current ∷ [])
  pub lower : c'.thread_smallest ≤ℤ c.thread_smallest
  pub sleeps : IsBlocked c'.kernel.threads c.kernel.current
  pub until : (c'.kernel.threads c.kernel.current).wake_t ≡ n +ℤ pos c.ticks

-- timer_sleep for a positive time, called by a thread that is not the idle thread: the thread is
-- blocked, joins the sleepers with the tick at which to wake, and the clock stays calm.
pub sleep_lem :
    (c : Timer) (n : ℤ)
    → IsCalm c
    → c.kernel.idle_thread ≢ c.kernel.current
    → pos 1 ≤ℤ n
    → (c' : Timer) × (timer_sleep c n ≡ ok c') × Slept n c c'
unfolding timer_sleep thread_current update_smallest_tick
sleep_lem c n m idle p =
    let k = c.kernel in
    let cur = k.current in
    let w = n +ℤ pos c.ticks in
    let c1 = push_sleeper (update_smallest_tick (set_wake c cur w) w) cur in
    let v1 =
      with_thread-IsValid k cur (record (k.threads cur) { wake_t = w }) m.valid
        (current-ne k m.valid) refl in
    let (k', e, b) = block_lem c1.kernel v1 in
    let free : (u : ℕ) → (c1.kernel.threads u).status ≢ ready → k.idle_thread ≢ u → u ≢ k'.current =
      λ u h g.
        not-Chosen c1.kernel k' u k.ready_list v1.queue.all_ready b.chosen h
          (λ i. g (sym b.idle ∙ i)) in
    let mine = b.sleeper (free cur (λ h. ground (arith, m.valid.current_runs)) idle) in
    let ne : (u : ℕ) → IsBlocked k.threads u → u ≢ cur =
      λ u h g. ground (arith, m.valid.current_runs) in
    let same : (u : ℕ) → IsBlocked k.threads u → k.idle_thread ≢ u → k'.threads u ≡ k.threads u =
      λ u h g.
        let q = ne u h in
        let r = free u (λ i. ground (arith, q)) g in ground (arith, b.others u q r, q) in
    let sames = All-both same c.block_list m.asleep m.not_idle in
    (
      record c1 { kernel = k' },
      ground (arith, m.valid.current_runs, e),
      record {
        calm = record {
          valid = b.valid;
          unique = Unique-push cur c.block_list m.unique (All-map ne c.block_list m.asleep);
          asleep =
              All-push (IsBlocked k'.threads) cur c.block_list
                (All-both (λ u s a. ground (arith, s, a)) c.block_list sames m.asleep)
                (ground (arith, mine));
          not_idle =
              All-push (λ z. k'.idle_thread ≢ z) cur c.block_list
                (All-map (λ u h. rw b.idle h) c.block_list m.not_idle) (rw b.idle idle);
          smallest =
              All-push (λ z. c1.thread_smallest ≤ℤ (k'.threads z).wake_t) cur c.block_list
                (All-both (λ u s a. ground (arith, s, a)) c.block_list sames m.smallest)
                (ground (arith, mine));
        };
        block_list = refl;
        lower = ground arith;
        sleeps = ground (arith, mine);
        until = ground (arith, mine);
      },
    )
