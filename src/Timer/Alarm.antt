-- ===== src/Timer/Alarm.antt =====
-- Every sleeper is woken, at its tick and not before, while timer interrupts go on.
use mathlib.Core.Path.{subst}
use os_pintos.Common.{
  if◌then◌else◌, ◌≢◌, sym, ◌%◌, ◌^◌, ◌==◌, leb, ℕ, zero, suc, ◌+◌, ◌≤◌, ◌<◌, ◌≡◌, refl, ◌∙◌, ap,
  List, [], ◌∷◌, Bool, true, false, ◌&&◌, not, ltb, Outcome, ok, ◌>>=◌, arith, inl, inr, Bool-cases,
}
use os_pintos.Common.Int.{pos}
use os_pintos.Sched.Aging.{mem, All-map}
use os_pintos.Mlfqs.{time_slice}
use os_pintos.Timer.{Timer, due, leb_ℤ, intr_handler}
use os_pintos.Timer.Kept.{kept}
use os_pintos.Klist.Order.{All}
use os_pintos.Sched.{Thread, Kernel, thread_yield}
use os_pintos.Sched.Switch.{IsRunnable, Yielded, yield_lem}
use os_pintos.Timer.Sleep.{IsCalm, All-both}
use os_pintos.Timer.Interrupt.{Alarm, interrupt_lem}

-- Some timer interrupts, one after the other, each with the yield that it asks for.
unfoldable pub interrupts : ℕ → Timer → Outcome Timer
unfolding intr_handler
interrupts zero c = ok c
interrupts (suc n) c = do c1 ← intr_handler c; interrupts n c1

mem-kept : (d : ℕ → Bool) (u : ℕ) (l : List ℕ) → mem u (kept d l) ≡ (mem u l && not (d u))
mem-kept d u [] = refl
mem-kept d u (t ∷ l) = elim (Bool-cases (d t)) [
  | inl y ↦ ground (arith, y, mem-kept d u l)
  | inr n ↦ ground (arith, n, mem-kept d u l)
]

-- A sleeper that wakes at tick `w`.
pub record Sleeps (c : Timer) (u w : ℕ) : Type 0 where
  pub listed : mem u c.block_list ≡ true
  pub wake : (c.kernel.threads u).wake_t ≡ pos w

-- A thread that was woken: it is off the list of sleepers, and runs or waits in the ready list.
pub record IsAwake (c : Timer) (u : ℕ) : Type 0 where
  pub unlisted : mem u c.block_list ≡ false
  pub runnable : IsRunnable c.kernel u
  pub not_idle : c.kernel.idle_thread ≢ u

listed_after :
    (c c' : Timer) (u : ℕ)
    → Alarm c c'
    → mem u c'.block_list ≡ (mem u c.block_list && not (due (record c { ticks = suc c.ticks }) u))
listed_after c c' u a =
    let d = due (record c { ticks = suc c.ticks }) in
    ap (mem u) a.block_list ∙ mem-kept d u c.block_list

due_at :
    (c : Timer) (u w : ℕ)
    → Sleeps c u w
    → due (record c { ticks = suc c.ticks }) u ≡ leb_ℤ (pos w) (pos (suc c.ticks))
due_at c u w s = ap (λ x. leb_ℤ x (pos (suc c.ticks))) s.wake

early : (w n : ℕ) → n < w → leb_ℤ (pos w) (pos n) ≡ false
early w n h = ground (arith, h)

on_time : (w n : ℕ) → w ≤ n → leb_ℤ (pos w) (pos n) ≡ true
on_time w n h = ground (arith, h)

IsRunnable-after :
    (c c' : Timer) (u : ℕ) → Alarm c c' → IsRunnable c.kernel u → IsRunnable c'.kernel u
IsRunnable-after c c' u a (inl e) = inl (e ∙ sym a.current)
IsRunnable-after c c' u a (inr m) = inr (a.queued u m)

IsAwake-later : (c c' : Timer) (u : ℕ) → Alarm c c' → IsAwake c u → IsAwake c' u
IsAwake-later c c' u a s = record {
  unlisted = ground (arith, listed_after c c' u a, s.unlisted);
  runnable = IsRunnable-after c c' u a s.runnable;
  not_idle = λ e. s.not_idle (sym a.idle ∙ e);
}

Sleeps-later :
    (c c' : Timer) (u w : ℕ) → Alarm c c' → Sleeps c u w → suc c.ticks < w → Sleeps c' u w
Sleeps-later c c' u w a s h =
    let d = due_at c u w s ∙ early w (suc c.ticks) h in
    record {
      listed = listed_after c c' u a ∙ both (mem u c.block_list) _ s.listed d;
      wake = a.wake_t u ∙ s.wake;
    }
  where
    both : (m d : Bool) → m ≡ true → d ≡ false → (m && not d) ≡ true
    both m d p q = ground (arith, p, q)

All-mem : (P : ℕ → Type 0) (u : ℕ) (l : List ℕ) → All P l → mem u l ≡ true → P u
All-mem P u [] a h = cc
All-mem P u (t ∷ l) a h = elim (Bool-cases (u == t)) [
  | inl y ↦ let e : u ≡ t = ground (arith, y) in subst P (sym e) a.0
  | inr n ↦ All-mem P u l a.1 (ground (arith, n, h))
]

IsAwake-now :
    (c c' : Timer) (u w : ℕ) → IsCalm c → Alarm c c' → Sleeps c u w → w ≤ suc c.ticks → IsAwake c' u
IsAwake-now c c' u w m a s h =
    let d = due_at c u w s ∙ on_time w (suc c.ticks) h in
    record {
      unlisted = listed_after c c' u a ∙ gone (mem u c.block_list) _ d;
      runnable = inr (a.joined u s.listed d);
      not_idle = λ e.
          All-mem (λ t. c.kernel.idle_thread ≢ t) u c.block_list m.not_idle s.listed
            (sym a.idle ∙ e);
    }
  where
    gone : (m d : Bool) → d ≡ true → (m && not d) ≡ false
    gone m d q = ground (arith, q)

-- What a yield keeps of the clock.
record Given (c c' : Timer) : Type 0 where
  calm : IsCalm c'
  mlfqs : c'.kernel.mlfqs ≡ c.kernel.mlfqs
  ticks : c'.ticks ≡ c.ticks
  asleep : (u w : ℕ) → Sleeps c u w → Sleeps c' u w
  awake : (u : ℕ) → IsAwake c u → IsAwake c' u

Given-refl : (c : Timer) → IsCalm c → Given c c
Given-refl c m = record {
  calm = m;
  mlfqs = refl;
  ticks = refl;
  asleep = λ u w s. s;
  awake = λ u s. s;
}

Given-yield :
    (c : Timer) (k : Kernel) → IsCalm c → Yielded c.kernel k → Given c (record c { kernel = k })
Given-yield c k m y =
    let same = All-both (λ u b i. y.kept.blocked_ones u b i) c.block_list m.asleep m.not_idle in
    record {
      calm = record {
        valid = y.valid;
        unique = m.unique;
        asleep =
            All-both (λ u e b. ap (λ (th : Thread). th.status) e ∙ b) c.block_list same m.asleep;
        not_idle = All-map (λ u i e. i (sym y.kept.idle ∙ e)) c.block_list m.not_idle;
        smallest = All-map (λ u h. rw (y.kept.wake_t u) h) c.block_list m.smallest;
      };
      mlfqs = y.kept.mlfqs;
      ticks = refl;
      asleep = λ u w s. record { listed = s.listed; wake = y.kept.wake_t u ∙ s.wake };
      awake = λ u s. record {
        unlisted = s.unlisted;
        runnable = still u s.not_idle s.runnable;
        not_idle = λ e. s.not_idle (sym y.kept.idle ∙ e);
      };
    }
  where
    still : (u : ℕ) → c.kernel.idle_thread ≢ u → IsRunnable c.kernel u → IsRunnable k u
    still u i (inr h) = y.runnable u h
    still u i (inl e) = subst (IsRunnable k) (sym e) (y.gave_way (λ p. i (sym p ∙ sym e)))

-- The yield on return from the interrupt.
yield_if :
    (b : Bool) (c : Timer)
    → IsCalm c
    → (k : Kernel) × ((if b then thread_yield c.kernel else ok c.kernel) ≡ ok k)
      × Given c (record c { kernel = k })
yield_if true c m = let (k, e, y) = yield_lem c.kernel m.valid in (k, e, Given-yield c k m y)
yield_if false c m = (c.kernel, refl, Given-refl c m)

handler_lem :
    (c : Timer)
    → IsCalm c
    → c.kernel.mlfqs ≡ false
    → (c1 : Timer) × (c' : Timer) × (intr_handler c ≡ ok c') × Alarm c c1 × Given c1 c'
unfolding intr_handler
handler_lem c m q =
    let (c1, e, a) = interrupt_lem c m q in
    let (k, f, g) = yield_if (leb time_slice ((c.kernel.thread_ticks + 1) % 2 ^ 32)) c1 a.calm in
    (c1, record c1 { kernel = k }, rw (e, f) refl, a, g)

stays_awake :
    (n : ℕ) (c : Timer) (u : ℕ)
    → IsCalm c
    → c.kernel.mlfqs ≡ false
    → IsAwake c u
    → (c' : Timer) × (interrupts n c ≡ ok c') × IsCalm c' × IsAwake c' u
unfolding interrupts
stays_awake zero c u m q s = (c, refl, m, s)
stays_awake (suc n) c u m q s =
    let (c1, c2, e, a, g) = handler_lem c m q in
    let off = g.mlfqs ∙ a.mlfqs ∙ q in
    let (c', f, m', s') = stays_awake n c2 u g.calm off (g.awake u (IsAwake-later c c1 u a s)) in
    (c', rw e f, m', s')

-- What is true of a sleeper after `n` interrupts.
pub record Alarmed (c c' : Timer) (u w n : ℕ) : Type 0 where
  pub calm : IsCalm c'
  pub before : c.ticks + n < w → Sleeps c' u w
  pub after : w ≤ c.ticks + n → IsAwake c' u

-- Any number of timer interrupts on a calm clock, each with the yield that it asks for, without the
-- feedback queue, returns. A thread that sleeps until a later tick is still asleep if they do not
-- reach that tick; as soon as they do it is no longer among the sleepers, and runs or waits in the
-- ready list.
pub wakes_up :
    (n : ℕ) (c : Timer) (u w : ℕ)
    → IsCalm c
    → c.kernel.mlfqs ≡ false
    → Sleeps c u w
    → c.ticks < w
    → (c' : Timer) × (interrupts n c ≡ ok c') × Alarmed c c' u w n
unfolding interrupts
wakes_up zero c u w m q s h =
    (c, refl, record { calm = m; before = λ _. s; after = λ p. absurd (omega (arith, p, h)) })
wakes_up (suc n) c u w m q s h =
    let (c1, c2, e, a, g) = handler_lem c m q in
    let off = g.mlfqs ∙ a.mlfqs ∙ q in
    let t : c2.ticks ≡ suc c.ticks = g.ticks ∙ a.ticks in
    elim (Bool-cases (ltb (suc c.ticks) w)) [
      | inl y ↦
          let r : suc c.ticks < w = ground (arith, y) in
          let (c', f, k) =
            wakes_up n c2 u w g.calm off (g.asleep u w (Sleeps-later c c1 u w a s r))
              (omega (arith, t, r)) in
          (
            c',
            rw e f,
            record {
              calm = k.calm;
              before = λ p. k.before (omega (arith, t, p));
              after = λ p. k.after (omega (arith, t, p));
            },
          )
      | inr x ↦
          let r : w ≤ suc c.ticks = ground (arith, x) in
          let (c', f, m', s') =
            stays_awake n c2 u g.calm off (g.awake u (IsAwake-now c c1 u w m a s r)) in
          (
            c',
            rw e f,
            record { calm = m'; before = λ p. absurd (omega (arith, p, r)); after = λ _. s' },
          )
    ]
