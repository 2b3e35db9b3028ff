-- ===== src/Synch/Down.antt =====
-- sema_down of a semaphore at 0: the thread joins the waiters and another runs.
use os_pintos.Common.{ℕ, ◌≡◌, ◌≢◌, refl, sym, ◌∙◌, List, [], ◌∷◌, false, ok, arith}
use os_pintos.Klist.{list_insert_ordered}
use os_pintos.Klist.Order.{All, All-insert, Unique-insert}
use os_pintos.Sched.{ready, Kernel, prio, is_prior_larger, thread_current}
use os_pintos.Sched.Invariant.{IsValid, not-Chosen}
use os_pintos.Sched.Switch.{block_lem}
use os_pintos.Synch.{Semaphore, sema_sleep, sema_down}
use os_pintos.Synch.Up.{IsWaiting, IsSound}

-- What stays true of each thread of a list.
All-carry :
    (P Q : ℕ → Type 0) (i : ℕ) (l : List ℕ)
    → ((u : ℕ) → P u → i ≢ u → Q u)
    → All P l
    → All (λ u. i ≢ u) l
    → All Q l
All-carry P Q i [] f a b = tt
All-carry P Q i (u ∷ l) f a b = (f u a.0 b.0, All-carry P Q i l f a.1 b.1)

All-each : (P Q : ℕ → Type 0) (l : List ℕ) → ((u : ℕ) → P u → Q u) → All P l → All Q l
All-each P Q [] f a = tt
All-each P Q (u ∷ l) f a = (f u a.0, All-each P Q l f a.1)

-- A round of sema_down at the value 0, by a thread other than the idle one, returns: the thread is
-- blocked and stands among the waiters by its priority, the value is still 0, and the kernel and the
-- semaphore are sound.
pub sema_down_lem :
    (k : Kernel) (s : Semaphore)
    → IsValid k
    → IsSound k s
    → s.value ≡ 0
    → k.idle_thread ≢ k.current
    → All (λ u. k.idle_thread ≢ u) s.waiters
    → (k' : Kernel) × (s' : Semaphore) × (sema_down k s ≡ ok (k', s', false))
      × (s'.value ≡ 0)
      × (s'.waiters ≡ list_insert_ordered (is_prior_larger (prio k.threads)) k.current s.waiters)
      × IsWaiting k' k.current
      × IsSound k' s'
      × IsValid k'
unfolding sema_down sema_sleep thread_current
sema_down_lem k s v i z idle free =
    let cur = k.current in
    let less = is_prior_larger (prio k.threads) in
    let s' = record s { waiters = list_insert_ordered less cur s.waiters } in
    let (k', e, b) = block_lem k v in
    let other : (u : ℕ) → (k.threads u).status ≢ ready → k.idle_thread ≢ u → u ≢ k'.current =
      λ u h g.
        not-Chosen k k' u k.ready_list v.queue.all_ready b.chosen h (λ j. g (sym b.idle ∙ j)) in
    let mine = b.sleeper (other cur (λ h. ground (arith, v.current_runs)) idle) in
    let ne : (u : ℕ) → IsWaiting k u → cur ≢ u = λ u h g. ground (arith, v.current_runs) in
    let still : (u : ℕ) → IsWaiting k u → k.idle_thread ≢ u → IsWaiting k' u = λ u h g.
      let q = other u (λ j. ground (arith, h)) g in
      let n = ne u h in ground (arith, b.others u (λ j. n (sym j)) q, h) in
    let here : IsWaiting k' cur = ground (arith, mine) in
    (
      k',
      s',
      ground (arith, z, v.current_runs, e),
      z,
      refl,
      here,
      record {
        unique =
            Unique-insert less cur s.waiters
              (All-each (IsWaiting k) (λ u. cur ≢ u) s.waiters ne i.waiting) i.unique;
        waiting =
            All-insert less (IsWaiting k') cur s.waiters here
              (All-carry (IsWaiting k) (IsWaiting k') k.idle_thread s.waiters still i.waiting free);
      },
      b.valid,
    )
