-- ===== src/Synch/Up.antt =====
-- sema_up: the thread that is woken, and who runs afterwards.
use mathlib.Core.List.{Perm}
use mathlib.Core.List.Perm
use os_pintos.Common.{
  ℕ, ◌+◌, ◌%◌, ◌^◌, ◌∙◌, ap, true, ◌≡◌, ◌≢◌, refl, sym, List, [], ◌∷◌, false, ok, arith, inl, inr,
  ◌⊎◌,
}
use os_pintos.Common.Int.{ℤ}
use os_pintos.Klist.Order.{All, Above, Sorted, Unique}
use os_pintos.Klist.Sort.{sort_total}
use os_pintos.Klist.Permuted.{All_of_perm, Unique-of_perm}
use os_pintos.Sched.{
  Status, ready, blocked, Kernel, prio, is_prior_larger, insert_ready, set_status, list_remove,
}
use os_pintos.Sched.Invariant.{IsValid, IsTop, prior-IsOrder}
use os_pintos.Sched.Switch.{yield_lem, unblock_lem, IsRunnable, mem-inserted}
use os_pintos.Sched.Aging.{mem}
use os_pintos.Synch.{Semaphore, sema_up, wake_front}

Status-discrete : Discrete Status
Status-discrete = hlevel

abbrev pub IsWaiting : Kernel → ℕ → Type 0
IsWaiting k t = (k.threads t).status ≡ blocked

IsWaiting-prop : (k : Kernel) (t : ℕ) → IsProp (IsWaiting k t)
IsWaiting-prop k t = hlevel Status-discrete

not_larger_prop : (p : ℕ → ℤ) (t u : ℕ) → IsProp (is_prior_larger p u t ≡ false)
not_larger_prop p t u = hlevel

list_remove-absent : (t : ℕ) (l : List ℕ) → All (λ u. t ≢ u) l → list_remove t l ≡ l
unfolding list_remove
list_remove-absent t [] h = refl
list_remove-absent t (u ∷ l) h = ground (arith, h.0, list_remove-absent t l h.1)

-- The waiters of a semaphore are blocked, and none waits twice.
pub record IsSound (k : Kernel) (s : Semaphore) : Type 0 where
  pub unique : Unique s.waiters
  pub waiting : All (IsWaiting k) s.waiters

-- The kernel after a thread was unblocked.
abbrev pub unblocked : Kernel → ℕ → Kernel
unblocked k t = set_status (insert_ready k t) t ready

-- The step to `k1` woke a thread: none if none waited, else one of the largest priority, which is
-- ready and in its place in the ready list.
abbrev pub Woke : Kernel → Kernel → List ℕ → List ℕ → Type 0
Woke k k1 waiters rest =
    ((waiters ≡ []) × (rest ≡ []) × (k1 ≡ k))
    ⊎ ((w : ℕ) × Perm (w ∷ rest) waiters
        × Above (is_prior_larger (prio k.threads)) w waiters
        × (k1 ≡ unblocked k w))

-- The front of the sorted waiters.
wake_front_lem :
    (k : Kernel) (waiters l : List ℕ)
    → IsValid k
    → Perm l waiters
    → Sorted (is_prior_larger (prio k.threads)) l
    → Unique l
    → All (IsWaiting k) l
    → (k1 : Kernel) × (rest : List ℕ) × (wake_front k l ≡ ok (k1, rest))
      × IsValid k1
      × Woke k k1 waiters rest
unfolding wake_front
wake_front_lem k waiters [] v p s u a = (k, [], refl, v, inl (sym (Perm.nil-eq p), refl, refl))
wake_front_lem k waiters (t ∷ l) v p s u a =
    let (e, w) = unblock_lem k t v a.0 in
    let less = is_prior_larger (prio k.threads) in
    (
      unblocked k t,
      l,
      ground (arith, e, list_remove-absent t l u.0),
      w,
      inr (
        t,
        p,
        All_of_perm (λ b. less b t ≡ false) (not_larger_prop (prio k.threads) t) p
            (ground arith, s.0),
        refl,
      ),
    )

-- After the step to `k1`, a thread that was woken runs or waits in the ready list.
abbrev pub Woken : Kernel → Kernel → List ℕ → List ℕ → Type 0
Woken k k' waiters rest =
    ((waiters ≡ []) × (rest ≡ []))
    ⊎ ((w : ℕ) × Perm (w ∷ rest) waiters
        × Above (is_prior_larger (prio k.threads)) w waiters
        × IsRunnable k' w)

Woken-Woke :
    (k k1 k' : Kernel) (waiters rest : List ℕ)
    → Woke k k1 waiters rest
    → ((u : ℕ) → mem u k1.ready_list ≡ true → IsRunnable k' u)
    → Woken k k' waiters rest
Woken-Woke k k1 k' waiters rest (inl (a, b, c)) r = inl (a, b)
Woken-Woke k k1 k' waiters rest (inr (w, p, a, e)) r =
    let here = mem-inserted (is_prior_larger (prio k.threads)) w k.ready_list in
    let m : mem w k1.ready_list ≡ true = ap (λ (j : Kernel). mem w j.ready_list) e ∙ here in
    inr (w, p, a, r w m)

-- sema_up for a valid kernel returns: the value is one more, as an unsigned; a waiter of the largest
-- priority, if any waits, is taken off the waiters and runs or waits in the ready list; and the
-- kernel is valid and runs a thread that no ready one exceeds.
pub sema_up_lem :
    (k : Kernel) (s : Semaphore)
    → IsValid k
    → IsSound k s
    → (k' : Kernel) × (s' : Semaphore) × (sema_up k s ≡ ok (k', s'))
      × (s'.value ≡ (s.value + 1) % 2 ^ 32)
      × Woken k k' s.waiters s'.waiters
      × IsValid k'
      × IsTop k'
unfolding sema_up
sema_up_lem k s v i =
    let p = prio k.threads in
    let (l, e, perm, sorted) = sort_total (is_prior_larger p) (prior-IsOrder p) s.waiters in
    let back = Perm.symm perm in
    let (k1, rest, f, v1, w) =
      wake_front_lem k s.waiters l v perm sorted (Unique-of_perm back i.unique)
        (All_of_perm (IsWaiting k) (IsWaiting-prop k) back i.waiting) in
    let (k2, g, y) = yield_lem k1 v1 in
    (
      k2,
      record { value = (s.value + 1) % 2 ^ 32; waiters = rest },
      ground (arith, e, f, g),
      refl,
      Woken-Woke k k1 k2 s.waiters rest w y.runnable,
      y.valid,
      y.top,
    )
