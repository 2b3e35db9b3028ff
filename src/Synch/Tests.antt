-- ===== src/Synch/Tests.antt =====
-- The theorems on semaphores at one with two waiters, and a lock that a thread takes and releases.
use os_pintos.Common.{ℕ, ◌≡◌, refl, [], ◌∷◌, true, false, some, ok, arith}
use os_pintos.Klist.{list_insert_ordered}
use os_pintos.Sched.{Kernel, prio, is_prior_larger}
use os_pintos.Sched.Invariant.{IsValid, IsTop}
use os_pintos.Sched.Sample.{kernel, kernel-IsValid}
use os_pintos.Synch.{
  Semaphore, Lock, lock_init, is_some, sema_up, sema_down, acquire_check, acquire_own, acquire_down,
}
use os_pintos.Synch.Up.{IsSound, IsWaiting, Woken, sema_up_lem}
use os_pintos.Synch.Down.{sema_down_lem}
use os_pintos.Synch.Machine.{
  outside, waiting, passed, holding, is_inside, is_holding, Machine, after, Reachable, start, next,
  enter, down, own,
}
use os_pintos.Synch.Exclusion.{mutual_exclusion}

abbrev sema : Semaphore
sema = record { value = 0; waiters = 6 ∷ 5 ∷ [] }

sema-IsSound : IsSound kernel sema
sema-IsSound = record { unique = ((ground arith, tt), (tt, tt)); waiting = (refl, (refl, tt)) }

sema_up_lem_example :
    (k' : Kernel) × (s' : Semaphore) × (sema_up kernel sema ≡ ok (k', s'))
    × (s'.value ≡ 1)
    × Woken kernel k' (6 ∷ 5 ∷ []) s'.waiters
    × IsValid k'
    × IsTop k'
sema_up_lem_example = sema_up_lem kernel sema kernel-IsValid sema-IsSound

sema_down_lem_example :
    (k' : Kernel) × (s' : Semaphore) × (sema_down kernel sema ≡ ok (k', s', false))
    × (s'.value ≡ 0)
    × (s'.waiters ≡ list_insert_ordered (is_prior_larger (prio kernel.threads)) 1 (6 ∷ 5 ∷ []))
    × IsWaiting k' 1
    × IsSound k' s'
    × IsValid k'
sema_down_lem_example =
    sema_down_lem kernel sema kernel-IsValid sema-IsSound refl (ground arith)
      (ground arith, (ground arith, tt))

-- Thread 1 acquires the lock.
abbrev begin : Machine
begin = record { kernel = kernel; lock = lock_init; stage = λ t. outside }

abbrev in_loop : Machine
in_loop = after begin kernel lock_init waiting

abbrev lowered : Lock
lowered = record lock_init { semaphore = record { value = 0; waiters = [] } }

abbrev behind : Machine
behind = after in_loop kernel lowered passed

abbrev held : Machine
held = after behind kernel (record lowered { holder = some 1 }) holding

held-reached : Reachable held
unfolding acquire_check acquire_down acquire_own
held-reached =
    next (next (next (start kernel) (enter refl refl)) (down {done = true} refl refl))
      (own refl refl)

mutual_exclusion_example :
    ((t u : ℕ) → is_inside (held.stage t) ≡ true → is_inside (held.stage u) ≡ true → t ≡ u)
    × ((t : ℕ) → is_inside (held.stage t) ≡ true → held.lock.semaphore.value ≡ 0)
    × (held.lock.semaphore.value ≡ 0 → (t : ℕ) × (is_inside (held.stage t) ≡ true))
    × ((t : ℕ) → is_some held.lock.holder t ≡ is_holding (held.stage t))
mutual_exclusion_example = mutual_exclusion held-reached
