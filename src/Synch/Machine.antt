-- ===== src/Synch/Machine.antt =====
-- A lock of threads/synch.c under any interleaving: threads enter lock_acquire, run its rounds, own
-- the lock and release it, with switches of threads and any other code of the kernel in between.
use os_pintos.Common.{
  ◌%◌, ◌^◌, ℕ, suc, ◌+◌, ◌-◌, ◌≡◌, ◌≢◌, refl, Bool, true, false, none, some, Outcome, ok, panic,
  killed, ◌>>=◌, arith, ◌==◌, if◌then◌else◌, Bool-cases, inl, inr,
}
use os_pintos.Klist.{list_sort}
use os_pintos.Sched.{
  is_running, Kernel, prio, is_prior_larger, thread_current, thread_block, thread_yield,
}
use os_pintos.Synch.{
  sema_sleep, Lock, lock_init, sema_down, sema_up, sema_try_down, wake_front,
  lock_held_by_current_thread, acquire_check, acquire_down, acquire_own, lock_try_acquire,
  release_drop, release_up,
}

-- Where a thread is in its use of the lock: not in it, in the loop of sema_down, behind the loop but
-- not yet the holder, the holder, or not the holder any more but before sema_up.
pub data Stage : Type 0 where
  outside waiting passed holding dropped : Stage

abbrev pub is_inside : Stage → Bool
is_inside outside = false
is_inside waiting = false
is_inside _ = true

abbrev pub is_holding : Stage → Bool
is_holding holding = true
is_holding _ = false

pub record Machine : Type 0 where
  pub kernel : Kernel
  pub lock : Lock
  pub stage : ℕ → Stage

abbrev pub at : (ℕ → Stage) → ℕ → Stage → ℕ → Stage
at f t s u = if t == u then s else f u

abbrev pub stage_now : Machine → Stage
stage_now m = m.stage m.kernel.current

abbrev pub after : Machine → Kernel → Lock → Stage → Machine
after m k l s = record { kernel = k; lock = l; stage = at m.stage m.kernel.current s }

-- The steps of the running thread, and any other change of the kernel.
pub data Step (m : Machine) : Machine → Type 0 where
  enter :
      stage_now m ≡ outside
      → acquire_check m.kernel m.lock ≡ ok tt
      → Step m (after m m.kernel m.lock waiting)
  down :
      {k : Kernel} {l : Lock} {done : Bool}
      → stage_now m ≡ waiting
      → acquire_down m.kernel m.lock ≡ ok (k, l, done)
      → Step m (after m k l (if done then passed else waiting))
  own :
      {l : Lock}
      → stage_now m ≡ passed
      → acquire_own m.kernel m.lock ≡ ok l
      → Step m (after m m.kernel l holding)
  try :
      {l : Lock} {success : Bool}
      → stage_now m ≡ outside
      → lock_try_acquire m.kernel m.lock ≡ ok (l, success)
      → Step m (after m m.kernel l (if success then holding else outside))
  drop :
      {l : Lock}
      → stage_now m ≡ holding
      → release_drop m.kernel m.lock ≡ ok l
      → Step m (after m m.kernel l dropped)
  up :
      {k : Kernel} {l : Lock}
      → stage_now m ≡ dropped
      → release_up m.kernel m.lock ≡ ok (k, l)
      → Step m (after m k l outside)
  other : (k : Kernel) → Step m (record m { kernel = k })

pub data Reachable : Machine → Type 0 where
  start : (k : Kernel) → Reachable (record { kernel = k; lock = lock_init; stage = λ t. outside })
  next : {m m' : Machine} → Reachable m → Step m m' → Reachable m'

-- What a call that returned has computed.
pub returned :
    {A B : Type 0} (m : Outcome A) (f : A → Outcome B) (b : B)
    → m >>= f ≡ ok b
    → (a : A) × (m ≡ ok a) × (f a ≡ ok b)
returned (ok a) f b e = (a, refl, e)
returned panic f b e = absurd (ground arith)
returned killed f b e = absurd (ground arith)

-- A round of lock_acquire lowers the value from above 0, or leaves it at 0; the holder stays.
abbrev pub Lowered : Lock → Lock → Bool → Type 0
Lowered l l' done =
    (l'.holder ≡ l.holder)
    × (if done
        then (l.semaphore.value ≢ 0) × (l'.semaphore.value + 1 ≡ l.semaphore.value)
        else l'.semaphore.value ≡ l.semaphore.value)

pub down_lem :
    (k : Kernel) (l : Lock) (k' : Kernel) (l' : Lock) (done : Bool)
    → acquire_down k l ≡ ok (k', l', done)
    → Lowered l l' done
unfolding acquire_down sema_down sema_sleep
down_lem k l k' l' done e =
    let s = l.semaphore in
    let (a, f, g) = returned (sema_down k s) _ (k', l', done) e in
    elim (Bool-cases (s.value == 0)) [
      | inl z ↦
          let f1 : sema_sleep k s ≡ ok a = rw z at f in
          let (cur, f2, g2) = returned (thread_current k) _ a f1 in
          let (k1, f3, g3) = returned (thread_block k) _ a g2 in
          let d : done ≡ false = ground (arith, g, g3) in
          (ground (arith, g), rw d (ground (arith, g, g3)))
      | inr z ↦
          let f1 : ok (k, record s { value = s.value - 1 }, true) ≡ ok a = rw z at f in
          let d : done ≡ true = ground (arith, g, f1) in
          (ground (arith, g), rw d (ground (arith, z), ground (arith, g, f1, z)))
    ]

-- sema_up adds one to the value, as an unsigned.
pub up_lem :
    (k : Kernel) (l : Lock) (k' : Kernel) (l' : Lock)
    → release_up k l ≡ ok (k', l')
    → (l'.holder ≡ l.holder) × (l'.semaphore.value ≡ (l.semaphore.value + 1) % 2 ^ 32)
unfolding release_up sema_up
up_lem k l k' l' e =
    let (a, f, g) = returned (sema_up k l.semaphore) _ (k', l') e in
    let (w, f1, g1) =
      returned (list_sort (is_prior_larger (prio k.threads)) l.semaphore.waiters) _ a f in
    let (x, f2, g2) = returned (wake_front k w) _ a g1 in
    let (y, f3, g3) = returned (thread_yield x.0) _ a g2 in ground (arith, g, g3)

pub current_lem : (k : Kernel) (t : ℕ) → thread_current k ≡ ok t → t ≡ k.current
unfolding thread_current
current_lem k t e = elim (Bool-cases (is_running (k.threads k.current).status)) [
  | inl r ↦ ground (arith, e, r)
  | inr r ↦ absurd (ground (arith, e, r))
]

pub own_lem :
    (k : Kernel) (l l' : Lock)
    → acquire_own k l ≡ ok l'
    → (l'.holder ≡ some k.current) × (l'.semaphore ≡ l.semaphore)
unfolding acquire_own
own_lem k l l' e =
    let (t, f, g) = returned (thread_current k) _ l' e in
    let c = current_lem k t f in (ground (arith, g, c), ground (arith, g))

pub drop_lem :
    (k : Kernel) (l l' : Lock)
    → release_drop k l ≡ ok l'
    → (l'.holder ≡ none) × (l'.semaphore ≡ l.semaphore)
unfolding release_drop
drop_lem k l l' e =
    let (h, f, g) = returned (lock_held_by_current_thread k l) _ l' e in
    elim (Bool-cases h) [
      | inl y ↦
          let g1 : ok (record l { holder = none }) ≡ ok l' = rw y at g in
          (ground (arith, g1), ground (arith, g1))
      | inr n ↦ let g1 : panic ≡ ok l' = rw n at g in absurd (ground (arith, g1))
    ]

-- What lock_try_acquire has done.
abbrev pub Tried : Kernel → Lock → Lock → Bool → Type 0
Tried k l l' success =
    if success
    then (l'.holder ≡ some k.current)
      × (l.semaphore.value ≢ 0)
      × (l'.semaphore.value + 1 ≡ l.semaphore.value)
    else (l'.holder ≡ l.holder) × (l'.semaphore.value ≡ l.semaphore.value)

pub try_lem :
    (k : Kernel) (l l' : Lock) (success : Bool)
    → lock_try_acquire k l ≡ ok (l', success)
    → Tried k l l' success
unfolding lock_try_acquire sema_try_down
try_lem k l l' success e =
    let s = l.semaphore in
    let (u, f, g) = returned (acquire_check k l) _ (l', success) e in
    let low = record l { semaphore = record s { value = s.value - 1 } } in
    elim (Bool-cases (s.value == 0)) [
      | inl z ↦
          let g1 : ok (l, false) ≡ ok (l', success) = rw z at g in
          let d : success ≡ false = ground (arith, g1) in
          rw d (ground (arith, g1), ground (arith, g1))
      | inr z ↦
          let g1 : acquire_own k low >>= (λ m. ok (m, true)) ≡ ok (l', success) = rw z at g in
          let (m, f2, g2) = returned (acquire_own k low) _ (l', success) g1 in
          let (o, q) = own_lem k low m f2 in
          let d : success ≡ true = ground (arith, g2) in
          rw d (ground (arith, g2, o), ground (arith, z), ground (arith, g2, q, z))
    ]
