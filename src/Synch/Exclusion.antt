-- ===== src/Synch/Exclusion.antt =====
-- Mutual exclusion: at most one thread is in a lock, and the lock's holder is that thread.
use os_pintos.Common.{
  ◌%◌, ◌^◌, ℕ, suc, ◌+◌, ◌≤◌, ◌≡◌, ◌≢◌, refl, sym, ◌∙◌, true, false, some, arith, ◌==◌, Bool-cases,
  inl, inr,
}
use os_pintos.Sched.{Kernel}
use os_pintos.Synch.{Lock, is_some}
use os_pintos.Synch.Machine.{
  Stage, outside, waiting, passed, holding, dropped, is_inside, is_holding, Machine, at, stage_now,
  after, Step, enter, down, own, try, drop, up, other, Reachable, start, next, down_lem, own_lem,
  drop_lem, up_lem, try_lem,
}

pub record IsExclusive (m : Machine) : Type 0 where
  pub one : (t u : ℕ) → is_inside (m.stage t) ≡ true → is_inside (m.stage u) ≡ true → t ≡ u
  pub taken : (t : ℕ) → is_inside (m.stage t) ≡ true → m.lock.semaphore.value ≡ 0
  pub bound : m.lock.semaphore.value ≤ 1
  pub owned : m.lock.semaphore.value ≡ 0 → (t : ℕ) × (is_inside (m.stage t) ≡ true)
  pub holder : (t : ℕ) → is_some m.lock.holder t ≡ is_holding (m.stage t)

-- A step that stays outside.
stay :
    (m : Machine) (k : Kernel) (l : Lock) (s : Stage)
    → IsExclusive m
    → is_inside (stage_now m) ≡ false
    → is_inside s ≡ false
    → l.semaphore.value ≡ m.lock.semaphore.value
    → l.holder ≡ m.lock.holder
    → IsExclusive (after m k l s)
stay m k l s i a b v h =
    let old : (t : ℕ)
        → is_inside (at m.stage m.kernel.current s t) ≡ true
        → is_inside (m.stage t) ≡ true =
      λ t p. ground (arith, p, b) in
    record {
      one = λ t u p q. i.one t u (old t p) (old u q);
      taken = λ t p. v ∙ i.taken t (old t p);
      bound = rw v i.bound;
      owned = λ e. let (t, p) = i.owned (sym v ∙ e) in (t, ground (arith, p, a));
      holder = λ t. ground (arith, i.holder t, a, b, h);
    }

-- A step into the lock.
come_in :
    (m : Machine) (k : Kernel) (l : Lock) (s : Stage)
    → IsExclusive m
    → is_inside s ≡ true
    → m.lock.semaphore.value ≢ 0
    → l.semaphore.value + 1 ≡ m.lock.semaphore.value
    → ((t : ℕ) → is_some l.holder t ≡ is_holding (at m.stage m.kernel.current s t))
    → IsExclusive (after m k l s)
come_in m k l s i a z v h = record {
  one = λ t u p q. ground (arith, i.taken t, i.taken u, p, q, z);
  taken = λ t p. ground (arith, i.bound, v);
  bound = ground (arith, i.bound, v);
  owned = λ e. (m.kernel.current, ground (arith, a));
  holder = h;
}

-- A step inside the lock.
go_on :
    (m : Machine) (l : Lock) (s : Stage)
    → IsExclusive m
    → is_inside (stage_now m) ≡ true
    → is_inside s ≡ true
    → l.semaphore ≡ m.lock.semaphore
    → ((t : ℕ) → is_some l.holder t ≡ is_holding (at m.stage m.kernel.current s t))
    → IsExclusive (after m m.kernel l s)
go_on m l s i a b v h = record {
  one = λ t u p q. i.one t u (ground (arith, p, a)) (ground (arith, q, a));
  taken = λ t p. ground (arith, i.taken m.kernel.current a, v);
  bound = ground (arith, i.bound, v);
  owned = λ e. (m.kernel.current, ground (arith, b));
  holder = h;
}

-- A step out of the lock.
go_out :
    (m : Machine) (k : Kernel) (l : Lock)
    → IsExclusive m
    → stage_now m ≡ dropped
    → l.semaphore.value ≡ (m.lock.semaphore.value + 1) % 2 ^ 32
    → l.holder ≡ m.lock.holder
    → IsExclusive (after m k l outside)
go_out m k l i a v h =
    let cur = m.kernel.current in
    let zero_now = i.taken cur (ground (arith, a)) in
    let none_in : (t : ℕ) → is_inside (at m.stage cur outside t) ≡ false = λ t.
      elim (Bool-cases (is_inside (m.stage t))) [
        | inl p ↦ let e = i.one cur t (ground (arith, a)) p in ground (arith, e)
        | inr p ↦ ground (arith, p)
      ] in
    record {
      one = λ t u p q. absurd (ground (arith, p, none_in t));
      taken = λ t p. absurd (ground (arith, p, none_in t));
      bound = omega (arith, v, zero_now);
      owned = λ e. absurd (omega (arith, v, e));
      holder = λ t. ground (arith, i.holder t, h, a);
    }

-- Where a thread is inside, no other is; where the value is not 0, none is.
alone :
    (m : Machine)
    → IsExclusive m
    → is_inside (stage_now m) ≡ true
    → (t : ℕ) → m.kernel.current == t ≡ false
    → is_inside (m.stage t) ≡ false
alone m i a t n = elim (Bool-cases (is_inside (m.stage t))) [
  | inl p ↦ let e = i.one m.kernel.current t a p in absurd (ground (arith, e, n))
  | inr p ↦ p
]

vacant :
    (m : Machine)
    → IsExclusive m
    → m.lock.semaphore.value ≢ 0
    → (t : ℕ) → m.kernel.current == t ≡ false
    → is_inside (m.stage t) ≡ false
vacant m i z t n = elim (Bool-cases (is_inside (m.stage t))) [
  | inl p ↦ absurd (z (i.taken t p))
  | inr p ↦ p
]

owner :
    (m : Machine) (l : Lock) (s : Stage)
    → l.holder ≡ some m.kernel.current
    → is_holding s ≡ true
    → ((t : ℕ) → m.kernel.current == t ≡ false → is_inside (m.stage t) ≡ false)
    → (t : ℕ) → is_some l.holder t ≡ is_holding (at m.stage m.kernel.current s t)
owner m l s h a rest t = elim (Bool-cases (m.kernel.current == t)) [
  | inl y ↦ ground (arith, h, a, y)
  | inr n ↦ let r = rest t n in ground (arith, h, n, r)
]

step-IsExclusive : {m m' : Machine} → IsExclusive m → Step m m' → IsExclusive m'
step-IsExclusive {m} i (enter a e) =
    stay m m.kernel m.lock waiting i (ground (arith, a)) refl refl refl
step-IsExclusive {m} i (down {k} {l} {done = true} a e) =
    let (h, r) = down_lem m.kernel m.lock k l true e in
    come_in m k l passed i refl r.0 r.1 (λ t. ground (arith, h, a, i.holder t))
step-IsExclusive {m} i (down {k} {l} {done = false} a e) =
    let (h, v) = down_lem m.kernel m.lock k l false e in
    stay m k l waiting i (ground (arith, a)) refl v h
step-IsExclusive {m} i (own {l} a e) =
    let (h, v) = own_lem m.kernel m.lock l e in
    go_on m l holding i (ground (arith, a)) refl v
      (owner m l holding h refl (alone m i (ground (arith, a))))
step-IsExclusive {m} i (try {l} {success = true} a e) =
    let (h, z, v) = try_lem m.kernel m.lock l true e in
    come_in m m.kernel l holding i refl z v (owner m l holding h refl (vacant m i z))
step-IsExclusive {m} i (try {l} {success = false} a e) =
    let (h, v) = try_lem m.kernel m.lock l false e in
    stay m m.kernel l outside i (ground (arith, a)) refl v h
step-IsExclusive {m} i (drop {l} a e) =
    let (h, v) = drop_lem m.kernel m.lock l e in
    go_on m l dropped i (ground (arith, a)) refl v
      (λ t. ground (arith, h, alone m i (ground (arith, a)) t))
step-IsExclusive {m} i (up {k} {l} a e) =
    let (h, v) = up_lem m.kernel m.lock k l e in go_out m k l i a v h
step-IsExclusive {m} i (other k) = record {
  one = i.one;
  taken = i.taken;
  bound = i.bound;
  owned = i.owned;
  holder = i.holder;
}

Reachable-IsExclusive : {m : Machine} → Reachable m → IsExclusive m
Reachable-IsExclusive (start k) = record {
  one = λ t u p q. absurd (ground (arith, p));
  taken = λ t p. absurd (ground (arith, p));
  bound = omega arith;
  owned = λ e. absurd (omega (arith, e));
  holder = λ t. refl;
}
Reachable-IsExclusive (next r s) = step-IsExclusive (Reachable-IsExclusive r) s

-- However threads interleave on a lock: at most one thread is between the end of its sema_down and
-- its sema_up, the value is 0 exactly then, and the lock names as its holder exactly the thread that
-- has become the holder and has not yet released.
pub mutual_exclusion :
    {m : Machine}
    → Reachable m
    → ((t u : ℕ) → is_inside (m.stage t) ≡ true → is_inside (m.stage u) ≡ true → t ≡ u)
      × ((t : ℕ) → is_inside (m.stage t) ≡ true → m.lock.semaphore.value ≡ 0)
      × (m.lock.semaphore.value ≡ 0 → (t : ℕ) × (is_inside (m.stage t) ≡ true))
      × ((t : ℕ) → is_some m.lock.holder t ≡ is_holding (m.stage t))
mutual_exclusion r = let i = Reachable-IsExclusive r in (i.one, i.taken, i.owned, i.holder)
