-- ===== src/Timer/Wake.antt =====
-- wake_thread readies exactly the sleepers whose time has come.
use mathlib.Core.Path.{fun_ext, subst}
use os_pintos.Common.{
  sym, ◌∙◌, true, false, ◌==◌, ℕ, ◌≡◌, ◌≢◌, refl, ap, List, [], ◌∷◌, Bool, ◌&&◌, ok, arith,
  if◌then◌else◌, Bool-cases, inl, inr,
}
use os_pintos.Common.Int.{◌≤ℤ◌}
use os_pintos.Klist.Order.{All, Unique}
use os_pintos.Sched.{
  ready, blocked, Threads, with_status, set_status, insert_ready, prio, is_prior_larger,
}
use os_pintos.Klist.{list_insert_ordered}
use os_pintos.Sched.Invariant.{IsValid}
use os_pintos.Sched.Switch.{unblock_lem, mem-insert, mem-inserted}
use os_pintos.Sched.Aging.{mem, mem_of_all}
use os_pintos.Timer.Kept.{kept}
use os_pintos.Timer.{Timer, update_smallest_tick, due, wake_one, wake_from}

abbrev pub woken : (ℕ → Bool) → List ℕ → Threads → Threads
woken d l f u = if mem u l && d u then record (f u) { status = ready } else f u

abbrev pub IsBlocked : Threads → ℕ → Type 0
IsBlocked f t = (f t).status ≡ blocked

-- From `c` to `c'` the loop has passed `l`.
pub record Passed (l : List ℕ) (c c' : Timer) : Type 0 where
  pub valid : IsValid c'.kernel
  pub threads : (u : ℕ) → c'.kernel.threads u ≡ woken (due c) l c.kernel.threads u
  pub current : c'.kernel.current ≡ c.kernel.current
  pub idle : c'.kernel.idle_thread ≡ c.kernel.idle_thread
  pub mlfqs : c'.kernel.mlfqs ≡ c.kernel.mlfqs
  pub ticks : c'.ticks ≡ c.ticks
  pub block_list : c'.block_list ≡ c.block_list
  -- Who was ready, and who is woken, is in the ready list.
  pub queued : (u : ℕ) → mem u c.kernel.ready_list ≡ true → mem u c'.kernel.ready_list ≡ true
  pub joined : (u : ℕ) → mem u l ≡ true → due c u ≡ true → mem u c'.kernel.ready_list ≡ true
  pub smallest : c'.thread_smallest ≤ℤ c.thread_smallest

All-blocked :
    (f : Threads) (t : ℕ) (l : List ℕ)
    → All (λ u. t ≢ u) l
    → All (IsBlocked f) l
    → All (IsBlocked (with_status f t ready)) l
All-blocked f t [] h a = tt
All-blocked f t (u ∷ l) h a = (ground (arith, h.0, a.0), All-blocked f t l h.1 a.1)

never : (b : Bool) → b ≡ true → b ≡ false → ⊥
never b p q = ground (arith, p, q)

pub wake_from_lem :
    (l : List ℕ) (c : Timer)
    → IsValid c.kernel
    → Unique l
    → All (IsBlocked c.kernel.threads) l
    → (c' : Timer) × (wake_from l c ≡ ok (c', kept (due c) l)) × Passed l c c'
unfolding wake_from wake_one update_smallest_tick
wake_from_lem [] c v n b = (
  c,
  refl,
  record {
    valid = v;
    threads = λ u. refl;
    current = refl;
    idle = refl;
    mlfqs = refl;
    ticks = refl;
    block_list = refl;
    queued = λ u h. h;
    joined = λ u h d. cc;
    smallest = omega arith;
  },
)
wake_from_lem (t ∷ l) c v n b = elim (Bool-cases (due c t)) [
  | inl now ↦
      let less = is_prior_larger (prio c.kernel.threads) in
      let k1 = set_status (insert_ready c.kernel t) t ready in
      let c1 = record c { kernel = k1 } in
      let (e, w) = unblock_lem c.kernel t v b.0 in
      let (c', f, p) = wake_from_lem l c1 w n.1 (All-blocked c.kernel.threads t l n.0 b.1) in
      let same : due c1 ≡ due c = fun_ext (λ u. ground arith) in
      (
        c',
        ground (arith, now, e, f, ap (λ d. kept d l) same),
        record {
          valid = p.valid;
          threads = λ u. ground (arith, p.threads u, now, mem_of_all t l n.0);
          current = p.current;
          idle = p.idle;
          mlfqs = p.mlfqs;
          ticks = p.ticks;
          block_list = p.block_list;
          queued = λ u h. p.queued u (mem-insert less t u c.kernel.ready_list h);
          joined = λ u h d. elim (Bool-cases (u == t)) [
            | inl y ↦
                let q : u ≡ t = ground (arith, y) in
                p.queued u (
                  subst (λ x. mem x (list_insert_ordered less t c.kernel.ready_list) ≡ true) (sym q)
                    (mem-inserted less t c.kernel.ready_list))
            | inr n ↦ p.joined u (ground (arith, n, h)) (ap (λ (g : ℕ → Bool). g u) same ∙ d)
          ];
          smallest = p.smallest;
        },
      )
  | inr later ↦
      let c1 = update_smallest_tick c (c.kernel.threads t).wake_t in
      let (c', f, p) = wake_from_lem l c1 v n.1 b.1 in
      (
        c',
        ground (arith, later, f),
        record {
          valid = p.valid;
          threads = λ u. ground (arith, p.threads u, later);
          current = p.current;
          idle = p.idle;
          mlfqs = p.mlfqs;
          ticks = p.ticks;
          block_list = p.block_list;
          queued = p.queued;
          joined = λ u h d. elim (Bool-cases (u == t)) [
            | inl y ↦
                let q : u ≡ t = ground (arith, y) in
                absurd (never (due c u) d (ap (due c) q ∙ later))
            | inr n ↦ p.joined u (ground (arith, n, h)) d
          ];
          smallest = ground (arith, p.smallest);
        },
      )
]
