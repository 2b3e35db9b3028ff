-- ===== src/Palloc/Trips.antt =====
-- The allocator's calls on every branch, and that what was got can be given back.
use mathlib.Core.Path.{subst}
use os_pintos.Common.{
  ℕ, ◌+◌, ◌-◌, ◌*◌, ◌%◌, ◌≤◌, ◌<◌, ◌≡◌, ◌≢◌, refl, sym, ◌∙◌, ap, Bool, true, false, not, ok, panic,
  arith, if◌then◌else◌, inl, inr, ◌⊎◌,
}
use os_pintos.Bitmap.Single.{holds}
use os_pintos.Bitmap.Group.{AllAre, Filled}
use os_pintos.Bitmap.Scan.{NoGroup}
use os_pintos.Bitmap.Reuse.{cleared_again}
use os_pintos.Palloc.{
  Pool, Memory, Flags, pool_of, with_pool, memset, take, deliver, page_size, free_in,
  palloc_get_multiple, palloc_free_multiple,
}
use os_pintos.Palloc.Groups.{Taking, got, missed, take_lem, give_back_lem}
use os_pintos.Palloc.Pages.{
  IsSound, IsSound-pool, with_pool-same, in_pool, not_in_pool, Granted, grant_lem,
}

-- What palloc_get_multiple returns.
abbrev pub Answer : Flags → ℕ → Memory → Type 0
Answer flags n m =
    ((m' : Memory) × (pages : ℕ) × (idx : ℕ) × (palloc_get_multiple flags n m ≡ ok (m', pages))
      × Granted flags n m m' pages idx)
    ⊎ (NoGroup (pool_of m flags.pal_user).used_map 0
          ((pool_of m flags.pal_user).used_map.bit_cnt + 1 - n) n false
        × (palloc_get_multiple flags n m ≡ (if flags.pal_assert then panic else ok (m, 0))))

Answer-of :
    (flags : Flags) (n : ℕ) (m : Memory) (p : Pool) (idx : ℕ)
    → IsSound m
    → 0 < n
    → take n (pool_of m flags.pal_user) ≡ ok (p, idx)
    → Taking n (pool_of m flags.pal_user) p idx
    → Answer flags n m
unfolding palloc_get_multiple deliver
Answer-of flags n m p idx s z e (got t) =
    let (m', pages, f, g) = grant_lem flags n m p idx s z e t in inl (m', pages, idx, f, g)
Answer-of flags n m p idx s z e (missed h same none) =
    let back : with_pool m flags.pal_user p ≡ m =
      ap (with_pool m flags.pal_user) same ∙ with_pool-same m flags.pal_user in
    inr (none, ground (arith, z, e, h, back))

-- palloc_get_multiple for at least one page and a sound memory: it gives the first group of free
-- pages of its pool, zeroed if asked, and touches no byte outside and not the other pool; if there is
-- no such group it gives NULL and changes nothing, or stops the machine with PAL_ASSERT.
pub get_multiple_lem : (flags : Flags) (n : ℕ) (m : Memory) → IsSound m → 0 < n → Answer flags n m
get_multiple_lem flags n m s z =
    let (p, idx, e, t) = take_lem n (pool_of m flags.pal_user) (IsSound-pool m flags.pal_user s) in
    Answer-of flags n m p idx s z e t

-- Pages of a pool that are all in use are given back to it.
abbrev pub Freed : Bool → ℕ → ℕ → Memory → Memory → Type 0
Freed u idx n m m' =
    Filled (pool_of m u).used_map idx n false (pool_of m' u).used_map
    × (pool_of m' (not u) ≡ pool_of m (not u))

free_multiple_lem :
    (u : Bool) (idx n : ℕ) (m : Memory)
    → IsSound m
    → 0 < n
    → idx + n ≤ (pool_of m u).used_map.bit_cnt
    → AllAre (pool_of m u).used_map idx n true
    → (m' : Memory) × (palloc_free_multiple ((pool_of m u).base + page_size * idx) n m ≡ ok m')
      × Freed u idx n m m'
unfolding palloc_free_multiple free_in
free_multiple_lem false idx n m s z h a =
    let p = m.kernel_pool in
    let pages = p.base + page_size * idx in
    let (q, e, f) = give_back_lem n idx p s.kernel z h a in
    let here = in_pool p idx s.kernel (omega (arith, h, z)) in
    let al : pages % page_size ≡ 0 = omega (arith, s.kernel.aligned) in
    let nn : pages ≢ 0 = λ x. omega (arith, s.kernel.positive, x) in
    (
      record m { kernel_pool = q; bytes = memset m.bytes pages 0xcc (page_size * n) },
      ground (arith, al, nn, z, here, e),
      (f, refl),
    )
free_multiple_lem true idx n m s z h a =
    let p = m.user_pool in
    let pages = p.base + page_size * idx in
    let (q, e, f) = give_back_lem n idx p s.user z h a in
    let here = in_pool p idx s.user (omega (arith, h, z)) in
    let there = not_in_pool m.kernel_pool pages s.kernel (omega (arith, s.apart)) in
    let al : pages % page_size ≡ 0 = omega (arith, s.user.aligned) in
    let nn : pages ≢ 0 = λ x. omega (arith, s.user.positive, x) in
    (
      record m { user_pool = q; bytes = memset m.bytes pages 0xcc (page_size * n) },
      ground (arith, al, nn, z, here, there, e),
      (f, refl),
    )

-- Pages that are granted and freed: the pool's bits are those from before.
pub record Restored (flags : Flags) (n : ℕ) (m : Memory) : Type 0 where
  pub during : Memory
  pub after : Memory
  pub pages : ℕ
  pub idx : ℕ
  pub got_pages : palloc_get_multiple flags n m ≡ ok (during, pages)
  pub granted : Granted flags n m during pages idx
  pub freed : palloc_free_multiple pages n during ≡ ok after
  pub restored :
      (j : ℕ)
      → holds (pool_of after flags.pal_user).used_map j
        ≡ holds (pool_of m flags.pal_user).used_map j

restore :
    (flags : Flags) (n : ℕ) (m m' : Memory) (pages idx : ℕ)
    → 0 < n
    → palloc_get_multiple flags n m ≡ ok (m', pages)
    → Granted flags n m m' pages idx
    → Restored flags n m
restore flags n m m' pages idx z e g =
    let u = flags.pal_user in
    let t = g.taken in
    let full : AllAre (pool_of m' u).used_map idx n true =
      λ j lo hi. ground (arith, t.filled.bits j, lo, hi) in
    let (m'', f, r) =
      free_multiple_lem u idx n m' g.sound z (omega (arith, t.bound, t.filled.size)) full in
    let place : pages ≡ (pool_of m' u).base + page_size * idx = omega (arith, g.place, t.base) in
    record {
      during = m';
      after = m'';
      pages = pages;
      idx = idx;
      got_pages = e;
      granted = g;
      freed = subst (λ a. palloc_free_multiple a n m' ≡ ok m'') (sym place) f;
      restored = λ j.
          cleared_again (pool_of m u).used_map (pool_of m' u).used_map (pool_of m'' u).used_map idx
            n j t.was_free t.filled r.0;
    }

-- Where a pool has a group of free pages of the size asked for, palloc_get_multiple gives the
-- first, which is not NULL, and palloc_free_multiple of it returns and leaves the pool's bitmap as it was.
pub free-get :
    (flags : Flags) (n : ℕ) (m : Memory) (k : ℕ)
    → IsSound m
    → 0 < n
    → k + n ≤ (pool_of m flags.pal_user).used_map.bit_cnt
    → AllAre (pool_of m flags.pal_user).used_map k n false
    → Restored flags n m
free-get flags n m k s z h a = elim (get_multiple_lem flags n m s z) [
  | inl (m', pages, idx, e, g) ↦ restore flags n m m' pages idx z e g
  | inr (none, e) ↦ absurd (none k (omega arith) (omega (arith, h, z)) a)
]
