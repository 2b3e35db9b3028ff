-- ===== src/Palloc/Pages.antt =====
-- The allocator of both pools: what palloc_get_multiple gives where it finds pages.
use mathlib.Core.Path.{subst}
use os_pintos.Common.{
  not, ℕ, ◌+◌, ◌*◌, ◌/◌, ◌%◌, ◌^◌, ◌≤◌, ◌<◌, ◌≡◌, ◌≢◌, refl, sym, ◌∙◌, Bool, true, false, ok, arith,
  if◌then◌else◌, ◌⊎◌,
}
use os_pintos.Palloc.{
  Pool, Memory, Flags, pool_of, with_pool, memset, take, deliver, address, page_size,
  page_from_pool, palloc_get_multiple,
}
use os_pintos.Palloc.Groups.{IsPool, Taken}

-- Two pools, the kernel's below the user's.
pub record IsSound (m : Memory) : Type 0 where
  pub kernel : IsPool m.kernel_pool
  pub user : IsPool m.user_pool
  pub apart : m.kernel_pool.base + page_size * m.kernel_pool.used_map.bit_cnt ≤ m.user_pool.base

pub IsSound-pool : (m : Memory) (u : Bool) → IsSound m → IsPool (pool_of m u)
IsSound-pool m true s = s.user
IsSound-pool m false s = s.kernel

pub IsSound-with_pool :
    (m : Memory) (u : Bool) (p : Pool)
    → IsSound m
    → IsPool p
    → p.base ≡ (pool_of m u).base
    → p.used_map.bit_cnt ≡ (pool_of m u).used_map.bit_cnt
    → IsSound (with_pool m u p)
IsSound-with_pool m true p s i b c = record {
  kernel = s.kernel;
  user = i;
  apart = omega (arith, s.apart, b);
}
IsSound-with_pool m false p s i b c = record {
  kernel = i;
  user = s.user;
  apart = omega (arith, s.apart, b, c);
}

pub pool_of-with_pool : (m : Memory) (u : Bool) (p : Pool) → pool_of (with_pool m u p) u ≡ p
pool_of-with_pool m true p = refl
pool_of-with_pool m false p = refl

pub with_pool-same : (m : Memory) (u : Bool) → with_pool m u (pool_of m u) ≡ m
with_pool-same m true = refl
with_pool-same m false = refl

address_lem :
    (p p' : Pool) (n idx : ℕ)
    → IsPool p
    → Taken n p p' idx
    → 0 < n
    → address p' idx ≡ p.base + page_size * idx
address_lem p p' n idx i t z = ground (arith, i.fits, i.valid.small, t.base, t.bound, z)

pub in_pool :
    (p : Pool) (idx : ℕ)
    → IsPool p
    → idx < p.used_map.bit_cnt
    → page_from_pool p (p.base + page_size * idx) ≡ true
in_pool p idx i h =
    let a : (p.base + page_size * idx) / page_size ≡ p.base / page_size + idx =
      omega (arith, i.aligned) in
    let b : (p.base / page_size + p.used_map.bit_cnt) % 2 ^ 32
        ≡ p.base / page_size + p.used_map.bit_cnt =
      omega (arith, i.aligned, i.fits) in
    rw (a, b) (ground (arith, h))

pub not_in_pool :
    (p : Pool) (page : ℕ)
    → IsPool p
    → p.base + page_size * p.used_map.bit_cnt ≤ page
    → page_from_pool p page ≡ false
not_in_pool p page i h =
    let b : (p.base / page_size + p.used_map.bit_cnt) % 2 ^ 32
        ≡ p.base / page_size + p.used_map.bit_cnt =
      omega (arith, i.aligned, i.fits) in
    let c : p.base / page_size + p.used_map.bit_cnt ≤ page / page_size =
      omega (arith, i.aligned, h) in
    rw b (ground (arith, c))

-- What a call that found a group of pages has done.
pub record Granted (flags : Flags) (n : ℕ) (m m' : Memory) (pages idx : ℕ) : Type 0 where
  pub sound : IsSound m'
  pub taken : Taken n (pool_of m flags.pal_user) (pool_of m' flags.pal_user) idx
  pub place : pages ≡ (pool_of m flags.pal_user).base + page_size * idx
  pub not_null : pages ≢ 0
  pub zeroed :
      flags.pal_zero ≡ true → (a : ℕ) → pages ≤ a → a < pages + page_size * n → m'.bytes a ≡ 0
  pub other_pool : pool_of m' (not flags.pal_user) ≡ pool_of m (not flags.pal_user)
  pub outside : (a : ℕ) → (a < pages) ⊎ (pages + page_size * n ≤ a) → m'.bytes a ≡ m.bytes a

-- The memory after the delivery of pages.
abbrev zeroed_if : Bool → ℕ → ℕ → Memory → Memory
zeroed_if z n pages m = if z then record m { bytes = memset m.bytes pages 0 (page_size * n) } else m

deliver_lem :
    (flags : Flags) (n pages : ℕ) (m : Memory)
    → pages ≢ 0
    → deliver flags n pages m ≡ ok (zeroed_if flags.pal_zero n pages m, pages)
unfolding deliver
deliver_lem flags n pages m h = ground (arith, h)

pool_of-zeroed_if :
    (z : Bool) (n pages : ℕ) (m : Memory) (u : Bool)
    → pool_of (zeroed_if z n pages m) u ≡ pool_of m u
pool_of-zeroed_if true n pages m true = refl
pool_of-zeroed_if true n pages m false = refl
pool_of-zeroed_if false n pages m u = refl

IsSound-zeroed_if :
    (z : Bool) (n pages : ℕ) (m : Memory) → IsSound m → IsSound (zeroed_if z n pages m)
IsSound-zeroed_if true n pages m s = record { kernel = s.kernel; user = s.user; apart = s.apart }
IsSound-zeroed_if false n pages m s = s

pub bytes-with_pool : (m : Memory) (u : Bool) (p : Pool) → (with_pool m u p).bytes ≡ m.bytes
bytes-with_pool m true p = refl
bytes-with_pool m false p = refl

other-with_pool :
    (m : Memory) (u : Bool) (p : Pool) → pool_of (with_pool m u p) (not u) ≡ pool_of m (not u)
other-with_pool m true p = refl
other-with_pool m false p = refl

pub grant_lem :
    (flags : Flags) (n : ℕ) (m : Memory) (p : Pool) (idx : ℕ)
    → IsSound m
    → 0 < n
    → take n (pool_of m flags.pal_user) ≡ ok (p, idx)
    → Taken n (pool_of m flags.pal_user) p idx
    → (m' : Memory) × (pages : ℕ) × (palloc_get_multiple flags n m ≡ ok (m', pages))
      × Granted flags n m m' pages idx
unfolding palloc_get_multiple
grant_lem flags n m p idx s z e t =
    let u = flags.pal_user in
    let q = pool_of m u in
    let i = IsSound-pool m u s in
    let pages = address p idx in
    let m1 = with_pool m u p in
    let place = address_lem q p n idx i t z in
    let nn : pages ≢ 0 = λ h. omega (arith, i.positive, place, h) in
    let d = deliver_lem flags n pages m1 nn in
    let m2 = zeroed_if flags.pal_zero n pages m1 in
    let same = pool_of-zeroed_if flags.pal_zero n pages m1 u ∙ pool_of-with_pool m u p in
    let b = bytes-with_pool m u p in
    (
      m2,
      pages,
      ground (arith, z, e, d),
      record {
        sound =
            IsSound-zeroed_if flags.pal_zero n pages m1
              (IsSound-with_pool m u p s t.pool t.base t.filled.size);
        taken = subst (λ r. Taken n q r idx) (sym same) t;
        place = place;
        not_null = nn;
        zeroed = λ h a lo hi. ground (arith, h, lo, hi);
        other_pool = pool_of-zeroed_if flags.pal_zero n pages m1 (not u) ∙ other-with_pool m u p;
        outside = λ a h. rw b (ground (arith, h, b));
      },
    )
