-- ===== src/Palloc/Groups.antt =====
-- One pool: what is taken was free, and what was taken can be given back.
use os_pintos.Common.{
  ℕ, ◌+◌, ◌-◌, ◌*◌, ◌/◌, ◌%◌, ◌^◌, ◌≤◌, ◌<◌, ◌≡◌, refl, Bool, true, false, ok, arith,
}
use os_pintos.Bitmap.{Bitmap, bitmap_error}
use os_pintos.Bitmap.Single.{IsValid}
use os_pintos.Bitmap.Group.{AllAre, Filled, set_multiple_total}
use os_pintos.Bitmap.Scan.{Flipped, flipped, unchanged, NoGroup, scan_and_flip_total}
use os_pintos.Bitmap.Reuse.{all_used}
use os_pintos.Palloc.{Pool, take, give_back, page_size}

-- A pool that no thread works on, of whole pages within the address space.
pub record IsPool (p : Pool) : Type 0 where
  pub valid : IsValid p.used_map
  pub free_lock : p.held ≡ false
  pub aligned : p.base % page_size ≡ 0
  pub positive : 0 < p.base
  pub fits : p.base + page_size * p.used_map.bit_cnt < 2 ^ 32

-- A group of `n` pages from page `idx` is taken.
pub record Taken (n : ℕ) (p p' : Pool) (idx : ℕ) : Type 0 where
  pub pool : IsPool p'
  pub base : p'.base ≡ p.base
  pub bound : idx + n ≤ p.used_map.bit_cnt
  pub was_free : AllAre p.used_map idx n false
  pub first : NoGroup p.used_map 0 idx n false
  pub filled : Filled p.used_map idx n true p'.used_map

pub data Taking (n : ℕ) (p p' : Pool) (idx : ℕ) : Type 0 where
  got : Taken n p p' idx → Taking n p p' idx
  missed :
      idx ≡ bitmap_error
      → p' ≡ p
      → NoGroup p.used_map 0 (p.used_map.bit_cnt + 1 - n) n false
      → Taking n p p' idx

IsPool-filled :
    (n : ℕ) (p : Pool) (b : Bitmap) (idx : ℕ) (v : Bool)
    → IsPool p
    → Filled p.used_map idx n v b
    → IsPool (record p { used_map = b; held = false })
IsPool-filled n p b idx v i f = record {
  valid = f.valid;
  free_lock = refl;
  aligned = i.aligned;
  positive = i.positive;
  fits = rw f.size i.fits;
}

Taking-of :
    (n : ℕ) (p : Pool) (idx : ℕ) (b : Bitmap)
    → IsPool p
    → Flipped p.used_map 0 n false idx b
    → Taking n p (record p { used_map = b; held = false }) idx
Taking-of n p idx b i (flipped lo hi a m f) = got (record {
  pool = IsPool-filled n p b idx true i f;
  base = refl;
  bound = hi;
  was_free = a;
  first = m;
  filled = f;
})
Taking-of n p idx b i (unchanged e m same) = missed e (ground (arith, same, i.free_lock)) m

pub take_lem :
    (n : ℕ) (p : Pool)
    → IsPool p
    → (p' : Pool) × (idx : ℕ) × (take n p ≡ ok (p', idx)) × Taking n p p' idx
unfolding take
take_lem n p i =
    let (idx, b, e, f) = scan_and_flip_total p.used_map 0 n false i.valid (omega arith) in
    (
      record p { used_map = b; held = false },
      idx,
      ground (arith, i.free_lock, e),
      Taking-of n p idx b i f,
    )

page_index :
    (base idx : ℕ)
    → base % page_size ≡ 0
    → base + page_size * idx < 2 ^ 32
    → ((base + page_size * idx) / page_size + 2 ^ 32 - base / page_size) % 2 ^ 32 ≡ idx
page_index base idx a h = omega (arith, a, h)

-- Pages that are all in use are given back.
pub give_back_lem :
    (n idx : ℕ) (p : Pool)
    → IsPool p
    → 0 < n
    → idx + n ≤ p.used_map.bit_cnt
    → AllAre p.used_map idx n true
    → (p' : Pool) × (give_back (p.base + page_size * idx) n p ≡ ok p')
      × Filled p.used_map idx n false p'.used_map
unfolding give_back
give_back_lem n idx p i z h a =
    let m = page_index p.base idx i.aligned (omega (arith, i.fits, h, z)) in
    let (b, e, f) = set_multiple_total p.used_map idx n false i.valid h in
    let u = all_used p.used_map idx n i.valid h a in
    (record p { used_map = b }, rw (m, u, e) refl, f)
