-- ===== src/Freemap/Sectors.antt =====
-- free_map_allocate on every branch, and the release of what it gave.
use os_pintos.Common.{
  ℕ, ◌+◌, ◌-◌, ◌≤◌, ◌<◌, ◌≡◌, refl, Bool, true, false, Option, none, some, ok, arith, ◌==◌, inl,
  inr, Bool-cases,
}
use os_pintos.Bitmap.{Bitmap, bitmap_error, bitmap_scan_and_flip}
use os_pintos.Bitmap.Single.{IsValid, holds}
use os_pintos.Bitmap.Group.{AllAre, Filled, set_multiple_total}
use os_pintos.Bitmap.Scan.{Flipped, flipped, unchanged, NoGroup, scan_and_flip_total}
use os_pintos.Bitmap.Reuse.{all_used, cleared_again}
use os_pintos.Freemap.{fails, free_map_allocate, free_map_release}

-- What an allocation does: a group that was free is taken, or no bit changes.
pub data Allocated (file : Option (Bitmap → Bool)) (cnt : ℕ) (b b' : Bitmap)
    : Option ℕ → Type 0 where
  taken :
      {sector : ℕ}
      → sector + cnt ≤ b.bit_cnt
      → AllAre b sector cnt false
      → Filled b sector cnt true b'
      → fails file b' ≡ false
      → Allocated file cnt b b' (some sector)
  full : NoGroup b 0 (b.bit_cnt + 1 - cnt) cnt false → b' ≡ b → Allocated file cnt b b' none
  not_written : IsValid b' → ((j : ℕ) → holds b' j ≡ holds b j) → Allocated file cnt b b' none

Allocated-of :
    (file : Option (Bitmap → Bool)) (cnt : ℕ) (b b1 : Bitmap) (idx : ℕ)
    → IsValid b
    → 0 < cnt
    → bitmap_scan_and_flip b 0 cnt false ≡ ok (idx, b1)
    → Flipped b 0 cnt false idx b1
    → (b' : Bitmap) × (r : Option ℕ) × (free_map_allocate file cnt b ≡ ok (b', r))
      × Allocated file cnt b b' r
unfolding free_map_allocate
Allocated-of file cnt b b1 idx v z e (unchanged err n same) =
    (b1, none, ground (arith, e, err), full n same)
Allocated-of file cnt b b1 idx v z e (flipped lo hi a n f) =
    let ne : idx == bitmap_error ≡ false = ground (arith, hi, v.small, z) in
    elim (Bool-cases (fails file b1)) [
      | inr fine ↦ (b1, some idx, rw (e, ne, fine) refl, taken hi a f fine)
      | inl bad ↦
          let (b2, q, g) =
            set_multiple_total b1 idx cnt false f.valid (ground (arith, hi, f.size)) in
          (
            b2,
            none,
            rw (e, ne, bad, q) refl,
            not_written g.valid (λ j. cleared_again b b1 b2 idx cnt j a f g),
          )
    ]

-- free_map_allocate of at least one sector: it takes a group of free sectors, or reports that there
-- is none and changes nothing, or, where the map could not be written, leaves the bits as they were.
pub allocate_lem :
    (file : Option (Bitmap → Bool)) (cnt : ℕ) (b : Bitmap)
    → IsValid b
    → 0 < cnt
    → (b' : Bitmap) × (r : Option ℕ) × (free_map_allocate file cnt b ≡ ok (b', r))
      × Allocated file cnt b b' r
allocate_lem file cnt b v z =
    let (idx, b1, e, f) = scan_and_flip_total b 0 cnt false v (omega arith) in
    Allocated-of file cnt b b1 idx v z e f

-- free_map_release of a group of sectors in use makes them free, and changes no other.
pub release_lem :
    (sector cnt : ℕ) (b : Bitmap)
    → IsValid b
    → sector + cnt ≤ b.bit_cnt
    → AllAre b sector cnt true
    → (b' : Bitmap) × (free_map_release sector cnt b ≡ ok b') × Filled b sector cnt false b'
unfolding free_map_release
release_lem sector cnt b v h a =
    let (b', q, f) = set_multiple_total b sector cnt false v h in
    (b', rw (all_used b sector cnt v h a, q) refl, f)
