-- ===== src/Bitmap.antt =====
-- Bitmaps, lib/kernel/bitmap.c of project5: bits packed into words of 32, set, tested, counted and
-- searched. `malloc` is a parameter: whether it finds room, and what the room holds.
pub mod Single
pub mod Group
pub mod Scan
pub mod Reuse
mod Tests
use Prim.Native.Nat.{bit_and, bit_or, bit_xor}
use os_pintos.Common.{
  ℕ, zero, suc, ◌+◌, ◌-◌, ◌*◌, ◌/◌, ◌%◌, ◌^◌, List, [], ◌∷◌, Bool, true, false, not, ◌||◌, Option,
  none, some, Outcome, ok, panic, ◌>>=◌, ◌>>◌, assert, ◌==◌, ltb, leb, if◌then◌else◌, get_elem?,
  set,
}

-- ELEM_BITS, for an elem_type of four bytes; SIZE_MAX.
abbrev pub elem_bits : ℕ
elem_bits = 32

abbrev pub size_mod : ℕ
size_mod = 2 ^ 32

abbrev pub bitmap_error : ℕ
bitmap_error = size_mod - 1

-- `struct bitmap`
pub record Bitmap : Type 0 where
  pub bit_cnt : ℕ
  pub bits : List ℕ

abbrev pub elem_idx : ℕ → ℕ
elem_idx bit_idx = bit_idx / elem_bits

abbrev pub bit_mask : ℕ → ℕ
bit_mask bit_idx = 2 ^ (bit_idx % elem_bits)

-- DIV_ROUND_UP of lib/round.h, on size_t.
unfoldable pub elem_cnt : ℕ → ℕ
elem_cnt bit_cnt = (bit_cnt + elem_bits - 1) % size_mod / elem_bits

unfoldable pub byte_cnt : ℕ → ℕ
unfolding elem_cnt
byte_cnt bit_cnt = 4 * elem_cnt bit_cnt % size_mod

-- `~mask`
abbrev pub complement : ℕ → ℕ
complement mask = 2 ^ 32 - 1 - mask

-- `b->bits[idx] = f (b->bits[idx])`; the hardware does not check the index.
abbrev pub update : Bitmap → ℕ → (ℕ → ℕ) → Outcome Bitmap
update b idx f = elim (get_elem? b.bits idx) [
  | none ↦ panic
  | some w ↦ ok (record b { bits = set b.bits idx (f w) })
]

-- A word with the bit numbered `bit_idx` set, cleared and toggled.
abbrev pub marked : ℕ → ℕ → ℕ
marked bit_idx w = bit_or w (bit_mask bit_idx)

abbrev pub cleared : ℕ → ℕ → ℕ
cleared bit_idx w = bit_and w (complement (bit_mask bit_idx))

abbrev pub flipped : ℕ → ℕ → ℕ
flipped bit_idx w = bit_xor w (bit_mask bit_idx)

unfoldable pub bitmap_mark : Bitmap → ℕ → Outcome Bitmap
bitmap_mark b bit_idx = update b (elem_idx bit_idx) (marked bit_idx)

unfoldable pub bitmap_reset : Bitmap → ℕ → Outcome Bitmap
bitmap_reset b bit_idx = update b (elem_idx bit_idx) (cleared bit_idx)

unfoldable pub bitmap_flip : Bitmap → ℕ → Outcome Bitmap
bitmap_flip b bit_idx = update b (elem_idx bit_idx) (flipped bit_idx)

unfoldable pub bitmap_set : Bitmap → ℕ → Bool → Outcome Bitmap
unfolding bitmap_mark bitmap_reset
bitmap_set b idx value = do
  assert (ltb idx b.bit_cnt)
  if value then bitmap_mark b idx else bitmap_reset b idx

unfoldable pub bitmap_test : Bitmap → ℕ → Outcome Bool
bitmap_test b idx = do
  assert (ltb idx b.bit_cnt)
  elim (get_elem? b.bits (elem_idx idx)) [
    | none ↦ panic
    | some w ↦ ok (not (bit_and w (bit_mask idx) == 0))
  ]

-- The two assertions on a group of bits; the sum is a size_t.
abbrev pub check_group : Bitmap → ℕ → ℕ → Outcome (Unit {0})
check_group b start cnt = do
  assert (leb start b.bit_cnt)
  assert (leb ((start + cnt) % size_mod) b.bit_cnt)

-- The loop over the last `n` bits of a group, from bit `i`.
unfoldable pub set_from : ℕ → ℕ → Bool → Bitmap → Outcome Bitmap
set_from zero i value b = ok b
set_from (suc n) i value b = do b' ← bitmap_set b i value; set_from n (suc i) value b'

unfoldable pub bitmap_set_multiple : Bitmap → ℕ → ℕ → Bool → Outcome Bitmap
unfolding set_from
bitmap_set_multiple b start cnt value = do check_group b start cnt; set_from cnt start value b

unfoldable pub bitmap_set_all : Bitmap → Bool → Outcome Bitmap
unfolding bitmap_set_multiple
bitmap_set_all b value = bitmap_set_multiple b 0 b.bit_cnt value

-- `room` says whether malloc finds room for the structure, `words` what it gives for the bits.
unfoldable pub bitmap_create : Bool → Option (List ℕ) → ℕ → Outcome (Option Bitmap)
unfolding bitmap_set_all
bitmap_create false words bit_cnt = ok none
bitmap_create true (some words) bit_cnt = do
  b ← bitmap_set_all (record { bit_cnt = bit_cnt; bits = words }) false
  ok (some b)
bitmap_create true none bit_cnt =
    if bit_cnt == 0
    then (do b ← bitmap_set_all (record { bit_cnt = bit_cnt; bits = [] }) false; ok (some b))
    else ok none

abbrev pub same : Bool → Bool → Bool
same true b = b
same false b = not b

unfoldable pub count_from : ℕ → ℕ → Bool → ℕ → Bitmap → Outcome ℕ
count_from zero i value value_cnt b = ok value_cnt
count_from (suc n) i value value_cnt b = do
  t ← bitmap_test b i
  count_from n (suc i) value (if same t value then value_cnt + 1 else value_cnt) b

unfoldable pub bitmap_count : Bitmap → ℕ → ℕ → Bool → Outcome ℕ
unfolding count_from
bitmap_count b start cnt value = do check_group b start cnt; count_from cnt start value 0 b

unfoldable pub contains_from : ℕ → ℕ → Bool → Bitmap → Outcome Bool
contains_from zero i value b = ok false
contains_from (suc n) i value b = do
  t ← bitmap_test b i
  let rest = contains_from n (suc i) value b
  if same t value then ok true else rest

unfoldable pub bitmap_contains : Bitmap → ℕ → ℕ → Bool → Outcome Bool
unfolding contains_from
bitmap_contains b start cnt value = do check_group b start cnt; contains_from cnt start value b

unfoldable pub bitmap_any : Bitmap → ℕ → ℕ → Outcome Bool
bitmap_any b start cnt = bitmap_contains b start cnt true

unfoldable pub bitmap_none : Bitmap → ℕ → ℕ → Outcome Bool
bitmap_none b start cnt = do t ← bitmap_contains b start cnt true; ok (not t)

unfoldable pub bitmap_all : Bitmap → ℕ → ℕ → Outcome Bool
bitmap_all b start cnt = do t ← bitmap_contains b start cnt false; ok (not t)

-- The loop of `bitmap_scan` over the last `n` places, from place `i`.
unfoldable pub scan_from : ℕ → ℕ → ℕ → Bool → Bitmap → Outcome ℕ
scan_from zero i cnt value b = ok bitmap_error
scan_from (suc n) i cnt value b = do
  t ← bitmap_contains b i cnt (not value)
  let rest = scan_from n (suc i) cnt value b
  if t then rest else ok i

unfoldable pub bitmap_scan : Bitmap → ℕ → ℕ → Bool → Outcome ℕ
unfolding scan_from
bitmap_scan b start cnt value = do
  assert (leb start b.bit_cnt)
  if leb cnt b.bit_cnt
      then scan_from (b.bit_cnt - cnt + 1 - start) start cnt value b
      else ok bitmap_error

unfoldable pub bitmap_scan_and_flip : Bitmap → ℕ → ℕ → Bool → Outcome (ℕ × Bitmap)
unfolding bitmap_scan bitmap_set_multiple
bitmap_scan_and_flip b start cnt value = do
  idx ← bitmap_scan b start cnt value
  if idx == bitmap_error
      then ok (idx, b)
      else (do b' ← bitmap_set_multiple b idx cnt (not value); ok (idx, b'))
