-- ===== src/Swap.antt =====
-- The swap table, vm/swap.c of project5: slots of eight sectors on the swap device, which a bitmap
-- gives out. A page is a record of the contents of its frame and its slot.
pub mod Slots
pub mod Insert
pub mod Trips
mod Tests
use os_pintos.Common.{
  ℕ, zero, suc, ◌+◌, ◌*◌, ◌%◌, ◌^◌, List, [], ◌∷◌, Bool, true, false, not, Option, none, some,
  Outcome, ok, panic, ◌>>=◌, ◌>>◌, assert,
}
use os_pintos.Block.{Device, Sector, block_read, block_write}
use os_pintos.Bitmap.{Bitmap, bitmap_create, bitmap_reset, bitmap_scan_and_flip}

pub record Swap : Type 0 where
  pub held : Bool
  pub used_blocks : Bitmap
  pub swap_table : Device

-- The fields of `struct page` that the swap table uses; a frame has eight sectors.
pub record Page : Type 0 where
  pub kpage : List Sector
  pub block_sector : ℕ

-- lock_acquire and lock_release of block_lock, as its holder sees them.
unfoldable pub acquire : Swap → Outcome Swap
acquire s = do assert (not s.held); ok (record s { held = true })

unfoldable pub release : Swap → Outcome Swap
release s = do assert s.held; ok (record s { held = false })

-- `table` is what block_get_role gives, `room` and `words` are what malloc gives to bitmap_create. The
-- result is none where used_blocks is NULL, which the code does not look at.
unfoldable pub swap_init : Bool → Option (List ℕ) → Device → Outcome (Option Swap)
unfolding bitmap_create
swap_init room words table = do
  b ← bitmap_create room words 1024
  elim b [
    | none ↦ ok none
    | some used ↦ ok (some (record { held = false; used_blocks = used; swap_table = table }))
  ]

-- The number of a sector of a slot, a uint32_t.
abbrev pub sector_of : ℕ → ℕ → ℕ
sector_of slot i = (slot * 8 + i) % 2 ^ 32

-- The loops over the last `n` sectors of a slot, from sector `i`.
unfoldable pub read_from : ℕ → ℕ → ℕ → Device → Outcome (Device × List Sector)
unfolding block_read
read_from zero i slot d = ok (d, [])
read_from (suc n) i slot d = do
  (d1, x) ← block_read d (sector_of slot i)
  (d2, c) ← read_from n (suc i) slot d1
  ok (d2, x ∷ c)

unfoldable pub write_from : ℕ → ℕ → ℕ → List Sector → Device → Outcome Device
unfolding block_write
write_from zero i slot c d = ok d
write_from (suc n) i slot [] d = panic
write_from (suc n) i slot (x ∷ c) d = do
  d1 ← block_write d (sector_of slot i) x
  write_from n (suc i) slot c d1

unfoldable pub swap_get : Swap → Page → Outcome (Swap × Page)
unfolding acquire release read_from bitmap_reset
swap_get s p = do
  s1 ← acquire s
  (d, c) ← read_from 8 0 p.block_sector s1.swap_table
  b ← bitmap_reset s1.used_blocks p.block_sector
  s2 ← release (record s1 { used_blocks = b; swap_table = d })
  ok (s2, record p { kpage = c })

unfoldable pub swap_insert : Swap → Page → Outcome (Swap × Page)
unfolding acquire release write_from bitmap_scan_and_flip
swap_insert s p = do
  s1 ← acquire s
  (sector_num, b) ← bitmap_scan_and_flip s1.used_blocks 0 1 false
  d ← write_from 8 0 sector_num p.kpage s1.swap_table
  s2 ← release (record s1 { used_blocks = b; swap_table = d })
  ok (s2, record p { block_sector = sector_num })

unfoldable pub swap_free : Swap → Page → Outcome Swap
unfolding acquire release bitmap_reset
swap_free s p = do
  s1 ← acquire s
  b ← bitmap_reset s1.used_blocks p.block_sector
  release (record s1 { used_blocks = b })
