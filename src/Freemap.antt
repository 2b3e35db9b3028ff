-- ===== src/Freemap.antt =====
-- The free map, filesys/free-map.c of project5, over the bitmap. The file that stores it, if it is
-- open, is a parameter: whether bitmap_write to it succeeds.
pub mod Sectors
mod Tests
use os_pintos.Common.{
  ℕ, List, Bool, true, false, Option, none, some, Outcome, ok, panic, ◌>>=◌, ◌>>◌, assert, ◌==◌,
  if◌then◌else◌,
}
use os_pintos.Bitmap.{
  Bitmap, bitmap_error, bitmap_all, bitmap_create, bitmap_mark, bitmap_set_multiple,
  bitmap_scan_and_flip,
}

-- FREE_MAP_SECTOR and ROOT_DIR_SECTOR
abbrev pub free_map_sector : ℕ
free_map_sector = 0

abbrev pub root_dir_sector : ℕ
root_dir_sector = 1

-- `room` and `words` are what malloc gives to bitmap_create.
unfoldable pub free_map_init : Bool → Option (List ℕ) → ℕ → Outcome Bitmap
unfolding bitmap_create bitmap_mark
free_map_init room words block_size = do
  r ← bitmap_create room words block_size
  elim r [
    | none ↦ panic
    | some b ↦ do b1 ← bitmap_mark b free_map_sector; bitmap_mark b1 root_dir_sector
  ]

abbrev pub fails : Option (Bitmap → Bool) → Bitmap → Bool
fails none b = false
fails (some writes) b = if writes b then false else true

-- The sector, or none for the result false.
unfoldable pub free_map_allocate : Option (Bitmap → Bool) → ℕ → Bitmap → Outcome (Bitmap × Option ℕ)
unfolding bitmap_scan_and_flip bitmap_set_multiple
free_map_allocate file cnt free_map = do
  (sector, b) ← bitmap_scan_and_flip free_map 0 cnt false
  if sector == bitmap_error
      then ok (b, none)
      else if fails file b
      then (do b' ← bitmap_set_multiple b sector cnt false; ok (b', none))
      else ok (b, some sector)

-- The result of bitmap_write is ignored.
unfoldable pub free_map_release : ℕ → ℕ → Bitmap → Outcome Bitmap
unfolding bitmap_all bitmap_set_multiple
free_map_release sector cnt free_map = do
  used ← bitmap_all free_map sector cnt
  assert used
  bitmap_set_multiple free_map sector cnt false
