-- ===== src/Palloc.antt =====
-- The page allocator, threads/palloc.c of project5: two pools of pages, which bitmaps give out.
-- Addresses are 32-bit numbers, NULL is 0; the memory is a function from addresses to bytes.
pub mod Groups
pub mod Pages
pub mod Trips
mod Tests
use os_pintos.Common.{
  ℕ, ◌+◌, ◌-◌, ◌*◌, ◌/◌, ◌%◌, ◌^◌, Bool, true, false, not, ◌&&◌, ◌||◌, Outcome, ok, panic, ◌>>=◌,
  ◌>>◌, assert, ◌==◌, ltb, leb, if◌then◌else◌,
}
use os_pintos.Bitmap.{Bitmap, bitmap_error, bitmap_all, bitmap_set_multiple, bitmap_scan_and_flip}

-- PGSIZE
abbrev pub page_size : ℕ
page_size = 4096

pub record Pool : Type 0 where
  pub held : Bool
  pub used_map : Bitmap
  pub base : ℕ

pub record Memory : Type 0 where
  pub kernel_pool : Pool
  pub user_pool : Pool
  pub bytes : ℕ → ℕ

-- enum palloc_flags, a Boolean for each bit.
pub record Flags : Type 0 where
  pub pal_assert : Bool
  pub pal_zero : Bool
  pub pal_user : Bool

abbrev pub pool_of : Memory → Bool → Pool
pool_of m true = m.user_pool
pool_of m false = m.kernel_pool

abbrev pub with_pool : Memory → Bool → Pool → Memory
with_pool m true p = record m { user_pool = p }
with_pool m false p = record m { kernel_pool = p }

abbrev pub memset : (ℕ → ℕ) → ℕ → ℕ → ℕ → ℕ → ℕ
memset f start value n a = if leb start a && ltb a (start + n) then value else f a

-- The part of palloc_get_multiple between the lock's acquisition and its release.
unfoldable pub take : ℕ → Pool → Outcome (Pool × ℕ)
unfolding bitmap_scan_and_flip
take page_cnt p = do
  assert (not p.held)
  (page_idx, b) ← bitmap_scan_and_flip p.used_map 0 page_cnt false
  ok (record p { used_map = b; held = false }, page_idx)

-- What follows, with the address of the pages.
unfoldable pub deliver : Flags → ℕ → ℕ → Memory → Outcome (Memory × ℕ)
deliver flags page_cnt pages m =
    if not (pages == 0)
    then ok (
      (if flags.pal_zero
          then record m { bytes = memset m.bytes pages 0 (page_size * page_cnt) }
          else m),
      pages,
    )
    else if flags.pal_assert
    then panic
    else ok (m, 0)

abbrev pub address : Pool → ℕ → ℕ
address p page_idx =
    if page_idx == bitmap_error then 0 else (p.base + page_size * page_idx) % 2 ^ 32

unfoldable pub palloc_get_multiple : Flags → ℕ → Memory → Outcome (Memory × ℕ)
unfolding take deliver
palloc_get_multiple flags page_cnt m = if page_cnt == 0 then ok (m, 0) else (do
  (p, page_idx) ← take page_cnt (pool_of m flags.pal_user)
  deliver flags page_cnt (address p page_idx) (with_pool m flags.pal_user p))

unfoldable pub palloc_get_page : Flags → Memory → Outcome (Memory × ℕ)
unfolding palloc_get_multiple
palloc_get_page flags m = palloc_get_multiple flags 1 m

abbrev pub page_from_pool : Pool → ℕ → Bool
page_from_pool p page =
    let page_no = page / page_size in
    let start_page = p.base / page_size in
    leb start_page page_no && ltb page_no ((start_page + p.used_map.bit_cnt) % 2 ^ 32)

unfoldable pub give_back : ℕ → ℕ → Pool → Outcome Pool
unfolding bitmap_all bitmap_set_multiple
give_back pages page_cnt p = do
  let page_idx = (pages / page_size + 2 ^ 32 - p.base / page_size) % 2 ^ 32
  used ← bitmap_all p.used_map page_idx page_cnt
  assert used
  b ← bitmap_set_multiple p.used_map page_idx page_cnt false
  ok (record p { used_map = b })

-- The pages of a pool are filled with 0xcc and given back.
unfoldable pub free_in : Bool → ℕ → ℕ → Memory → Outcome Memory
unfolding give_back
free_in user pages page_cnt m = do
  let m' = record m { bytes = memset m.bytes pages 0xcc (page_size * page_cnt) }
  p ← give_back pages page_cnt (pool_of m' user)
  ok (with_pool m' user p)

unfoldable pub palloc_free_multiple : ℕ → ℕ → Memory → Outcome Memory
unfolding free_in
palloc_free_multiple pages page_cnt m = do
  assert (pages % page_size == 0)
  if pages == 0 || page_cnt == 0
      then ok m
      else if page_from_pool m.kernel_pool pages
      then free_in false pages page_cnt m
      else if page_from_pool m.user_pool pages
      then free_in true pages page_cnt m
      else panic

unfoldable pub palloc_free_page : ℕ → Memory → Outcome Memory
unfolding palloc_free_multiple
palloc_free_page page m = palloc_free_multiple page 1 m
