-- ===== src/Cache.antt =====
-- The buffer cache, filesys/cache.c of project5: 64 entries, a clock that picks victims, write-back.
-- A pointer to an entry is its index in the array.
pub mod Find
pub mod Clock
pub mod Invariant
pub mod Steps
pub mod Fetch
pub mod Refine
pub mod Runs
pub mod Start
mod Tests
use os_pintos.Common.{
  ℕ, zero, suc, ◌+◌, ◌%◌, List, [], ◌∷◌, Bool, true, false, not, ◌&&◌, Option, none, some, Outcome,
  ok, panic, ◌>>=◌, ◌>>◌, assert, require, ◌==◌, if◌then◌else◌, get_elem?, set, map,
}
use os_pintos.Block.{Sector, Device, block_read, block_write}

-- NUM_CACHE
abbrev pub num_cache : ℕ
num_cache = 64

-- `struct buffer_cache_entry`
pub record Entry : Type 0 where
  pub valid_bit : Bool
  pub disk_sector : ℕ
  pub buffer : Sector
  pub dirty_bit : Bool
  pub refer_bit : Bool

-- The array `cache`, whether the running thread holds `bc_lock`, and `fs_device`.
pub record Cache : Type 0 where
  pub entries : List Entry
  pub held : Bool
  pub device : Device

abbrev forget : Entry → Entry
forget e = record e { valid_bit = false }

unfoldable pub buffer_cache_init : Cache → Cache
buffer_cache_init c = record c { entries = map forget c.entries; held = false }

-- lock_acquire and lock_release of `bc_lock`, as the holder sees them.
unfoldable pub acquire : Cache → Outcome Cache
acquire c = do assert (not c.held); ok (record c { held = true })

unfoldable pub release : Cache → Outcome Cache
release c = do assert c.held; ok (record c { held = false })

-- The test of the loop of `buffer_cache_lookup`.
abbrev pub matches : Entry → ℕ → Bool
matches e sector = e.valid_bit && e.disk_sector == sector

unfoldable pub lookup_from : ℕ → List Entry → ℕ → Option ℕ
lookup_from i [] sector = none
lookup_from i (e ∷ es) sector = if matches e sector then some i else lookup_from (suc i) es sector

unfoldable pub buffer_cache_lookup : List Entry → ℕ → Option ℕ
unfolding lookup_from
buffer_cache_lookup es sector = lookup_from 0 es sector

-- Its part after the checks, at the entry.
unfoldable pub write_back : Cache → ℕ → Entry → Outcome Cache
unfolding block_write
write_back c i e = do
  device ← block_write c.device e.disk_sector e.buffer
  ok (record c { entries = set c.entries i (record e { dirty_bit = false }); device = device })

unfoldable pub buffer_cache_flush_entry : Cache → ℕ → Outcome Cache
unfolding write_back
buffer_cache_flush_entry c i = do
  require c.held
  elim (get_elem? c.entries i) [
    | none ↦ panic
    | some e ↦ do require e.valid_bit; if e.dirty_bit then write_back c i e else ok c
  ]

-- The loop of `buffer_cache_select_victim`, which always starts at entry 0: the entry that it stops
-- at, and whether that entry was free. `none` means that the fuel ran out.
unfoldable pub clock : ℕ → List Entry → ℕ → Option (List Entry × ℕ × Entry)
clock zero es i = none
clock (suc f) es i = elim (get_elem? es i) [
  | none ↦ none
  | some e ↦
      let on = clock f (set es i (record e { refer_bit = false })) ((i + 1) % num_cache) in
      if not e.valid_bit then some (es, i, e) else if e.refer_bit then on else some (es, i, e)
]

-- One round clears every reference bit, so the loop stops at the latest back at entry 0.
abbrev pub clock_fuel : ℕ
clock_fuel = 65

-- `ent->valid_bit = false`
unfoldable pub drop_entry : Cache → ℕ → Outcome (Cache × ℕ)
drop_entry c i = elim (get_elem? c.entries i) [
  | none ↦ panic
  | some e ↦ ok (record c { entries = set c.entries i (record e { valid_bit = false }) }, i)
]

-- What follows the loop: a free entry is taken as it is, another is written back and freed.
unfoldable pub evict : Cache → ℕ → Entry → Outcome (Cache × ℕ)
unfolding buffer_cache_flush_entry drop_entry
evict c i e =
    if not e.valid_bit
    then ok (c, i)
    else if e.dirty_bit
    then (buffer_cache_flush_entry c i >>= λ c'. drop_entry c' i)
    else drop_entry c i

unfoldable pub buffer_cache_select_victim : Cache → Outcome (Cache × ℕ)
unfolding clock evict
buffer_cache_select_victim c = do
  require c.held
  elim (clock clock_fuel c.entries 0) [
    | none ↦ panic
    | some (es, i, e) ↦ evict (record c { entries = es }) i e
  ]

abbrev pub loaded : Entry → ℕ → Sector → Entry
loaded e sector buffer = record e {
  valid_bit = true;
  disk_sector = sector;
  buffer = buffer;
  dirty_bit = false;
}

-- The assignments to a free entry `e` on a miss, with the read from the device.
unfoldable pub fill : Cache → ℕ → Entry → ℕ → Outcome (Cache × ℕ)
unfolding block_read
fill c i e sector = do
  assert (not e.valid_bit)
  (device, buffer) ← block_read c.device sector
  ok (record c { entries = set c.entries i (loaded e sector buffer); device = device }, i)

-- The miss branch of read and write: free an entry and fill it from the device.
unfoldable pub fetch : Cache → ℕ → Outcome (Cache × ℕ)
unfolding buffer_cache_select_victim fill
fetch c sector = do
  (c', i) ← buffer_cache_select_victim c
  elim (get_elem? c'.entries i) [ none ↦ panic | some e ↦ fill c' i e sector ]

-- The entry that holds the sector, fetched on a miss.
unfoldable pub find_or_fetch : Cache → ℕ → Outcome (Cache × ℕ)
unfolding buffer_cache_lookup fetch
find_or_fetch c sector = elim (buffer_cache_lookup c.entries sector) [
  | some i ↦ ok (c, i)
  | none ↦ fetch c sector
]

unfoldable pub buffer_cache_read : Cache → ℕ → Outcome (Cache × Sector)
unfolding acquire release find_or_fetch
buffer_cache_read c sector = do
  c1 ← acquire c
  (c2, i) ← find_or_fetch c1 sector
  elim (get_elem? c2.entries i) [
    | none ↦ panic
    | some e ↦ do
      c3 ← release (record c2 { entries = set c2.entries i (record e { refer_bit = true }) })
      ok (c3, e.buffer)
  ]

unfoldable pub buffer_cache_write : Cache → ℕ → Sector → Outcome Cache
unfolding acquire release find_or_fetch
buffer_cache_write c sector source = do
  c1 ← acquire c
  (c2, i) ← find_or_fetch c1 sector
  elim (get_elem? c2.entries i) [
    | none ↦ panic
    | some e ↦ release (record c2 {
      entries = set c2.entries i (record e { refer_bit = true; dirty_bit = true; buffer = source });
    })
  ]

-- The loop of `buffer_cache_terminate` over the last `n` entries, from entry `i`.
unfoldable pub flush_from : ℕ → ℕ → Cache → Outcome Cache
unfolding buffer_cache_flush_entry
flush_from zero i c = ok c
flush_from (suc n) i c = elim (get_elem? c.entries i) [
  | none ↦ panic
  | some e ↦ do
    c' ← if e.valid_bit then buffer_cache_flush_entry c i else ok c
    flush_from n (suc i) c'
]

unfoldable pub buffer_cache_terminate : Cache → Outcome Cache
unfolding acquire release flush_from
buffer_cache_terminate c = do c1 ← acquire c; c2 ← flush_from num_cache 0 c1; release c2
