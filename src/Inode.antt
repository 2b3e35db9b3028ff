-- ===== src/Inode.antt =====
-- Inodes, filesys/inode.c of project5: the index of a file over the buffer cache, reads by position,
-- and the open inodes with their counts. Positions and lengths, which the callers keep from being
-- negative, are natural numbers; the sizes that reads work with stop at 0 where those of the code
-- become negative, and both end the loop. Whether malloc and calloc find room is a parameter.
pub mod Index
pub mod Bytes
pub mod Read
pub mod Open
pub mod Write
pub mod Put
pub mod Written
pub mod Store
pub mod Growth
pub mod Trips
pub mod Codec
pub mod Create
pub mod Allocator
pub mod Slots
pub mod Reserve
pub mod Grown
pub mod Extended
pub mod Mapped
pub mod Unopened
pub mod Tests
pub mod Samples
use os_pintos.Common.{
  ℕ, zero, suc, ◌+◌, ◌-◌, ◌*◌, ◌/◌, ◌%◌, ◌^◌, List, [], ◌∷◌, ◌++◌, Bool, true, false, not, ◌&&◌,
  ◌||◌, Option, none, some, Outcome, ok, panic, ◌>>=◌, ◌>>◌, assert, ◌==◌, ltb, leb, length, take,
  drop, get_elem?, if◌then◌else◌,
}
use os_pintos.Block.{Sector}
use os_pintos.Cache.{Cache, buffer_cache_read}

-- BLOCK_SECTOR_SIZE, DIRECT and INDIRECT
abbrev pub sector_size : ℕ
sector_size = 512

abbrev pub direct : ℕ
direct = 123

abbrev pub indirect : ℕ
indirect = 128

-- `struct inode_disk`
pub record InodeDisk : Type 0 where
  pub d_indir_block : ℕ
  pub indir_block : ℕ
  pub dir_blocks : List ℕ
  pub length : ℕ
  pub magic : ℕ
  pub is_dir : Bool

-- `struct inode`, without its link; its `data` is `disk` here.
pub record Inode : Type 0 where
  pub sector : ℕ
  pub open_cnt : ℕ
  pub removed : Bool
  pub deny_write_cnt : ℕ
  pub disk : InodeDisk

abbrev pub nth : List ℕ → ℕ → ℕ
nth [] i = 0
nth (x ∷ l) zero = x
nth (x ∷ l) (suc i) = nth l i

-- The 32-bit number at index `i` of a sector, as `struct indir_inode` reads it.
abbrev pub word_at : Sector → ℕ → ℕ
word_at s i =
    nth s (4 * i)
    + 256 * nth s (4 * i + 1)
    + 65536 * nth s (4 * i + 2)
    + 16777216 * nth s (4 * i + 3)

unfoldable pub words : ℕ → ℕ → Sector → List ℕ
words zero i s = []
words (suc n) i s = word_at s i ∷ words n (suc i) s

-- The bytes of a sector as a `struct inode_disk`.
abbrev pub decode : Sector → InodeDisk
decode s = record {
  d_indir_block = word_at s 0;
  indir_block = word_at s 1;
  dir_blocks = words direct 2 s;
  length = word_at s 125;
  magic = word_at s 126;
  is_dir = not (nth s 508 == 0);
}

-- The two reads of the doubly indirect index.
unfoldable pub double_read : Cache → ℕ → ℕ → ℕ → Outcome (Cache × ℕ)
double_read c block outer inner = do
  (c1, s) ← buffer_cache_read c block
  (c2, s2) ← buffer_cache_read c1 (word_at s outer)
  ok (c2, word_at s2 inner)

unfoldable pub sector_number : Bool → Cache → InodeDisk → ℕ → Outcome (Cache × ℕ)
unfolding double_read
sector_number room c idisk index =
    if ltb index direct
    then ok (c, nth idisk.dir_blocks index)
    else if ltb index (direct + indirect)
    then (do
      assert room
      (c1, s) ← buffer_cache_read c idisk.indir_block
      ok (c1, word_at s (index - direct)))
    else if ltb index (direct + indirect + indirect * indirect)
    then (do
      assert room
      double_read c idisk.d_indir_block ((index - (direct + indirect)) / indirect)
          ((index - (direct + indirect)) % indirect))
    else ok (c, 0)

unfoldable pub byte_to_sector : Bool → Cache → InodeDisk → ℕ → Outcome (Cache × ℕ)
unfolding sector_number
byte_to_sector room c disk pos =
    if ltb pos disk.length
    then sector_number room c disk (pos / sector_size)
    else ok (c, 2 ^ 32 - 1)

abbrev pub smaller : ℕ → ℕ → ℕ
smaller a b = if ltb a b then a else b

-- The bytes that one round of the loop of inode_read_at copies at most.
abbrev pub chunk : ℕ → ℕ → ℕ → ℕ
chunk file_length size offset =
    smaller size (smaller (file_length - offset) (sector_size - offset % sector_size))

-- The part of a sector that a round copies.
abbrev pub copied : Sector → ℕ → ℕ → List ℕ
copied s sector_ofs chunk_size =
    if sector_ofs == 0 && chunk_size == sector_size then s else take chunk_size (drop sector_ofs s)

-- A round that has some bytes to copy.
unfoldable pub read_chunk : Bool → Cache → ℕ → ℕ → ℕ → Outcome (Option (Cache × List ℕ))
read_chunk room c sector_idx sector_ofs chunk_size =
    if not room && not (sector_ofs == 0 && chunk_size == sector_size) then ok none else (do
      (c1, s) ← buffer_cache_read c sector_idx
      ok (some (c1, copied s sector_ofs chunk_size)))

-- The loop of inode_read_at; its fuel is the size, of which each round takes at least one byte.
unfoldable pub read_loop : ℕ → Bool → Cache → InodeDisk → ℕ → ℕ → Outcome (Cache × List ℕ)
unfolding byte_to_sector read_chunk
read_loop zero room c disk size offset = ok (c, [])
read_loop (suc n) room c disk size offset = if size == 0 then ok (c, []) else (do
  (c1, sector_idx) ← byte_to_sector room c disk offset
  let chunk_size = chunk disk.length size offset
  if chunk_size == 0 then ok (c1, []) else (do
    r ← read_chunk room c1 sector_idx (offset % sector_size) chunk_size
    elim r [
      | none ↦ ok (c1, [])
      | some (c2, bytes) ↦ do
        (c3, rest) ← read_loop n room c2 disk (size - chunk_size) (offset + chunk_size)
        ok (c3, bytes ++ rest)
    ]))

-- The bytes read; their number is the result of the call.
unfoldable pub inode_read_at : Bool → Cache → Inode → ℕ → ℕ → Outcome (Cache × List ℕ)
unfolding read_loop
inode_read_at room c inode size offset = read_loop size room c inode.disk size offset

-- inode_open on an inode that is open already: it is known by its sector.
unfoldable pub open_from : ℕ → List Inode → Option (List Inode)
open_from sector [] = none
open_from sector (i ∷ l) =
    if i.sector == sector
    then some (record i { open_cnt = i.open_cnt + 1 } ∷ l)
    else elim (open_from sector l) [ none ↦ none | some l' ↦ some (i ∷ l') ]

-- inode_open, for the list of open inodes; none is the NULL of a failed malloc.
unfoldable pub inode_open : Bool → Cache → List Inode → ℕ → Outcome (Cache × Option (List Inode))
unfolding open_from
inode_open room c open_inodes sector = elim (open_from sector open_inodes) [
  | some l ↦ ok (c, some l)
  | none ↦ if not room then ok (c, none) else (do
    (c1, s) ← buffer_cache_read c sector
    ok (
      c1,
      some (
          record {
            sector = sector;
            open_cnt = 1;
            removed = false;
            deny_write_cnt = 0;
            disk = decode s;
          }
          ∷ open_inodes),
    ))
]

abbrev pub inode_reopen : Inode → Inode
inode_reopen inode = record inode { open_cnt = inode.open_cnt + 1 }

abbrev pub inode_remove : Inode → Inode
inode_remove inode = record inode { removed = true }

unfoldable pub inode_deny_write : Inode → Outcome Inode
inode_deny_write inode = do
  assert (leb (inode.deny_write_cnt + 1) inode.open_cnt)
  ok (record inode { deny_write_cnt = inode.deny_write_cnt + 1 })

unfoldable pub inode_allow_write : Inode → Outcome Inode
inode_allow_write inode = do
  assert (ltb 0 inode.deny_write_cnt)
  assert (leb inode.deny_write_cnt inode.open_cnt)
  ok (record inode { deny_write_cnt = inode.deny_write_cnt - 1 })
