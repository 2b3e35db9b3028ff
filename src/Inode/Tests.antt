-- ===== src/Inode/Tests.antt =====
-- The theorems on inodes at a file of two sectors on a device of 100.
use mathlib.Core.Path.{fun_ext, subst}
use os_pintos.Common.{
  ℕ, ◌*◌, ◌<◌, ◌≡◌, refl, sym, [], ◌∷◌, true, false, ok, arith, replicate, length-replicate, inl,
  inr, ◌⊎◌,
}
use os_pintos.Block.{Sector}
use os_pintos.Cache.{Entry, Cache, buffer_cache_init}
use os_pintos.Cache.Invariant.{view}
use os_pintos.Cache.Refine.{IsReady}
use os_pintos.Cache.Start.{init-IsReady}
use os_pintos.Inode.{InodeDisk, Inode, sector_number, inode_read_at}
use os_pintos.Inode.Index.{sector_at, index_sectors, IsIndexed, Same, sector_number_lem}
use os_pintos.Inode.Bytes.{IsFile}
use os_pintos.Inode.Read.{contents, read_at_lem}

abbrev blank : Entry
blank = record {
  valid_bit = false;
  disk_sector = 0;
  buffer = [];
  dirty_bit = false;
  refer_bit = false;
}

abbrev zeros : ℕ → Sector
zeros s = replicate 512 0

abbrev pub raw : Cache
raw = record {
  entries = replicate 64 blank;
  held = false;
  device = record { size = 100; foreign = false; content = zeros; read_cnt = 0; write_cnt = 0 };
}

abbrev pub begin : Cache
begin = buffer_cache_init raw

pub begin-IsReady : IsReady begin
begin-IsReady = let (r, v) = init-IsReady raw refl refl in r

pub begin-view : view begin ≡ zeros
begin-view = fun_ext (let (r, v) = init-IsReady raw refl refl in v)

abbrev pub two_sectors : InodeDisk
two_sectors = record {
  d_indir_block = 0;
  indir_block = 0;
  dir_blocks = 5 ∷ 6 ∷ [];
  length = 1000;
  magic = 0x494e_4f44;
  is_dir = false;
}

abbrev pub file : Inode
file = record { sector = 4; open_cnt = 1; removed = false; deny_write_cnt = 0; disk = two_sectors }

pub two_indices : (i : ℕ) → i * 512 < 1000 → (i ≡ 0) ⊎ (i ≡ 1)
two_indices i h = omega (arith, h)

pub two_sectors-IsIndexed :
    (f : ℕ → Sector) (i : ℕ) → i * 512 < 1000 → IsIndexed f 100 two_sectors i
unfolding index_sectors
two_sectors-IsIndexed f i h = elim (two_indices i h) [ inl a ↦ rw a tt | inr a ↦ rw a tt ]

on_device : (i : ℕ) → i * 512 < 1000 → sector_at zeros two_sectors i < 100
unfolding sector_at
on_device i h = elim (two_indices i h) [ inl a ↦ rw a (omega arith) | inr a ↦ rw a (omega arith) ]

zeros-IsFile : IsFile zeros 100 two_sectors
zeros-IsFile = record {
  indexed = two_sectors-IsIndexed zeros;
  on_device = on_device;
  whole = λ s. length-replicate {A = ℕ} 512 0;
}

pub begin-IsFile : IsFile (view begin) 100 two_sectors
begin-IsFile = subst (λ f. IsFile f 100 two_sectors) (sym begin-view) zeros-IsFile

sector_number_lem_example :
    (c' : Cache) × (sector_number true begin two_sectors 1
      ≡ ok (c', sector_at (view begin) two_sectors 1))
    × Same begin c'
unfolding buffer_cache_init
sector_number_lem_example =
    sector_number_lem begin two_sectors 1 begin-IsReady (begin-IsFile.indexed 1 (omega arith))

read_at_lem_example :
    (c' : Cache) × (inode_read_at true begin file 600 100
      ≡ ok (c', contents begin two_sectors 600 100))
    × Same begin c'
unfolding buffer_cache_init
read_at_lem_example = read_at_lem begin file 600 100 begin-IsReady begin-IsFile
