-- ===== src/Inode/Samples.antt =====
-- The theorems on writes and growth at the file of two sectors and at a new one.
use os_pintos.Common.{
  ℕ, zero, suc, ◌*◌, ◌<◌, ◌≡◌, refl, [], ◌∷◌, true, false, some, Bool, ok, ◌==◌, arith, replicate,
  inl, inr,
}
use os_pintos.Block.{Sector}
use os_pintos.Cache.{Cache, buffer_cache_init}
use os_pintos.Cache.Invariant.{view}
use os_pintos.Cache.Refine.{IsReady}
use os_pintos.Inode.{InodeDisk, sector_size, nth, inode_read_at, open_from, inode_open}
use os_pintos.Inode.Index.{sector_at, index_sectors}
use os_pintos.Inode.Put.{IsWritable}
use os_pintos.Inode.Store.{Stored}
use os_pintos.Inode.Growth.{Disk, inode_reserve, inode_write_at, inode_create}
use os_pintos.Inode.Create.{opened, open-create}
use os_pintos.Inode.Trips.{write_at_lem, read_at-write_at}
use os_pintos.Inode.Grown.{Owns}
use os_pintos.Inode.Extended.{IsGrown, reserve_lem}
use os_pintos.Inode.Mapped.{allocate_unopened}
use os_pintos.Inode.Unopened.{IsSound, unopened}
use os_pintos.Inode.Tests.{begin, begin-IsReady, begin-IsFile, two_sectors, file, two_indices}

abbrev state : Disk
state = record { cache = begin; free_map = record { bit_cnt = 40; bits = 3 ∷ 0 ∷ [] } }

two_sectors-distinct :
    (f : ℕ → Sector) (i j : ℕ)
    → i * sector_size < 1000
    → j * sector_size < 1000
    → sector_at f two_sectors i ≡ sector_at f two_sectors j
    → i ≡ j
unfolding sector_at
two_sectors-distinct f i j h k e = elim (two_indices i h) [
  | inl a ↦ elim (two_indices j k) [
    | inl b ↦ omega (arith, a, b)
    | inr b ↦ let p : 5 ≡ 6 = rw (a, b) at e in absurd (omega (arith, p))
  ]
  | inr a ↦ elim (two_indices j k) [
    | inl b ↦ let p : 6 ≡ 5 = rw (a, b) at e in absurd (omega (arith, p))
    | inr b ↦ omega (arith, a, b)
  ]
]

pub two_sectors-IsWritable : (f : ℕ → Sector) → IsWritable f two_sectors
unfolding index_sectors
two_sectors-IsWritable f = record {
  distinct = two_sectors-distinct f;
  apart = λ i j h k. elim (two_indices j k) [ inl a ↦ rw a tt | inr a ↦ rw a tt ];
}

write_at_lem_example :
    (c' : Cache) × (inode_write_at allocate_unopened true state file (7 ∷ 8 ∷ []) 2 511
      ≡ ok (record state { cache = c' }, file, 2))
    × Stored begin c' two_sectors 511 (7 ∷ 8 ∷ [])
unfolding buffer_cache_init
write_at_lem_example =
    write_at_lem allocate_unopened state file (7 ∷ 8 ∷ []) 2 511 begin-IsReady begin-IsFile
      (two_sectors-IsWritable (view begin)) (omega arith) refl refl (omega arith) (omega arith)

read_at-write_at_example :
    (c1 c2 : Cache) × (inode_write_at allocate_unopened true state file (7 ∷ 8 ∷ []) 2 511
      ≡ ok (record state { cache = c1 }, file, 2))
    × (inode_read_at true c1 file 2 511 ≡ ok (c2, 7 ∷ 8 ∷ []))
unfolding buffer_cache_init
read_at-write_at_example =
    read_at-write_at allocate_unopened state file (7 ∷ 8 ∷ []) 2 511 begin-IsReady begin-IsFile
      (two_sectors-IsWritable (view begin)) (omega arith) refl refl (omega arith) (omega arith)

abbrev new_file : InodeDisk
new_file = record {
  d_indir_block = 0;
  indir_block = 0;
  dir_blocks = replicate 123 0;
  length = 1000;
  magic = 0x494e_4f44;
  is_dir = true;
}

pub nth-zeros : (n i : ℕ) → nth (replicate n 0) i ≡ 0
nth-zeros zero i = refl
nth-zeros (suc n) zero = refl
nth-zeros (suc n) (suc i) = nth-zeros n i

state-IsSound : IsSound state
unfolding buffer_cache_init
state-IsSound = record {
  valid = omega arith;
  ready = begin-IsReady;
  within = omega arith;
  root = refl;
  whole = begin-IsFile.whole;
}

new_file-Owns : Owns unopened.Own state (replicate 123 0)
new_file-Owns = record {
  marked = λ i n. absurd (n (nth-zeros 123 i));
  on_device = λ i n. absurd (n (nth-zeros 123 i));
  foreign = λ i n. absurd (n (nth-zeros 123 i));
  distinct = λ i j n. absurd (n (nth-zeros 123 i));
}

reserve_lem_example :
    (s' : Disk) × (d' : InodeDisk) × (done : Bool) × (inode_reserve unopened.allocate state new_file
        1000
      ≡ ok (s', d', done))
    × (done ≡ true → unopened.IsSound s' × IsGrown unopened state s' new_file d' 1000)
unfolding buffer_cache_init unopened
reserve_lem_example =
    reserve_lem unopened state new_file 1000 state-IsSound refl new_file-Owns (omega arith)

open-create_example :
    (c1 c2 : Cache) × (inode_create allocate_unopened true state 9 0 true
      ≡ ok (record state { cache = c1 }, true))
    × (inode_open true c1 [] 9 ≡ ok (c2, some (opened 9 true ∷ [])))
    × ((t : ℕ) → (9 == t) ≡ false → view c2 t ≡ view begin t)
    × IsReady c2
unfolding buffer_cache_init open_from
open-create_example = open-create allocate_unopened state [] 9 true begin-IsReady (omega arith) refl
