-- ===== src/Inode/Create.antt =====
-- inode_create of an empty file, and inode_open of the sector afterwards.
use os_pintos.Common.{
  ℕ, zero, suc, ◌<◌, ◌≡◌, refl, ◌∙◌, ap, List, ◌∷◌, Bool, true, false, none, some, Option, Outcome,
  ok, arith, ◌==◌, replicate, Each,
}
use os_pintos.Block.{Sector}
use os_pintos.Cache.{Cache, buffer_cache_read, buffer_cache_write}
use os_pintos.Cache.Invariant.{view}
use os_pintos.Cache.Refine.{IsReady, write_lem}
use os_pintos.Inode.{InodeDisk, Inode, direct, decode, open_from, inode_open}
use os_pintos.Inode.Growth.{Disk, encode, inode_reserve, reserve_entries, inode_create}
use os_pintos.Inode.Codec.{IsWord, IsCoded, decode-encode}
use os_pintos.Inode.Index.{reading}

-- The inode of a file without bytes, which has no sectors.
abbrev pub empty_inode : Bool → InodeDisk
empty_inode is_dir = record {
  d_indir_block = 0;
  indir_block = 0;
  dir_blocks = replicate direct 0;
  length = 0;
  magic = 0x494e_4f44;
  is_dir = is_dir;
}

zeros-IsWord : (n : ℕ) → Each IsWord (replicate n 0)
zeros-IsWord zero = tt
zeros-IsWord (suc n) = (omega arith, zeros-IsWord n)

empty_inode-IsCoded : (is_dir : Bool) → IsCoded (empty_inode is_dir)
empty_inode-IsCoded is_dir = record {
  d_indir = omega arith;
  indir = omega arith;
  blocks = zeros-IsWord direct;
  count = refl;
  len = omega arith;
  tag = omega arith;
}

-- The open inode that inode_open makes of what inode_create wrote.
abbrev pub opened : ℕ → Bool → Inode
opened sector is_dir = record {
  sector = sector;
  open_cnt = 1;
  removed = false;
  deny_write_cnt = 0;
  disk = empty_inode is_dir;
}

-- What inode_create gives, from the write of the inode.
created :
    (allocate : Disk → Outcome (Disk × Option ℕ)) (s : Disk) (sector : ℕ) (is_dir : Bool)
    (c1 : Cache)
    → buffer_cache_write s.cache sector (encode (empty_inode is_dir)) ≡ ok c1
    → inode_create allocate true s sector 0 is_dir ≡ ok (record s { cache = c1 }, true)
unfolding inode_create inode_reserve reserve_entries
created allocate s sector is_dir c1 w = rw w refl

-- What inode_open gives, from the read of the inode.
opened_lem :
    (c1 c2 : Cache) (l : List Inode) (sector : ℕ) (is_dir : Bool) (b : Sector)
    → open_from sector l ≡ none
    → buffer_cache_read c1 sector ≡ ok (c2, b)
    → decode b ≡ empty_inode is_dir
    → inode_open true c1 l sector ≡ ok (c2, some (opened sector is_dir ∷ l))
unfolding inode_open
opened_lem c1 c2 l sector is_dir b closed q e =
    let i : InodeDisk → Inode = λ d. record (opened sector is_dir) { disk = d } in
    rw (closed, q, inode_open) (ap (λ d. ok (c2, some (i d ∷ l))) e)

-- inode_create of an empty file on a sector of the device, with memory for its inode, succeeds and
-- leaves the free map alone; inode_open of that sector, when it is not open yet and there is memory,
-- then adds one inode to the open ones, with one opener, writes allowed, the same kind of file, no
-- bytes and no sectors. No other sector changes for a later reader, whichever entries of the cache
-- are evicted, and the cache is ready for the next call.
pub open-create :
    (allocate : Disk → Outcome (Disk × Option ℕ)) (s : Disk) (l : List Inode) (sector : ℕ)
    (is_dir : Bool)
    → IsReady s.cache
    → sector < s.cache.device.size
    → open_from sector l ≡ none
    → (c1 c2 : Cache) × (inode_create allocate true s sector 0 is_dir
        ≡ ok (record s { cache = c1 }, true))
      × (inode_open true c1 l sector ≡ ok (c2, some (opened sector is_dir ∷ l)))
      × ((t : ℕ) → (sector == t) ≡ false → view c2 t ≡ view s.cache t)
      × IsReady c2
open-create allocate s l sector is_dir r h closed =
    let d = empty_inode is_dir in
    let (c1, w, sees, k) = write_lem s.cache sector (encode d) r h in
    let (c2, q, same) = reading c1 sector k.ready (rw k.size h) in
    let v : view c1 sector ≡ encode d = sees sector ∙ ground arith in
    let e : decode (view c1 sector) ≡ d =
      ap decode v ∙ decode-encode d (empty_inode-IsCoded is_dir) in
    (
      c1,
      c2,
      created allocate s sector is_dir c1 w,
      opened_lem c1 c2 l sector is_dir (view c1 sector) closed q e,
      λ t n. ap (λ f. f t) same.contents ∙ sees t ∙ rw n refl,
      same.ready.ready,
    )
