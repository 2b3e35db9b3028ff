-- ===== src/Inode/Mapped.antt =====
-- free_map_allocate (1, ...) over the file system's state, filesys/free-map.c: while the free map's
-- file is not open, and with its file. And the release_sector of sectors, which ends a removed inode.
use os_pintos.Common.{
  ℕ, zero, suc, ◌+◌, ◌-◌, ◌*◌, ◌/◌, List, [], ◌∷◌, Bool, false, none, some, Option, Outcome, ok,
  panic, killed, ◌>>=◌, ◌>>◌, assert, require, ◌==◌, if◌then◌else◌, ltb, ◌&&◌,
}
use os_pintos.Bitmap.{bitmap_error, byte_cnt, bitmap_all, bitmap_scan_and_flip, bitmap_set_multiple}
use os_pintos.Cache.{buffer_cache_read}
use os_pintos.Freemap.{free_map_allocate}
use os_pintos.Inode.{InodeDisk, Inode, direct, indirect, words, smaller}
use os_pintos.Inode.Growth.{Disk, encode_words, bytes_to_sectors, inode_write_at}

-- The free map's own file is not open yet: its write does not happen.
unfoldable pub allocate_unopened : Disk → Outcome (Disk × Option ℕ)
unfolding free_map_allocate
allocate_unopened s = do
  (b, r) ← free_map_allocate none 1 s.free_map
  ok (record s { free_map = b }, r)

-- bitmap_write: the words of the map, as bytes, at the start of its file. The file got its full size
-- from free_map_create; a write that would let it grow is none of the code's.
unfoldable pub bitmap_write : Bool → Disk → Inode → Outcome (Disk × Bool)
unfolding inode_write_at byte_cnt encode_words
bitmap_write room s file = do
  let size = byte_cnt s.free_map.bit_cnt
  (s1, file1, n) ← inode_write_at (λ s. panic) room s file (encode_words s.free_map.bits) size 0
  ok (s1, n == size)

unfoldable pub allocate_opened : Bool → Inode → Disk → Outcome (Disk × Option ℕ)
unfolding bitmap_write bitmap_scan_and_flip bitmap_set_multiple
allocate_opened room file s = do
  (sector, b) ← bitmap_scan_and_flip s.free_map 0 1 false
  if sector == bitmap_error then ok (record s { free_map = b }, none) else (do
    (s1, written) ← bitmap_write room (record s { free_map = b }) file
    if written then ok (s1, some sector) else (do
      b' ← bitmap_set_multiple s1.free_map sector 1 false
      ok (record s1 { free_map = b' }, none)))

-- free_map_release (sector, 1), with the write of the map, whose result is ignored.
unfoldable pub release_sector : Bool → Inode → Disk → ℕ → Outcome Disk
unfolding bitmap_write bitmap_all bitmap_set_multiple
release_sector room file s sector = do
  used ← bitmap_all s.free_map sector 1
  assert used
  b ← bitmap_set_multiple s.free_map sector 1 false
  (s1, written) ← bitmap_write room (record s { free_map = b }) file
  ok s1

-- The rounds of a loop over the entries of an index block, none more than the entries.
unfoldable pub delete_entries :
    (Disk → ℕ → ℕ → Outcome Disk) → ℕ → ℕ → Disk → List ℕ → ℕ → Outcome (Disk × ℕ)
delete_entries delete chunk zero s l num = ok (s, num)
delete_entries delete chunk (suc rounds) s [] num = ok (s, num)
delete_entries delete chunk (suc rounds) s (e ∷ l) num = do
  s1 ← delete s e (smaller num chunk)
  delete_entries delete chunk rounds s1 l (num - smaller num chunk)

-- inode_close of the inode of a sector: the last closer takes it from the list. To close an inode
-- that is not open is a use of freed memory.
unfoldable pub close_from : ℕ → List Inode → Option (Inode × List Inode)
close_from sector [] = none
close_from sector (i ∷ l) =
    if i.sector == sector
    then (let i1 = record i { open_cnt = i.open_cnt - 1 } in
        some (i1, if i1.open_cnt == 0 then l else i1 ∷ l))
    else elim (close_from sector l) [ none ↦ none | some (j, l') ↦ some (j, i ∷ l') ]

module _ (free : Disk → ℕ → Outcome Disk) where
  unfoldable pub delete_index : (Disk → ℕ → ℕ → Outcome Disk) → ℕ → Disk → ℕ → ℕ → Outcome Disk
  unfolding delete_entries
  delete_index delete chunk s ent num_sec = do
    (c, block) ← buffer_cache_read s.cache ent
    (s1, rest) ←
        delete_entries delete chunk ((num_sec + (chunk - 1)) / chunk) (record s { cache = c })
          (words indirect 0 block) num_sec
    require (rest == 0)
    free s1 ent

  unfoldable pub delete_indir : ℕ → Disk → ℕ → ℕ → Outcome Disk
  unfolding delete_index
  delete_indir zero s ent num_sec = free s ent
  delete_indir (suc zero) s ent num_sec = delete_index (λ s e n. free s e) 1 s ent num_sec
  delete_indir (suc (suc zero)) s ent num_sec =
      delete_index (delete_index (λ s e n. free s e) 1) indirect s ent num_sec
  delete_indir (suc (suc (suc level))) s ent num_sec = killed

  unfoldable pub inode_delete : Disk → InodeDisk → Outcome Disk
  unfolding delete_entries delete_indir
  inode_delete s d = do
    let num_sec = bytes_to_sectors d.length
    let most = smaller num_sec direct
    (s1, _) ← delete_entries (λ s e n. free s e) 1 most s d.dir_blocks most
    let left = num_sec - most
    let single = smaller left indirect
    s2 ← if ltb 0 single then delete_indir 1 s1 d.indir_block single else ok s1
    let left2 = left - single
    let double = smaller left2 (indirect * indirect)
    s3 ← if ltb 0 double then delete_indir 2 s2 d.d_indir_block double else ok s2
    require (left2 - double == 0)
    ok s3

  unfoldable pub inode_close : Disk → List Inode → ℕ → Outcome (Disk × List Inode)
  unfolding close_from inode_delete
  inode_close s open_inodes sector = elim (close_from sector open_inodes) [
    | none ↦ panic
    | some (i, l) ↦
        if i.open_cnt == 0 && i.removed
        then (do s1 ← free s i.sector; s2 ← inode_delete s1 i.disk; ok (s2, l))
        else ok (s, l)
  ]
