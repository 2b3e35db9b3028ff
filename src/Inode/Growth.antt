-- ===== src/Inode/Growth.antt =====
-- How a file gets its sectors: inode_reserve, inode_write_at and inode_create, over the cache and
-- the free map. What free_map_allocate (1, ...) does is a parameter, because it writes the free map's
-- own file, which never grows.
use os_pintos.Common.{
  ℕ, zero, suc, ◌+◌, ◌-◌, ◌*◌, ◌/◌, ◌%◌, ◌^◌, List, [], ◌∷◌, ◌++◌, Bool, true, false, Option, none,
  some, Outcome, ok, killed, ◌>>=◌, ◌>>◌, require, ◌==◌, ltb, replicate, if◌then◌else◌,
}
use os_pintos.Block.{Sector}
use os_pintos.Bitmap.{Bitmap}
use os_pintos.Cache.{Cache, buffer_cache_read, buffer_cache_write}
use os_pintos.Inode.{
  InodeDisk, Inode, sector_size, direct, indirect, words, sector_number, byte_to_sector, smaller,
}
use os_pintos.Inode.Write.{write_loop}

-- What the calls change: the cache of the file system's device, and the free map.
pub record Disk : Type 0 where
  pub cache : Cache
  pub free_map : Bitmap

-- A 32-bit number as its bytes, and a `struct indir_inode` as a sector.
abbrev pub word_bytes : ℕ → List ℕ
word_bytes n = n % 256 ∷ n / 256 % 256 ∷ n / 65536 % 256 ∷ n / 16777216 % 256 ∷ []

unfoldable pub encode_words : List ℕ → Sector
encode_words [] = []
encode_words (n ∷ l) = word_bytes n ++ encode_words l

abbrev pub flag : Bool → ℕ
flag true = 1
flag false = 0

-- The bytes of a `struct inode_disk` in memory, which inode.c writes as they are: a layout of the
-- machine, which stands for no code.
unfoldable pub encode : InodeDisk → Sector
unfolding encode_words
encode d =
    word_bytes d.d_indir_block
    ++ (word_bytes d.indir_block
        ++ (encode_words d.dir_blocks
            ++ (word_bytes d.length ++ (word_bytes d.magic ++ (flag d.is_dir ∷ 0 ∷ 0 ∷ 0 ∷ [])))))

abbrev pub zero_sector : Sector
zero_sector = replicate sector_size 0

abbrev pub bytes_to_sectors : ℕ → ℕ
bytes_to_sectors size = (size + 511) / sector_size

-- The rounds of a loop over the entries of an index block, each of which reserves for at most
-- `chunk` sectors. There are no more rounds than entries.
unfoldable pub reserve_entries :
    (Disk → ℕ → ℕ → Outcome (Disk × ℕ × Bool))
    → ℕ
    → ℕ
    → Disk
    → List ℕ
    → ℕ
    → Outcome (Disk × List ℕ × ℕ × Bool)
reserve_entries reserve chunk zero s l num = ok (s, l, num, true)
reserve_entries reserve chunk (suc rounds) s [] num = ok (s, [], num, true)
reserve_entries reserve chunk (suc rounds) s (e ∷ l) num = do
  (s1, e1, done) ← reserve s e (smaller num chunk)
  if done
      then (do
        (s2, l2, num2, done2) ← reserve_entries reserve chunk rounds s1 l (num - smaller num chunk)
        ok (s2, e1 ∷ l2, num2, done2))
      else ok (s1, e1 ∷ l, num, false)

-- Whether inode_write_at must let the file grow: the test of byte_to_sector (inode, len - 1),
-- where a length of 0 asks for the sector of index 0.
unfoldable pub past_end_test : Bool → Cache → InodeDisk → ℕ → Outcome (Cache × Bool)
unfolding byte_to_sector sector_number
past_end_test room c d len = do
  (c1, sector) ← if len == 0 then sector_number room c d 0 else byte_to_sector room c d (len - 1)
  ok (c1, sector == 2 ^ 32 - 1)

module _ (allocate : Disk → Outcome (Disk × Option ℕ)) where
  -- A data sector.
  unfoldable pub reserve_sector : Disk → ℕ → ℕ → Outcome (Disk × ℕ × Bool)
  reserve_sector s page num =
      if page == 0
      then (do
        (s1, r) ← allocate s
        elim r [
          | none ↦ ok (s1, page, false)
          | some sector ↦ do
            c ← buffer_cache_write s1.cache sector zero_sector
            ok (record s1 { cache = c }, sector, true)
        ])
      else ok (s, page, true)

  -- The index block itself; a failure to allocate it leaves the pointer at 0.
  unfoldable pub reserve_block : Disk → ℕ → Outcome (Disk × ℕ)
  reserve_block s page =
      if page == 0
      then (do
        (s1, r) ← allocate s
        let sector : ℕ = elim r [ none ↦ page | some sector ↦ sector ]
        c ← buffer_cache_write s1.cache sector zero_sector
        ok (record s1 { cache = c }, sector))
      else ok (s, page)

  -- An index block whose entries are reserved by `reserve`.
  unfoldable pub reserve_index :
      (Disk → ℕ → ℕ → Outcome (Disk × ℕ × Bool)) → ℕ → Disk → ℕ → ℕ → Outcome (Disk × ℕ × Bool)
  unfolding reserve_block reserve_entries encode_words
  reserve_index reserve chunk s page num = do
    (s1, page1) ← reserve_block s page
    (c, block) ← buffer_cache_read s1.cache page1
    (s2, block1, num1, done) ←
        reserve_entries reserve chunk ((num + (chunk - 1)) / chunk) (record s1 { cache = c })
          (words indirect 0 block) num
    if done
        then (do
          require (num1 == 0)
          c1 ← buffer_cache_write s2.cache page1 (encode_words block1)
          ok (record s2 { cache = c1 }, page1, true))
        else ok (s2, page1, false)

  unfoldable pub reserve_indir : ℕ → Disk → ℕ → ℕ → Outcome (Disk × ℕ × Bool)
  unfolding reserve_sector reserve_index
  reserve_indir zero s page num = reserve_sector s page num
  reserve_indir (suc zero) s page num = reserve_index reserve_sector 1 s page num
  reserve_indir (suc (suc zero)) s page num =
      reserve_index (reserve_index reserve_sector 1) indirect s page num
  reserve_indir (suc (suc (suc level))) s page num = killed

  -- The doubly indirect part, for the sectors that are left.
  unfoldable pub reserve_double : Disk → InodeDisk → ℕ → Outcome (Disk × InodeDisk × Bool)
  unfolding reserve_indir
  reserve_double s d num_sec = do
    let most = smaller num_sec (indirect * indirect)
    (s1, page, done) ← reserve_indir 2 s d.d_indir_block most
    let d1 = record d { d_indir_block = page }
    if done then (do require (num_sec - most == 0); ok (s1, d1, true)) else ok (s1, d1, false)

  unfoldable pub reserve_single : Disk → InodeDisk → ℕ → Outcome (Disk × InodeDisk × Bool)
  unfolding reserve_indir reserve_double
  reserve_single s d num_sec = do
    let most = smaller num_sec indirect
    (s1, page, done) ← reserve_indir 1 s d.indir_block most
    let d1 = record d { indir_block = page }
    if done
        then (if num_sec - most == 0
            then ok (s1, d1, true)
            else reserve_double s1 d1 (num_sec - most))
        else ok (s1, d1, false)

  unfoldable pub inode_reserve : Disk → InodeDisk → ℕ → Outcome (Disk × InodeDisk × Bool)
  unfolding reserve_sector reserve_entries reserve_single
  inode_reserve s d len = do
    let num_sec = bytes_to_sectors len
    let most = smaller num_sec direct
    (s1, blocks, rest, done) ← reserve_entries reserve_sector 1 most s d.dir_blocks most
    let d1 = record d { dir_blocks = blocks }
    if done
        then (if num_sec - most == 0
            then ok (s1, d1, true)
            else reserve_single s1 d1 (num_sec - most))
        else ok (s1, d1, false)

  -- The bytes written, with the inode.
  unfoldable pub inode_write_at : Bool → Disk → Inode → List ℕ → ℕ → ℕ → Outcome (Disk × Inode × ℕ)
  unfolding inode_reserve past_end_test encode write_loop
  inode_write_at room s inode buffer size offset =
      if ltb 0 inode.deny_write_cnt then ok (s, inode, 0) else (do
        (c, grows) ← past_end_test room s.cache inode.disk (offset + size)
        if grows
            then (do
              (s1, d, done) ← inode_reserve (record s { cache = c }) inode.disk (offset + size)
              if done
                  then (do
                    let d1 = record d { length = offset + size }
                    c1 ← buffer_cache_write s1.cache inode.sector (encode d1)
                    (c2, n) ← write_loop size room c1 d1 buffer size offset
                    ok (record s1 { cache = c2 }, record inode { disk = d1 }, n))
                  else ok (s1, record inode { disk = d }, 0))
            else (do
              (c2, n) ← write_loop size room c inode.disk buffer size offset
              ok (record s { cache = c2 }, inode, n)))

  -- INODE_MAGIC; `room` is whether calloc finds memory.
  unfoldable pub inode_create : Bool → Disk → ℕ → ℕ → Bool → Outcome (Disk × Bool)
  unfolding inode_reserve encode
  inode_create room s sector len is_dir =
      if room
      then (do
        (s1, d, done) ←
            inode_reserve s
              (record {
                d_indir_block = 0;
                indir_block = 0;
                dir_blocks = replicate direct 0;
                length = len;
                magic = 0x494e_4f44;
                is_dir = is_dir;
              })
              len
        if done
            then (do
              c ← buffer_cache_write s1.cache sector (encode d)
              ok (record s1 { cache = c }, true))
            else ok (s1, false))
      else ok (s, false)
