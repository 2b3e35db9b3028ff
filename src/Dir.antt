-- ===== src/Dir.antt =====
-- Directories, filesys/directory.c of project5, over the open inodes and the buffer cache. An open
-- inode is known by its sector, since inode_open gives one inode for each; an entry is the bytes of
-- a `struct dir_entry`, as the code reads and writes them. Whether malloc and calloc find room, and
-- what free_map_allocate and free_map_release do, are parameters.
pub mod Find
pub mod Fields
pub mod Slot
pub mod Entries
pub mod Add
pub mod Filling
pub mod Trips
pub mod Tests
pub mod Change
use os_pintos.Common.{
  ℕ, zero, suc, ◌+◌, ◌-◌, ◌<◌, List, [], ◌∷◌, ◌++◌, Bool, true, false, not, ◌&&◌, ◌||◌, Option,
  none, some, Outcome, ok, panic, ◌>>=◌, ◌>>◌, assert, ◌==◌, ltb, leb, length, take, drop,
  if◌then◌else◌,
}
use os_pintos.Freemap.{root_dir_sector}
use os_pintos.Inode.{Inode, nth, word_at, inode_open, inode_read_at, inode_reopen, inode_remove}
use os_pintos.Inode.Write.{overwrite}
use os_pintos.Inode.Growth.{Disk, word_bytes, inode_write_at, inode_create}
use os_pintos.Inode.Mapped.{inode_close}

-- NAME_MAX, and sizeof (struct dir_entry)
abbrev pub name_max : ℕ
name_max = 14

abbrev pub entry_size : ℕ
entry_size = 20

-- The fields of an entry.
abbrev pub inode_sector : List ℕ → ℕ
inode_sector e = word_at e 0

abbrev pub entry_name : List ℕ → List ℕ
entry_name e = take (name_max + 1) (drop 4 e)

abbrev pub in_use : List ℕ → Bool
in_use e = not (nth e 19 == 0)

-- !strcmp, of a name and an array in which a zero ends the string; no string goes past the array.
abbrev pub same_name : List ℕ → List ℕ → Bool
same_name n [] = false
same_name [] (y ∷ b) = y == 0
same_name (x ∷ n) (y ∷ b) = x == y && same_name n b

-- The state: the disk and the open inodes. A directory is the sector of its inode and a position.
pub record FileSys : Type 0 where
  pub disk : Disk
  pub open_inodes : List Inode

pub record Dir : Type 0 where
  pub sector : ℕ
  pub pos : ℕ

pub record Env : Type 0 where
  pub room : Bool
  pub allocate : Disk → Outcome (Disk × Option ℕ)
  pub free : Disk → ℕ → Outcome Disk

abbrev pub find_inode : List Inode → ℕ → Option Inode
find_inode [] sector = none
find_inode (i ∷ l) sector = if i.sector == sector then some i else find_inode l sector

abbrev pub put_inode : List Inode → ℕ → Inode → List Inode
put_inode [] sector j = []
put_inode (i ∷ l) sector j = if i.sector == sector then j ∷ l else i ∷ put_inode l sector j

-- A use of an inode that is not open is a use of freed memory.
unfoldable pub inode_of : FileSys → ℕ → Outcome Inode
inode_of s sector = elim (find_inode s.open_inodes sector) [ none ↦ panic | some i ↦ ok i ]

module _ (env : Env) where
  unfoldable pub read_inode : FileSys → ℕ → ℕ → ℕ → Outcome (FileSys × List ℕ)
  unfolding inode_of
  read_inode s sector size ofs = do
    i ← inode_of s sector
    (c, bytes) ← inode_read_at env.room s.disk.cache i size ofs
    ok (record s { disk = record s.disk { cache = c } }, bytes)

  unfoldable pub write_inode : FileSys → ℕ → List ℕ → ℕ → ℕ → Outcome (FileSys × ℕ)
  unfolding inode_of inode_write_at
  write_inode s sector bytes size ofs = do
    i ← inode_of s sector
    (d, j, n) ← inode_write_at env.allocate env.room s.disk i bytes size ofs
    ok (record { disk = d; open_inodes = put_inode s.open_inodes sector j }, n)

  unfoldable pub open_inode : FileSys → ℕ → Outcome (FileSys × Option ℕ)
  open_inode s sector = do
    (c, r) ← inode_open env.room s.disk.cache s.open_inodes sector
    let s1 = record s { disk = record s.disk { cache = c } }
    elim r [ none ↦ ok (s1, none) | some l ↦ ok (record s1 { open_inodes = l }, some sector) ]

  unfoldable pub close_inode : FileSys → ℕ → Outcome FileSys
  close_inode s sector = do
    (d, l) ← inode_close env.free s.disk s.open_inodes sector
    ok (record { disk = d; open_inodes = l })

  unfoldable pub dir_open : FileSys → Option ℕ → Outcome (FileSys × Option Dir)
  unfolding close_inode
  dir_open s none = ok (s, none)
  dir_open s (some sector) =
      if env.room
      then ok (s, some (record { sector = sector; pos = entry_size }))
      else (do s1 ← close_inode s sector; ok (s1, none))

  unfoldable pub dir_open_root : FileSys → Outcome (FileSys × Option Dir)
  unfolding dir_open open_inode
  dir_open_root s = do (s1, r) ← open_inode s root_dir_sector; dir_open s1 r

  unfoldable pub dir_reopen : FileSys → Dir → Outcome (FileSys × Option Dir)
  unfolding dir_open inode_of
  dir_reopen s dir = do
    i ← inode_of s dir.sector
    let s1 = record s { open_inodes = put_inode s.open_inodes dir.sector (inode_reopen i) }
    dir_open s1 (some dir.sector)

  unfoldable pub dir_close : FileSys → Dir → Outcome FileSys
  unfolding close_inode
  dir_close s dir = close_inode s dir.sector

  -- The loop of lookup; each round reads one entry, and one more than the bytes of the file is
  -- fuel enough. A loop that goes on when the fuel is used up is taken to stop the machine.
  unfoldable pub find_entry : ℕ → FileSys → ℕ → List ℕ → ℕ → Outcome (FileSys × Option (List ℕ × ℕ))
  unfolding read_inode
  find_entry zero s sector name ofs = panic
  find_entry (suc n) s sector name ofs = do
    (s1, e) ← read_inode s sector entry_size ofs
    if length e == entry_size
        then (if in_use e && same_name name (entry_name e)
            then ok (s1, some (e, ofs))
            else find_entry n s1 sector name (ofs + entry_size))
        else ok (s1, none)

  -- The entry of a name and its offset; the first entry is the parent's.
  unfoldable pub lookup : FileSys → Dir → List ℕ → Outcome (FileSys × Option (List ℕ × ℕ))
  unfolding find_entry inode_of
  lookup s dir name = do
    i ← inode_of s dir.sector
    find_entry (i.disk.length + 1) s dir.sector name entry_size

  unfoldable pub dir_lookup : FileSys → Dir → List ℕ → Outcome (FileSys × Option ℕ)
  unfolding read_inode open_inode lookup
  dir_lookup s dir name =
      if same_name name (46 ∷ 46 ∷ 0 ∷ [])
      then (do (s1, e) ← read_inode s dir.sector entry_size 0; open_inode s1 (inode_sector e))
      else if same_name name (46 ∷ 0 ∷ [])
      then (do
        i ← inode_of s dir.sector
        ok (
          record s { open_inodes = put_inode s.open_inodes dir.sector (inode_reopen i) },
          some dir.sector,
        ))
      else (do
        (s1, r) ← lookup s dir name
        elim r [ none ↦ ok (s1, none) | some (e, ofs) ↦ open_inode s1 (inode_sector e) ])

  unfoldable pub empty_from : ℕ → FileSys → ℕ → ℕ → Outcome (FileSys × Bool)
  unfolding read_inode
  empty_from zero s sector ofs = panic
  empty_from (suc n) s sector ofs = do
    (s1, e) ← read_inode s sector entry_size ofs
    if length e == entry_size
        then (if in_use e then ok (s1, false) else empty_from n s1 sector (ofs + entry_size))
        else ok (s1, true)

  unfoldable pub dir_empty : FileSys → Dir → Outcome (FileSys × Bool)
  unfolding empty_from inode_of
  dir_empty s dir = do
    i ← inode_of s dir.sector
    empty_from (i.disk.length + 1) s dir.sector entry_size

  -- dir_readdir: the position moves on, past entries that are not in use.
  unfoldable pub readdir_from : ℕ → FileSys → Dir → Outcome (FileSys × Dir × Option (List ℕ))
  unfolding read_inode
  readdir_from zero s dir = panic
  readdir_from (suc n) s dir = do
    (s1, e) ← read_inode s dir.sector entry_size dir.pos
    if length e == entry_size
        then (let dir1 = record dir { pos = dir.pos + entry_size } in
            if in_use e then ok (s1, dir1, some (entry_name e)) else readdir_from n s1 dir1)
        else ok (s1, dir, none)

  unfoldable pub dir_readdir : FileSys → Dir → Outcome (FileSys × Dir × Option (List ℕ))
  unfolding readdir_from inode_of
  dir_readdir s dir = do i ← inode_of s dir.sector; readdir_from (i.disk.length + 1) s dir
