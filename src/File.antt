-- ===== src/File.antt =====
-- Open files, filesys/file.c of project5, over the open inodes. A file is the sector of its inode,
-- a position and whether it denies writes; none is NULL. Whether calloc finds room is a parameter.
pub mod Trips
pub mod Denied
mod Tests
use os_pintos.Common.{
  ℕ, ◌+◌, List, Bool, true, false, Option, none, some, Outcome, ok, panic, ◌>>=◌, length,
  if◌then◌else◌,
}
use os_pintos.Common.Int.{ℤ, pos, negsuc}
use os_pintos.Inode.{inode_reopen, inode_deny_write, inode_allow_write}
use os_pintos.Dir.{FileSys, Env, inode_of, put_inode, read_inode, write_inode, close_inode}

pub record File : Type 0 where
  pub sector : ℕ
  pub pos : ℕ
  pub deny_write : Bool

unfoldable pub file_deny_write : FileSys → File → Outcome (FileSys × File)
unfolding inode_of inode_deny_write
file_deny_write s f = if f.deny_write then ok (s, f) else (do
  i ← inode_of s f.sector
  j ← inode_deny_write i
  ok (
    record s { open_inodes = put_inode s.open_inodes f.sector j },
    record f { deny_write = true },
  ))

unfoldable pub file_allow_write : FileSys → File → Outcome (FileSys × File)
unfolding inode_of inode_allow_write
file_allow_write s f =
    if f.deny_write
    then (do
      i ← inode_of s f.sector
      j ← inode_allow_write i
      ok (
        record s { open_inodes = put_inode s.open_inodes f.sector j },
        record f { deny_write = false },
      ))
    else ok (s, f)

abbrev pub file_get_inode : File → ℕ
file_get_inode f = f.sector

unfoldable pub file_length : FileSys → File → Outcome ℕ
unfolding inode_of
file_length s f = do i ← inode_of s f.sector; ok i.disk.length

-- The position is an off_t, which may be negative.
abbrev pub file_seek : File → ℤ → Outcome File
file_seek f (pos n) = ok (record f { pos = n })
file_seek f (negsuc n) = panic

abbrev pub file_tell : File → ℕ
file_tell f = f.pos

module _ (env : Env) where
  unfoldable pub file_open : FileSys → Option ℕ → Outcome (FileSys × Option File)
  unfolding close_inode
  file_open s none = ok (s, none)
  file_open s (some sector) =
      if env.room
      then ok (s, some (record { sector = sector; pos = 0; deny_write = false }))
      else (do s1 ← close_inode env s sector; ok (s1, none))

  unfoldable pub file_reopen : FileSys → File → Outcome (FileSys × Option File)
  unfolding file_open inode_of
  file_reopen s f = do
    i ← inode_of s f.sector
    file_open (record s { open_inodes = put_inode s.open_inodes f.sector (inode_reopen i) })
        (some f.sector)

  unfoldable pub file_close : FileSys → Option File → Outcome FileSys
  unfolding file_allow_write close_inode
  file_close s none = ok s
  file_close s (some f) = do (s1, f1) ← file_allow_write s f; close_inode env s1 f1.sector

  -- The bytes read; their number is the result of the call.
  unfoldable pub file_read_at : FileSys → File → ℕ → ℕ → Outcome (FileSys × List ℕ)
  unfolding read_inode
  file_read_at s f size file_ofs = read_inode env s f.sector size file_ofs

  unfoldable pub file_read : FileSys → File → ℕ → Outcome (FileSys × File × List ℕ)
  unfolding read_inode
  file_read s f size = do
    (s1, bytes) ← read_inode env s f.sector size f.pos
    ok (s1, record f { pos = f.pos + length bytes }, bytes)

  unfoldable pub file_write_at : FileSys → File → List ℕ → ℕ → ℕ → Outcome (FileSys × ℕ)
  unfolding write_inode
  file_write_at s f buffer size file_ofs = write_inode env s f.sector buffer size file_ofs

  unfoldable pub file_write : FileSys → File → List ℕ → ℕ → Outcome (FileSys × File × ℕ)
  unfolding write_inode
  file_write s f buffer size = do
    (s1, n) ← write_inode env s f.sector buffer size f.pos
    ok (s1, record f { pos = f.pos + n }, n)
