-- ===== src/Filesys.antt =====
-- The file system by paths, filesys/filesys.c and make_path of filesys/directory.c of project5. The
-- directory of the running thread is an argument, none where it has none. What the arrays and
-- structs on the stack hold before they are written is an argument: `before` for the first
-- characters of d_token, `garbage` for an entry.
pub mod Open
mod Tests
use os_pintos.Common.{
  ℕ, List, [], ◌∷◌, Bool, true, false, not, ◌&&◌, Option, none, some, Outcome, ok, panic, ◌>>=◌,
  ◌==◌, if◌then◌else◌,
}
use os_pintos.Inode.Growth.{inode_create}
use os_pintos.Dir.{FileSys, Dir, Env, inode_of, dir_open_root, dir_reopen, dir_close, dir_lookup}
use os_pintos.Dir.Change.{dir_add, dir_remove, walk}
use os_pintos.File.{File, file_open}
use os_pintos.Paths.{tokens, starts_with_slash, is_empty, divide_fn}

-- dir_close, which does nothing with NULL.
abbrev pub close_dir : Env → FileSys → Option Dir → Outcome FileSys
close_dir env s none = ok s
close_dir env s (some d) = dir_close env s d

module _ (env : Env) (cwd : Option Dir) where
  unfoldable pub start_dir : FileSys → List ℕ → Outcome (FileSys × Option Dir)
  unfolding dir_open_root dir_reopen
  start_dir s path =
      if starts_with_slash path
      then dir_open_root env s
      else elim cwd [ none ↦ dir_open_root env s | some d ↦ dir_reopen env s d ]

  -- make_path: a start that is NULL is dereferenced.
  unfoldable pub make_path : FileSys → List ℕ → Outcome (FileSys × Option Dir)
  unfolding start_dir walk inode_of dir_close
  make_path s path = do
    (s1, start) ← start_dir s path
    elim start [
      | none ↦ panic
      | some d ↦ do
        (s2, r) ← walk env (tokens path) s1 d
        elim r [
          | none ↦ ok (s2, none)
          | some e ↦ do
            i ← inode_of s2 e.sector
            if i.removed then (do s3 ← dir_close env s2 e; ok (s3, none)) else ok (s2, some e)
        ]
    ]

  -- The inode that filesys_open finds: that of the directory itself for a path without parts.
  unfoldable pub find_file : FileSys → Dir → List ℕ → Outcome (FileSys × Option ℕ)
  unfolding dir_lookup dir_close
  find_file s dir name =
      if is_empty name
      then ok (s, some dir.sector)
      else (do (s1, r) ← dir_lookup env s dir name; s2 ← dir_close env s1 dir; ok (s2, r))

  unfoldable pub filesys_open : List ℕ → FileSys → List ℕ → Outcome (FileSys × Option File)
  unfolding make_path find_file inode_of file_open
  filesys_open before s name = if is_empty name then ok (s, none) else (do
    let parts = divide_fn before name
    (s1, dir) ← make_path s parts.0
    elim dir [
      | none ↦ ok (s1, none)
      | some d ↦ do
        (s2, r) ← find_file s1 d parts.1
        elim r [
          | none ↦ ok (s2, none)
          | some sector ↦ do
            i ← inode_of s2 sector
            if i.removed then ok (s2, none) else file_open env s2 (some sector)
        ]
    ])

  -- The condition of filesys_create, from free_map_allocate on: the sector, 0 where there is none,
  -- and whether it holds.
  unfoldable pub make_file :
      List ℕ → FileSys → Dir → List ℕ → ℕ → Bool → Outcome (FileSys × ℕ × Bool)
  unfolding inode_create dir_add
  make_file garbage s dir name initial_size is_dir = do
    (d1, r) ← env.allocate s.disk
    let s1 = record s { disk = d1 }
    elim r [
      | none ↦ ok (s1, 0, false)
      | some sector ↦ do
        (d2, created) ← inode_create env.allocate env.room d1 sector initial_size is_dir
        let s2 = record s1 { disk = d2 }
        if created
            then (do
              (s3, added) ← dir_add env garbage s2 dir name sector is_dir
              ok (s3, sector, added))
            else ok (s2, sector, false)
    ]

  -- The arrays are taken to be long enough (they are one too short for a path without a slash).
  unfoldable pub filesys_create :
      List ℕ → List ℕ → FileSys → List ℕ → ℕ → Bool → Outcome (FileSys × Bool)
  unfolding make_path make_file
  filesys_create before garbage s path initial_size is_dir = do
    let parts = divide_fn before path
    (s1, dir) ← make_path s parts.0
    elim dir [
      | none ↦ ok (s1, false)
      | some d ↦ do
        (s2, sector, success) ← make_file garbage s1 d parts.1 initial_size is_dir
        disk ← if not success && not (sector == 0) then env.free s2.disk sector else ok s2.disk
        s3 ← dir_close env (record s2 { disk = disk }) d
        ok (s3, success)
    ]

  unfoldable pub filesys_remove : List ℕ → FileSys → List ℕ → Outcome (FileSys × Bool)
  unfolding make_path dir_remove
  filesys_remove before s name = if is_empty name then ok (s, false) else (do
    let parts = divide_fn before name
    (s1, dir) ← make_path s parts.0
    elim dir [
      | none ↦ ok (s1, false)
      | some d ↦ do
        (s2, success) ← dir_remove env s1 d parts.1
        s3 ← dir_close env s2 d
        ok (s3, success)
    ])

  -- The new directory of the thread, with whether it changed.
  unfoldable pub filesys_chdir : FileSys → List ℕ → Outcome (FileSys × Option Dir × Bool)
  unfolding make_path
  filesys_chdir s name = do
    (s1, dir) ← make_path s name
    elim dir [
      | none ↦ ok (s1, cwd, false)
      | some d ↦ do s2 ← close_dir env s1 cwd; ok (s2, some d, true)
    ]
