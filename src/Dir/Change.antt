-- ===== src/Dir/Change.antt =====
-- The routines of directory.c that change directories, and paths.
use os_pintos.Common.{
  ℕ, zero, suc, ◌+◌, ◌*◌, List, [], ◌∷◌, ◌++◌, Bool, true, false, not, ◌&&◌, ◌||◌, Option, none,
  some, Outcome, ok, ◌>>=◌, ◌==◌, ltb, length, if◌then◌else◌,
}
use os_pintos.Inode.{inode_remove}
use os_pintos.Inode.Write.{overwrite}
use os_pintos.Inode.Growth.{word_bytes, inode_create}
use os_pintos.Dir.{
  name_max, entry_size, inode_sector, in_use, FileSys, Dir, Env, put_inode, inode_of, read_inode,
  write_inode, open_inode, close_inode, dir_open, dir_close, lookup, dir_lookup, dir_empty,
}

-- The entry that dir_add writes over what it read last: strlcpy copies the name and its zero.
abbrev pub new_entry : List ℕ → List ℕ → ℕ → List ℕ
new_entry e name sector =
    overwrite (overwrite (overwrite e 19 (1 ∷ [])) 4 (name ++ (0 ∷ []))) 0 (word_bytes sector)

module _ (env : Env) where
  -- dir_create; `garbage` is what the stack holds in place of the entry.
  unfoldable pub dir_create : List ℕ → FileSys → ℕ → ℕ → Outcome (FileSys × Bool)
  unfolding inode_create open_inode dir_open dir_close write_inode
  dir_create garbage s sector entry_cnt = do
    (d, created) ← inode_create env.allocate env.room s.disk sector (entry_cnt * entry_size) true
    let s1 = record s { disk = d }
    if not created then ok (s1, false) else (do
      (s2, i) ← open_inode env s1 sector
      (s3, r) ← dir_open env s2 i
      elim r [
        | none ↦ ok (s3, false)
        | some dir ↦ do
          (s4, n) ←
              write_inode env s3 dir.sector (overwrite garbage 0 (word_bytes sector)) entry_size 0
          s5 ← dir_close env s4 dir
          ok (s5, n == entry_size)
      ])

  -- The search of dir_add for an entry that is not in use, or the end; with the entry it read last.
  unfoldable pub free_slot : ℕ → FileSys → ℕ → List ℕ → ℕ → Outcome (FileSys × List ℕ × ℕ)
  unfolding read_inode
  free_slot zero s sector e ofs = ok (s, e, ofs)
  free_slot (suc n) s sector e ofs = do
    (s1, bytes) ← read_inode env s sector entry_size ofs
    let e1 = overwrite e 0 bytes
    if length bytes == entry_size && in_use e1
        then free_slot n s1 sector e1 (ofs + entry_size)
        else ok (s1, e1, ofs)

  unfoldable pub fill_slot : FileSys → Dir → List ℕ → ℕ → List ℕ → Outcome (FileSys × Bool)
  unfolding free_slot write_inode inode_of
  fill_slot s dir name sector e = do
    i ← inode_of s dir.sector
    (s1, e1, ofs) ← free_slot (i.disk.length + 1) s dir.sector e 0
    (s2, n) ← write_inode env s1 dir.sector (new_entry e1 name sector) entry_size ofs
    ok (s2, n == entry_size)

  -- The parent's entry of a new directory.
  unfoldable pub set_parent : List ℕ → FileSys → Dir → ℕ → Outcome (FileSys × Bool)
  unfolding open_inode dir_open dir_close write_inode
  set_parent e s dir sector = do
    (s1, i) ← open_inode env s sector
    (s2, r) ← dir_open env s1 i
    elim r [
      | none ↦ ok (s2, false)
      | some child ↦ do
        (s3, n) ← write_inode env s2 child.sector e entry_size 0
        s4 ← dir_close env s3 child
        ok (s4, n == entry_size)
    ]

  unfoldable pub dir_add : List ℕ → FileSys → Dir → List ℕ → ℕ → Bool → Outcome (FileSys × Bool)
  unfolding lookup fill_slot set_parent
  dir_add garbage s dir name sector is_dir =
      if length name == 0 || ltb name_max (length name) then ok (s, false) else (do
        (s1, r) ← lookup env s dir name
        elim r [
          | some _ ↦ ok (s1, false)
          | none ↦
              if is_dir
              then (do
                let e = overwrite garbage 0 (word_bytes dir.sector)
                (s2, done) ← set_parent e s1 dir sector
                if done then fill_slot s2 dir name sector e else ok (s2, false))
              else fill_slot s1 dir name sector garbage
        ])

  -- Whether dir_remove may go on: not with a directory that has entries. The check closes the
  -- inode that dir_remove opened.
  unfoldable pub may_remove : FileSys → ℕ → Outcome (FileSys × Bool)
  unfolding inode_of dir_open dir_empty dir_close
  may_remove s sector = do
    i ← inode_of s sector
    if i.disk.is_dir
        then (do
          (s1, r) ← dir_open env s (some sector)
          elim r [
            | none ↦ Outcome.panic
            | some d ↦ do (s2, empty) ← dir_empty env s1 d; s3 ← dir_close env s2 d; ok (s3, empty)
          ])
        else ok (s, true)

  unfoldable pub dir_remove : FileSys → Dir → List ℕ → Outcome (FileSys × Bool)
  unfolding lookup open_inode may_remove write_inode inode_of close_inode
  dir_remove s dir name = do
    (s1, r) ← lookup env s dir name
    elim r [
      | none ↦ ok (s1, false)
      | some (e, ofs) ↦ do
        let sector = inode_sector e
        (s2, o) ← open_inode env s1 sector
        elim o [
          | none ↦ ok (s2, false)
          | some _ ↦ do
            (s3, allowed) ← may_remove s2 sector
            if not allowed then (do s4 ← close_inode env s3 sector; ok (s4, false)) else (do
              (s4, n) ← write_inode env s3 dir.sector (overwrite e 19 (0 ∷ [])) entry_size ofs
              if not (n == entry_size)
                  then (do s5 ← close_inode env s4 sector; ok (s5, false))
                  else (do
                    i ← inode_of s4 sector
                    let l = put_inode s4.open_inodes sector (inode_remove i)
                    s5 ← close_inode env (record s4 { open_inodes = l }) sector
                    ok (s5, true)))
        ]
    ]

  -- The loop of make_path over the parts of the path that strtok_r gives.
  unfoldable pub walk : List (List ℕ) → FileSys → Dir → Outcome (FileSys × Option Dir)
  unfolding dir_lookup dir_open dir_close
  walk [] s dir = ok (s, some dir)
  walk (chunk ∷ chunks) s dir = do
    (s1, r) ← dir_lookup env s dir chunk
    elim r [
      | none ↦ do s2 ← dir_close env s1 dir; ok (s2, none)
      | some sector ↦ do
        (s2, next) ← dir_open env s1 (some sector)
        s3 ← dir_close env s2 dir
        elim next [ none ↦ ok (s3, none) | some d ↦ walk chunks s3 d ]
    ]
