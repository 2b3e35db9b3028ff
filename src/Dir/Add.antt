-- ===== src/Dir/Add.antt =====
-- dir_add of a file into a directory that has an entry free.
use mathlib.Core.Path.{subst}
use os_pintos.Common.{
  ℕ, ◌+◌, ◌*◌, ◌^◌, ◌≤◌, ◌<◌, ◌≡◌, ◌≢◌, refl, sym, ◌∙◌, ap, List, [], ◌∷◌, ◌&&◌, true, some, ok,
  arith, ◌==◌, length, inl, inr, Bool-cases,
}
use os_pintos.Cache.{Cache}
use os_pintos.Cache.Invariant.{view}
use os_pintos.Inode.{Inode}
use os_pintos.Inode.Bytes.{byte_at, IsFile}
use os_pintos.Inode.Put.{IsWritable}
use os_pintos.Inode.Written.{IsFile-Wrote, IsWritable-Wrote}
use os_pintos.Inode.Store.{Stored}
use os_pintos.Inode.Growth.{Disk, inode_write_at}
use os_pintos.Inode.Trips.{write_at_lem}
use os_pintos.Dir.{
  entry_size, inode_sector, entry_name, in_use, same_name, FileSys, Dir, Env, find_inode, put_inode,
  inode_of, write_inode,
}
use os_pintos.Dir.Find.{entry_at, is_entry_of, with_cache, IsDir, inode_of_open}
use os_pintos.Dir.Entries.{entry_replaced, entry_kept}
use os_pintos.Dir.Fields.{
  length-new_entry, in_use-new_entry, inode_sector-new_entry, same_name-new_entry,
}
use os_pintos.Dir.Change.{new_entry}

pub put_same :
    (l : List Inode) (sector : ℕ) (i : Inode)
    → find_inode l sector ≡ some i
    → put_inode l sector i ≡ l
put_same [] sector i h = refl
put_same (j ∷ l) sector i h = elim (Bool-cases (j.sector == sector)) [
  | inl y ↦
      let e : some j ≡ some i = rw y at h in rw y (ap (λ k. k ∷ l) (sym (some-injective j i e)))
  | inr n ↦
      let e : find_inode l sector ≡ some i = rw n at h in
      rw n (ap (λ k. j ∷ k) (put_same l sector i e))
]
  where
    some-injective : (a b : Inode) → some a ≡ some b → a ≡ b
    some-injective a b e = cc

-- A directory whose entries may be written.
pub record IsOwned (s : FileSys) (i : Inode) : Type 0 where
  pub writable : IsWritable (view s.disk.cache) i.disk
  pub small : s.disk.cache.device.size < 2 ^ 32
  pub allowed : i.deny_write_cnt ≡ 0

-- What dir_add leaves.
pub record Added (s s' : FileSys) (dir : Dir) (i : Inode) (name : List ℕ) (sector k : ℕ)
    : Type 0 where
  pub dir_file : IsDir s' dir.sector i
  pub owned : IsOwned s' i
  pub behind : 0 < k
  pub inside : entry_size * k + entry_size ≤ i.disk.length
  pub named : is_entry_of (byte_at (view s'.disk.cache) i.disk) name (entry_size * k) ≡ true
  pub sector_of :
      sector < 2 ^ 32
      → inode_sector (entry_at (byte_at (view s'.disk.cache) i.disk) (entry_size * k)) ≡ sector
  pub others :
      (j : ℕ)
      → j ≢ k
      → entry_size * j + entry_size ≤ i.disk.length
      → entry_at (byte_at (view s'.disk.cache) i.disk) (entry_size * j)
        ≡ entry_at (byte_at (view s.disk.cache) i.disk) (entry_size * j)

module _ (env : Env) (room : env.room ≡ true) where
  pub write_step :
      (s : FileSys) (sector : ℕ) (i : Inode) (b : List ℕ) (size ofs : ℕ) (d : Disk)
      → inode_of s sector ≡ ok i
      → inode_write_at env.allocate true s.disk i b size ofs ≡ ok (d, i, size)
      → put_inode s.open_inodes sector i ≡ s.open_inodes
      → write_inode env s sector b size ofs ≡ ok (record s { disk = d }, size)
  unfolding write_inode
  write_step s sector i b size ofs d o e p = rw (o, room, e, p) refl

  -- A write of an entry within the directory.
  pub writing_entry :
      (s : FileSys) (sector : ℕ) (i : Inode) (b : List ℕ) (ofs : ℕ)
      → IsDir s sector i
      → IsOwned s i
      → length b ≡ entry_size
      → ofs + entry_size ≤ i.disk.length
      → (c : Cache) × (write_inode env s sector b entry_size ofs ≡ ok (with_cache s c, entry_size))
        × Stored s.disk.cache c i.disk ofs b
  writing_entry s sector i b ofs h o l q =
      let (c, e, t) =
        write_at_lem env.allocate s.disk i b entry_size ofs h.ready h.file o.writable o.small
          o.allowed l (omega arith) q in
      let p = put_same s.open_inodes sector i h.opened in
      let found = inode_of_open s sector i h.opened in
      (c, write_step s sector i b entry_size ofs (record s.disk { cache = c }) found e p, t)

  IsDir-Stored :
      (s : FileSys) (sector : ℕ) (i : Inode) (c : Cache) (ofs : ℕ) (b : List ℕ)
      → IsDir s sector i
      → IsOwned s i
      → Stored s.disk.cache c i.disk ofs b
      → IsDir (with_cache s c) sector i × IsOwned (with_cache s c) i
  IsDir-Stored s sector i c ofs b h o t =
      let v = view s.disk.cache in
      (
        record {
          ready = t.ready.ready;
          opened = h.opened;
          file =
              subst (λ n. IsFile (view c) n i.disk) (sym t.ready.size)
                (IsFile-Wrote v (view c) s.disk.cache.device.size i.disk ofs b t.wrote h.file);
        },
        record {
          writable = IsWritable-Wrote v (view c) i.disk ofs b t.wrote o.writable;
          small = subst (λ n. n < 2 ^ 32) (sym t.ready.size) o.small;
          allowed = o.allowed;
        },
      )

  pub Added-of :
      (s : FileSys) (dir : Dir) (i : Inode) (name e : List ℕ) (sector k : ℕ) (c : Cache)
      → IsDir s dir.sector i
      → IsOwned s i
      → Stored s.disk.cache c i.disk (entry_size * k) (new_entry e name sector)
      → length e ≡ entry_size
      → length name ≤ 14
      → entry_size * k + entry_size ≤ i.disk.length
      → 0 < k
      → Added s (with_cache s c) dir i name sector k
  Added-of s dir i name e sector k c h o t l n q z =
      let (h1, o1) =
        IsDir-Stored s dir.sector i c (entry_size * k) (new_entry e name sector) h o t in
      let size = length-new_entry e name sector l n in
      let v = view s.disk.cache in
      let here : entry_at (byte_at (view c) i.disk) (entry_size * k) ≡ new_entry e name sector =
        entry_replaced v (view c) i.disk (entry_size * k) (new_entry e name sector) t.wrote size
          q in
      record {
        dir_file = h1;
        owned = o1;
        behind = z;
        inside = q;
        named =
            ap (λ x. in_use x && same_name name (entry_name x)) here
            ∙ ground
                (arith, in_use-new_entry e name sector l n, same_name-new_entry e name sector l n);
        sector_of = λ p. ap inode_sector here ∙ inode_sector-new_entry e name sector l n p;
        others = λ j ne p.
            entry_kept v (view c) i.disk (entry_size * k) (entry_size * j) (new_entry e name sector)
              t.wrote size (omega (arith, ne)) p;
      }
