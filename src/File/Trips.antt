-- ===== src/File/Trips.antt =====
-- What is written through an open file is read back through it.
use os_pintos.Common.{ℕ, ◌+◌, ◌≡◌, ◌≤◌, ◌<◌, refl, ◌∙◌, ap, List, true, ok, length}
use os_pintos.Common.Int.{pos}
use os_pintos.Inode.{Inode}
use os_pintos.Inode.Trips.{read_at-write_at}
use os_pintos.Dir.{FileSys, Env, read_inode, write_inode}
use os_pintos.Dir.Find.{with_cache, IsDir, inode_of_open, read_step}
use os_pintos.Dir.Add.{IsOwned, put_same, write_step}
use os_pintos.File.{File, file_seek, file_read, file_write}

module _ (env : Env) where
  file_write_step :
      (s s1 : FileSys) (f : File) (b : List ℕ) (size n : ℕ)
      → write_inode env s f.sector b size f.pos ≡ ok (s1, n)
      → file_write env s f b size ≡ ok (s1, record f { pos = f.pos + n }, n)
  unfolding file_write
  file_write_step s s1 f b size n e = rw e refl

  file_read_step :
      (s s1 : FileSys) (f : File) (b : List ℕ) (size : ℕ)
      → read_inode env s f.sector size f.pos ≡ ok (s1, b)
      → file_read env s f size ≡ ok (s1, record f { pos = f.pos + length b }, b)
  unfolding file_read
  file_read_step s s1 f b size e = rw e refl

-- What file_write wrote, within the length of a file whose inode is open and not denied writes,
-- whose sectors are on the device, different from each other and from those of its index, is what
-- file_read returns after file_seek to where it began; both advance the position by all the bytes.
pub file_read-file_write :
    (env : Env)
    → env.room ≡ true
    → (s : FileSys) (f : File) (i : Inode) (buffer : List ℕ) (size : ℕ) → IsDir s f.sector i
    → IsOwned s i
    → length buffer ≡ size
    → 0 < size
    → f.pos + size ≤ i.disk.length
    → (s1 s2 : FileSys) × (f1 : File) × (file_write env s f buffer size ≡ ok (s1, f1, size))
      × (f1.pos ≡ f.pos + size)
      × (file_seek f1 (pos f.pos) ≡ ok f)
      × (file_read env s1 f size ≡ ok (s2, f1, buffer))
file_read-file_write env room s f i buffer size h o l z q =
    let (c1, c2, e1, e2) =
      read_at-write_at env.allocate s.disk i buffer size f.pos h.ready h.file o.writable o.small
        o.allowed l z q in
    let open1 = inode_of_open s f.sector i h.opened in
    let s1 = with_cache s c1 in
    let open2 = inode_of_open s1 f.sector i h.opened in
    let p = put_same s.open_inodes f.sector i h.opened in
    let w = write_step env room s f.sector i buffer size f.pos s1.disk open1 e1 p in
    let r = read_step env room s1 f.sector size f.pos i c2 buffer open2 e2 in
    let f1 = record f { pos = f.pos + size } in
    (
      s1,
      with_cache s c2,
      f1,
      file_write_step env s s1 f buffer size size w,
      refl,
      refl,
      file_read_step env s1 (with_cache s c2) f buffer size r
          ∙ ap (λ n. ok (with_cache s c2, record f { pos = f.pos + n }, buffer)) l,
    )
