-- ===== src/Inode/Trips.antt =====
-- inode_write_at within the length of a file, and inode_read_at after it.
use mathlib.Core.Path.{subst}
use os_pintos.Common.{
  ℕ, zero, suc, ◌+◌, ◌-◌, ◌/◌, ◌^◌, ◌≤◌, ◌<◌, ◌≡◌, refl, sym, ◌∙◌, ap, List, [], ◌∷◌, ◌&&◌, true,
  false, Option, Outcome, ok, arith, ◌==◌, ltb, leb, length, take,
}
use os_pintos.Cache.{Cache}
use os_pintos.Cache.Invariant.{view}
use os_pintos.Cache.Refine.{IsReady}
use os_pintos.Inode.{InodeDisk, Inode, sector_size, nth, smaller, inode_read_at}
use os_pintos.Inode.Index.{sector_at, Same}
use os_pintos.Inode.Bytes.{byte_at, bytes_from, IsFile}
use os_pintos.Inode.Read.{contents, sector_lem, read_at_lem}
use os_pintos.Inode.Put.{overlay, IsWritable, Wrote}
use os_pintos.Inode.Written.{IsFile-Wrote}
use os_pintos.Inode.Store.{fits, Stored, write_loop_lem}
use os_pintos.Inode.Write.{write_loop}
use os_pintos.Inode.Growth.{Disk, past_end_test, inode_write_at}

take_all : (l : List ℕ) (n : ℕ) → length l ≤ n → take n l ≡ l
take_all [] zero h = refl
take_all [] (suc n) h = refl
take_all (x ∷ l) zero h = absurd (omega (arith, h))
take_all (x ∷ l) (suc n) h = ap (λ r. x ∷ r) (take_all l n (omega (arith, h)))

-- The file does not have to grow: its last sector is known.
no_growth :
    (c : Cache) (d : InodeDisk) (len : ℕ)
    → IsReady c
    → IsFile (view c) c.device.size d
    → c.device.size < 2 ^ 32
    → 0 < len
    → len ≤ d.length
    → (c1 : Cache) × (past_end_test true c d len ≡ ok (c1, false)) × Same c c1
unfolding past_end_test
no_growth c d len r i small z h =
    let (c1, e, s) = sector_lem c d (len - 1) r i (omega (arith, z, h)) in
    let on = i.on_device ((len - 1) / sector_size) (omega (arith, z, h)) in
    let ne : (sector_at (view c) d ((len - 1) / sector_size) == 2 ^ 32 - 1) ≡ false =
      ground (arith, on, small) in
    let nz : len == 0 ≡ false = ground (arith, z) in (c1, rw (nz, e, ne) refl, s)

-- What a write after calls that only read stores.
Stored-Same :
    (c c1 c2 : Cache) (d : InodeDisk) (offset : ℕ) (b : List ℕ)
    → Same c c1
    → Stored c1 c2 d offset b
    → Stored c c2 d offset b
Stored-Same c c1 c2 d offset b s t = record {
  ready = record { ready = t.ready.ready; size = t.ready.size ∙ s.ready.size };
  wrote = subst (λ f. Wrote f (view c2) d offset b) s.contents t.wrote;
}

module _ (allocate : Disk → Outcome (Disk × Option ℕ)) where
  -- inode_write_at of some bytes within the length of a file to which writes are not denied, whose
  -- sectors are on a device of less than 2 ^ 32 sectors, different from each other and from those
  -- of its index, with room for the bounce buffer, writes them all: the file has them from the
  -- position on, elsewhere what it had, and no other sector changes.
  pub write_at_lem :
      (s : Disk) (i : Inode) (buffer : List ℕ) (size offset : ℕ)
      → IsReady s.cache
      → IsFile (view s.cache) s.cache.device.size i.disk
      → IsWritable (view s.cache) i.disk
      → s.cache.device.size < 2 ^ 32
      → i.deny_write_cnt ≡ 0
      → length buffer ≡ size
      → 0 < size
      → offset + size ≤ i.disk.length
      → (c' : Cache) × (inode_write_at allocate true s i buffer size offset
          ≡ ok (record s { cache = c' }, i, size))
        × Stored s.cache c' i.disk offset buffer
  unfolding inode_write_at
  write_at_lem s i buffer size offset r f w small deny l z h =
      let c = s.cache in
      let d = i.disk in
      let (c1, e1, s1) = no_growth c d (offset + size) r f small (omega (arith, z)) h in
      let f1 =
        subst (λ g. IsFile g c1.device.size d) (sym s1.contents)
          (subst (λ n. IsFile (view c) n d) (sym s1.ready.size) f) in
      let w1 = subst (λ g. IsWritable g d) (sym s1.contents) w in
      let (c2, e2, t) = write_loop_lem c1 d buffer size offset s1.ready.ready f1 w1 l in
      let k : fits d size offset ≡ size = ground (arith, h) in
      let all : take (fits d size offset) buffer ≡ buffer =
        take_all buffer (fits d size offset) (omega (arith, k, l)) in
      let e : write_loop size true c1 d buffer size offset ≡ ok (c2, size) =
        subst (λ n. write_loop size true c1 d buffer size offset ≡ ok (c2, n)) k e2 in
      let t2 = subst (Stored c1 c2 d offset) all t in
      let allowed : ltb 0 i.deny_write_cnt ≡ false = ground (arith, deny) in
      (c2, rw (allowed, e1, e) refl, Stored-Same c c1 c2 d offset buffer s1 t2)

pub bytes_from_list :
    (g : ℕ → ℕ) (pos : ℕ) (b : List ℕ)
    → ((j : ℕ) → j < length b → g (pos + j) ≡ nth b j)
    → bytes_from g pos (length b) ≡ b
unfolding bytes_from
bytes_from_list g pos [] h = refl
bytes_from_list g pos (x ∷ b) h =
    let a : g pos ≡ x = ground (arith, h 0 (omega arith)) in
    let e = bytes_from_list g (pos + 1) b (λ j q. ground (arith, h (suc j) (omega (arith, q)))) in
    rw (a, e) refl

module _ (allocate : Disk → Outcome (Disk × Option ℕ)) where
  -- What inode_write_at wrote within a file, on the same conditions, is what inode_read_at returns
  -- at the same position.
  pub read_at-write_at :
      (s : Disk) (i : Inode) (buffer : List ℕ) (size offset : ℕ)
      → IsReady s.cache
      → IsFile (view s.cache) s.cache.device.size i.disk
      → IsWritable (view s.cache) i.disk
      → s.cache.device.size < 2 ^ 32
      → i.deny_write_cnt ≡ 0
      → length buffer ≡ size
      → 0 < size
      → offset + size ≤ i.disk.length
      → (c1 c2 : Cache) × (inode_write_at allocate true s i buffer size offset
          ≡ ok (record s { cache = c1 }, i, size))
        × (inode_read_at true c1 i size offset ≡ ok (c2, buffer))
  read_at-write_at s i buffer size offset r f w small deny l z h =
      let d = i.disk in
      let (c1, e1, t) = write_at_lem allocate s i buffer size offset r f w small deny l z h in
      let f1 =
        subst (λ n. IsFile (view c1) n d) (sym t.ready.size)
          (IsFile-Wrote (view s.cache) (view c1) s.cache.device.size d offset buffer t.wrote f) in
      let (c2, e2, _) = read_at_lem c1 i size offset t.ready.ready f1 in
      let k : smaller size (d.length - offset) ≡ length buffer = ground (arith, h, l) in
      let e : contents c1 d size offset ≡ buffer =
        ap (bytes_from (byte_at (view c1) d) offset) k
        ∙ bytes_from_list (byte_at (view c1) d) offset buffer (λ j q.
          t.wrote.bytes (offset + j) (omega (arith, h, l, q))
          ∙ within offset buffer (byte_at (view s.cache) d) j q) in
      (c1, c2, e1, e2 ∙ ap (λ b. ok (c2, b)) e)
    where
      within :
          (offset : ℕ) (b : List ℕ) (g : ℕ → ℕ) (j : ℕ)
          → j < length b
          → overlay offset b g (offset + j) ≡ nth b j
      within offset b g j q =
          let y : (leb offset (offset + j) && ltb (offset + j) (offset + length b)) ≡ true =
            ground (arith, q) in
          let m : offset + j - offset ≡ j = omega arith in rw (y, m) refl
