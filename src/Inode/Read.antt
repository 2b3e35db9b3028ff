-- ===== src/Inode/Read.antt =====
-- inode_read_at returns the bytes of the file.
use mathlib.Core.Path.{subst}
use os_pintos.Common.{
  ℕ, zero, suc, ◌+◌, ◌-◌, ◌/◌, ◌%◌, ◌≤◌, ◌<◌, ◌≡◌, refl, sym, ◌∙◌, ap, List, [], ◌++◌, true, false,
  some, ok, arith, ◌==◌, ltb, lt→ltb, inl, inr, Bool-cases,
}
use os_pintos.Block.{Sector}
use os_pintos.Cache.{Cache}
use os_pintos.Cache.Invariant.{view}
use os_pintos.Cache.Refine.{IsReady}
use os_pintos.Inode.{
  InodeDisk, Inode, sector_size, byte_to_sector, smaller, chunk, read_chunk, read_loop,
  inode_read_at,
}
use os_pintos.Inode.Index.{sector_at, Same, reading_after, Same-trans, Same-refl, sector_number_lem}
use os_pintos.Inode.Bytes.{byte_at, bytes_from, IsFile, copied_lem, bytes-append}

pub IsFile-Same :
    (c c' : Cache) (d : InodeDisk)
    → Same c c'
    → IsFile (view c) c.device.size d
    → IsFile (view c') c'.device.size d
IsFile-Same c c' d s i =
    subst (λ f. IsFile f c'.device.size d) (sym s.contents)
      (subst (λ n. IsFile (view c) n d) (sym s.ready.size) i)

-- What a call reads.
abbrev pub contents : Cache → InodeDisk → ℕ → ℕ → List ℕ
contents c d size offset = bytes_from (byte_at (view c) d) offset (smaller size (d.length - offset))

nothing :
    (c : Cache) (d : InodeDisk) (size offset : ℕ)
    → smaller size (d.length - offset) ≡ 0
    → contents c d size offset ≡ []
unfolding bytes_from
nothing c d size offset h = ap (bytes_from (byte_at (view c) d) offset) h

joined :
    (c c2 : Cache) (d : InodeDisk) (size offset k : ℕ)
    → view c2 ≡ view c
    → k + smaller (size - k) (d.length - (offset + k)) ≡ smaller size (d.length - offset)
    → bytes_from (byte_at (view c) d) offset k ++ contents c2 d (size - k) (offset + k)
      ≡ contents c d size offset
joined c c2 d size offset k v h =
    let g = byte_at (view c) d in
    let n = smaller (size - k) (d.length - (offset + k)) in
    let e : contents c2 d (size - k) (offset + k) ≡ bytes_from g (offset + k) n =
      ap (λ (f : ℕ → Sector). bytes_from (byte_at f d) (offset + k) n) v in
    ap (λ l. bytes_from g offset k ++ l) e ∙ bytes-append g offset k n ∙ ap (bytes_from g offset) h

loop_step :
    (n : ℕ) (c : Cache) (d : InodeDisk) (size offset : ℕ) (c1 c2 c3 : Cache) (sec : ℕ)
    (bytes rest all : List ℕ)
    → size == 0 ≡ false
    → byte_to_sector true c d offset ≡ ok (c1, sec)
    → chunk d.length size offset == 0 ≡ false
    → read_chunk true c1 sec (offset % sector_size) (chunk d.length size offset)
      ≡ ok (some (c2, bytes))
    → read_loop n true c2 d
        (size - chunk d.length size offset)
        (offset + chunk d.length size offset)
      ≡ ok (c3, rest)
    → bytes ++ rest ≡ all
    → read_loop (suc n) true c d size offset ≡ ok (c3, all)
unfolding read_loop
loop_step n c d size offset c1 c2 c3 sec bytes rest all z e1 k e2 e3 e4 =
    rw (z, e1, k, e2, e3) (ap (λ (l : List ℕ). ok (c3, l)) e4)

-- A file's sector by position, and the part of it that a round copies.
pub sector_lem :
    (c : Cache) (d : InodeDisk) (offset : ℕ)
    → IsReady c
    → IsFile (view c) c.device.size d
    → offset < d.length
    → (c1 : Cache) × (byte_to_sector true c d offset
        ≡ ok (c1, sector_at (view c) d (offset / sector_size)))
      × Same c c1
unfolding byte_to_sector
sector_lem c d offset r i h =
    let (c1, e, s) =
      sector_number_lem c d (offset / sector_size) r
        (i.indexed (offset / sector_size) (omega (arith, h))) in
    (c1, rw (lt→ltb offset d.length h) e, s)

chunk_lem :
    (c c1 : Cache) (d : InodeDisk) (offset k : ℕ)
    → Same c c1
    → IsFile (view c) c.device.size d
    → offset < d.length
    → offset % sector_size + k ≤ sector_size
    → (c2 : Cache) × (read_chunk true c1
          (sector_at (view c) d (offset / sector_size))
          (offset % sector_size)
          k
        ≡ ok (some (c2, bytes_from (byte_at (view c) d) offset k)))
      × Same c c2
unfolding read_chunk
chunk_lem c c1 d offset k s i h b =
    let sec = sector_at (view c) d (offset / sector_size) in
    let (c2, e, t) =
      reading_after c c1 sec s (i.on_device (offset / sector_size) (omega (arith, h))) in
    let q = copied_lem (view c) d offset k b (i.whole sec) in
    (c2, rw e (ap (λ (l : List ℕ). ok (some (c2, l))) q), t)

pub left_over :
    (file_length size offset : ℕ)
    → offset < file_length
    → size == 0 ≡ false
    → (chunk file_length size offset == 0 ≡ false)
      × (offset % sector_size + chunk file_length size offset ≤ sector_size)
      × (chunk file_length size offset
            + smaller
                (size - chunk file_length size offset)
                (file_length - (offset + chunk file_length size offset))
          ≡ smaller size (file_length - offset))
left_over l size offset h z = (ground (arith, h, z), ground (arith, h, z), ground (arith, h, z))

loop_lem :
    (n : ℕ) (c : Cache) (d : InodeDisk) (size offset : ℕ)
    → IsReady c
    → IsFile (view c) c.device.size d
    → size ≤ n
    → (c' : Cache) × (read_loop n true c d size offset ≡ ok (c', contents c d size offset))
      × Same c c'
unfolding read_loop byte_to_sector
loop_lem zero c d size offset r i h =
    (c, rw (nothing c d size offset (ground (arith, h))) refl, Same-refl c r)
loop_lem (suc n) c d size offset r i h = elim (Bool-cases (size == 0)) [
  | inl z ↦ (c, rw (z, nothing c d size offset (ground (arith, z))) refl, Same-refl c r)
  | inr z ↦ elim (Bool-cases (ltb offset d.length)) [
    | inr past ↦
        let k : chunk d.length size offset == 0 ≡ true = ground (arith, past) in
        (c, rw (z, past, k, nothing c d size offset (ground (arith, past))) refl, Same-refl c r)
    | inl before ↦
        let b : offset < d.length = ground (arith, before) in
        let k = chunk d.length size offset in
        let (nz, inner, sum) = left_over d.length size offset b z in
        let (c1, e1, s1) = sector_lem c d offset r i b in
        let (c2, e2, s2) = chunk_lem c c1 d offset k s1 i b inner in
        let (c3, e3, s3) =
          loop_lem n c2 d (size - k) (offset + k) s2.ready.ready (IsFile-Same c c2 d s2 i)
            (ground (arith, h, nz)) in
        let step =
          loop_step n c d size offset c1 c2 c3 (sector_at (view c) d (offset / sector_size))
            (bytes_from (byte_at (view c) d) offset k) (contents c2 d (size - k) (offset + k))
            (contents c d size offset) z e1 nz e2 e3
            (joined c c2 d size offset k s2.contents sum) in
        (c3, step, Same-trans c c2 c3 s2 s3)
  ]
]

-- inode_read_at of a file whose sectors are on the device, with room for the bounce buffer, returns
-- the bytes of the file from the position on, as many as are asked for or as the file has; it ends
-- within its fuel, and no sector changes for a later reader.
pub read_at_lem :
    (c : Cache) (i : Inode) (size offset : ℕ)
    → IsReady c
    → IsFile (view c) c.device.size i.disk
    → (c' : Cache) × (inode_read_at true c i size offset ≡ ok (c', contents c i.disk size offset))
      × Same c c'
unfolding inode_read_at
read_at_lem c i size offset r f = loop_lem size c i.disk size offset r f (omega arith)
