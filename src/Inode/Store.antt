-- ===== src/Inode/Store.antt =====
-- The loop of inode_write_at stores its bytes in the file, where inode_read_at finds them.
use mathlib.Core.Path.{subst}
use os_pintos.Common.{
  ℕ, zero, suc, ◌+◌, ◌-◌, ◌/◌, ◌%◌, ◌≤◌, ◌<◌, ◌≡◌, refl, sym, ◌∙◌, ap, List, [], ◌∷◌, ◌++◌, true,
  false, some, Outcome, ok, arith, ◌==◌, ltb, length, take, drop, inl, inr, Bool-cases, length-take,
  length-drop,
}
use os_pintos.Cache.{Cache}
use os_pintos.Cache.Invariant.{view}
use os_pintos.Cache.Refine.{IsReady, Ready}
use os_pintos.Inode.{InodeDisk, sector_size, byte_to_sector, smaller, chunk}
use os_pintos.Inode.Index.{sector_at}
use os_pintos.Inode.Bytes.{IsFile}
use os_pintos.Inode.Read.{sector_lem, left_over}
use os_pintos.Inode.Write.{write_chunk, write_loop}
use os_pintos.Inode.Put.{IsWritable, Wrote, put-Wrote}
use os_pintos.Inode.Written.{
  IsFile-Wrote, IsWritable-Wrote, Wrote-trans, Wrote-nothing, write_chunk_lem,
}

take-take-drop : (k m : ℕ) (l : List ℕ) → take k l ++ take m (drop k l) ≡ take (k + m) l
take-take-drop zero m l = ap (λ i. take i l) (omega arith)
take-take-drop (suc k) zero [] = let e : suc k + 0 ≡ suc k = omega arith in rw e refl
take-take-drop (suc k) (suc m) [] =
    let e : suc k + suc m ≡ suc (k + suc m) = omega arith in rw e refl
take-take-drop (suc k) m (x ∷ l) =
    let e : suc k + m ≡ suc (k + m) = omega arith in rw e (ap (λ r. x ∷ r) (take-take-drop k m l))

-- The number of bytes that a write within the file stores.
abbrev pub fits : InodeDisk → ℕ → ℕ → ℕ
fits d size offset = smaller size (d.length - offset)

loop_step :
    (n : ℕ) (c : Cache) (d : InodeDisk) (buffer : List ℕ) (size offset : ℕ) (c1 c2 c3 : Cache)
    (sec m : ℕ)
    → size == 0 ≡ false
    → byte_to_sector true c d offset ≡ ok (c1, sec)
    → chunk d.length size offset == 0 ≡ false
    → write_chunk true c1 sec
        (offset % sector_size)
        (chunk d.length size offset)
        (take (chunk d.length size offset) buffer)
      ≡ ok (some c2)
    → write_loop n true c2 d
        (drop (chunk d.length size offset) buffer)
        (size - chunk d.length size offset)
        (offset + chunk d.length size offset)
      ≡ ok (c3, m)
    → write_loop (suc n) true c d buffer size offset ≡ ok (c3, chunk d.length size offset + m)
unfolding write_loop
loop_step n c d buffer size offset c1 c2 c3 sec m z e1 k0 e2 e3 = rw (z, e1, k0, e2, e3) refl

-- What the loop stores, and where it leaves the cache.
pub record Stored (c c' : Cache) (d : InodeDisk) (offset : ℕ) (b : List ℕ) : Type 0 where
  pub ready : Ready c c'
  pub wrote : Wrote (view c) (view c') d offset b

stopped :
    (c : Cache) (d : InodeDisk) (buffer : List ℕ) (size offset : ℕ)
    → IsReady c
    → fits d size offset ≡ 0
    → Stored c c d offset (take (fits d size offset) buffer)
stopped c d buffer size offset r h = rw h (record {
  ready = record { ready = r; size = refl };
  wrote = Wrote-nothing (view c) (view c) d offset refl;
})

-- A round and the rounds after it.
joined :
    (c c2 c3 : Cache) (d : InodeDisk) (buffer : List ℕ) (size offset k : ℕ)
    → Ready c c2
    → Wrote (view c) (view c2) d offset (take k buffer)
    → Stored c2 c3 d (offset + k) (take (fits d (size - k) (offset + k)) (drop k buffer))
    → k + fits d (size - k) (offset + k) ≡ fits d size offset
    → length (take k buffer) ≡ k
    → Stored c c3 d offset (take (fits d size offset) buffer)
joined c c2 c3 d buffer size offset k q w s sum lk =
    let m = fits d (size - k) (offset + k) in
    let w3 : Wrote (view c2) (view c3) d (offset + length (take k buffer))
        (take m (drop k buffer)) =
      rw lk s.wrote in
    let e : take k buffer ++ take m (drop k buffer) ≡ take (fits d size offset) buffer =
      take-take-drop k m buffer ∙ ap (λ i. take i buffer) sum in
    record {
      ready = record { ready = s.ready.ready; size = s.ready.size ∙ q.size };
      wrote = subst (Wrote (view c) (view c3) d offset) e (
          Wrote-trans (view c) (view c2) (view c3) d offset (take k buffer) (take m (drop k buffer))
            w w3);
    }

answer : Cache → ℕ → Outcome (Cache × ℕ)
answer c m = ok (c, m)

loop_lem :
    (n : ℕ) (c : Cache) (d : InodeDisk) (buffer : List ℕ) (size offset : ℕ)
    → IsReady c
    → IsFile (view c) c.device.size d
    → IsWritable (view c) d
    → length buffer ≡ size
    → size ≤ n
    → (c' : Cache) × (write_loop n true c d buffer size offset ≡ ok (c', fits d size offset))
      × Stored c c' d offset (take (fits d size offset) buffer)
unfolding write_loop byte_to_sector answer
loop_lem zero c d buffer size offset r i w l h =
    let z : fits d size offset ≡ 0 = ground (arith, h) in
    (c, rw z refl, stopped c d buffer size offset r z)
loop_lem (suc n) c d buffer size offset r i w l h = elim (Bool-cases (size == 0)) [
  | inl y ↦
      let z : fits d size offset ≡ 0 = ground (arith, y) in
      (c, rw (y, z) refl, stopped c d buffer size offset r z)
  | inr x ↦ elim (Bool-cases (ltb offset d.length)) [
    | inr past ↦
        let k : chunk d.length size offset == 0 ≡ true = ground (arith, past) in
        let z : fits d size offset ≡ 0 = ground (arith, past) in
        (c, rw (x, past, k, z) refl, stopped c d buffer size offset r z)
    | inl before ↦
        let b : offset < d.length = ground (arith, before) in
        let k = chunk d.length size offset in
        let sec = sector_at (view c) d (offset / sector_size) in
        let (nz, inner, sum) = left_over d.length size offset b x in
        let small : k ≤ length buffer = ground (arith, l) in
        let lk : length (take k buffer) ≡ k = omega (arith, length-take k buffer, small) in
        let (c1, e1, s1) = sector_lem c d offset r i b in
        let (c2, e2, q2, v2) =
          write_chunk_lem c c1 sec (offset % sector_size) k (take k buffer) s1
            (i.on_device (offset / sector_size) (omega (arith, b))) (i.whole sec) lk inner in
        let w2 =
          put-Wrote (view c) (view c2) d offset (take k buffer) w b (omega (arith, inner, lk))
            (i.whole sec) v2 in
        let i2 = IsFile-Wrote (view c) (view c2) c.device.size d offset (take k buffer) w2 i in
        let (c3, e3, s3) =
          loop_lem n c2 d (drop k buffer) (size - k) (offset + k) q2.ready
            (subst (λ m. IsFile (view c2) m d) (sym q2.size) i2)
            (IsWritable-Wrote (view c) (view c2) d offset (take k buffer) w2 w)
            (length-drop k buffer ∙ ap (λ m. m - k) l) (ground (arith, h, nz)) in
        let step =
          loop_step n c d buffer size offset c1 c2 c3 sec (fits d (size - k) (offset + k)) x e1 nz
            e2 e3 in
        (c3, step ∙ ap (answer c3) sum, joined c c2 c3 d buffer size offset k q2 w2 s3 sum lk)
  ]
]

-- The loop of inode_write_at on a file whose sectors are on the device, different from each other
-- and from those of its index, with room for the bounce buffer and as many bytes in the buffer as
-- the size says, writes as many of them as fit before the end of the file: the file has them from
-- the position on, and elsewhere what it had; no sector but the file's changes, and the loop ends
-- within its fuel.
pub write_loop_lem :
    (c : Cache) (d : InodeDisk) (buffer : List ℕ) (size offset : ℕ)
    → IsReady c
    → IsFile (view c) c.device.size d
    → IsWritable (view c) d
    → length buffer ≡ size
    → (c' : Cache) × (write_loop size true c d buffer size offset ≡ ok (c', fits d size offset))
      × Stored c c' d offset (take (fits d size offset) buffer)
write_loop_lem c d buffer size offset r i w l =
    loop_lem size c d buffer size offset r i w l (omega arith)
