-- ===== src/Inode/Extended.antt =====
-- A file after inode_reserve: what it held is there, and the rest is zeros.
use mathlib.Core.Path.{subst}
use os_pintos.Common.{
  ℕ, zero, suc, ◌*◌, ◌/◌, ◌%◌, ◌≤◌, ◌<◌, ◌≡◌, ◌≢◌, refl, sym, ◌∙◌, ap, List, [], true, false, ok,
  arith, length, replicate, Bool, ltb,
}
use os_pintos.Block.{Sector}
use os_pintos.Cache.Invariant.{view}
use os_pintos.Inode.{InodeDisk, sector_size, direct, nth}
use os_pintos.Inode.Index.{sector_at, index_sectors}
use os_pintos.Inode.Bytes.{byte_at, IsFile}
use os_pintos.Inode.Put.{IsWritable}
use os_pintos.Inode.Growth.{Disk, bytes_to_sectors, inode_reserve}
use os_pintos.Inode.Allocator.{Allocator}
use os_pintos.Inode.Slots.{Filled}
use os_pintos.Inode.Reserve.{Reserved, failed, reserved, reserve_total}
use os_pintos.Inode.Grown.{Owns, origin, Owns-grown, nonzero, held}

module _ (f : ℕ → Sector) (d : InodeDisk) (i : ℕ) where
  in_direct : i < direct → sector_at f d i ≡ nth d.dir_blocks i
  unfolding sector_at
  in_direct h = let e : ltb i direct ≡ true = ground (arith, h) in rw e refl

  no_index : i < direct → index_sectors f d i ≡ []
  unfolding index_sectors
  no_index h = let e : ltb i direct ≡ true = ground (arith, h) in rw e refl

-- A file that got the sectors for a length.
pub record IsGrown (a : Allocator) (s s' : Disk) (d d' : InodeDisk) (len : ℕ) : Type 0 where
  pub file : IsFile (view s'.cache) s'.cache.device.size (record d' { length = len })
  pub writable : IsWritable (view s'.cache) (record d' { length = len })
  pub kept_bytes :
      (pos : ℕ)
      → pos < len
      → nth d.dir_blocks (pos / sector_size) ≢ 0
      → byte_at (view s'.cache) (record d' { length = len }) pos ≡ byte_at (view s.cache) d pos
  pub new_bytes :
      (pos : ℕ)
      → pos < len
      → nth d.dir_blocks (pos / sector_size) ≡ 0
      → byte_at (view s'.cache) (record d' { length = len }) pos ≡ 0
  pub owns : Owns a.Own s' d'.dir_blocks

nth-zeros : (n i : ℕ) → nth (replicate n 0) i ≡ 0
nth-zeros zero i = refl
nth-zeros (suc n) zero = refl
nth-zeros (suc n) (suc i) = nth-zeros n i

IsGrown-of :
    (a : Allocator) (s s' : Disk) (d : InodeDisk) (l' : List ℕ) (len : ℕ)
    → a.IsSound s'
    → Owns a.Own s d.dir_blocks
    → bytes_to_sectors len ≤ direct
    → Filled a.Own s s' (bytes_to_sectors len) d.dir_blocks l'
    → IsGrown a s s' d (record d { dir_blocks = l' }) len
IsGrown-of a s s' d l' len h o b f = record {
  file = record {
    indexed = λ i p. rw (no_index v dl i (small i p)) tt;
    on_device = λ i p.
        subst (λ k. k < s'.cache.device.size) (sym (in_direct v dl i (small i p)))
          (grown.on_device i (nz i (early i p)));
    whole = a.whole s' h;
  };
  writable = record {
    distinct = λ i j p q e.
        grown.distinct i j (nz i (early i p))
          (sym (in_direct v dl i (small i p)) ∙ e ∙ in_direct v dl j (small j q));
    apart = λ i j p q. rw (no_index v dl j (small j q)) tt;
  };
  kept_bytes = λ pos p n.
      let i = pos / sector_size in
      let q = early i (omega (arith, p)) in
      let (x, _) = held a.Own s s' m l l' f o i (origin a.Own s s' m l l' f i) q in
      ap (λ t. nth (v t) (pos % sector_size)) (in_direct v dl i (omega (arith, q, b)))
      ∙ ap (λ b. nth b (pos % sector_size)) (x n)
      ∙ sym (
          ap (λ t. nth (view s.cache t) (pos % sector_size))
            (in_direct (view s.cache) d i (omega (arith, q, b))));
  new_bytes = λ pos p z.
      let i = pos / sector_size in
      let q = early i (omega (arith, p)) in
      let (_, x) = held a.Own s s' m l l' f o i (origin a.Own s s' m l l' f i) q in
      ap (λ t. nth (v t) (pos % sector_size)) (in_direct v dl i (omega (arith, q, b)))
      ∙ ap (λ b. nth b (pos % sector_size)) (x z)
      ∙ nth-zeros sector_size (pos % sector_size);
  owns = grown;
}
  where
    v : ℕ → Sector
    v = view s'.cache

    l : List ℕ
    l = d.dir_blocks

    m : ℕ
    m = bytes_to_sectors len

    dl : InodeDisk
    dl = record d { dir_blocks = l'; length = len }

    early : (i : ℕ) → i * sector_size < len → i < m
    early i p = omega (arith, p)

    small : (i : ℕ) → i * sector_size < len → i < direct
    small i p = omega (arith, p, b)

    nz : (i : ℕ) → i < m → nth l' i ≢ 0
    nz i p = nonzero a.Own s s' m l l' f o i p

    grown : Owns a.Own s' l'
    grown = Owns-grown a.Own s s' m l l' f o

-- inode_reserve for a file of 123 direct blocks that are its own, and a length of at most 123
-- sectors: it ends, and if it reports success, the file has a sector of its own for every position
-- below the length; where it had a sector, the bytes are the old ones, and elsewhere they are 0.
pub reserve_lem :
    (a : Allocator) (s : Disk) (d : InodeDisk) (len : ℕ)
    → a.IsSound s
    → length d.dir_blocks ≡ direct
    → Owns a.Own s d.dir_blocks
    → bytes_to_sectors len ≤ direct
    → (s' : Disk) × (d' : InodeDisk) × (done : Bool) × (inode_reserve a.allocate s d len
        ≡ ok (s', d', done))
      × (done ≡ true → a.IsSound s' × IsGrown a s s' d d' len)
reserve_lem a s d len h c o b =
    let (s', d', done, e, r) = reserve_total a s d len h c b in
    (s', d', done, e, grown s' d' done r)
  where
    grown :
        (s' : Disk) (d' : InodeDisk) (done : Bool)
        → Reserved a s s' d (bytes_to_sectors len) done d'
        → done ≡ true
        → a.IsSound s' × IsGrown a s s' d d' len
    grown s' d' false failed q = absurd (ground (arith, q))
    grown s' d' true (reserved {blocks} h1 f) q = (h1, IsGrown-of a s s' d blocks len h1 o b f)
