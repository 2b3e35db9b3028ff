-- ===== src/Inode/Put.antt =====
-- What a write of some bytes into one sector of a file does to the file.
use mathlib.Core.Path.{subst}
use os_pintos.Common.{
  ℕ, zero, suc, ◌+◌, ◌-◌, ◌*◌, ◌/◌, ◌%◌, ◌≤◌, ◌<◌, ◌≡◌, ◌≢◌, refl, sym, ◌∙◌, ap, List, [], ◌∷◌,
  ◌&&◌, true, false, arith, ◌==◌, ltb, leb, length, if◌then◌else◌, inl, inr, Bool-cases, Each,
}
use os_pintos.Block.{Sector}
use os_pintos.Inode.{InodeDisk, sector_size, nth}
use os_pintos.Inode.Index.{sector_at, index_sectors, sector_at_same}
use os_pintos.Inode.Bytes.{byte_at}
use os_pintos.Inode.Write.{overwrite}

-- The bytes `g` with `bytes` in the place of those from an offset on.
abbrev pub overlay : ℕ → List ℕ → (ℕ → ℕ) → ℕ → ℕ
overlay offset bytes g pos =
    if leb offset pos && ltb pos (offset + length bytes) then nth bytes (pos - offset) else g pos

pub length-overwrite : (s : List ℕ) (k : ℕ) (b : List ℕ) → length (overwrite s k b) ≡ length s
length-overwrite [] k b = refl
length-overwrite (x ∷ s) zero [] = refl
length-overwrite (x ∷ s) zero (y ∷ b) = ap suc (length-overwrite s zero b)
length-overwrite (x ∷ s) (suc k) b = ap suc (length-overwrite s k b)

pub nth-overwrite :
    (s : List ℕ) (k : ℕ) (b : List ℕ) (j : ℕ)
    → k + length b ≤ length s
    → nth (overwrite s k b) j ≡ overlay k b (nth s) j
nth-overwrite [] k [] j h = ground arith
nth-overwrite [] k (y ∷ b) j h = absurd (omega (arith, h))
nth-overwrite (x ∷ s) zero [] j h = ground arith
nth-overwrite (x ∷ s) zero (y ∷ b) zero h = ground arith
nth-overwrite (x ∷ s) zero (y ∷ b) (suc j) h =
    ground (arith, nth-overwrite s zero b j (omega (arith, h)))
nth-overwrite (x ∷ s) (suc k) b zero h = ground arith
nth-overwrite (x ∷ s) (suc k) b (suc j) h = ground (arith, nth-overwrite s k b j (omega (arith, h)))

pub overwrite_all : (s b : List ℕ) → length b ≡ length s → overwrite s 0 b ≡ b
overwrite_all [] [] h = refl
overwrite_all [] (y ∷ b) h = absurd (omega (arith, h))
overwrite_all (x ∷ s) [] h = absurd (omega (arith, h))
overwrite_all (x ∷ s) (y ∷ b) h = ap (λ l. y ∷ l) (overwrite_all s b (omega (arith, h)))

-- The sectors of a file are different ones, and none of them holds a part of its index.
pub record IsWritable (f : ℕ → Sector) (d : InodeDisk) : Type 0 where
  pub distinct :
      (i j : ℕ)
      → i * sector_size < d.length
      → j * sector_size < d.length
      → sector_at f d i ≡ sector_at f d j
      → i ≡ j
  pub apart :
      (i j : ℕ)
      → i * sector_size < d.length
      → j * sector_size < d.length
      → Each (λ t. sector_at f d i ≢ t) (index_sectors f d j)

-- What a write leaves: the bytes in the file, from the offset on; its index; every sector that is
-- not the file's; and the sizes of sectors.
pub record Wrote (f f' : ℕ → Sector) (d : InodeDisk) (offset : ℕ) (b : List ℕ) : Type 0 where
  pub index :
      (i : ℕ)
      → i * sector_size < d.length
      → (sector_at f' d i ≡ sector_at f d i) × (index_sectors f' d i ≡ index_sectors f d i)
  pub bytes : (pos : ℕ) → pos < d.length → byte_at f' d pos ≡ overlay offset b (byte_at f d) pos
  pub others : (t : ℕ) → ((i : ℕ) → i * sector_size < d.length → sector_at f d i ≢ t) → f' t ≡ f t
  pub whole : ((t : ℕ) → length (f t) ≡ sector_size) → (t : ℕ) → length (f' t) ≡ sector_size

-- A sector with bytes written into it.
abbrev pub put : (ℕ → Sector) → ℕ → ℕ → List ℕ → ℕ → Sector
put f sec k b t = if sec == t then overwrite (f sec) k b else f t

put_ne : (f : ℕ → Sector) (sec k : ℕ) (b : List ℕ) (t : ℕ) → sec ≢ t → put f sec k b t ≡ f t
put_ne f sec k b t h = let e : sec == t ≡ false = ground (arith, h) in rw e refl

put_eq : (f : ℕ → Sector) (sec k : ℕ) (b : List ℕ) → put f sec k b sec ≡ overwrite (f sec) k b
put_eq f sec k b = let e : sec == sec ≡ true = ground arith in rw e refl

Each-put :
    (f : ℕ → Sector) (sec k : ℕ) (b : List ℕ) (l : List ℕ)
    → Each (λ t. sec ≢ t) l
    → Each (λ t. put f sec k b t ≡ f t) l
Each-put f sec k b [] h = tt
Each-put f sec k b (t ∷ l) h = (put_ne f sec k b t h.0, Each-put f sec k b l h.1)

length-put :
    (f : ℕ → Sector) (sec k : ℕ) (b : List ℕ) (t : ℕ)
    → ((t : ℕ) → length (f t) ≡ sector_size)
    → length (put f sec k b t) ≡ sector_size
length-put f sec k b t w = elim (Bool-cases (sec == t)) [
  | inl y ↦ rw y (length-overwrite (f sec) k b ∙ w sec)
  | inr n ↦ rw n (w t)
]

-- A position within a sector, and within a file.
shifted :
    (offset pos : ℕ) (b : List ℕ) (g g' : ℕ → ℕ)
    → offset / sector_size ≡ pos / sector_size
    → g (pos % sector_size) ≡ g' pos
    → overlay (offset % sector_size) b g (pos % sector_size) ≡ overlay offset b g' pos
shifted offset pos b g g' h e =
    let k : pos % sector_size - offset % sector_size ≡ pos - offset = omega (arith, h) in
    let low : leb (offset % sector_size) (pos % sector_size) ≡ leb offset pos = ground (arith, h) in
    let high : ltb (pos % sector_size) (offset % sector_size + length b)
        ≡ ltb pos (offset + length b) =
      ground (arith, h) in
    rw (k, low, high, e) refl

-- The bytes of a sector that is written, and of the others.
put_bytes :
    (f : ℕ → Sector) (d : InodeDisk) (offset : ℕ) (b : List ℕ) (pos : ℕ)
    → IsWritable f d
    → offset < d.length
    → pos < d.length
    → offset % sector_size + length b ≤ sector_size
    → length (f (sector_at f d (offset / sector_size))) ≡ sector_size
    → nth
        (put f
          (sector_at f d (offset / sector_size))
          (offset % sector_size)
          b
          (sector_at f d (pos / sector_size)))
        (pos % sector_size)
      ≡ overlay offset b (byte_at f d) pos
put_bytes f d offset b pos w o p h l =
    let sec = sector_at f d (offset / sector_size) in
    let k = offset % sector_size in
    elim (Bool-cases (offset / sector_size == pos / sector_size)) [
      | inl y ↦
          let e : offset / sector_size ≡ pos / sector_size = ground (arith, y) in
          let q : sector_at f d (pos / sector_size) ≡ sec = sym (ap (sector_at f d) e) in
          ap (λ t. nth (put f sec k b t) (pos % sector_size)) q
          ∙ ap (λ s. nth s (pos % sector_size)) (put_eq f sec k b)
          ∙ nth-overwrite (f sec) k b (pos % sector_size) (omega (arith, h, l))
          ∙ shifted offset pos b (nth (f sec)) (byte_at f d) e
              (ap (λ t. nth (f t) (pos % sector_size)) (sym q))
      | inr n ↦
          let ne : sec ≢ sector_at f d (pos / sector_size) = λ q.
            let e =
              w.distinct (offset / sector_size) (pos / sector_size) (omega (arith, o))
                (omega (arith, p)) q in
            absurd (ground (arith, n, e)) in
          let out : (leb offset pos && ltb pos (offset + length b)) ≡ false =
            ground (arith, n, h) in
          ap (λ s. nth s (pos % sector_size)) (put_ne f sec k b _ ne) ∙ sym (rw out refl)
    ]

-- A write into one sector of a file.
pub put-Wrote :
    (f f' : ℕ → Sector) (d : InodeDisk) (offset : ℕ) (b : List ℕ)
    → IsWritable f d
    → offset < d.length
    → offset % sector_size + length b ≤ sector_size
    → length (f (sector_at f d (offset / sector_size))) ≡ sector_size
    → f' ≡ put f (sector_at f d (offset / sector_size)) (offset % sector_size) b
    → Wrote f f' d offset b
put-Wrote f f' d offset b w o h l e =
    subst (λ g. Wrote f g d offset b) (sym e)
      (record {
        index = same;
        bytes = λ pos p.
            let (a, _) = same (pos / sector_size) (omega (arith, p)) in
            ap (λ t. nth (put f sec k b t) (pos % sector_size)) a
            ∙ put_bytes f d offset b pos w o p h l;
        others = λ t n. put_ne f sec k b t (n (offset / sector_size) (omega (arith, o)));
        whole = λ v t. length-put f sec k b t v;
      })
  where
    sec : ℕ
    sec = sector_at f d (offset / sector_size)

    k : ℕ
    k = offset % sector_size

    same :
        (i : ℕ)
        → i * sector_size < d.length
        → (sector_at (put f sec k b) d i ≡ sector_at f d i)
          × (index_sectors (put f sec k b) d i ≡ index_sectors f d i)
    same i q = sector_at_same f (put f sec k b) d i (
        Each-put f sec k b (index_sectors f d i)
          (w.apart (offset / sector_size) i (omega (arith, o)) q))
