-- ===== src/Inode/Bytes.antt =====
-- The bytes of a file, and that a round of inode_read_at copies a part of them.
use os_pintos.Common.{
  ℕ, zero, suc, ◌+◌, ◌*◌, ◌/◌, ◌%◌, ◌≤◌, ◌<◌, ◌≡◌, refl, sym, ◌∙◌, ap, List, [], ◌∷◌, ◌++◌, ◌&&◌,
  arith, ◌==◌, length, take, drop, inl, inr, Bool-cases,
}
use os_pintos.Block.{Sector}
use os_pintos.Inode.{InodeDisk, sector_size, nth, copied}
use os_pintos.Inode.Index.{sector_at, IsIndexed}

-- The byte of a file at a position, and `n` bytes from a position.
abbrev pub byte_at : (ℕ → Sector) → InodeDisk → ℕ → ℕ
byte_at f d pos = nth (f (sector_at f d (pos / sector_size))) (pos % sector_size)

unfoldable pub bytes_from : (ℕ → ℕ) → ℕ → ℕ → List ℕ
bytes_from g pos zero = []
bytes_from g pos (suc n) = g pos ∷ bytes_from g (pos + 1) n

-- The file's index and its sectors are on the device, and sectors have their size.
pub record IsFile (f : ℕ → Sector) (size : ℕ) (d : InodeDisk) : Type 0 where
  pub indexed : (i : ℕ) → i * sector_size < d.length → IsIndexed f size d i
  pub on_device : (i : ℕ) → i * sector_size < d.length → sector_at f d i < size
  pub whole : (s : ℕ) → length (f s) ≡ sector_size

part : Sector → ℕ → ℕ → List ℕ
part s k zero = []
part s k (suc n) = nth s k ∷ part s (k + 1) n

part-cons : (x : ℕ) (s : Sector) (k n : ℕ) → part (x ∷ s) (suc k) n ≡ part s k n
unfolding part
part-cons x s k zero = refl
part-cons x s k (suc n) = ground (arith, part-cons x s (k + 1) n)

part_all : (s : Sector) → part s 0 (length s) ≡ s
unfolding part
part_all [] = refl
part_all (x ∷ s) = ground (arith, part-cons x s 0 (length s), part_all s)

part_lem : (s : Sector) (k n : ℕ) → k + n ≤ length s → take n (drop k s) ≡ part s k n
unfolding part
part_lem s zero zero h = refl
part_lem [] zero (suc n) h = absurd (omega (arith, h))
part_lem (x ∷ s) zero (suc n) h =
    ap (λ l. x ∷ l) (part_lem s zero n (omega (arith, h)) ∙ sym (part-cons x s 0 n))
part_lem [] (suc k) n h = absurd (omega (arith, h))
part_lem (x ∷ s) (suc k) n h = part_lem s k n (omega (arith, h)) ∙ sym (part-cons x s k n)

part_bytes :
    (g : ℕ → ℕ) (s : Sector) (k pos n : ℕ)
    → ((j : ℕ) → j < n → nth s (k + j) ≡ g (pos + j))
    → part s k n ≡ bytes_from g pos n
unfolding part bytes_from
part_bytes g s k pos zero h = refl
part_bytes g s k pos (suc n) h =
    let a : nth s k ≡ g pos = ground (arith, h 0 (omega arith)) in
    let e =
      part_bytes g s (k + 1) (pos + 1) n (λ j q. ground (arith, h (suc j) (omega (arith, q)))) in
    rw (a, e) refl

pub bytes-append :
    (g : ℕ → ℕ) (pos a b : ℕ)
    → bytes_from g pos a ++ bytes_from g (pos + a) b ≡ bytes_from g pos (a + b)
unfolding bytes_from
bytes-append g pos zero b = ground arith
bytes-append g pos (suc a) b =
    let e : suc a + b ≡ suc (a + b) = omega arith in
    let p : pos + suc a ≡ pos + 1 + a = omega arith in
    rw (e, p) (ap (λ l. g pos ∷ l) (bytes-append g (pos + 1) a b))

copied-part :
    (s : Sector) (k n : ℕ) → k + n ≤ length s → length s ≡ sector_size → copied s k n ≡ part s k n
copied-part s k n h l = elim (Bool-cases (k == 0 && n == sector_size)) [
  | inl y ↦
      let a : k ≡ 0 = ground (arith, y) in
      let b : n ≡ length s = ground (arith, y, l) in
      rw y (sym (part_all s) ∙ sym (ap (λ i. part s i n) a ∙ ap (part s 0) b))
  | inr x ↦ rw x (part_lem s k n h)
]

-- What a round copies is that part of the file.
pub copied_lem :
    (f : ℕ → Sector) (d : InodeDisk) (offset n : ℕ)
    → offset % sector_size + n ≤ sector_size
    → length (f (sector_at f d (offset / sector_size))) ≡ sector_size
    → copied (f (sector_at f d (offset / sector_size))) (offset % sector_size) n
      ≡ bytes_from (byte_at f d) offset n
copied_lem f d offset n h l =
    let s = f (sector_at f d (offset / sector_size)) in
    let k = offset % sector_size in
    let same : (j : ℕ) → j < n → nth s (k + j) ≡ byte_at f d (offset + j) = λ j q.
      let a : offset / sector_size ≡ (offset + j) / sector_size = omega (arith, h, q) in
      let b : offset % sector_size + j ≡ (offset + j) % sector_size = omega (arith, h, q) in
      ap (λ i. nth (f (sector_at f d i)) (k + j)) a
      ∙ ap (nth (f (sector_at f d ((offset + j) / sector_size)))) b in
    copied-part s k n (omega (arith, h, l)) l ∙ part_bytes (byte_at f d) s k offset n same
