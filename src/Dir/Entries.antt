-- ===== src/Dir/Entries.antt =====
-- The entries of a directory after a write of one of them.
use os_pintos.Common.{
  ℕ, zero, suc, ◌+◌, ◌-◌, ◌≤◌, ◌<◌, ◌≡◌, refl, sym, ◌∙◌, ap, List, ◌&&◌, true, false, arith, length,
  ◌⊎◌, ltb, leb,
}
use os_pintos.Block.{Sector}
use os_pintos.Inode.{InodeDisk, nth}
use os_pintos.Inode.Bytes.{byte_at, bytes_from}
use os_pintos.Inode.Put.{overlay, Wrote}
use os_pintos.Inode.Trips.{bytes_from_list}
use os_pintos.Dir.{entry_size}
use os_pintos.Dir.Find.{entry_at}

same_bytes :
    (g g' : ℕ → ℕ) (pos n : ℕ)
    → ((j : ℕ) → j < n → g (pos + j) ≡ g' (pos + j))
    → bytes_from g pos n ≡ bytes_from g' pos n
unfolding bytes_from
same_bytes g g' pos zero e = refl
same_bytes g g' pos (suc n) e =
    let a : g pos ≡ g' pos = ground (arith, e 0 (omega arith)) in
    let r = same_bytes g g' (pos + 1) n (λ j q. ground (arith, e (suc j) (omega (arith, q)))) in
    rw (a, r) refl

-- An entry of the file is another one.
pub entry_replaced :
    (f f' : ℕ → Sector) (d : InodeDisk) (ofs : ℕ) (b : List ℕ)
    → Wrote f f' d ofs b
    → length b ≡ entry_size
    → ofs + entry_size ≤ d.length
    → entry_at (byte_at f' d) ofs ≡ b
entry_replaced f f' d ofs b w l h =
    ap (bytes_from (byte_at f' d) ofs) (sym l)
    ∙ bytes_from_list (byte_at f' d) ofs b
        (λ j q. w.bytes (ofs + j) (omega (arith, h, l, q)) ∙ at_offset ofs b (byte_at f d) j q)
  where
    at_offset :
        (ofs : ℕ) (b : List ℕ) (g : ℕ → ℕ) (j : ℕ)
        → j < length b
        → overlay ofs b g (ofs + j) ≡ nth b j
    at_offset ofs b g j q =
        let y : (leb ofs (ofs + j) && ltb (ofs + j) (ofs + length b)) ≡ true = ground (arith, q) in
        let m : ofs + j - ofs ≡ j = omega arith in rw (y, m) refl

-- The other entries of the file stay.
pub entry_kept :
    (f f' : ℕ → Sector) (d : InodeDisk) (ofs other : ℕ) (b : List ℕ)
    → Wrote f f' d ofs b
    → length b ≡ entry_size
    → (other + entry_size ≤ ofs) ⊎ (ofs + entry_size ≤ other)
    → other + entry_size ≤ d.length
    → entry_at (byte_at f' d) other ≡ entry_at (byte_at f d) other
entry_kept f f' d ofs other b w l h r =
    same_bytes (byte_at f' d) (byte_at f d) other entry_size
      (λ j q. w.bytes (other + j) (omega (arith, r, q)) ∙ outside j q)
  where
    outside :
        (j : ℕ) → j < entry_size → overlay ofs b (byte_at f d) (other + j) ≡ byte_at f d (other + j)
    outside j q =
        let n : (leb ofs (other + j) && ltb (other + j) (ofs + length b)) ≡ false =
          ground (arith, q, l, h) in
        rw n refl
