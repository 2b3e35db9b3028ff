-- ===== src/Inode/Open.antt =====
-- inode_open counts the openers of each sector's inode.
use os_pintos.Common.{
  ℕ, ◌+◌, ◌≡◌, ◌<◌, refl, List, [], ◌∷◌, true, false, none, some, ok, arith, ◌==◌, if◌then◌else◌,
  inl, inr, ◌⊎◌, Bool-cases,
}
use os_pintos.Cache.{Cache}
use os_pintos.Cache.Invariant.{view}
use os_pintos.Cache.Refine.{IsReady}
use os_pintos.Inode.{Inode, decode, open_from, inode_open}
use os_pintos.Inode.Index.{Same, Same-refl, reading}

-- How many times the inode of a sector is open.
abbrev pub count_of : List Inode → ℕ → ℕ
count_of [] t = 0
count_of (i ∷ l) t = if i.sector == t then i.open_cnt else count_of l t

abbrev pub Counted : ℕ → List Inode → List Inode → Type 0
Counted s l l' = (t : ℕ) → count_of l' t ≡ (if s == t then count_of l t + 1 else count_of l t)

open_from_lem :
    (s : ℕ) (l : List Inode)
    → ((open_from s l ≡ none) × (count_of l s ≡ 0))
      ⊎ ((l' : List Inode) × (open_from s l ≡ some l') × Counted s l l')
unfolding open_from
open_from_lem s [] = inl (refl, refl)
open_from_lem s (i ∷ l) = elim (Bool-cases (i.sector == s)) [
  | inl y ↦ inr (record i { open_cnt = i.open_cnt + 1 } ∷ l, rw y refl, λ t. ground (arith, y))
  | inr n ↦ elim (open_from_lem s l) [
    | inl (e, z) ↦ inl (rw (n, e) refl, rw n z)
    | inr (l', e, c) ↦ inr (i ∷ l', rw (n, e) refl, λ t. ground (arith, n, c t))
  ]
]

-- inode_open of a sector of the device, with room for the inode, returns the open inodes with one
-- more opener of that sector and as many as before of every other; no sector changes for a later
-- reader.
pub open_lem :
    (c : Cache) (l : List Inode) (s : ℕ)
    → IsReady c
    → s < c.device.size
    → (c' : Cache) × (l' : List Inode) × (inode_open true c l s ≡ ok (c', some l'))
      × Counted s l l'
      × Same c c'
unfolding inode_open
open_lem c l s r h = elim (open_from_lem s l) [
  | inr (l', e, k) ↦ (c, l', rw (e, inode_open) refl, k, Same-refl c r)
  | inl (e, z) ↦
      let (c1, q, same) = reading c s r h in
      let i : Inode = record {
        sector = s;
        open_cnt = 1;
        removed = false;
        deny_write_cnt = 0;
        disk = decode (view c s);
      } in
      (c1, i ∷ l, rw (e, q, inode_open) refl, λ t. ground (arith, z), same)
]
