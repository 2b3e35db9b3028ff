-- ===== src/File/Denied.antt =====
-- Writes to an inode are denied from file_deny_write to file_allow_write.
use mathlib.Core.Path.{subst}
use os_pintos.Common.{
  ℕ, ◌+◌, ◌-◌, ◌≡◌, ◌<◌, refl, sym, ◌∙◌, ap, List, [], ◌∷◌, true, false, some, ok, arith, ltb, leb,
  ◌==◌, inl, inr, Bool-cases,
}
use os_pintos.Inode.{Inode, inode_deny_write, inode_allow_write}
use os_pintos.Inode.Growth.{Disk, inode_write_at}
use os_pintos.Dir.{FileSys, Env, find_inode, inode_of, put_inode, write_inode}
use os_pintos.Dir.Find.{inode_of_open}
use os_pintos.Dir.Add.{put_same}
use os_pintos.File.{File, file_deny_write, file_allow_write, file_write}

some-injective : (a b : Inode) → some a ≡ some b → a ≡ b
some-injective a b e = cc

pub sector-find_inode :
    (l : List Inode) (sector : ℕ) (i : Inode)
    → find_inode l sector ≡ some i
    → i.sector == sector ≡ true
sector-find_inode [] sector i h = cc
sector-find_inode (k ∷ l) sector i h = elim (Bool-cases (k.sector == sector)) [
  | inl y ↦
      let e : some k ≡ some i = rw y at h in
      ap (λ (x : Inode). x.sector == sector) (sym (some-injective k i e)) ∙ y
  | inr n ↦ let e : find_inode l sector ≡ some i = rw n at h in sector-find_inode l sector i e
]

pub find-put_inode :
    (l : List Inode) (sector : ℕ) (i j : Inode)
    → find_inode l sector ≡ some i
    → j.sector == sector ≡ true
    → find_inode (put_inode l sector j) sector ≡ some j
find-put_inode [] sector i j h e = cc
find-put_inode (k ∷ l) sector i j h e = elim (Bool-cases (k.sector == sector)) [
  | inl y ↦ rw (y, e) refl
  | inr n ↦
      let r : find_inode l sector ≡ some i = rw n at h in
      rw (n, n) (find-put_inode l sector i j r e)
]

pub put_inode_twice :
    (l : List Inode) (sector : ℕ) (j k : Inode)
    → j.sector == sector ≡ true
    → put_inode (put_inode l sector j) sector k ≡ put_inode l sector k
put_inode_twice [] sector j k e = refl
put_inode_twice (x ∷ l) sector j k e = elim (Bool-cases (x.sector == sector)) [
  | inl y ↦ rw (y, e) refl
  | inr n ↦ rw (n, n) (ap (λ t. x ∷ t) (put_inode_twice l sector j k e))
]

-- An inode with one more denial.
abbrev pub denied_once : Inode → Inode
denied_once i = record i { deny_write_cnt = i.deny_write_cnt + 1 }

deny_step : (i : Inode) → i.deny_write_cnt < i.open_cnt → inode_deny_write i ≡ ok (denied_once i)
unfolding inode_deny_write
deny_step i h =
    let e : leb (i.deny_write_cnt + 1) i.open_cnt ≡ true = ground (arith, h) in rw e refl

same : (n : ℕ) → n + 1 - 1 ≡ n
same n = omega arith

allow_step : (i : Inode) → i.deny_write_cnt < i.open_cnt → inode_allow_write (denied_once i) ≡ ok i
unfolding inode_allow_write
allow_step i h =
    let e : leb (i.deny_write_cnt + 1) i.open_cnt ≡ true = ground (arith, h) in
    let p : ltb 0 (i.deny_write_cnt + 1) ≡ true = ground arith in
    rw (e, p) (ap (λ n. ok (record i { deny_write_cnt = n })) (same i.deny_write_cnt))

module _ (s : FileSys) (f : File) (i j : Inode) (found : inode_of s f.sector ≡ ok i) where
  file_deny_step :
      f.deny_write ≡ false
      → inode_deny_write i ≡ ok j
      → file_deny_write s f
        ≡ ok (
          record s { open_inodes = put_inode s.open_inodes f.sector j },
          record f { deny_write = true },
        )
  unfolding file_deny_write
  file_deny_step d e = rw (d, found, e) refl

  file_allow_step :
      inode_allow_write i ≡ ok j
      → file_allow_write s (record f { deny_write = true })
        ≡ ok (
          record s { open_inodes = put_inode s.open_inodes f.sector j },
          record f { deny_write = false },
        )
  unfolding file_allow_write
  file_allow_step e = rw (found, e) refl

refused :
    (env : Env) (s : Disk) (i : Inode) (b : List ℕ) (size offset : ℕ)
    → ltb 0 i.deny_write_cnt ≡ true
    → inode_write_at env.allocate env.room s i b size offset ≡ ok (s, i, 0)
unfolding inode_write_at
refused env s i b size offset h = rw h refl

file_refused :
    (env : Env) (s : FileSys) (f : File) (i : Inode) (b : List ℕ) (size : ℕ)
    → find_inode s.open_inodes f.sector ≡ some i
    → ltb 0 i.deny_write_cnt ≡ true
    → file_write env s f b size ≡ ok (s, f, 0)
unfolding file_write write_inode
file_refused env s f i b size h d =
    let o = inode_of_open s f.sector i h in
    let r = refused env s.disk i b size f.pos d in
    let p = put_same s.open_inodes f.sector i h in
    let z : f.pos + 0 ≡ f.pos = omega arith in rw (o, r, p, z) refl

-- After file_deny_write of a file that does not deny writes, of an open inode with fewer denials
-- than openers, file_write through any file of the inode writes nothing and changes nothing, and
-- file_allow_write leads back to the state before.
pub denied :
    (env : Env) (s : FileSys) (f g : File) (i : Inode) (b : List ℕ) (size : ℕ)
    → f.deny_write ≡ false
    → find_inode s.open_inodes f.sector ≡ some i
    → i.deny_write_cnt < i.open_cnt
    → g.sector ≡ f.sector
    → (s1 : FileSys) × (f1 : File) × (file_deny_write s f ≡ ok (s1, f1))
      × (file_write env s1 g b size ≡ ok (s1, g, 0))
      × (file_allow_write s1 f1 ≡ ok (s, f))
denied env s f g i b size d h c e =
    let j = denied_once i in
    let l = s.open_inodes in
    let at = sector-find_inode l f.sector i h in
    let s1 = record s { open_inodes = put_inode l f.sector j } in
    let found = find-put_inode l f.sector i j h at in
    let found_g = subst (λ t. find_inode s1.open_inodes t ≡ some j) (sym e) found in
    let positive : ltb 0 (i.deny_write_cnt + 1) ≡ true = ground arith in
    let back = put_inode_twice l f.sector j i at ∙ put_same l f.sector i h in
    (
      s1,
      record f { deny_write = true },
      file_deny_step s f i j (inode_of_open s f.sector i h) d (deny_step i c),
      file_refused env s1 g j b size found_g positive,
      file_allow_step s1 f j i (inode_of_open s1 f.sector j found) (allow_step i c)
          ∙ ap (λ k. ok (record s { open_inodes = k }, record f { deny_write = false })) back
          ∙ ap (λ t. ok (s, record f { deny_write = t })) (sym d),
    )
