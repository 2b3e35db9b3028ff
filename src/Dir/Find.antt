-- ===== src/Dir/Find.antt =====
-- lookup finds the first entry of a name, whatever is cached.
use mathlib.Core.Path.{subst}
use os_pintos.Common.{
  ℕ, zero, suc, ◌+◌, ◌-◌, ◌*◌, ◌≤◌, ◌<◌, ◌≡◌, refl, sym, ◌∙◌, ap, List, ◌&&◌, true, false, Bool,
  Option, none, some, ok, arith, ◌==◌, length, inl, inr, Bool-cases, leb,
}
use os_pintos.Block.{Sector}
use os_pintos.Cache.{Cache}
use os_pintos.Cache.Invariant.{view}
use os_pintos.Cache.Refine.{IsReady}
use os_pintos.Inode.{InodeDisk, Inode, smaller, inode_read_at}
use os_pintos.Inode.Index.{Same, Same-trans, Same-refl}
use os_pintos.Inode.Bytes.{byte_at, bytes_from, IsFile}
use os_pintos.Inode.Read.{contents, read_at_lem, IsFile-Same}
use os_pintos.Dir.{
  entry_size, entry_name, in_use, same_name, FileSys, Dir, Env, find_inode, inode_of, read_inode,
  find_entry, lookup,
}

-- The entry at an offset, and whether it is one of the name.
abbrev pub entry_at : (ℕ → ℕ) → ℕ → List ℕ
entry_at g ofs = bytes_from g ofs entry_size

abbrev pub is_entry_of : (ℕ → ℕ) → List ℕ → ℕ → Bool
is_entry_of g name ofs = in_use (entry_at g ofs) && same_name name (entry_name (entry_at g ofs))

-- The result of a search from an offset on in a file of a length.
pub data Looked (g : ℕ → ℕ) (len : ℕ) (name : List ℕ) (from : ℕ)
    : Option (List ℕ × ℕ) → Type 0 where
  found :
      (k : ℕ)
      → from + entry_size * k + entry_size ≤ len
      → is_entry_of g name (from + entry_size * k) ≡ true
      → ((j : ℕ) → j < k → is_entry_of g name (from + entry_size * j) ≡ false)
      → Looked g len name from (some (entry_at g (from + entry_size * k), from + entry_size * k))
  missing :
      ((k : ℕ)
        → from + entry_size * k + entry_size ≤ len
        → is_entry_of g name (from + entry_size * k) ≡ false)
      → Looked g len name from none

pub length-bytes_from : (g : ℕ → ℕ) (pos n : ℕ) → length (bytes_from g pos n) ≡ n
unfolding bytes_from
length-bytes_from g pos zero = refl
length-bytes_from g pos (suc n) = ap suc (length-bytes_from g (pos + 1) n)

-- A file system with another cache.
abbrev pub with_cache : FileSys → Cache → FileSys
with_cache s c = record s { disk = record s.disk { cache = c } }

-- The file of a directory: it is open, and its sectors are on the device.
pub record IsDir (s : FileSys) (sector : ℕ) (i : Inode) : Type 0 where
  pub ready : IsReady s.disk.cache
  pub opened : find_inode s.open_inodes sector ≡ some i
  pub file : IsFile (view s.disk.cache) s.disk.cache.device.size i.disk

pub IsDir-Same :
    (s : FileSys) (sector : ℕ) (i : Inode) (c : Cache)
    → IsDir s sector i
    → Same s.disk.cache c
    → IsDir (with_cache s c) sector i
IsDir-Same s sector i c h m = record {
  ready = m.ready.ready;
  opened = h.opened;
  file = IsFile-Same s.disk.cache c i.disk m h.file;
}

pub inode_of_open :
    (s : FileSys) (sector : ℕ) (i : Inode)
    → find_inode s.open_inodes sector ≡ some i
    → inode_of s sector ≡ ok i
unfolding inode_of
inode_of_open s sector i h = rw (h, inode_of) refl

module _ (env : Env) (room : env.room ≡ true) where
  pub read_step :
      (s : FileSys) (sector size ofs : ℕ) (i : Inode) (c : Cache) (b : List ℕ)
      → inode_of s sector ≡ ok i
      → inode_read_at true s.disk.cache i size ofs ≡ ok (c, b)
      → read_inode env s sector size ofs ≡ ok (with_cache s c, b)
  unfolding read_inode
  read_step s sector size ofs i c b o e = rw (o, room, e) refl

  pub reading_entry :
      (s : FileSys) (sector : ℕ) (i : Inode) (ofs : ℕ)
      → IsDir s sector i
      → (c : Cache) × (read_inode env s sector entry_size ofs
          ≡ ok (with_cache s c, contents s.disk.cache i.disk entry_size ofs))
        × Same s.disk.cache c
  reading_entry s sector i ofs h =
      let (c, e, m) = read_at_lem s.disk.cache i entry_size ofs h.ready h.file in
      let o = inode_of_open s sector i h.opened in
      let b = contents s.disk.cache i.disk entry_size ofs in
      (c, read_step s sector entry_size ofs i c b o e, m)

pub full_entry :
    (c : Cache) (d : InodeDisk) (ofs : ℕ)
    → ofs + entry_size ≤ d.length
    → contents c d entry_size ofs ≡ entry_at (byte_at (view c) d) ofs
full_entry c d ofs h = ap (bytes_from (byte_at (view c) d) ofs) (ground (arith, h))

pub no_entry :
    (c : Cache) (d : InodeDisk) (ofs : ℕ)
    → leb (ofs + entry_size) d.length ≡ false
    → length (contents c d entry_size ofs) == entry_size ≡ false
no_entry c d ofs h =
    let e = length-bytes_from (byte_at (view c) d) ofs (smaller entry_size (d.length - ofs)) in
    ap (λ n. n == entry_size) e ∙ ground (arith, h)

Looked-zero :
    (g : ℕ → ℕ) (len : ℕ) (name : List ℕ) (from : ℕ)
    → from + entry_size ≤ len
    → is_entry_of g name from ≡ true
    → Looked g len name from (some (entry_at g from, from))
Looked-zero g len name from h y =
    let e : from + entry_size * 0 ≡ from = omega arith in
    subst (λ o. Looked g len name from (some (entry_at g o, o))) e
      (found 0 (omega (arith, h)) (ap (is_entry_of g name) e ∙ y)
        (λ j q. absurd (omega (arith, q))))

-- What the search found after an entry that is not the name's.
Looked-suc :
    (g : ℕ → ℕ) (len : ℕ) (name : List ℕ) (from : ℕ) (r : Option (List ℕ × ℕ))
    → is_entry_of g name from ≡ false
    → Looked g len name (from + entry_size) r
    → Looked g len name from r
Looked-suc g len name from _ m (found k h y n) =
    let e : from + entry_size + entry_size * k ≡ from + entry_size * (k + 1) = omega arith in
    subst (λ o. Looked g len name from (some (entry_at g o, o))) (sym e)
      (found (k + 1) (omega (arith, h)) (ap (is_entry_of g name) (sym e) ∙ y) (before k n))
  where
    before :
        (k : ℕ)
        → ((j : ℕ) → j < k → is_entry_of g name (from + entry_size + entry_size * j) ≡ false)
        → (j : ℕ) → j < k + 1
        → is_entry_of g name (from + entry_size * j) ≡ false
    before k n zero q = ap (is_entry_of g name) (omega arith) ∙ m
    before k n (suc j) q = ap (is_entry_of g name) (omega arith) ∙ n j (omega (arith, q))
Looked-suc g len name from _ m (missing n) = missing every
  where
    every :
        (k : ℕ)
        → from + entry_size * k + entry_size ≤ len
        → is_entry_of g name (from + entry_size * k) ≡ false
    every zero q = ap (is_entry_of g name) (omega arith) ∙ m
    every (suc k) q = ap (is_entry_of g name) (omega arith) ∙ n k (omega (arith, q))

module _ (env : Env) (room : env.room ≡ true) (f : ℕ → Sector) (i : Inode) (name : List ℕ) where
  find_entry_lem :
      (n : ℕ) (s : FileSys) (sector ofs : ℕ)
      → IsDir s sector i
      → view s.disk.cache ≡ f
      → 0 < n
      → i.disk.length < ofs + n
      → (c : Cache) × (r : Option (List ℕ × ℕ)) × (find_entry env n s sector name ofs
          ≡ ok (with_cache s c, r))
        × Same s.disk.cache c
        × Looked (byte_at f i.disk) i.disk.length name ofs r
  unfolding find_entry
  find_entry_lem zero s sector ofs h v z b = absurd (omega (arith, z))
  find_entry_lem (suc n) s sector ofs h v z b =
      let (c1, e1, m1) = reading_entry env room s sector i ofs h in
      let g = byte_at f i.disk in
      elim (Bool-cases (leb (ofs + entry_size) i.disk.length)) [
        | inr past ↦
            let short = no_entry s.disk.cache i.disk ofs past in
            (c1, none, rw (e1, short) refl, m1, missing (λ k q. absurd (ground (arith, q, past))))
        | inl inside ↦
            let fit : ofs + entry_size ≤ i.disk.length = ground (arith, inside) in
            let e2 : contents s.disk.cache i.disk entry_size ofs ≡ entry_at g ofs =
              full_entry s.disk.cache i.disk ofs fit
              ∙ ap (λ (f : ℕ → Sector). entry_at (byte_at f i.disk) ofs) v in
            let whole : length (entry_at g ofs) == entry_size ≡ true =
              ap (λ n. n == entry_size) (length-bytes_from g ofs entry_size) in
            let read = e1 ∙ ap (λ l. ok (with_cache s c1, l)) e2 in
            elim (Bool-cases (is_entry_of g name ofs)) [
              | inl y ↦ (
                c1,
                some (entry_at g ofs, ofs),
                rw (read, whole, y) refl,
                m1,
                Looked-zero g i.disk.length name ofs fit y,
              )
              | inr x ↦
                  let (c2, r, e3, m2, l) =
                    find_entry_lem n (with_cache s c1) sector (ofs + entry_size)
                      (IsDir-Same s sector i c1 h m1) (m1.contents ∙ v) (omega (arith, b, fit))
                      (omega (arith, b)) in
                  (
                    c2,
                    r,
                    rw (read, whole, x) e3,
                    Same-trans s.disk.cache c1 c2 m1 m2,
                    Looked-suc g i.disk.length name ofs r x l,
                  )
            ]
      ]

module _ (env : Env) (room : env.room ≡ true) where
  -- lookup of a name in a directory that is open, with room for what it reads, returns the first
  -- entry that is in use and has the name, after the parent's, or that there is none; it ends within
  -- its fuel and changes no sector for a later reader.
  pub lookup_lem :
      (s : FileSys) (dir : Dir) (i : Inode) (name : List ℕ)
      → IsDir s dir.sector i
      → (c : Cache) × (r : Option (List ℕ × ℕ)) × (lookup env s dir name ≡ ok (with_cache s c, r))
        × Same s.disk.cache c
        × Looked (byte_at (view s.disk.cache) i.disk) i.disk.length name entry_size r
  unfolding lookup
  lookup_lem s dir i name h =
      let (c, r, e, m, l) =
        find_entry_lem env room (view s.disk.cache) i name (i.disk.length + 1) s dir.sector
          entry_size h refl (omega arith) (omega arith) in
      let o = inode_of_open s dir.sector i h.opened in (c, r, rw o e, m, l)
