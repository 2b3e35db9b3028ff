-- ===== src/Dir/Filling.antt =====
-- dir_add fills the entry that it found.
use mathlib.Core.Path.{subst}
use os_pintos.Common.{
  ℕ, zero, suc, ◌+◌, ◌*◌, ◌^◌, ◌≤◌, ◌<◌, ◌≡◌, refl, sym, ◌∙◌, ap, List, ◌||◌, true, false, Option,
  none, ok, arith, ◌==◌, length, ltb,
}
use os_pintos.Block.{Sector}
use os_pintos.Cache.{Cache}
use os_pintos.Cache.Invariant.{view}
use os_pintos.Inode.{Inode}
use os_pintos.Inode.Index.{Same}
use os_pintos.Inode.Bytes.{byte_at}
use os_pintos.Inode.Put.{IsWritable}
use os_pintos.Dir.{entry_size, in_use, FileSys, Dir, Env, inode_of, write_inode, lookup}
use os_pintos.Dir.Find.{
  entry_at, is_entry_of, with_cache, IsDir, IsDir-Same, inode_of_open, length-bytes_from, Looked,
  found, missing,
}
use os_pintos.Dir.Change.{new_entry, free_slot, fill_slot, dir_add}
use os_pintos.Dir.Fields.{length-new_entry}
use os_pintos.Dir.Slot.{free_slot_lem}
use os_pintos.Dir.Add.{IsOwned, Added, writing_entry, Added-of}

-- No entry but the parent's has the name.
abbrev pub Absent : FileSys → Inode → List ℕ → Type 0
Absent s i name =
    (k : ℕ)
    → entry_size + entry_size * k + entry_size ≤ i.disk.length
    → is_entry_of (byte_at (view s.disk.cache) i.disk) name (entry_size + entry_size * k) ≡ false

-- A directory with an entry to spare, behind the parent's, which is marked as in use.
pub record HasRoom (s : FileSys) (i : Inode) (m : ℕ) : Type 0 where
  pub parent : in_use (entry_at (byte_at (view s.disk.cache) i.disk) 0) ≡ true
  pub inside : entry_size * m + entry_size ≤ i.disk.length
  pub free : in_use (entry_at (byte_at (view s.disk.cache) i.disk) (entry_size * m)) ≡ false

pub nothing_found :
    (g : ℕ → ℕ) (len : ℕ) (name : List ℕ) (r : Option (List ℕ × ℕ))
    → ((k : ℕ)
        → entry_size + entry_size * k + entry_size ≤ len
        → is_entry_of g name (entry_size + entry_size * k) ≡ false)
    → Looked g len name entry_size r
    → r ≡ none
nothing_found g len name _ a (found k h y n) = absurd (ground (arith, a k h, y))
nothing_found g len name _ a (missing n) = refl

valid_name : (n : ℕ) → 0 < n → n ≤ 14 → (n == 0 || ltb 14 n) ≡ false
valid_name n z h = ground (arith, z, h)

module _ (env : Env) (room : env.room ≡ true) where
  pub IsOwned-Same :
      (s : FileSys) (i : Inode) (c : Cache)
      → Same s.disk.cache c
      → IsOwned s i
      → IsOwned (with_cache s c) i
  IsOwned-Same s i c m o = record {
    writable = subst (λ f. IsWritable f i.disk) (sym m.contents) o.writable;
    small = subst (λ n. n < 2 ^ 32) (sym m.ready.size) o.small;
    allowed = o.allowed;
  }

  pub Added-Same :
      (s s' : FileSys) (dir : Dir) (i : Inode) (name : List ℕ) (sector k : ℕ) (c : Cache)
      → Same s.disk.cache c
      → Added (with_cache s c) s' dir i name sector k
      → Added s s' dir i name sector k
  Added-Same s s' dir i name sector k c m a = record {
    dir_file = a.dir_file;
    owned = a.owned;
    behind = a.behind;
    inside = a.inside;
    named = a.named;
    sector_of = a.sector_of;
    others = λ j n h.
        a.others j n h
        ∙ ap (λ (f : ℕ → Sector). entry_at (byte_at f i.disk) (entry_size * j)) m.contents;
  }

  fill_step :
      (s s1 s2 : FileSys) (dir : Dir) (i : Inode) (name e e1 : List ℕ) (sector ofs n : ℕ)
      → inode_of s dir.sector ≡ ok i
      → free_slot env (i.disk.length + 1) s dir.sector e 0 ≡ ok (s1, e1, ofs)
      → write_inode env s1 dir.sector (new_entry e1 name sector) entry_size ofs ≡ ok (s2, n)
      → fill_slot env s dir name sector e ≡ ok (s2, n == entry_size)
  unfolding fill_slot
  fill_step s s1 s2 dir i name e e1 sector ofs n o p q = rw (o, p, q) refl

  pub add_step :
      (s s1 s2 : FileSys) (dir : Dir) (name garbage : List ℕ) (sector : ℕ)
      → 0 < length name
      → length name ≤ 14
      → lookup env s dir name ≡ ok (s1, none)
      → fill_slot env s1 dir name sector garbage ≡ ok (s2, true)
      → dir_add env garbage s dir name sector false ≡ ok (s2, true)
  unfolding dir_add
  add_step s s1 s2 dir name garbage sector z n p q = rw (valid_name (length name) z n, p) q

  pub fill_total :
      (s : FileSys) (dir : Dir) (i : Inode) (name garbage : List ℕ) (sector m : ℕ)
      → IsDir s dir.sector i
      → IsOwned s i
      → HasRoom s i m
      → length name ≤ 14
      → length garbage ≡ entry_size
      → (c : Cache) × (k : ℕ) × (fill_slot env s dir name sector garbage
          ≡ ok (with_cache s c, true))
        × Added s (with_cache s c) dir i name sector k
  fill_total s dir i name garbage sector m h o r n l =
      let g = byte_at (view s.disk.cache) i.disk in
      let z : entry_size * m ≡ 0 + entry_size * m = omega arith in
      let (c1, k, small, first, e1, m1) =
        free_slot_lem env room (view s.disk.cache) i dir.sector m (i.disk.length + 1) s garbage 0 h
          refl l (omega (arith, r.inside)) (ap (λ x. in_use (entry_at g x)) (sym z) ∙ r.free)
          (omega (arith, r.inside)) in
      let at : 0 + entry_size * k ≡ entry_size * k = omega arith in
      let e2 : free_slot env (i.disk.length + 1) s dir.sector garbage 0
          ≡ ok (with_cache s c1, entry_at g (entry_size * k), entry_size * k) =
        subst
          (λ x.
            free_slot env (i.disk.length + 1) s dir.sector garbage 0
            ≡ ok (with_cache s c1, entry_at g x, x))
          at e1 in
      let fit : entry_size * k + entry_size ≤ i.disk.length = omega (arith, small, r.inside) in
      let later : 0 < k = not_parent k (ap (λ x. in_use (entry_at g x)) (sym at) ∙ first.free) in
      let e = entry_at g (entry_size * k) in
      let size = length-bytes_from g (entry_size * k) entry_size in
      let h1 = IsDir-Same s dir.sector i c1 h m1 in
      let o1 = IsOwned-Same s i c1 m1 o in
      let (c2, w, t) =
        writing_entry env room (with_cache s c1) dir.sector i (new_entry e name sector)
          (entry_size * k) h1 o1 (length-new_entry e name sector size n) fit in
      let a =
        Added-of env room (with_cache s c1) dir i name e sector k c2 h1 o1 t size n fit later in
      (
        c2,
        k,
        fill_step s (with_cache s c1) (with_cache s c2) dir i name garbage e sector (entry_size * k)
            entry_size (inode_of_open s dir.sector i h.opened) e2 w,
        Added-Same s (with_cache s c2) dir i name sector k c1 m1 a,
      )
    where
      not_parent :
          (k : ℕ)
          → in_use (entry_at (byte_at (view s.disk.cache) i.disk) (entry_size * k)) ≡ false
          → 0 < k
      not_parent zero e = absurd (ground (arith, r.parent, e))
      not_parent (suc k) e = omega arith
