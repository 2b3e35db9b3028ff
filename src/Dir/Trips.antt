-- ===== src/Dir/Trips.antt =====
-- A file that dir_add put into a directory is found there by lookup.
use os_pintos.Common.{
  ℕ, ◌+◌, ◌-◌, ◌*◌, ◌^◌, ◌≤◌, ◌<◌, ◌≡◌, ◌≢◌, sym, ◌∙◌, ap, List, ◌&&◌, true, false, Bool, Option,
  some, ok, arith, ◌==◌, length, inl, inr, Bool-cases,
}
use os_pintos.Block.{Sector}
use os_pintos.Cache.{Cache}
use os_pintos.Cache.Invariant.{view}
use os_pintos.Inode.{Inode}
use os_pintos.Inode.Index.{Same}
use os_pintos.Inode.Bytes.{byte_at}
use os_pintos.Dir.{
  entry_size, inode_sector, entry_name, in_use, same_name, FileSys, Dir, Env, lookup,
}
use os_pintos.Dir.Find.{
  entry_at, is_entry_of, with_cache, IsDir, IsDir-Same, Looked, found, missing, lookup_lem,
}
use os_pintos.Dir.Change.{dir_add}
use os_pintos.Dir.Add.{IsOwned, Added}
use os_pintos.Dir.Filling.{
  Absent, HasRoom, nothing_found, IsOwned-Same, Added-Same, add_step, fill_total,
}

HasRoom-Same :
    (s : FileSys) (i : Inode) (m : ℕ) (c : Cache)
    → Same s.disk.cache c
    → HasRoom s i m
    → HasRoom (with_cache s c) i m
HasRoom-Same s i m c q r =
    let p = λ (n : ℕ). ap (λ (f : ℕ → Sector). in_use (entry_at (byte_at f i.disk) n)) q.contents in
    record { parent = p 0 ∙ r.parent; inside = r.inside; free = p (entry_size * m) ∙ r.free }

-- What lookup finds afterwards.
found_there :
    (s s' : FileSys) (dir : Dir) (i : Inode) (name : List ℕ) (sector k : ℕ)
    (r : Option (List ℕ × ℕ))
    → Absent s i name
    → Added s s' dir i name sector k
    → Looked (byte_at (view s'.disk.cache) i.disk) i.disk.length name entry_size r
    → r ≡ some (entry_at (byte_at (view s'.disk.cache) i.disk) (entry_size * k), entry_size * k)
found_there s s' dir i name sector k _ a d (found j h y n) = elim (Bool-cases (j + 1 == k)) [
  | inl e ↦
      let q : entry_size + entry_size * j ≡ entry_size * k = ground (arith, e) in
      ap (λ o. some (entry_at (byte_at (view s'.disk.cache) i.disk) o, o)) q
  | inr e ↦
      let q : entry_size * (j + 1) ≡ entry_size + entry_size * j = omega arith in
      let other : j + 1 ≢ k = λ p. absurd (ground (arith, e, p)) in
      let kept =
        ap (λ b. in_use b && same_name name (entry_name b))
          (d.others (j + 1) other (omega (arith, h))) in
      let before = ap (is_entry_of (byte_at (view s.disk.cache) i.disk) name) q ∙ a j h in
      let after = ap (is_entry_of (byte_at (view s'.disk.cache) i.disk) name) q ∙ y in
      absurd (clash _ _ kept before after)
]
  where
    clash : (x y : Bool) → x ≡ y → y ≡ false → x ≡ true → ⊥
    clash x y p q r = ground (arith, p, q, r)
found_there s s' dir i name sector k _ a d (missing n) =
    let q : entry_size + entry_size * (k - 1) ≡ entry_size * k = omega (arith, d.behind) in
    let none_there =
      sym (ap (is_entry_of (byte_at (view s'.disk.cache) i.disk) name) q)
      ∙ n (k - 1) (omega (arith, d.behind, d.inside)) in
    absurd (clash _ none_there d.named)
  where
    clash : (x : Bool) → x ≡ false → x ≡ true → ⊥
    clash x p q = ground (arith, p, q)

module _ (env : Env) (room : env.room ≡ true) where
  pub add_total :
      (s : FileSys) (dir : Dir) (i : Inode) (name garbage : List ℕ) (sector m : ℕ)
      → IsDir s dir.sector i
      → IsOwned s i
      → HasRoom s i m
      → Absent s i name
      → 0 < length name
      → length name ≤ 14
      → length garbage ≡ entry_size
      → (c : Cache) × (k : ℕ) × (dir_add env garbage s dir name sector false
          ≡ ok (with_cache s c, true))
        × Added s (with_cache s c) dir i name sector k
  add_total s dir i name garbage sector m h o r a z n l =
      let (c1, x, e, m1, q) = lookup_lem env room s dir i name h in
      let e1 =
        e
        ∙ ap (λ y. ok (with_cache s c1, y))
            (nothing_found (byte_at (view s.disk.cache) i.disk) i.disk.length name x a q) in
      let (c2, k, e2, d) =
        fill_total env room (with_cache s c1) dir i name garbage sector m
          (IsDir-Same s dir.sector i c1 h m1) (IsOwned-Same env room s i c1 m1 o)
          (HasRoom-Same s i m c1 m1 r) n l in
      (
        c2,
        k,
        add_step env room s (with_cache s c1) (with_cache s c2) dir name garbage sector z n e1 e2,
        Added-Same env room s (with_cache s c2) dir i name sector k c1 m1 d,
      )

  -- dir_add of a file whose name has 1 to 14 characters and is not in the directory, with room for
  -- what it reads, and where a further entry is free and the parent's is marked as in use, succeeds:
  -- lookup then finds that name with the sector of the file, and all other entries are as before.
  pub lookup-dir_add :
      (s : FileSys) (dir : Dir) (i : Inode) (name garbage : List ℕ) (sector m : ℕ)
      → IsDir s dir.sector i
      → IsOwned s i
      → HasRoom s i m
      → Absent s i name
      → 0 < length name
      → length name ≤ 14
      → length garbage ≡ entry_size
      → sector < 2 ^ 32
      → (c c' : Cache) × (e : List ℕ) × (k : ℕ) × (dir_add env garbage s dir name sector false
          ≡ ok (with_cache s c, true))
        × (lookup env (with_cache s c) dir name ≡ ok (with_cache s c', some (e, entry_size * k)))
        × (inode_sector e ≡ sector)
        × Added s (with_cache s c) dir i name sector k
  lookup-dir_add s dir i name garbage sector m h o r a z n l w =
      let (c, k, e1, d) = add_total s dir i name garbage sector m h o r a z n l in
      let (c', x, e2, _, q) = lookup_lem env room (with_cache s c) dir i name d.dir_file in
      let e3 =
        e2
        ∙ ap (λ y. ok (with_cache s c', y))
            (found_there s (with_cache s c) dir i name sector k x a d q) in
      (c, c', entry_at (byte_at (view c) i.disk) (entry_size * k), k, e1, e3, d.sector_of w, d)
