-- ===== src/Dir/Tests.antt =====
-- The theorems on directories at one whose first entry alone is in use.
use mathlib.Core.Path.{fun_ext, subst}
use os_pintos.Common.{
  List, some, Option, ℕ, zero, suc, ◌+◌, ◌*◌, ◌/◌, ◌%◌, ◌≤◌, ◌<◌, ◌≡◌, ◌≢◌, refl, sym, ◌∙◌, ap, [],
  ◌∷◌, true, false, ok, arith, replicate, length, length-replicate, inl, inr, ◌==◌, if◌then◌else◌,
  Bool-cases,
}
use os_pintos.Block.{Sector}
use os_pintos.Cache.{Cache, buffer_cache_init}
use os_pintos.Cache.Invariant.{view}
use os_pintos.Cache.Refine.{IsReady}
use os_pintos.Cache.Start.{init-IsReady}
use os_pintos.Inode.{nth}
use os_pintos.Inode.Write.{overwrite}
use os_pintos.Inode.Put.{overlay, length-overwrite, nth-overwrite}
use os_pintos.Inode.Index.{sector_at, Same}
use os_pintos.Inode.Bytes.{byte_at, bytes_from, IsFile}
use os_pintos.Inode.Tests.{raw, two_sectors, file, two_indices, two_sectors-IsIndexed}
use os_pintos.Inode.Samples.{two_sectors-IsWritable, nth-zeros}
use os_pintos.Inode.Mapped.{allocate_unopened}
use os_pintos.Dir.{entry_size, in_use, inode_sector, FileSys, Dir, Env, lookup}
use os_pintos.Dir.Change.{dir_add}
use os_pintos.Dir.Find.{entry_at, with_cache, IsDir, Looked, lookup_lem}
use os_pintos.Dir.Add.{IsOwned, Added}
use os_pintos.Dir.Filling.{Absent, HasRoom}
use os_pintos.Dir.Trips.{lookup-dir_add}

-- The first sector, with the parent's entry in use.
abbrev parent_sector : Sector
parent_sector = overwrite (replicate 512 0) 19 (1 ∷ [])

abbrev stored : ℕ → Sector
stored t = if t == 5 then parent_sector else replicate 512 0

abbrev pub dir_cache : Cache
dir_cache = buffer_cache_init (record raw { device = record raw.device { content = stored } })

dir_cache-IsReady : IsReady dir_cache
dir_cache-IsReady =
    let (r, v) =
      init-IsReady (record raw { device = record raw.device { content = stored } }) refl refl in
    r

dir_cache-view : view dir_cache ≡ stored
dir_cache-view = fun_ext (
    let (r, v) =
      init-IsReady (record raw { device = record raw.device { content = stored } }) refl refl in
    v)

abbrev pub fs : FileSys
fs = record {
  disk = record { cache = dir_cache; free_map = record { bit_cnt = 40; bits = 3 ∷ 0 ∷ [] } };
  open_inodes = file ∷ [];
}

abbrev pub dir : Dir
dir = record { sector = 4; pos = entry_size }

abbrev pub env : Env
env = record { room = true; allocate = allocate_unopened; free = λ s t. ok s }

stored-size : (t : ℕ) → length (stored t) ≡ 512
stored-size t = elim (Bool-cases (t == 5)) [
  | inl y ↦ rw y (length-overwrite (replicate 512 0) 19 (1 ∷ []) ∙ length-replicate {A = ℕ} 512 0)
  | inr n ↦ rw n (length-replicate {A = ℕ} 512 0)
]

sector_small : (f : ℕ → Sector) (i : ℕ) → i * 512 < 1000 → sector_at f two_sectors i < 100
unfolding sector_at
sector_small f i h = elim (two_indices i h) [
  | inl a ↦ rw a (omega arith)
  | inr a ↦ rw a (omega arith)
]

stored-IsFile : IsFile stored 100 two_sectors
stored-IsFile = record {
  indexed = two_sectors-IsIndexed stored;
  on_device = sector_small stored;
  whole = stored-size;
}

pub fs-IsDir : IsDir fs 4 file
unfolding buffer_cache_init
fs-IsDir = record {
  ready = dir_cache-IsReady;
  opened = refl;
  file = subst (λ f. IsFile f 100 two_sectors) (sym dir_cache-view) stored-IsFile;
}

fs-IsOwned : IsOwned fs file
unfolding buffer_cache_init
fs-IsOwned = record {
  writable = two_sectors-IsWritable (view dir_cache);
  small = omega arith;
  allowed = refl;
}

beside : (g : ℕ → ℕ) (j : ℕ) → j ≢ 19 → g j ≡ 0 → overlay 19 (1 ∷ []) g j ≡ 0
beside g j h z = ground (arith, h, z)

-- The other bytes of the file are zeros.
stored-zero : (t j : ℕ) → j ≢ 19 → nth (stored t) j ≡ 0
stored-zero t j h = elim (Bool-cases (t == 5)) [
  | inl y ↦ rw y (
      nth-overwrite (replicate 512 0) 19 (1 ∷ []) j (omega (arith, length-replicate {A = ℕ} 512 0))
      ∙ beside (nth (replicate 512 0)) j h (nth-zeros 512 j))
  | inr n ↦ rw n (nth-zeros 512 j)
]

nth-bytes_from : (g : ℕ → ℕ) (pos n j : ℕ) → j < n → nth (bytes_from g pos n) j ≡ g (pos + j)
unfolding bytes_from
nth-bytes_from g pos zero j h = absurd (omega (arith, h))
nth-bytes_from g pos (suc n) zero h = ap g (omega arith)
nth-bytes_from g pos (suc n) (suc j) h =
    nth-bytes_from g (pos + 1) n j (omega (arith, h)) ∙ ap g (omega arith)

-- The flag of an entry but the first is zero.
unused :
    (k : ℕ)
    → 20 + 20 * k + 20 ≤ 1000
    → in_use (entry_at (byte_at stored two_sectors) (20 + 20 * k)) ≡ false
unused k h =
    let g = byte_at stored two_sectors in
    let pos = 20 + 20 * k + 19 in
    let z : g pos ≡ 0 =
      stored-zero (sector_at stored two_sectors (pos / 512)) (pos % 512)
        (λ e. absurd (omega (arith, e, h))) in
    let e : nth (entry_at g (20 + 20 * k)) 19 ≡ 0 =
      nth-bytes_from g (20 + 20 * k) 20 19 (omega arith) ∙ z in
    ground (arith, e)

viewed :
    (k : ℕ)
    → in_use (entry_at (byte_at (view dir_cache) two_sectors) k)
      ≡ in_use (entry_at (byte_at stored two_sectors) k)
viewed k = ap (λ (f : ℕ → Sector). in_use (entry_at (byte_at f two_sectors) k)) dir_cache-view

pub fs-Absent : Absent fs file (97 ∷ [])
unfolding buffer_cache_init
fs-Absent k h = ground (arith, viewed (20 + 20 * k) ∙ unused k h)

first_byte : byte_at stored two_sectors 19 ≡ 1
unfolding sector_at
first_byte = refl

parent_used : in_use (entry_at (byte_at stored two_sectors) 0) ≡ true
parent_used =
    let e : nth (entry_at (byte_at stored two_sectors) 0) 19 ≡ 1 =
      nth-bytes_from (byte_at stored two_sectors) 0 20 19 (omega arith) ∙ first_byte in
    ground (arith, e)

fs-HasRoom : HasRoom fs file 1
unfolding buffer_cache_init
fs-HasRoom = record {
  parent = viewed 0 ∙ parent_used;
  inside = omega arith;
  free = viewed 20 ∙ unused 0 (omega arith);
}

lookup_lem_example :
    (c : Cache) × (r : Option (List ℕ × ℕ)) × (lookup env fs dir (97 ∷ [])
      ≡ ok (with_cache fs c, r))
    × Same dir_cache c
    × Looked (byte_at (view dir_cache) two_sectors) 1000 (97 ∷ []) 20 r
unfolding buffer_cache_init
lookup_lem_example = lookup_lem env refl fs dir file (97 ∷ []) fs-IsDir

lookup-dir_add_example :
    (c c' : Cache) × (e : List ℕ) × (k : ℕ) × (dir_add env
        (replicate 20 7)
        fs
        dir
        (97 ∷ [])
        30
        false
      ≡ ok (with_cache fs c, true))
    × (lookup env (with_cache fs c) dir (97 ∷ []) ≡ ok (with_cache fs c', some (e, 20 * k)))
    × (inode_sector e ≡ 30)
    × Added fs (with_cache fs c) dir file (97 ∷ []) 30 k
unfolding buffer_cache_init
lookup-dir_add_example =
    lookup-dir_add env refl fs dir file (97 ∷ []) (replicate 20 7) 30 1 fs-IsDir fs-IsOwned
      fs-HasRoom fs-Absent (omega arith) (omega arith) refl (omega arith)
