-- ===== src/Inode/Allocator.antt =====
-- What inode_reserve relies on of free_map_allocate, and what it keeps of the file system.
use os_pintos.Common.{
  ℕ, ◌<◌, ◌≡◌, ◌≢◌, refl, ap, ◌∙◌, true, false, Option, none, some, Outcome, ok, arith, ◌==◌,
  length, if◌then◌else◌, inl, inr, ◌⊎◌, Bool-cases,
}
use os_pintos.Bitmap.Single.{holds}
use os_pintos.Cache.{Cache}
use os_pintos.Cache.Invariant.{view}
use os_pintos.Cache.Refine.{IsReady, Ready}
use os_pintos.Inode.{sector_size}
use os_pintos.Inode.Growth.{Disk, zero_sector}

-- A sector that was free is marked, and no other mark changes; `Own` are the sectors of the free
-- map's own file, which alone may be written.
pub record Took (Own : ℕ → Type 0) (s s' : Disk) (p : ℕ) : Type 0 where
  pub used : p ≢ 0
  pub on_device : p < s.cache.device.size
  pub free : holds s.free_map p ≡ false
  pub foreign : ¬ Own p
  pub marks : (t : ℕ) → holds s'.free_map t ≡ (if p == t then true else holds s.free_map t)
  pub same : (t : ℕ) → ¬ Own t → view s'.cache t ≡ view s.cache t
  pub size : s'.cache.device.size ≡ s.cache.device.size

-- The allocation of one sector, with its laws.
pub record Allocator : Type 1 where
  pub allocate : Disk → Outcome (Disk × Option ℕ)
  pub Own : ℕ → Type 0
  pub IsSound : Disk → Type 0
  pub ready : (s : Disk) → IsSound s → IsReady s.cache
  pub whole : (s : Disk) → IsSound s → (t : ℕ) → length (view s.cache t) ≡ sector_size
  pub total :
      (s : Disk)
      → IsSound s
      → ((s' : Disk) × (allocate s ≡ ok (s', none)))
        ⊎ ((s' : Disk) × (p : ℕ) × (allocate s ≡ ok (s', some p)) × Took Own s s' p × IsSound s')
  pub stays :
      (s : Disk) (c : Cache)
      → IsSound s
      → Ready s.cache c
      → ((t : ℕ) → Own t → view c t ≡ view s.cache t)
      → ((t : ℕ) → length (view s.cache t) ≡ sector_size → length (view c t) ≡ sector_size)
      → IsSound (record s { cache = c })

-- What was marked stays so, and such a sector keeps its contents.
pub record Grew (Own : ℕ → Type 0) (s s' : Disk) : Type 0 where
  pub marks : (t : ℕ) → holds s.free_map t ≡ true → holds s'.free_map t ≡ true
  pub same : (t : ℕ) → holds s.free_map t ≡ true → ¬ Own t → view s'.cache t ≡ view s.cache t
  pub size : s'.cache.device.size ≡ s.cache.device.size

pub Grew-refl : (Own : ℕ → Type 0) (s : Disk) → Grew Own s s
Grew-refl Own s = record { marks = λ t h. h; same = λ t h n. refl; size = refl }

pub Grew-trans : (Own : ℕ → Type 0) (a b c : Disk) → Grew Own a b → Grew Own b c → Grew Own a c
Grew-trans Own a b c p q = record {
  marks = λ t h. q.marks t (p.marks t h);
  same = λ t h n. q.same t (p.marks t h) n ∙ p.same t h n;
  size = q.size ∙ p.size;
}

-- A sector that is new to the file: it was free, is marked, and holds zeros.
pub record Fresh (Own : ℕ → Type 0) (s s' : Disk) (p : ℕ) : Type 0 where
  pub used : p ≢ 0
  pub on_device : p < s'.cache.device.size
  pub free : holds s.free_map p ≡ false
  pub marked : holds s'.free_map p ≡ true
  pub foreign : ¬ Own p
  pub zeroed : view s'.cache p ≡ zero_sector

pub Fresh-later :
    (Own : ℕ → Type 0) (a b c : Disk) (p : ℕ) → Fresh Own a b p → Grew Own b c → Fresh Own a c p
Fresh-later Own a b c p f g = record {
  used = f.used;
  on_device = rw g.size f.on_device;
  free = f.free;
  marked = g.marks p f.marked;
  foreign = f.foreign;
  zeroed = g.same p f.marked f.foreign ∙ f.zeroed;
}

pub Fresh-earlier :
    (Own : ℕ → Type 0) (a b c : Disk) (p : ℕ) → Grew Own a b → Fresh Own b c p → Fresh Own a c p
Fresh-earlier Own a b c p g f = record {
  used = f.used;
  on_device = f.on_device;
  free = elim (Bool-cases (holds a.free_map p)) [
    | inl y ↦ absurd (ground (arith, g.marks p y, f.free))
    | inr n ↦ n
  ];
  marked = f.marked;
  foreign = f.foreign;
  zeroed = f.zeroed;
}

module _ (a : Allocator) where
  -- The sector that was allocated, cleared in the cache.
  pub cleared_lem :
      (s s1 : Disk) (p : ℕ) (c : Cache)
      → Took a.Own s s1 p
      → Ready s1.cache c
      → ((t : ℕ) → view c t ≡ (if p == t then zero_sector else view s1.cache t))
      → Grew a.Own s (record s1 { cache = c }) × Fresh a.Own s (record s1 { cache = c }) p
  cleared_lem s s1 p c k r v =
      let self : p == p ≡ true = ground arith in
      (
        record {
          marks = λ t h. ground (arith, k.marks t, h);
          same = λ t h n.
              let e : p == t ≡ false = elim (Bool-cases (p == t)) [
                | inl y ↦ absurd (marked_free s p t y h k.free)
                | inr q ↦ q
              ] in
              v t ∙ rw e (k.same t n);
          size = r.size ∙ k.size;
        },
        record {
          used = k.used;
          on_device = rw (r.size, k.size) k.on_device;
          free = k.free;
          marked = k.marks p ∙ rw self refl;
          foreign = k.foreign;
          zeroed = v p ∙ rw self refl;
        },
      )
    where
      marked_free :
          (s : Disk) (p t : ℕ)
          → p == t ≡ true
          → holds s.free_map t ≡ true
          → holds s.free_map p ≡ false
          → ⊥
      marked_free s p t y h f =
          let e : p ≡ t = ground (arith, y) in
          let q : holds s.free_map p ≡ true = ap (holds s.free_map) e ∙ h in ground (arith, q, f)
