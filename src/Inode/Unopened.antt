-- ===== src/Inode/Unopened.antt =====
-- free_map_allocate before the free map's file is open gives what inode_reserve relies on.
use mathlib.Core.Path.{subst}
use os_pintos.Common.{
  ℕ, ◌≤◌, ◌≡◌, refl, sym, ap, ◌∙◌, true, false, none, some, Option, ok, arith, ◌==◌, length,
  if◌then◌else◌, inl, inr, ◌⊎◌,
}
use os_pintos.Bitmap.{Bitmap}
use os_pintos.Bitmap.Single.{IsValid, holds}
use os_pintos.Bitmap.Group.{inside}
use os_pintos.Cache.Invariant.{view}
use os_pintos.Cache.Refine.{IsReady}
use os_pintos.Freemap.{free_map_allocate}
use os_pintos.Freemap.Sectors.{Allocated, taken, allocate_lem}
use os_pintos.Inode.{sector_size}
use os_pintos.Inode.Growth.{Disk}
use os_pintos.Inode.Allocator.{Allocator, Took}
use os_pintos.Inode.Mapped.{allocate_unopened}

-- The map is no longer than the device, and the sector of its inode is marked.
pub record IsSound (s : Disk) : Type 0 where
  pub valid : IsValid s.free_map
  pub ready : IsReady s.cache
  pub within : s.free_map.bit_cnt ≤ s.cache.device.size
  pub root : holds s.free_map 0 ≡ true
  pub whole : (t : ℕ) → length (view s.cache t) ≡ sector_size

-- No sector is the map's file's: nothing is written.
abbrev pub Nothing : ℕ → Type 0
Nothing t = ⊥

inside_one : (p t : ℕ) → inside p 1 t ≡ (p == t)
inside_one p t = ground arith

pub unopened_total :
    (s : Disk)
    → IsSound s
    → ((s' : Disk) × (allocate_unopened s ≡ ok (s', none)))
      ⊎ ((s' : Disk) × (p : ℕ) × (allocate_unopened s ≡ ok (s', some p))
          × Took Nothing s s' p
          × IsSound s')
unfolding allocate_unopened
unopened_total s h =
    let (b, r, e, a) = allocate_lem none 1 s.free_map h.valid (omega arith) in given b r e a
  where
    given :
        (b : Bitmap) (r : Option ℕ)
        → free_map_allocate none 1 s.free_map ≡ ok (b, r)
        → Allocated none 1 s.free_map b r
        → ((s' : Disk) × (allocate_unopened s ≡ ok (s', none)))
          ⊎ ((s' : Disk) × (p : ℕ) × (allocate_unopened s ≡ ok (s', some p))
              × Took Nothing s s' p
              × IsSound s')
    given b none e a = inl (record s { free_map = b }, rw e refl)
    given b (some p) e (taken hi free f fine) =
        let was : holds s.free_map p ≡ false = free p (omega arith) (omega arith) in
        let marks : (t : ℕ) → holds b t ≡ (if p == t then true else holds s.free_map t) =
          λ t. f.bits t ∙ ap (λ x. if x then true else holds s.free_map t) (inside_one p t) in
        inr (
          record s { free_map = b },
          p,
          rw e refl,
          record {
            used = λ z. ground (arith, was, h.root, z);
            on_device = omega (arith, hi, h.within);
            free = was;
            foreign = λ x. x;
            marks = marks;
            same = λ t n. refl;
            size = refl;
          },
          record {
            valid = f.valid;
            ready = h.ready;
            within = rw f.size h.within;
            root = marks 0 ∙ kept p;
            whole = h.whole;
          },
        )
      where
        kept : (p : ℕ) → (if p == 0 then true else holds s.free_map 0) ≡ true
        kept p = ground (arith, h.root)

unfoldable pub unopened : Allocator
unopened = record {
  allocate = allocate_unopened;
  Own = Nothing;
  IsSound = IsSound;
  ready = λ s h. h.ready;
  whole = λ s h. h.whole;
  total = unopened_total;
  stays = λ s c h r v w. record {
    valid = h.valid;
    ready = r.ready;
    within = subst (λ n. s.free_map.bit_cnt ≤ n) (sym r.size) h.within;
    root = h.root;
    whole = λ t. w t (h.whole t);
  };
}
