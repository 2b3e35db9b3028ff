-- ===== src/Inode/Index.antt =====
-- sector_number is the index that the sectors of the file system hold, whatever is cached.
use mathlib.Core.Path.{fun_ext}
use os_pintos.Common.{
  ℕ, ◌+◌, ◌-◌, ◌*◌, ◌/◌, ◌%◌, ◌<◌, ◌≡◌, refl, ◌∙◌, List, [], ◌∷◌, true, ok, ap, ltb, if◌then◌else◌,
  inl, inr, Bool-cases, Each,
}
use os_pintos.Block.{Sector}
use os_pintos.Cache.{Cache, buffer_cache_read}
use os_pintos.Cache.Invariant.{view}
use os_pintos.Cache.Refine.{IsReady, Ready, read_lem}
use os_pintos.Inode.{InodeDisk, direct, indirect, nth, word_at, double_read, sector_number}

-- The sector of a file at an index, by the contents of the file system's sectors.
unfoldable pub sector_at : (ℕ → Sector) → InodeDisk → ℕ → ℕ
sector_at f d index =
    if ltb index direct
    then nth d.dir_blocks index
    else if ltb index (direct + indirect)
    then word_at (f d.indir_block) (index - direct)
    else if ltb index (direct + indirect + indirect * indirect)
    then word_at (f (word_at (f d.d_indir_block) ((index - (direct + indirect)) / indirect)))
        ((index - (direct + indirect)) % indirect)
    else 0

-- The sectors that hold the index of a file where it is read for an index: those that a search goes
-- through.
unfoldable pub index_sectors : (ℕ → Sector) → InodeDisk → ℕ → List ℕ
index_sectors f d index =
    if ltb index direct
    then []
    else if ltb index (direct + indirect)
    then d.indir_block ∷ []
    else if ltb index (direct + indirect + indirect * indirect)
    then d.d_indir_block
      ∷ word_at (f d.d_indir_block) ((index - (direct + indirect)) / indirect)
      ∷ []
    else []

-- They are on the device.
abbrev pub IsIndexed : (ℕ → Sector) → ℕ → InodeDisk → ℕ → Type 0
IsIndexed f size d index = Each (λ t. t < size) (index_sectors f d index)

-- The index depends on no other sector.
pub sector_at_same :
    (f g : ℕ → Sector) (d : InodeDisk) (index : ℕ)
    → Each (λ t. g t ≡ f t) (index_sectors f d index)
    → (sector_at g d index ≡ sector_at f d index)
      × (index_sectors g d index ≡ index_sectors f d index)
unfolding sector_at index_sectors
sector_at_same f g d index x = elim (Bool-cases (ltb index direct)) [
  | inl a ↦ (rw a refl, rw a refl)
  | inr a ↦ elim (Bool-cases (ltb index (direct + indirect))) [
    | inl b ↦
        let y : Each (λ t. g t ≡ f t) (d.indir_block ∷ []) = rw (a, b) at x in
        (rw (a, b, y.0) refl, rw (a, b) refl)
    | inr b ↦ elim (Bool-cases (ltb index (direct + indirect + indirect * indirect))) [
      | inl c ↦
          let k = (index - (direct + indirect)) / indirect in
          let y : Each (λ t. g t ≡ f t) (d.d_indir_block ∷ word_at (f d.d_indir_block) k ∷ []) =
            rw (a, b, c) at x in
          (rw (a, b, c, y.0, y.1.0) refl, rw (a, b, c, y.0) refl)
      | inr c ↦ (rw (a, b, c) refl, rw (a, b, c) refl)
    ]
  ]
]

-- What a call that only reads leaves: the same contents, in a cache ready for use.
pub record Same (c c' : Cache) : Type 0 where
  pub contents : view c' ≡ view c
  pub ready : Ready c c'

pub reading :
    (c : Cache) (s : ℕ)
    → IsReady c
    → s < c.device.size
    → (c' : Cache) × (buffer_cache_read c s ≡ ok (c', view c s)) × Same c c'
reading c s r h =
    let (c', e, v, q) = read_lem c s r h in (c', e, record { contents = fun_ext v; ready = q })

pub Same-trans : (a b c : Cache) → Same a b → Same b c → Same a c
Same-trans a b c p q = record {
  contents = q.contents ∙ p.contents;
  ready = record { ready = q.ready.ready; size = q.ready.size ∙ p.ready.size };
}

pub Same-refl : (c : Cache) → IsReady c → Same c c
Same-refl c r = record { contents = refl; ready = record { ready = r; size = refl } }

pub reading_after :
    (c c1 : Cache) (w : ℕ)
    → Same c c1
    → w < c.device.size
    → (c2 : Cache) × (buffer_cache_read c1 w ≡ ok (c2, view c w)) × Same c c2
reading_after c c1 w s h =
    let (c2, e, t) = reading c1 w s.ready.ready (rw s.ready.size h) in
    (c2, e ∙ ap (λ (f : ℕ → Sector). ok (c2, f w)) s.contents, Same-trans c c1 c2 s t)

-- The two reads of the doubly indirect index.
double_lem :
    (c : Cache) (block k m : ℕ)
    → IsReady c
    → block < c.device.size
    → word_at (view c block) k < c.device.size
    → (c' : Cache) × (double_read c block k m
        ≡ ok (c', word_at (view c (word_at (view c block) k)) m))
      × Same c c'
unfolding double_read
double_lem c block k m r h i =
    let (c1, e1, s1) = reading c block r h in
    let w = word_at (view c block) k in
    let (c2, e2, s2) = reading_after c c1 w s1 i in (c2, rw e1 (rw e2 refl), s2)

-- sector_number at an index whose index sectors are on the device, with room for its buffer, returns
-- the sector that the index holds, 0 past its end, and no sector changes for a later reader.
pub sector_number_lem :
    (c : Cache) (d : InodeDisk) (index : ℕ)
    → IsReady c
    → IsIndexed (view c) c.device.size d index
    → (c' : Cache) × (sector_number true c d index ≡ ok (c', sector_at (view c) d index))
      × Same c c'
unfolding sector_number sector_at index_sectors
sector_number_lem c d index r x = elim (Bool-cases (ltb index direct)) [
  | inl a ↦ (c, rw a refl, Same-refl c r)
  | inr a ↦ elim (Bool-cases (ltb index (direct + indirect))) [
    | inl b ↦
        let y : Each (λ t. t < c.device.size) (d.indir_block ∷ []) = rw (a, b) at x in
        let (c1, e, s) = reading c d.indir_block r y.0 in (c1, rw (a, b, e) refl, s)
    | inr b ↦ elim (Bool-cases (ltb index (direct + indirect + indirect * indirect))) [
      | inl g ↦
          let k = (index - (direct + indirect)) / indirect in
          let m = (index - (direct + indirect)) % indirect in
          let y : Each (λ t. t < c.device.size)
              (d.d_indir_block ∷ word_at (view c d.d_indir_block) k ∷ []) =
            rw (a, b, g) at x in
          let (c2, e, s) = double_lem c d.d_indir_block k m r y.0 y.1.0 in (c2, rw (a, b, g) e, s)
      | inr g ↦ (c, rw (a, b, g) refl, Same-refl c r)
    ]
  ]
]
