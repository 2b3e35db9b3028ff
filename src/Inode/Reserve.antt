-- ===== src/Inode/Reserve.antt =====
-- inode_reserve for files that need no index block: the sectors that a file has stay, and those that
-- it lacks are new, cleared, and different from each other.
use mathlib.Core.Path.{subst}
use os_pintos.Common.{
  ℕ, zero, suc, ◌-◌, ◌≤◌, ◌≡◌, ◌≢◌, refl, sym, ◌∙◌, ap, List, [], ◌∷◌, true, false, ok, arith, ◌==◌,
  length, length-replicate, if◌then◌else◌, inl, inr, ◌⊎◌, Bool, Bool-cases,
}
use os_pintos.Cache.Invariant.{view}
use os_pintos.Cache.Refine.{write_lem}
use os_pintos.Inode.{InodeDisk, sector_size, direct, smaller}
use os_pintos.Inode.Growth.{
  Disk, zero_sector, bytes_to_sectors, reserve_sector, reserve_entries, inode_reserve,
}
use os_pintos.Inode.Allocator.{Allocator, Grew, Grew-refl, cleared_lem}
use os_pintos.Inode.Slots.{Slot, kept, new, Filled, Filled-zero, Filled-suc}

if_other {ℓ} : {A : Type ℓ} (x y : A) (q t : ℕ) → q ≢ t → (if q == t then x else y) ≡ y
if_other x y q t h = let e : q == t ≡ false = ground (arith, h) in rw e refl

cleared_size :
    (q t : ℕ) (b : List ℕ)
    → length b ≡ sector_size
    → length (if q == t then zero_sector else b) ≡ sector_size
cleared_size q t b l = elim (Bool-cases (q == t)) [
  | inl y ↦ rw y (length-replicate {A = ℕ} sector_size 0)
  | inr n ↦ rw n l
]

module _ (a : Allocator) where
  sector_total :
      (s : Disk) (e num : ℕ)
      → a.IsSound s
      → ((s' : Disk) × (reserve_sector a.allocate s e num ≡ ok (s', e, false)))
        ⊎ ((s' : Disk) × (q : ℕ) × (reserve_sector a.allocate s e num ≡ ok (s', q, true))
            × a.IsSound s'
            × Grew a.Own s s'
            × Slot a.Own s s' e q)
  unfolding reserve_sector
  sector_total s e num h = elim (Bool-cases (e == 0)) [
    | inr n ↦
        inr (s, e, rw n refl, h, Grew-refl a.Own s, kept (λ z. absurd (ground (arith, n, z))) refl)
    | inl y ↦ elim (a.total s h) [
      | inl (s1, p) ↦ inl (s1, rw (y, p) refl)
      | inr (s1, q, p, k, h1) ↦
          let r1 = a.ready s1 h1 in
          let (c, w, v, r) = write_lem s1.cache q zero_sector r1 (rw k.size k.on_device) in
          let (g, f) = cleared_lem a s s1 q c k r v in
          let h2 =
            a.stays s1 c h1 r
              (λ t o.
                v t
                ∙ if_other zero_sector (view s1.cache t) q t
                    (λ z. k.foreign (subst a.Own (sym z) o)))
              (λ t l. ap length (v t) ∙ cleared_size q t (view s1.cache t) l) in
          inr (record s1 { cache = c }, q, rw (y, p, w) refl, h2, g, new (ground (arith, y)) f)
    ]
  ]

  step_ok :
      (m : ℕ) (s s1 s2 : Disk) (e q : ℕ) (l l2 : List ℕ)
      → reserve_sector a.allocate s e 1 ≡ ok (s1, q, true)
      → reserve_entries (reserve_sector a.allocate) 1 m s1 l m ≡ ok (s2, l2, 0, true)
      → reserve_entries (reserve_sector a.allocate) 1 (suc m) s (e ∷ l) (suc m)
        ≡ ok (s2, q ∷ l2, 0, true)
  unfolding reserve_entries
  step_ok m s s1 s2 e q l l2 x y =
      let one : smaller (suc m) 1 ≡ 1 = ground arith in
      let less : suc m - 1 ≡ m = omega arith in rw (one, less, x, y) refl

  step_fails :
      (m : ℕ) (s s1 : Disk) (e q : ℕ) (l : List ℕ)
      → reserve_sector a.allocate s e 1 ≡ ok (s1, q, false)
      → reserve_entries (reserve_sector a.allocate) 1 (suc m) s (e ∷ l) (suc m)
        ≡ ok (s1, q ∷ l, suc m, false)
  unfolding reserve_entries
  step_fails m s s1 e q l x = let one : smaller (suc m) 1 ≡ 1 = ground arith in rw (one, x) refl

  step_stops :
      (m : ℕ) (s s1 s2 : Disk) (e q n : ℕ) (l l2 : List ℕ)
      → reserve_sector a.allocate s e 1 ≡ ok (s1, q, true)
      → reserve_entries (reserve_sector a.allocate) 1 m s1 l m ≡ ok (s2, l2, n, false)
      → reserve_entries (reserve_sector a.allocate) 1 (suc m) s (e ∷ l) (suc m)
        ≡ ok (s2, q ∷ l2, n, false)
  unfolding reserve_entries
  step_stops m s s1 s2 e q n l l2 x y =
      let one : smaller (suc m) 1 ≡ 1 = ground arith in
      let less : suc m - 1 ≡ m = omega arith in rw (one, less, x, y) refl

  loop_total :
      (m : ℕ) (s : Disk) (l : List ℕ)
      → a.IsSound s
      → m ≤ length l
      → ((s' : Disk) × (l' : List ℕ) × (n : ℕ) × (reserve_entries
              (reserve_sector a.allocate)
              1
              m
              s
              l
              m
            ≡ ok (s', l', n, false)))
        ⊎ ((s' : Disk) × (l' : List ℕ) × (reserve_entries (reserve_sector a.allocate) 1 m s l m
              ≡ ok (s', l', 0, true))
            × a.IsSound s'
            × Filled a.Own s s' m l l')
  unfolding reserve_entries
  loop_total zero s l h b = inr (s, l, refl, h, Filled-zero a.Own s l)
  loop_total (suc m) s [] h b = absurd (omega (arith, b))
  loop_total (suc m) s (e ∷ l) h b = elim (sector_total s e 1 h) [
    | inl (s1, x) ↦ inl (s1, e ∷ l, suc m, step_fails m s s1 e e l x)
    | inr (s1, q, x, h1, g, y) ↦ elim (loop_total m s1 l h1 (omega (arith, b))) [
      | inl (s2, l2, n, z) ↦ inl (s2, q ∷ l2, n, step_stops m s s1 s2 e q n l l2 x z)
      | inr (s2, l2, z, h2, f) ↦ inr (
        s2,
        q ∷ l2,
        step_ok m s s1 s2 e q l l2 x z,
        h2,
        Filled-suc a.Own s s1 s2 e q l l2 m g y f,
      )
    ]
  ]

  -- What inode_reserve does for a file of at most 123 sectors.
  pub data Reserved (s s' : Disk) (d : InodeDisk) (m : ℕ) : Bool → InodeDisk → Type 0 where
    failed : {d' : InodeDisk} → Reserved s s' d m false d'
    reserved :
        {blocks : List ℕ}
        → a.IsSound s'
        → Filled a.Own s s' m d.dir_blocks blocks
        → Reserved s s' d m true (record d { dir_blocks = blocks })

  pub reserve_total :
      (s : Disk) (d : InodeDisk) (len : ℕ)
      → a.IsSound s
      → length d.dir_blocks ≡ direct
      → bytes_to_sectors len ≤ direct
      → (s' : Disk) × (d' : InodeDisk) × (done : Bool) × (inode_reserve a.allocate s d len
          ≡ ok (s', d', done))
        × Reserved s s' d (bytes_to_sectors len) done d'
  unfolding inode_reserve
  reserve_total s d len h c b =
      let m = bytes_to_sectors len in
      let most : smaller m direct ≡ m = ground (arith, b) in
      let none_left : m - m == 0 ≡ true = ground arith in
      elim (loop_total m s d.dir_blocks h (omega (arith, c, b))) [
        | inl (s1, l, n, e) ↦ (s1, record d { dir_blocks = l }, false, rw (most, e) refl, failed)
        | inr (s1, l, e, h1, f) ↦
            (s1, record d { dir_blocks = l }, true, rw (most, e, none_left) refl, reserved h1 f)
      ]
