-- ===== src/Inode/Grown.antt =====
-- The sectors of a file after inode_reserve are its own, and hold what they held, or zeros.
use mathlib.Core.Path.{subst}
use os_pintos.Common.{
  ℕ, ◌<◌, ◌≡◌, ◌≢◌, sym, ◌∙◌, ap, List, true, false, arith, inl, inr, Bool-cases, ltb,
}
use os_pintos.Bitmap.Single.{holds}
use os_pintos.Cache.Invariant.{view}
use os_pintos.Inode.{nth}
use os_pintos.Inode.Growth.{Disk, zero_sector}
use os_pintos.Inode.Allocator.{Fresh}
use os_pintos.Inode.Slots.{kept, new, Filled}

-- The sectors of a file without index blocks: marked, on the device, not the free map's, and
-- different from each other.
pub record Owns (Own : ℕ → Type 0) (s : Disk) (l : List ℕ) : Type 0 where
  pub marked : (i : ℕ) → nth l i ≢ 0 → holds s.free_map (nth l i) ≡ true
  pub on_device : (i : ℕ) → nth l i ≢ 0 → nth l i < s.cache.device.size
  pub foreign : (i : ℕ) → nth l i ≢ 0 → ¬ Own (nth l i)
  pub distinct : (i j : ℕ) → nth l i ≢ 0 → nth l i ≡ nth l j → i ≡ j

-- How an entry of the grown file relates to the old one.
pub data Origin (Own : ℕ → Type 0) (s s' : Disk) (l l' : List ℕ) (i : ℕ) : Type 0 where
  old : nth l' i ≡ nth l i → Origin Own s s' l l' i
  fresh : nth l i ≡ 0 → Fresh Own s s' (nth l' i) → Origin Own s s' l l' i

module _ (Own : ℕ → Type 0) (s s' : Disk) (m : ℕ) (l l' : List ℕ) where
  pub origin : Filled Own s s' m l l' → (i : ℕ) → Origin Own s s' l l' i
  origin f i = elim (Bool-cases (ltb i m)) [
    | inr n ↦ old (f.beyond i (ground (arith, n)))
    | inl y ↦ elim (f.entries i (ground (arith, y))) [ kept n e ↦ old e | new z h ↦ fresh z h ]
  ]

  -- An index whose sector is new comes before the end.
  below : Filled Own s s' m l l' → (i : ℕ) → nth l i ≡ 0 → Fresh Own s s' (nth l' i) → i < m
  below f i z h = elim (Bool-cases (ltb i m)) [
    | inl y ↦ ground (arith, y)
    | inr n ↦ absurd (h.used (f.beyond i (ground (arith, n)) ∙ z))
  ]

  module _ (f : Filled Own s s' m l l') (o : Owns Own s l) where
    marked_lem :
        (i : ℕ) → Origin Own s s' l l' i → nth l' i ≢ 0 → holds s'.free_map (nth l' i) ≡ true
    marked_lem i (fresh z h) n = h.marked
    marked_lem i (old e) n = rw e (f.grew.marks (nth l i) (o.marked i (λ z. n (e ∙ z))))

    on_device_lem :
        (i : ℕ) → Origin Own s s' l l' i → nth l' i ≢ 0 → nth l' i < s'.cache.device.size
    on_device_lem i (fresh z h) n = h.on_device
    on_device_lem i (old e) n =
        subst (λ k. k < s'.cache.device.size) (sym e)
          (subst (λ k. nth l i < k) (sym f.grew.size) (o.on_device i (λ z. n (e ∙ z))))

    foreign_lem : (i : ℕ) → Origin Own s s' l l' i → nth l' i ≢ 0 → ¬ Own (nth l' i)
    foreign_lem i (fresh z h) n = h.foreign
    foreign_lem i (old e) n = subst (λ k. ¬ Own k) (sym e) (o.foreign i (λ z. n (e ∙ z)))

    -- A sector that was free is none that the file had.
    not_old : (i j : ℕ) → nth l j ≢ 0 → holds s.free_map (nth l' i) ≡ false → nth l' i ≢ nth l j
    not_old i j n h e =
        let q : holds s.free_map (nth l j) ≡ false = ap (holds s.free_map) (sym e) ∙ h in
        ground (arith, q, o.marked j n)

    distinct_lem :
        (i j : ℕ)
        → Origin Own s s' l l' i
        → Origin Own s s' l l' j
        → nth l' i ≢ 0
        → nth l' i ≡ nth l' j
        → i ≡ j
    distinct_lem i j (old p) (old q) n e = o.distinct i j (λ z. n (p ∙ z)) (sym p ∙ e ∙ q)
    distinct_lem i j (old p) (fresh z h) n e =
        absurd (not_old j i (λ y. n (p ∙ y)) h.free (sym e ∙ p))
    distinct_lem i j (fresh z h) (old q) n e =
        absurd (not_old i j (λ y. n (e ∙ q ∙ y)) h.free (e ∙ q))
    distinct_lem i j (fresh z h) (fresh y k) n e =
        f.distinct i j (below f i z h) (below f j y k) z y e

    pub Owns-grown : Owns Own s' l'
    Owns-grown = record {
      marked = λ i. marked_lem i (origin f i);
      on_device = λ i. on_device_lem i (origin f i);
      foreign = λ i. foreign_lem i (origin f i);
      distinct = λ i j. distinct_lem i j (origin f i) (origin f j);
    }

    pub nonzero : (i : ℕ) → i < m → nth l' i ≢ 0
    nonzero i h z = elim (f.entries i h) [ kept n e ↦ n (sym e ∙ z) | new y k ↦ k.used z ]

    -- What a sector of the file holds: zeros if it is new, and otherwise what it held.
    pub held :
        (i : ℕ)
        → Origin Own s s' l l' i
        → i < m
        → (nth l i ≢ 0 → view s'.cache (nth l' i) ≡ view s.cache (nth l i))
          × (nth l i ≡ 0 → view s'.cache (nth l' i) ≡ zero_sector)
    held i (old e) h =
        let n : nth l i ≢ 0 = λ z. nonzero i h (e ∙ z) in
        (
          λ _. ap (view s'.cache) e ∙ f.grew.same (nth l i) (o.marked i n) (o.foreign i n),
          λ z. absurd (n z),
        )
    held i (fresh z k) h = (λ n. absurd (n z), λ _. k.zeroed)
