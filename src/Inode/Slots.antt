-- ===== src/Inode/Slots.antt =====
-- The entries of a file that are reserved one after the other: those that it has stay, and those that
-- it lacks are new, cleared, and different from each other.
use os_pintos.Common.{
  ℕ, zero, suc, ◌≤◌, ◌<◌, ◌≡◌, ◌≢◌, refl, sym, ◌∙◌, ap, List, ◌∷◌, false, arith, length,
}
use os_pintos.Bitmap.Single.{holds}
use os_pintos.Inode.{nth}
use os_pintos.Inode.Growth.{Disk}
use os_pintos.Inode.Allocator.{Grew, Grew-refl, Grew-trans, Fresh, Fresh-later, Fresh-earlier}

-- An entry that was there, or one for which a sector was found.
pub data Slot (Own : ℕ → Type 0) (s s' : Disk) (e q : ℕ) : Type 0 where
  kept : e ≢ 0 → q ≡ e → Slot Own s s' e q
  new : e ≡ 0 → Fresh Own s s' q → Slot Own s s' e q

Fresh-of_Slot :
    (Own : ℕ → Type 0) (s s' : Disk) (e q : ℕ) → Slot Own s s' e q → e ≡ 0 → Fresh Own s s' q
Fresh-of_Slot Own s s' e q (kept n _) z = absurd (n z)
Fresh-of_Slot Own s s' e q (new _ f) z = f

Slot-later :
    (Own : ℕ → Type 0) (a b c : Disk) (e q : ℕ) → Slot Own a b e q → Grew Own b c → Slot Own a c e q
Slot-later Own a b c e q (kept n h) g = kept n h
Slot-later Own a b c e q (new z f) g = new z (Fresh-later Own a b c q f g)

Slot-earlier :
    (Own : ℕ → Type 0) (a b c : Disk) (e q : ℕ) → Grew Own a b → Slot Own b c e q → Slot Own a c e q
Slot-earlier Own a b c e q g (kept n h) = kept n h
Slot-earlier Own a b c e q g (new z f) = new z (Fresh-earlier Own a b c q g f)

-- The first `m` entries are there afterwards.
pub record Filled (Own : ℕ → Type 0) (s s' : Disk) (m : ℕ) (l l' : List ℕ) : Type 0 where
  pub entries : (i : ℕ) → i < m → Slot Own s s' (nth l i) (nth l' i)
  pub beyond : (i : ℕ) → m ≤ i → nth l' i ≡ nth l i
  pub distinct : (i j : ℕ) → i < m → j < m → nth l i ≡ 0 → nth l j ≡ 0 → nth l' i ≡ nth l' j → i ≡ j
  pub count : length l' ≡ length l
  pub grew : Grew Own s s'

pub Filled-zero : (Own : ℕ → Type 0) (s : Disk) (l : List ℕ) → Filled Own s s 0 l l
Filled-zero Own s l = record {
  entries = λ i h. absurd (omega (arith, h));
  beyond = λ i h. refl;
  distinct = λ i j h. absurd (omega (arith, h));
  count = refl;
  grew = Grew-refl Own s;
}

module _ (Own : ℕ → Type 0) (a b c : Disk) (e q : ℕ) (l l' : List ℕ) (m : ℕ) where
  apart :
      Grew Own a b
      → Slot Own a b e q
      → Filled Own b c m l l'
      → (j : ℕ) → j < m
      → e ≡ 0
      → nth l j ≡ 0
      → q ≢ nth l' j
  apart g x f j h z y p =
      let first = Fresh-of_Slot Own a b e q x z in
      let later = Fresh-of_Slot Own b c (nth l j) (nth l' j) (f.entries j h) y in
      let k : holds b.free_map q ≡ false = ap (holds b.free_map) p ∙ later.free in
      ground (arith, k, first.marked)

  pub Filled-suc :
      Grew Own a b
      → Slot Own a b e q
      → Filled Own b c m l l'
      → Filled Own a c (suc m) (e ∷ l) (q ∷ l')
  Filled-suc g x f = record {
    entries = each;
    beyond = later;
    distinct = different;
    count = ap suc f.count;
    grew = Grew-trans Own a b c g f.grew;
  }
    where
      each : (i : ℕ) → i < suc m → Slot Own a c (nth (e ∷ l) i) (nth (q ∷ l') i)
      each zero h = Slot-later Own a b c e q x f.grew
      each (suc i) h =
          Slot-earlier Own a b c (nth l i) (nth l' i) g (f.entries i (omega (arith, h)))

      later : (i : ℕ) → suc m ≤ i → nth (q ∷ l') i ≡ nth (e ∷ l) i
      later zero h = absurd (omega (arith, h))
      later (suc i) h = f.beyond i (omega (arith, h))

      different :
          (i j : ℕ)
          → i < suc m
          → j < suc m
          → nth (e ∷ l) i ≡ 0
          → nth (e ∷ l) j ≡ 0
          → nth (q ∷ l') i ≡ nth (q ∷ l') j
          → i ≡ j
      different zero zero h k y z p = refl
      different zero (suc j) h k y z p = absurd (apart g x f j (omega (arith, k)) y z p)
      different (suc i) zero h k y z p = absurd (apart g x f i (omega (arith, h)) z y (sym p))
      different (suc i) (suc j) h k y z p =
          ap suc (f.distinct i j (omega (arith, h)) (omega (arith, k)) y z p)
