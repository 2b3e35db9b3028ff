-- ===== src/Bitmap/Scan.antt =====
-- The search for a group of bits, and the allocation that flips the group found.
use native.Mathlib.Decide.{ℕ_discrete}
use mathlib.Core.Bool.{not-not}
use os_pintos.Common.{
  ℕ, zero, suc, ◌+◌, ◌-◌, ◌≤◌, ◌<◌, ◌≡◌, refl, ◌∙◌, Bool, true, false, not, ok, arith, leb, ◌⊎◌,
  inl, inr, Bool-cases,
}
use os_pintos.Bitmap.{Bitmap, bitmap_error, scan_from, bitmap_scan, bitmap_scan_and_flip}
use os_pintos.Bitmap.Single.{IsValid}
use os_pintos.Bitmap.Group.{AllAre, Filled, Reports, set_multiple_total, contains_total}

-- No group of `cnt` bits from a place in `lo` to `hi`, exclusive, has the value throughout.
abbrev pub NoGroup : Bitmap → ℕ → ℕ → ℕ → Bool → Type 0
NoGroup b lo hi cnt value = (k : ℕ) → lo ≤ k → k < hi → ¬ (AllAre b k cnt value)

-- What a scan from `start` returns: the first group, or the error value if there is none.
pub data Scanned (b : Bitmap) (start cnt : ℕ) (value : Bool) (idx : ℕ) : Type 0 where
  found :
      start ≤ idx
      → idx + cnt ≤ b.bit_cnt
      → AllAre b idx cnt value
      → NoGroup b start idx cnt value
      → Scanned b start cnt value idx
  missing :
      idx ≡ bitmap_error
      → NoGroup b start (b.bit_cnt + 1 - cnt) cnt value
      → Scanned b start cnt value idx

-- What the test of a place means.
group_or_not :
    (b : Bitmap) (k cnt : ℕ) (value t : Bool)
    → Reports b k cnt (not value) t
    → ((t ≡ true) × ¬ (AllAre b k cnt value)) ⊎ ((t ≡ false) × AllAre b k cnt value)
unfolding Reports
group_or_not b k cnt value true (j, p, q, e) = inl (refl, λ a. ground (arith, a j p q))
group_or_not b k cnt value false a = inr (refl, λ j p q. a j p q ∙ not-not value)

NoGroup-suc :
    (b : Bitmap) (i hi cnt : ℕ) (value : Bool)
    → ¬ (AllAre b i cnt value)
    → NoGroup b (suc i) hi cnt value
    → NoGroup b i hi cnt value
NoGroup-suc b i hi cnt value here later k p q = elim (ℕ_discrete i k) [
  | yes e ↦ rw e at here
  | no ne ↦ later k (omega arith) q
]

Scanned-suc :
    (b : Bitmap) (i cnt : ℕ) (value : Bool) (idx : ℕ)
    → ¬ (AllAre b i cnt value)
    → Scanned b (suc i) cnt value idx
    → Scanned b i cnt value idx
Scanned-suc b i cnt value idx no_group (found p q a m) =
    found (omega arith) q a (NoGroup-suc b i idx cnt value no_group m)
Scanned-suc b i cnt value idx no_group (missing e m) =
    missing e (NoGroup-suc b i (b.bit_cnt + 1 - cnt) cnt value no_group m)

scan_from_total :
    (n i cnt : ℕ) (value : Bool) (b : Bitmap)
    → IsValid b
    → n ≡ b.bit_cnt + 1 - cnt - i
    → (idx : ℕ) × (scan_from n i cnt value b ≡ ok idx) × Scanned b i cnt value idx
unfolding scan_from
scan_from_total zero i cnt value b v h =
    (bitmap_error, refl, missing refl (λ k p q. absurd (omega arith)))
scan_from_total (suc n) i cnt value b v h =
    let (t, q, f) = contains_total b i cnt (not value) v (omega arith) in
    elim (group_or_not b i cnt value t f) [
      | inl (hit, no_group) ↦
          let (idx, r, s) = scan_from_total n (suc i) cnt value b v (omega arith) in
          (idx, ground (arith, q, hit, r), Scanned-suc b i cnt value idx no_group s)
      | inr (miss, group) ↦ (
        i,
        ground (arith, q, miss),
        found (omega arith) (omega arith) group (λ k p r. absurd (omega arith)),
      )
    ]

-- bitmap_scan returns the first place at or after `start` where `cnt` bits have the value, and the
-- error value exactly if there is no such place.
pub scan_total :
    (b : Bitmap) (start cnt : ℕ) (value : Bool)
    → IsValid b
    → start ≤ b.bit_cnt
    → (idx : ℕ) × (bitmap_scan b start cnt value ≡ ok idx) × Scanned b start cnt value idx
unfolding bitmap_scan
scan_total b start cnt value v h = elim (Bool-cases (leb cnt b.bit_cnt)) [
  | inl fits ↦
      let (idx, q, s) =
        scan_from_total (b.bit_cnt - cnt + 1 - start) start cnt value b v (ground arith) in
      (idx, ground (arith, fits, q), s)
  | inr large ↦ (bitmap_error, ground (arith, large), missing refl (λ k p q. absurd (ground arith)))
]

-- What bitmap_scan_and_flip leaves: the group that it found has the other value, or nothing has
-- changed.
pub data Flipped (b : Bitmap) (start cnt : ℕ) (value : Bool) (idx : ℕ) (b' : Bitmap) : Type 0 where
  flipped :
      start ≤ idx
      → idx + cnt ≤ b.bit_cnt
      → AllAre b idx cnt value
      → NoGroup b start idx cnt value
      → Filled b idx cnt (not value) b'
      → Flipped b start cnt value idx b'
  unchanged :
      idx ≡ bitmap_error
      → NoGroup b start (b.bit_cnt + 1 - cnt) cnt value
      → b' ≡ b
      → Flipped b start cnt value idx b'

flip_found :
    (b : Bitmap) (start cnt : ℕ) (value : Bool) (idx : ℕ)
    → IsValid b
    → bitmap_scan b start cnt value ≡ ok idx
    → Scanned b start cnt value idx
    → (b' : Bitmap) × (bitmap_scan_and_flip b start cnt value ≡ ok (idx, b'))
      × Flipped b start cnt value idx b'
unfolding bitmap_scan_and_flip
flip_found b start cnt value idx v q (found p r a m) =
    let (b', s, f) = set_multiple_total b idx cnt (not value) v r in
    (b', ground (arith, q, s, v.small), flipped p r a m f)
flip_found b start cnt value idx v q (missing e m) = (b, ground (arith, q, e), unchanged e m refl)

-- bitmap_scan_and_flip flips the first group of `cnt` bits with the value at or after `start`, which
-- for no bits is `start` itself, and no other bit; it returns the error value and changes nothing exactly if there is no such group.
pub scan_and_flip_total :
    (b : Bitmap) (start cnt : ℕ) (value : Bool)
    → IsValid b
    → start ≤ b.bit_cnt
    → (idx : ℕ) × (b' : Bitmap) × (bitmap_scan_and_flip b start cnt value ≡ ok (idx, b'))
      × Flipped b start cnt value idx b'
scan_and_flip_total b start cnt value v h =
    let (idx, q, s) = scan_total b start cnt value v h in
    let (b', r, f) = flip_found b start cnt value idx v q s in (idx, b', r, f)
