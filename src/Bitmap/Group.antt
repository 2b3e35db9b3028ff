-- ===== src/Bitmap/Group.antt =====
-- Groups of bits: to set, count and search them.
use native.Mathlib.Decide.{ℕ_discrete}
use os_pintos.Common.{
  ℕ, zero, suc, ◌+◌, ◌≤◌, ◌<◌, ◌≡◌, refl, ◌∙◌, Bool, true, false, not, ok, arith, ltb, leb,
  if◌then◌else◌, inl, inr, ◌&&◌, Bool-cases,
}
use os_pintos.Bitmap.{Bitmap, same, set_from, bitmap_set_multiple, contains_from, bitmap_contains}
use os_pintos.Bitmap.Single.{IsValid, holds, test_total, set_total}

-- The bits `i` to `i + n`, exclusive, all have the value.
abbrev pub AllAre : Bitmap → ℕ → ℕ → Bool → Type 0
AllAre b i n value = (j : ℕ) → i ≤ j → j < i + n → holds b j ≡ value

abbrev pub inside : ℕ → ℕ → ℕ → Bool
inside i n j = leb i j && ltb j (i + n)

pub record Filled (b : Bitmap) (i n : ℕ) (value : Bool) (b' : Bitmap) : Type 0 where
  pub valid : IsValid b'
  pub size : b'.bit_cnt ≡ b.bit_cnt
  pub bits : (j : ℕ) → holds b' j ≡ (if inside i n j then value else holds b j)

set_from_total :
    (n i : ℕ) (value : Bool) (b : Bitmap)
    → IsValid b
    → i + n ≤ b.bit_cnt
    → (b' : Bitmap) × (set_from n i value b ≡ ok b') × Filled b i n value b'
unfolding set_from
set_from_total zero i value b v h =
    (b, refl, record { valid = v; size = refl; bits = λ j. ground arith })
set_from_total (suc n) i value b v h =
    let (b1, q1, t) = set_total b i value v (omega arith) in
    let (b2, q2, f) = set_from_total n (suc i) value b1 t.valid (omega (arith, t.size)) in
    (
      b2,
      ground (arith, q1, q2),
      record {
        valid = f.valid;
        size = f.size ∙ t.size;
        bits = λ j. ground (arith, f.bits j, t.bits j);
      },
    )

-- A group in range is set to the value, and no other bit changes.
pub set_multiple_total :
    (b : Bitmap) (start cnt : ℕ) (value : Bool)
    → IsValid b
    → start + cnt ≤ b.bit_cnt
    → (b' : Bitmap) × (bitmap_set_multiple b start cnt value ≡ ok b') × Filled b start cnt value b'
unfolding bitmap_set_multiple
set_multiple_total b start cnt value v h =
    let (b', q, f) = set_from_total cnt start value b v h in (b', ground (arith, q, v.small), f)

-- What a search of a group for a value reports.
unfoldable pub Reports : Bitmap → ℕ → ℕ → Bool → Bool → Type 0
Reports b i n value true = (j : ℕ) × (i ≤ j) × (j < i + n) × (holds b j ≡ value)
Reports b i n value false = AllAre b i n (not value)

same-true : (t value : Bool) → same t value ≡ true → t ≡ value
same-true true value h = ground arith
same-true false value h = ground arith

same-false : (t value : Bool) → same t value ≡ false → t ≡ not value
same-false true value h = ground arith
same-false false value h = ground arith

AllAre-suc :
    (b : Bitmap) (i n : ℕ) (value : Bool)
    → holds b i ≡ value
    → AllAre b (suc i) n value
    → AllAre b i (suc n) value
AllAre-suc b i n value h a j p q = elim (ℕ_discrete i j) [
  | yes e ↦ rw e at h
  | no ne ↦ a j (omega arith) (omega arith)
]

Reports-suc :
    (b : Bitmap) (i n : ℕ) (value r : Bool)
    → holds b i ≡ not value
    → Reports b (suc i) n value r
    → Reports b i (suc n) value r
unfolding Reports
Reports-suc b i n value true h (j, p, q, e) = (j, omega arith, omega arith, e)
Reports-suc b i n value false h a = AllAre-suc b i n (not value) h a

contains_from_total :
    (n i : ℕ) (value : Bool) (b : Bitmap)
    → IsValid b
    → i + n ≤ b.bit_cnt
    → (r : Bool) × (contains_from n i value b ≡ ok r) × Reports b i n value r
unfolding contains_from Reports
contains_from_total zero i value b v h = (false, refl, λ j p q. absurd (omega arith))
contains_from_total (suc n) i value b v h =
    let test = test_total b i v (omega arith) in
    elim (Bool-cases (same (holds b i) value)) [
      | inl hit ↦ (
        true,
        ground (arith, test, hit),
        (i, omega arith, omega arith, same-true (holds b i) value hit),
      )
      | inr miss ↦
          let (r, q, f) = contains_from_total n (suc i) value b v (omega arith) in
          (
            r,
            ground (arith, test, miss, q),
            Reports-suc b i n value r (same-false (holds b i) value miss) f,
          )
    ]

pub contains_total :
    (b : Bitmap) (start cnt : ℕ) (value : Bool)
    → IsValid b
    → start + cnt ≤ b.bit_cnt
    → (r : Bool) × (bitmap_contains b start cnt value ≡ ok r) × Reports b start cnt value r
unfolding bitmap_contains
contains_total b start cnt value v h =
    let (r, q, f) = contains_from_total cnt start value b v h in (r, ground (arith, q, v.small), f)
