-- ===== src/Bitmap/Reuse.antt =====
-- Groups of bits that are set, and cleared again.
use os_pintos.Common.{
  ℕ, ◌+◌, ◌≤◌, ◌<◌, ◌≡◌, refl, sym, ◌∙◌, Bool, true, false, ok, arith, inl, inr, Bool-cases,
}
use os_pintos.Bitmap.{Bitmap, bitmap_all}
use os_pintos.Bitmap.Single.{IsValid, holds}
use os_pintos.Bitmap.Group.{AllAre, inside, Filled, Reports, contains_total}

reported :
    (b : Bitmap) (i n : ℕ)
    → Reports b i n false true
    → (j : ℕ) × (i ≤ j) × (j < i + n) × (holds b j ≡ false)
unfolding Reports
reported b i n f = f

pub all_used :
    (b : Bitmap) (i n : ℕ)
    → IsValid b
    → i + n ≤ b.bit_cnt
    → AllAre b i n true
    → bitmap_all b i n ≡ ok true
unfolding bitmap_all
all_used b i n v h a =
    let (r, e, f) = contains_total b i n false v h in ground (arith, e, none_reported b i n r a f)
  where
    none_reported :
        (b : Bitmap) (i n : ℕ) (r : Bool) → AllAre b i n true → Reports b i n false r → r ≡ false
    none_reported b i n false a f = refl
    none_reported b i n true a f =
        let (j, p, q, e) = reported b i n f in absurd (ground (arith, a j p q, e))

-- A group that was set, and cleared again, leaves the bits as they were.
pub cleared_again :
    (b b1 b2 : Bitmap) (i n j : ℕ)
    → AllAre b i n false
    → Filled b i n true b1
    → Filled b1 i n false b2
    → holds b2 j ≡ holds b j
cleared_again b b1 b2 i n j a f g =
    let x = f.bits j in
    let y = g.bits j in
    elim (Bool-cases (inside i n j)) [
      | inl p ↦
          let now : holds b2 j ≡ false = rw p at y in
          now ∙ sym (a j (ground (arith, p)) (ground (arith, p)))
      | inr p ↦
          let before : holds b1 j ≡ holds b j = rw p at x in
          let later : holds b2 j ≡ holds b1 j = rw p at y in later ∙ before
    ]
