-- ===== src/Bitmap/Single.antt =====
-- One bit of a bitmap: what a test reads and what a set changes.
use Prim.Native.Nat.{bit_and, bit_or, bit_xor, differ}
use os_pintos.Common.{
  ℕ, zero, suc, ◌-◌, ◌*◌, ◌/◌, ◌%◌, ◌^◌, ◌≤◌, ◌<◌, ◌≡◌, refl, List, [], ◌∷◌, Bool, true, false, not,
  some, ok, arith, ◌==◌, if◌then◌else◌, get_elem?, set, length, length-set, get_elem?_of_lt, lt→ltb,
  ◌⊎◌,
}
use os_pintos.Common.Bits.{
  bit, bit-lt_two, bit-bit_and, bit-bit_or, bit-bit_xor, bit-pow, bit-mask_out, bit_and-pow,
}
use os_pintos.Bitmap.{
  Bitmap, elem_bits, elem_idx, complement, marked, cleared, flipped, update, bitmap_flip,
  bitmap_reset, bitmap_set, bitmap_test, bitmap_error,
}

-- There are words for all bits, and the number of bits is none of the special values.
pub record IsValid (b : Bitmap) : Type 0 where
  pub room : b.bit_cnt ≤ elem_bits * length b.bits
  pub small : b.bit_cnt < bitmap_error

-- Bit `i` of a row of words.
abbrev pub word : List ℕ → ℕ → ℕ
word [] k = 0
word (w ∷ ws) zero = w
word (w ∷ ws) (suc k) = word ws k

abbrev pub holds : Bitmap → ℕ → Bool
holds b i = not (bit (word b.bits (i / elem_bits)) (i % elem_bits) == 0)

word_of_get_elem? : (ws : List ℕ) (k : ℕ) {w : ℕ} → get_elem? ws k ≡ some w → word ws k ≡ w
word_of_get_elem? [] k h = cc
word_of_get_elem? (w ∷ ws) zero h = ground arith
word_of_get_elem? (w ∷ ws) (suc k) h = word_of_get_elem? ws k h

word-set :
    (ws : List ℕ) (k w j : ℕ)
    → k < length ws
    → word (set ws k w) j ≡ (if k == j then w else word ws j)
word-set [] k w j h = elim h [ ]
word-set (x ∷ ws) zero w zero h = refl
word-set (x ∷ ws) zero w (suc j) h = ground arith
word-set (x ∷ ws) (suc k) w zero h = ground arith
word-set (x ∷ ws) (suc k) w (suc j) h = ground (arith, word-set ws k w j (omega arith))

-- The words that an update at bit `i` leaves.
abbrev pub updated : Bitmap → ℕ → (ℕ → ℕ) → Bitmap
updated b i f = record b { bits = set b.bits (elem_idx i) (f (word b.bits (elem_idx i))) }

pub update_total :
    (b : Bitmap) (i : ℕ) (f : ℕ → ℕ)
    → IsValid b
    → i < b.bit_cnt
    → update b (elem_idx i) f ≡ ok (updated b i f)
update_total b i f v h =
    let (w, p) = get_elem?_of_lt b.bits (elem_idx i) (omega (arith, v.room)) in
    ground (arith, p, word_of_get_elem? b.bits (elem_idx i) p)

pub updated-IsValid : (b : Bitmap) (i : ℕ) (f : ℕ → ℕ) → IsValid b → IsValid (updated b i f)
updated-IsValid b i f v = record {
  room = omega (arith, v.room, length-set b.bits (elem_idx i) (f (word b.bits (elem_idx i))));
  small = v.small;
}

-- A change of one word that turns bit `i` by `g`, and no other bit.
holds-updated :
    (b : Bitmap) (i : ℕ) (f : ℕ → ℕ) (g : Bool → Bool)
    → IsValid b
    → i < b.bit_cnt
    → ((w k : ℕ)
        → k < 32
        → not (bit (f w) k == 0)
          ≡ (if i % 32 == k then g (not (bit w k == 0)) else not (bit w k == 0)))
    → (j : ℕ) → holds (updated b i f) j ≡ (if i == j then g (holds b j) else holds b j)
holds-updated b i f g v h c j = ground (
  arith,
  word-set b.bits (i / 32) (f (word b.bits (i / 32))) (j / 32) (omega (arith, v.room)),
  c (word b.bits (i / 32)) (j % 32) (omega arith),
)

pub test_total : (b : Bitmap) (i : ℕ) → IsValid b → i < b.bit_cnt → bitmap_test b i ≡ ok (holds b i)
unfolding bitmap_test
test_total b i v h =
    let (w, p) = get_elem?_of_lt b.bits (elem_idx i) (omega (arith, v.room)) in
    rw (lt→ltb i b.bit_cnt h, p, word_of_get_elem? b.bits (elem_idx i) p, bit_and-pow w (i % 32))

-- `b'` is `b` with bit `i` turned by `g`.
pub record Turns (b : Bitmap) (i : ℕ) (g : Bool → Bool) (b' : Bitmap) : Type 0 where
  pub valid : IsValid b'
  pub size : b'.bit_cnt ≡ b.bit_cnt
  pub bits : (j : ℕ) → holds b' j ≡ (if i == j then g (holds b j) else holds b j)

marked_bit :
    (w i k : ℕ)
    → not (bit (bit_or w (2 ^ i)) k == 0) ≡ (if i == k then true else not (bit w k == 0))
marked_bit w i k = ground (arith, bit-bit_or w (2 ^ i) k, bit-pow i k, bit-lt_two w k)

cleared_bit :
    (w i k : ℕ)
    → i < 32
    → k < 32
    → not (bit (bit_and w (complement (2 ^ i))) k == 0)
      ≡ (if i == k then false else not (bit w k == 0))
cleared_bit w i k p q =
    ground (arith, bit-bit_and w (complement (2 ^ i)) k, bit-mask_out 32 i k p, bit-lt_two w k)

differ_digit : (x y : ℕ) → x < 2 → (y ≡ 0) ⊎ (y ≡ 1) → differ x y ≡ (if y == 0 then x else 1 - x)
differ_digit zero zero p h = refl
differ_digit zero (suc y) p h = ground arith
differ_digit (suc x) zero p h = refl
differ_digit (suc x) (suc zero) p h = ground arith
differ_digit (suc x) (suc (suc y)) p h = absurd (omega arith)

flipped_bit :
    (w i k : ℕ)
    → not (bit (bit_xor w (2 ^ i)) k == 0)
      ≡ (if i == k then not (not (bit w k == 0)) else not (bit w k == 0))
flipped_bit w i k = ground (
  arith,
  bit-bit_xor w (2 ^ i) k,
  bit-pow i k,
  bit-lt_two w k,
  differ_digit (bit w k) (bit (2 ^ i) k),
)

module _ (b : Bitmap) (i : ℕ) (f : ℕ → ℕ) (g : Bool → Bool) (v : IsValid b)
    (h : i < b.bit_cnt) where
  updated-Turns :
      ((w k : ℕ)
        → k < 32
        → not (bit (f w) k == 0)
          ≡ (if i % 32 == k then g (not (bit w k == 0)) else not (bit w k == 0)))
      → Turns b i g (updated b i f)
  updated-Turns c = record {
    valid = updated-IsValid b i f v;
    size = refl;
    bits = holds-updated b i f g v h c;
  }

-- A set of a bit in range succeeds and gives that bit the value; no other bit changes.
pub set_total :
    (b : Bitmap) (i : ℕ) (value : Bool)
    → IsValid b
    → i < b.bit_cnt
    → (b' : Bitmap) × (bitmap_set b i value ≡ ok b') × Turns b i (λ _. value) b'
unfolding bitmap_set
set_total b i true v h = (
  updated b i (marked i),
  rw (lt→ltb i b.bit_cnt h) (update_total b i (marked i) v h),
  updated-Turns b i (marked i) (λ _. true) v h (λ w k q. marked_bit w (i % 32) k),
)
set_total b i false v h = (
  updated b i (cleared i),
  rw (lt→ltb i b.bit_cnt h) (update_total b i (cleared i) v h),
  updated-Turns b i (cleared i) (λ _. false) v h
      (λ w k q. cleared_bit w (i % 32) k (omega arith) q),
)

-- A flip of a bit in range toggles that bit and no other.
pub flip_total :
    (b : Bitmap) (i : ℕ)
    → IsValid b
    → i < b.bit_cnt
    → (b' : Bitmap) × (bitmap_flip b i ≡ ok b') × Turns b i not b'
unfolding bitmap_flip
flip_total b i v h = (
  updated b i (flipped i),
  update_total b i (flipped i) v h,
  updated-Turns b i (flipped i) not v h (λ w k q. flipped_bit w (i % 32) k),
)

-- bitmap_reset clears a bit in range and no other.
pub reset_total :
    (b : Bitmap) (i : ℕ)
    → IsValid b
    → i < b.bit_cnt
    → (b' : Bitmap) × (bitmap_reset b i ≡ ok b') × Turns b i (λ _. false) b'
unfolding bitmap_reset
reset_total b i v h = (
  updated b i (cleared i),
  update_total b i (cleared i) v h,
  updated-Turns b i (cleared i) (λ _. false) v h
      (λ w k q. cleared_bit w (i % 32) k (omega arith) q),
)
