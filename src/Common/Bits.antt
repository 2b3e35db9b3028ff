-- ===== src/Common/Bits.antt =====
-- The bits of a number, and what the native bit operations do to them. A law for the lowest bit
-- follows from the definition by digits; the law for every bit follows by recursion on its place.
use Prim.Native.Nat.{
  min, max, bit_and, bit_or, bit_xor, digits, differ, bit_and-bitwise, bit_or-bitwise,
}
use Prim.Native.Nat.{bit_xor-bitwise}
use native.Mathlib.Nat.{pow-suc}
use os_pintos.Common.{
  ℕ, zero, suc, ◌+◌, ◌-◌, ◌*◌, ◌/◌, ◌%◌, ◌^◌, ◌≤◌, ◌<◌, ◌≡◌, refl, arith, ◌==◌, ltb, ◌&&◌, not,
  Bool-cases, inl, inr, if◌then◌else◌,
}

-- Bit `k` of `n`, 0 or 1.
abbrev pub bit : ℕ → ℕ → ℕ
bit n zero = n % 2
bit n (suc k) = bit (n / 2) k

pub bit-lt_two : (n k : ℕ) → bit n k < 2
bit-lt_two n zero = omega arith
bit-lt_two n (suc k) = bit-lt_two (n / 2) k

bit-zero : (k : ℕ) → bit 0 k ≡ 0
bit-zero zero = refl
bit-zero (suc k) = bit-zero k

-- An operation `f` on digits acts on each bit by itself; `r` is what is left of the second number
-- once the first is used up.
module _ (r : ℕ → ℕ) (f : ℕ → ℕ → ℕ) where
  bit-digits :
      (small : (x y : ℕ) → x < 2 → y < 2 → f x y < 2)
      (rest : (y k : ℕ) → bit (r y) k ≡ f 0 (bit y k)) (n a b k : ℕ)
      → a ≤ n
      → bit (digits r f n a b) k ≡ f (bit a k) (bit b k)
  bit-digits small rest zero zero b k h = rw (bit-zero k) (rest b k)
  bit-digits small rest zero (suc a) b k h = absurd (omega arith)
  bit-digits small rest (suc n) zero b k h = rw (bit-zero k) (rest b k)
  bit-digits small rest (suc n) (suc a) b zero h =
      omega (arith, small (suc a % 2) (b % 2) (omega arith) (omega arith))
  bit-digits small rest (suc n) (suc a) b (suc k) h =
      let d : ℕ = digits r f n (suc a / 2) (b / 2) in
      let e : (d * 2 + f (suc a % 2) (b % 2)) / 2 ≡ d =
        omega (arith, small (suc a % 2) (b % 2) (omega arith) (omega arith)) in
      rw e (bit-digits small rest n (suc a / 2) (b / 2) k (omega arith))

pub bit-bit_and : (a b k : ℕ) → bit (bit_and a b) k ≡ min (bit a k) (bit b k)
bit-bit_and a b k = rw (bit_and-bitwise a b) (
    bit-digits (λ y. 0) min (λ x y p q. omega arith) (λ y j. rw (bit-zero j) (omega arith)) a a b k
      (omega arith))

pub bit-bit_or : (a b k : ℕ) → bit (bit_or a b) k ≡ max (bit a k) (bit b k)
bit-bit_or a b k =
    rw (bit_or-bitwise a b)
      (bit-digits (λ y. y) max (λ x y p q. omega arith) (λ y j. omega arith) a a b k (omega arith))

differ-small : (x y : ℕ) → x < 2 → y < 2 → differ x y < 2
differ-small zero y p q = q
differ-small (suc x) zero p q = p
differ-small (suc x) (suc y) p q = differ-small x y (omega arith) (omega arith)

pub bit-bit_xor : (a b k : ℕ) → bit (bit_xor a b) k ≡ differ (bit a k) (bit b k)
bit-bit_xor a b k =
    rw (bit_xor-bitwise a b)
      (bit-digits (λ y. y) differ differ-small (λ y j. refl) a a b k (omega arith))

pub bit-pow : (j k : ℕ) → bit (2 ^ j) k ≡ (if j == k then 1 else 0)
bit-pow zero zero = refl
bit-pow zero (suc k) = rw (bit-zero k) (ground arith)
bit-pow (suc j) zero = ground (arith, pow-suc 2 j)
bit-pow (suc j) (suc k) =
    let half : 2 ^ suc j / 2 ≡ 2 ^ j = omega (arith, pow-suc 2 j) in
    rw half (ground (arith, bit-pow j k))

pow-pos : (n : ℕ) → 0 < 2 ^ n
pow-pos zero = omega arith
pow-pos (suc n) = omega (arith, pow-suc 2 n, pow-pos n)

pow-lt : (j n : ℕ) → j < n → 2 ^ j < 2 ^ n
pow-lt j zero h = elim h [ ]
pow-lt zero (suc n) h = omega (arith, pow-suc 2 n, pow-pos n)
pow-lt (suc j) (suc n) h = omega (arith, pow-suc 2 n, pow-suc 2 j, pow-lt j n (omega arith))

-- A mask of `n` ones.
pub bit-ones : (n k : ℕ) → bit (2 ^ n - 1) k ≡ (if ltb k n then 1 else 0)
bit-ones zero k = rw (bit-zero k) (ground arith)
bit-ones (suc n) zero = ground (arith, pow-suc 2 n, pow-pos n)
bit-ones (suc n) (suc k) =
    let half : (2 ^ suc n - 1) / 2 ≡ 2 ^ n - 1 = omega (arith, pow-suc 2 n, pow-pos n) in
    rw half (ground (arith, bit-ones n k))

-- The mask with all of the lowest `n` bits but one.
pub bit-mask_out :
    (n j k : ℕ) → j < n → bit (2 ^ n - 1 - 2 ^ j) k ≡ (if ltb k n && not (j == k) then 1 else 0)
bit-mask_out zero j k h = elim h [ ]
bit-mask_out (suc n) zero zero h = ground (arith, pow-suc 2 n, pow-pos n)
bit-mask_out (suc n) zero (suc k) h =
    let half : (2 ^ suc n - 1 - 2 ^ 0) / 2 ≡ 2 ^ n - 1 = omega (arith, pow-suc 2 n, pow-pos n) in
    rw half (ground (arith, bit-ones n k))
bit-mask_out (suc n) (suc j) zero h =
    ground (arith, pow-suc 2 n, pow-suc 2 j, pow-pos n, pow-lt j n)
bit-mask_out (suc n) (suc j) (suc k) h =
    let half : (2 ^ suc n - 1 - 2 ^ suc j) / 2 ≡ 2 ^ n - 1 - 2 ^ j =
      omega (arith, pow-suc 2 n, pow-suc 2 j, pow-lt j n (omega arith)) in
    rw half (ground (arith, bit-mask_out n j k))

-- Numbers with the same bits are equal.
pub eq_of_bits : (n a b : ℕ) → a ≤ n → b ≤ n → ((k : ℕ) → bit a k ≡ bit b k) → a ≡ b
eq_of_bits zero a b p q h = omega arith
eq_of_bits (suc n) a b p q h =
    omega (arith, h 0, eq_of_bits n (a / 2) (b / 2) (omega arith) (omega arith) (λ k. h (suc k)))

-- The C test `(a & mask) != 0` for a mask of one bit.
pub bit_and-pow : (a j : ℕ) → (bit_and a (2 ^ j) == 0) ≡ (bit a j == 0)
bit_and-pow a j = elim (Bool-cases (bit a j == 0)) [
  | inl z ↦
      let none_set : bit_and a (2 ^ j) ≡ 0 =
        eq_of_bits (bit_and a (2 ^ j)) (bit_and a (2 ^ j)) 0 (omega arith) (omega arith)
          (λ k. ground (arith, bit-bit_and a (2 ^ j) k, bit-pow j k, bit-zero k)) in
      rw (z, none_set)
  | inr nz ↦ ground (arith, bit-bit_and a (2 ^ j) j, bit-pow j j, bit-zero j)
]
