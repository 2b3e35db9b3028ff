-- ===== src/Bitmap/Tests.antt =====
-- The theorems on bitmaps at a bitmap of 40 bits in two words.
use os_pintos.Common.{ℕ, ◌≡◌, refl, [], ◌∷◌, false, ok, arith}
use os_pintos.Bitmap.{
  Bitmap, bitmap_set, bitmap_test, bitmap_scan, bitmap_scan_and_flip, bitmap_error, bitmap_contains,
}
use os_pintos.Bitmap.Single.{IsValid}
use os_pintos.Bitmap.Scan.{Flipped, scan_and_flip_total}

-- Bits 0, 2 and 33 are set.
abbrev some_bits : Bitmap
some_bits = record { bit_cnt = 40; bits = 5 ∷ 2 ∷ [] }

some_bits-IsValid : IsValid some_bits
some_bits-IsValid = omega arith

scan_runs : bitmap_scan some_bits 1 31 false ≡ ok bitmap_error
unfolding bitmap_scan bitmap_contains bitmap_test
scan_runs = refl

flip_runs :
    bitmap_scan_and_flip some_bits 0 30 false
    ≡ ok (3, record { bit_cnt = 40; bits = 0xffff_fffd ∷ 3 ∷ [] })
unfolding bitmap_scan_and_flip bitmap_contains bitmap_test bitmap_set
flip_runs = refl

scan_and_flip_total_example :
    (idx : ℕ) × (b' : Bitmap) × (bitmap_scan_and_flip some_bits 0 2 false ≡ ok (idx, b'))
    × Flipped some_bits 0 2 false idx b'
scan_and_flip_total_example =
    scan_and_flip_total some_bits 0 2 false some_bits-IsValid (omega arith)
