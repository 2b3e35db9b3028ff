-- ===== src/Freemap/Tests.antt =====
-- The theorems on the free map at a map of 40 sectors, the first two used.
use os_pintos.Common.{◌≡◌, refl, [], ◌∷◌, true, arith, inl, inr, ◌⊎◌}
use os_pintos.Bitmap.{Bitmap}
use os_pintos.Bitmap.Single.{IsValid}
use os_pintos.Bitmap.Group.{AllAre}

abbrev sectors : Bitmap
sectors = record { bit_cnt = 40; bits = 3 ∷ 0 ∷ [] }

sectors-IsValid : IsValid sectors
sectors-IsValid = omega arith

first_two : AllAre sectors 0 2 true
first_two j lo hi =
    let h : (j ≡ 0) ⊎ (j ≡ 1) = omega (arith, lo, hi) in
    elim h [ inl e ↦ rw e refl | inr e ↦ rw e refl ]
