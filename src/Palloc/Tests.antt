-- ===== src/Palloc/Tests.antt =====
-- The theorems on the page allocator at two pools of 32 pages, the first three of the user's used.
use os_pintos.Common.{◌≡◌, refl, [], ◌∷◌, true, false, arith, inl, inr, ◌⊎◌}
use os_pintos.Bitmap.Group.{AllAre}
use os_pintos.Palloc.{Memory, Flags}
use os_pintos.Palloc.Pages.{IsSound}
use os_pintos.Palloc.Trips.{Answer, get_multiple_lem, Restored, free-get}

abbrev memory : Memory
memory = record {
  kernel_pool = record {
    held = false;
    used_map = record { bit_cnt = 32; bits = 0 ∷ [] };
    base = 0x10_0000;
  };
  user_pool = record {
    held = false;
    used_map = record { bit_cnt = 32; bits = 7 ∷ [] };
    base = 0x20_0000;
  };
  bytes = λ a. 255;
}

abbrev flags : Flags
flags = record { pal_assert = false; pal_zero = true; pal_user = true }

memory-IsSound : IsSound memory
memory-IsSound = record {
  kernel = record {
    valid = omega arith;
    free_lock = refl;
    aligned = refl;
    positive = omega arith;
    fits = omega arith;
  };
  user = record {
    valid = omega arith;
    free_lock = refl;
    aligned = refl;
    positive = omega arith;
    fits = omega arith;
  };
  apart = omega arith;
}

three_four : AllAre memory.user_pool.used_map 3 2 false
three_four j lo hi =
    let h : (j ≡ 3) ⊎ (j ≡ 4) = omega (arith, lo, hi) in
    elim h [ inl e ↦ rw e refl | inr e ↦ rw e refl ]

get_multiple_lem_example : Answer flags 2 memory
get_multiple_lem_example = get_multiple_lem flags 2 memory memory-IsSound (omega arith)

free-get_example : Restored flags 2 memory
free-get_example = free-get flags 2 memory 3 memory-IsSound (omega arith) (omega arith) three_four
