-- ===== src/Swap/Tests.antt =====
-- The theorems on the swap table at a table of 32 slots, the first of them used, and a full one.
use os_pintos.Common.{ℕ, ◌≡◌, ◌<◌, refl, [], ◌∷◌, true, false, arith, replicate}
use os_pintos.Block.{Device}
use os_pintos.Bitmap.Single.{holds}
use os_pintos.Swap.{Swap, Page}
use os_pintos.Swap.Slots.{IsReady}
use os_pintos.Swap.Trips.{Trip, swap_get-swap_insert}

abbrev disk : Device
disk = record { size = 8192; foreign = false; content = λ s. []; read_cnt = 0; write_cnt = 0 }

abbrev table : Swap
table = record {
  held = false;
  used_blocks = record { bit_cnt = 32; bits = 1 ∷ [] };
  swap_table = disk;
}

abbrev full : Swap
full = record table { used_blocks = record { bit_cnt = 1; bits = 1 ∷ [] } }

table-IsReady : IsReady table
table-IsReady = record {
  valid = omega arith;
  free_lock = refl;
  own = refl;
  room = omega arith;
  small = omega arith;
}

full-IsReady : IsReady full
full-IsReady = record {
  valid = omega arith;
  free_lock = refl;
  own = refl;
  room = omega arith;
  small = omega arith;
}

abbrev page : ℕ → Page
page n = record { kpage = replicate 8 (n ∷ []); block_sector = 0 }

first_slot : (k : ℕ) → k < 1 → holds full.used_blocks k ≡ true
first_slot k h = let e : k ≡ 0 = omega arith in rw e refl

swap_get-swap_insert_example : Trip table (page 5) (page 6) (replicate 8 [])
swap_get-swap_insert_example =
    swap_get-swap_insert table (page 5) (page 6) (replicate 8 []) 3 4 table-IsReady refl refl
      (omega arith) (omega arith) (omega arith) refl refl
