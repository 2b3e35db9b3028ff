-- ===== src/Swap/Insert.antt =====
-- swap_insert: a free slot is taken, or the machine stops.
use native.Mathlib.Decide.{ℕ_discrete}
use os_pintos.Common.{
  ℕ, zero, suc, ◌+◌, ◌-◌, ◌*◌, ◌^◌, ◌≤◌, ◌<◌, ◌≡◌, ◌≢◌, refl, sym, ◌∙◌, List, [], ◌∷◌, true, false,
  ok, panic, arith, length, ◌==◌, if◌then◌else◌, inl, inr, ◌⊎◌,
}
use os_pintos.Block.{Device, Sector, check_sector, block_write}
use os_pintos.Bitmap.{Bitmap, bitmap_scan_and_flip, bitmap_error}
use os_pintos.Bitmap.Single.{holds}
use os_pintos.Bitmap.Group.{AllAre, Filled}
use os_pintos.Bitmap.Scan.{Flipped, flipped, unchanged, scan_and_flip_total}
use os_pintos.Swap.{Swap, Page, acquire, release, write_from, swap_insert}
use os_pintos.Swap.Slots.{IsReady, sectors, slot_of, HasSlot, Wrote, write_lem}

sectors-congr :
    (f g : ℕ → Sector) (n i k : ℕ)
    → ((t : ℕ) → k * 8 + i ≤ t → t < k * 8 + i + n → f t ≡ g t)
    → sectors f n i k ≡ sectors g n i k
sectors-congr f g zero i k h = refl
sectors-congr f g (suc n) i k h =
    let a = h (k * 8 + i) (omega arith) (omega arith) in
    let b = sectors-congr f g n (suc i) k (λ t p q. h t (omega (arith, p)) (omega (arith, q))) in
    rw (a, b) refl

pub has_slot : (s : Swap) (k : ℕ) → IsReady s → k < s.used_blocks.bit_cnt → HasSlot s.swap_table k
has_slot s k r h = (omega (arith, r.room, h), omega (arith, r.small))

-- What an insertion does: a free slot is taken and holds the page; no other slot changes.
pub record Inserted (s : Swap) (p : Page) (s' : Swap) (slot : ℕ) : Type 0 where
  pub ready : IsReady s'
  pub bound : slot < s.used_blocks.bit_cnt
  pub count : s'.used_blocks.bit_cnt ≡ s.used_blocks.bit_cnt
  pub was_free : holds s.used_blocks slot ≡ false
  pub used : (j : ℕ) → holds s'.used_blocks j ≡ (if slot == j then true else holds s.used_blocks j)
  pub stored : slot_of s' slot ≡ p.kpage
  pub others : (k : ℕ) → k ≢ slot → slot_of s' k ≡ slot_of s k

insert_found :
    (s : Swap) (p : Page) (slot : ℕ) (b : Bitmap)
    → IsReady s
    → length p.kpage ≡ 8
    → bitmap_scan_and_flip s.used_blocks 0 1 false ≡ ok (slot, b)
    → slot + 1 ≤ s.used_blocks.bit_cnt
    → AllAre s.used_blocks slot 1 false
    → Filled s.used_blocks slot 1 true b
    → (s' : Swap) × (swap_insert s p ≡ ok (s', record p { block_sector = slot }))
      × Inserted s p s' slot
unfolding swap_insert acquire release
insert_found s p slot b r l e h a f =
    let (d, g, w) =
      write_lem 8 0 slot p.kpage s.swap_table (has_slot s slot r (omega (arith, h))) (omega arith) l
        r.own in
    (
      record s { used_blocks = b; swap_table = d; held = false },
      ground (arith, r.free_lock, e, g),
      record {
        ready = record {
          valid = f.valid;
          free_lock = refl;
          own = w.foreign ∙ r.own;
          room = rw (f.size, w.size) r.room;
          small = rw w.size r.small;
        };
        bound = omega (arith, h);
        count = f.size;
        was_free = a slot (omega arith) (omega arith);
        used = λ j. ground (arith, f.bits j);
        stored = w.here;
        others = λ k ne. sectors-congr d.content s.swap_table.content 8 0 k (λ t lo hi.
            elim (ℕ_discrete slot k) [
              | yes q ↦ absurd (ne (sym q))
              | no q ↦ apart s slot k p.kpage d w q t lo hi
            ]);
      },
    )
  where
    apart :
        (s : Swap) (slot k : ℕ) (c : List Sector) (d : Device)
        → Wrote 8 0 slot c s.swap_table d
        → slot ≢ k
        → (t : ℕ) → k * 8 + 0 ≤ t
        → t < k * 8 + 0 + 8
        → d.content t ≡ s.swap_table.content t
    apart s slot k c d w q t lo hi = elim (order slot k q) [
      | inl before ↦ w.behind t (omega (arith, before, lo))
      | inr behind ↦ w.before t (omega (arith, behind, hi))
    ]
      where
        order : (a b : ℕ) → a ≢ b → (a < b) ⊎ (b < a)
        order a b n = omega (arith, n)

-- swap_insert of a page of eight sectors into a ready table with a free slot returns: the page gets
-- a slot that was free, the slot holds the page, no other slot changes, and the table is ready.
pub insert_lem :
    (s : Swap) (p : Page) (k : ℕ)
    → IsReady s
    → length p.kpage ≡ 8
    → k < s.used_blocks.bit_cnt
    → holds s.used_blocks k ≡ false
    → (s' : Swap) × (slot : ℕ) × (swap_insert s p ≡ ok (s', record p { block_sector = slot }))
      × Inserted s p s' slot
insert_lem s p k r l h free =
    let (slot, b, e, f) = scan_and_flip_total s.used_blocks 0 1 false r.valid (omega arith) in
    by_result s p k slot b r l h free e f
  where
    by_result :
        (s : Swap) (p : Page) (k slot : ℕ) (b : Bitmap)
        → IsReady s
        → length p.kpage ≡ 8
        → k < s.used_blocks.bit_cnt
        → holds s.used_blocks k ≡ false
        → bitmap_scan_and_flip s.used_blocks 0 1 false ≡ ok (slot, b)
        → Flipped s.used_blocks 0 1 false slot b
        → (s' : Swap) × (slot : ℕ) × (swap_insert s p ≡ ok (s', record p { block_sector = slot }))
          × Inserted s p s' slot
    by_result s p k slot b r l h free e (flipped lo hi a n f) =
        let (s', g, i) = insert_found s p slot b r l e hi a f in (s', slot, g, i)
    by_result s p k slot b r l h free e (unchanged err n same) = absurd (
        n k (omega arith) (omega (arith, h))
          (λ j lo hi. let q : k ≡ j = omega (arith, lo, hi) in rw q at free))

no_slot :
    (c : List Sector) (slot : ℕ) (d : Device)
    → length c ≡ 8
    → slot ≡ bitmap_error
    → d.size < 2 ^ 32 - 8
    → write_from 8 0 slot c d ≡ panic
unfolding write_from block_write check_sector
no_slot [] slot d l e h = absurd (omega (arith, l))
no_slot (x ∷ c) slot d l e h = rw e (ground (arith, h))

insert_full :
    (s : Swap) (p : Page) (slot : ℕ) (b : Bitmap)
    → IsReady s
    → length p.kpage ≡ 8
    → ((k : ℕ) → k < s.used_blocks.bit_cnt → holds s.used_blocks k ≡ true)
    → bitmap_scan_and_flip s.used_blocks 0 1 false ≡ ok (slot, b)
    → Flipped s.used_blocks 0 1 false slot b
    → swap_insert s p ≡ panic
unfolding swap_insert acquire
insert_full s p slot b r l all e (flipped lo hi a n f) =
    let x = all slot (omega (arith, hi)) in
    let y = a slot (omega arith) (omega arith) in absurd (ground (arith, x, y))
insert_full s p slot b r l all e (unchanged err n same) =
    ground (arith, r.free_lock, e, no_slot p.kpage slot s.swap_table l err r.small)

-- swap_insert stops the machine when every slot is in use: the number that stands for an error is
-- taken for a slot, which is past the end of the device.
pub full_lem :
    (s : Swap) (p : Page)
    → IsReady s
    → length p.kpage ≡ 8
    → ((k : ℕ) → k < s.used_blocks.bit_cnt → holds s.used_blocks k ≡ true)
    → swap_insert s p ≡ panic
full_lem s p r l all =
    let (slot, b, e, f) = scan_and_flip_total s.used_blocks 0 1 false r.valid (omega arith) in
    insert_full s p slot b r l all e f
