-- ===== src/Swap/Trips.antt =====
-- A page that goes into the swap table comes back as it was.
use native.Mathlib.Decide.{ℕ_discrete}
use os_pintos.Common.{
  ℕ, ◌<◌, ◌≡◌, ◌≢◌, refl, ◌∙◌, ap, List, false, ok, arith, length, ◌==◌, if◌then◌else◌,
}
use os_pintos.Block.{Sector}
use os_pintos.Bitmap.Single.{holds, reset_total}
use os_pintos.Swap.{Swap, Page, acquire, release, swap_get, swap_insert, swap_free}
use os_pintos.Swap.Slots.{IsReady, sectors, slot_of, read_lem}
use os_pintos.Swap.Insert.{has_slot, Inserted, insert_lem}

-- What a slot is given back by: its bit is cleared, all slots keep their contents.
pub record Returned (s : Swap) (slot : ℕ) (s' : Swap) : Type 0 where
  pub ready : IsReady s'
  pub used : (j : ℕ) → holds s'.used_blocks j ≡ (if slot == j then false else holds s.used_blocks j)
  pub same : (k : ℕ) → slot_of s' k ≡ slot_of s k

-- swap_get of a page whose slot is in range fills its frame with the contents of the slot, and frees
-- the slot.
pub swap_get_lem :
    (s : Swap) (p : Page)
    → IsReady s
    → p.block_sector < s.used_blocks.bit_cnt
    → (s' : Swap) × (swap_get s p ≡ ok (s', record p { kpage = slot_of s p.block_sector }))
      × Returned s p.block_sector s'
unfolding swap_get acquire release
swap_get_lem s p r h =
    let (d, e, c, z, o) =
      read_lem 8 0 p.block_sector s.swap_table (has_slot s p.block_sector r h) (omega arith) in
    let (b, f, t) = reset_total s.used_blocks p.block_sector r.valid h in
    (
      record s { used_blocks = b; swap_table = d; held = false },
      ground (arith, r.free_lock, e, f),
      record {
        ready = record {
          valid = t.valid;
          free_lock = refl;
          own = o ∙ r.own;
          room = rw (t.size, z) r.room;
          small = rw z r.small;
        };
        used = t.bits;
        same = λ k. ap (λ (g : ℕ → Sector). sectors g 8 0 k) c;
      },
    )

-- swap_free of a page whose slot is in range frees the slot.
pub swap_free_lem :
    (s : Swap) (p : Page)
    → IsReady s
    → p.block_sector < s.used_blocks.bit_cnt
    → (s' : Swap) × (swap_free s p ≡ ok s') × Returned s p.block_sector s'
unfolding swap_free acquire release
swap_free_lem s p r h =
    let (b, f, t) = reset_total s.used_blocks p.block_sector r.valid h in
    (
      record s { used_blocks = b; held = false },
      ground (arith, r.free_lock, f),
      record {
        ready = record {
          valid = t.valid;
          free_lock = refl;
          own = r.own;
          room = rw t.size r.room;
          small = r.small;
        };
        used = t.bits;
        same = λ k. refl;
      },
    )

-- Two insertions and the return of the first page, into a frame with the contents `junk`.
pub record Trip (s : Swap) (p q : Page) (junk : List Sector) : Type 0 where
  pub s1 : Swap
  pub s2 : Swap
  pub s3 : Swap
  pub a : ℕ
  pub b : ℕ
  pub first : swap_insert s p ≡ ok (s1, record { kpage = p.kpage; block_sector = a })
  pub second : swap_insert s1 q ≡ ok (s2, record { kpage = q.kpage; block_sector = b })
  pub back :
      swap_get s2 (record { kpage = junk; block_sector = a })
      ≡ ok (s3, record { kpage = p.kpage; block_sector = a })
  pub apart : a ≢ b
  pub kept : slot_of s3 b ≡ q.kpage

-- A free slot is left after a slot was taken.
one_left :
    (s : Swap) (p : Page) (s1 : Swap) (a k m : ℕ)
    → Inserted s p s1 a
    → k < s.used_blocks.bit_cnt
    → m < s.used_blocks.bit_cnt
    → k ≢ m
    → holds s.used_blocks k ≡ false
    → holds s.used_blocks m ≡ false
    → (j : ℕ) × (j < s1.used_blocks.bit_cnt) × (holds s1.used_blocks j ≡ false)
one_left s p s1 a k m i hk hm ne fk fm = elim (ℕ_discrete a k) [
  | yes e ↦ (m, omega (arith, i.count, hm), ground (arith, i.used m, e, ne, fm))
  | no n ↦ (k, omega (arith, i.count, hk), ground (arith, i.used k, n, fk))
]

-- A page of eight sectors that is inserted, and got back after another page was inserted, has the
-- contents that it had, whatever its frame held meanwhile; the other page has another slot, which
-- still holds it. The table was ready and had two free slots.
pub swap_get-swap_insert :
    (s : Swap) (p q : Page) (junk : List Sector) (k m : ℕ)
    → IsReady s
    → length p.kpage ≡ 8
    → length q.kpage ≡ 8
    → k < s.used_blocks.bit_cnt
    → m < s.used_blocks.bit_cnt
    → k ≢ m
    → holds s.used_blocks k ≡ false
    → holds s.used_blocks m ≡ false
    → Trip s p q junk
swap_get-swap_insert s p q junk k m r lp lq hk hm ne fk fm =
    let (s1, a, e1, i1) = insert_lem s p k r lp hk fk in
    let (j, hj, fj) = one_left s p s1 a k m i1 hk hm ne fk fm in
    let (s2, b, e2, i2) = insert_lem s1 q j i1.ready lq hj fj in
    let ne2 : a ≢ b = λ e. ground (arith, e, i2.was_free, i1.used a) in
    let (s3, e3, g) =
      swap_get_lem s2 (record { kpage = junk; block_sector = a }) i2.ready
        (omega (arith, i2.count, i1.count, i1.bound)) in
    let whole : slot_of s2 a ≡ p.kpage = i2.others a ne2 ∙ i1.stored in
    record {
      s1 = s1;
      s2 = s2;
      s3 = s3;
      a = a;
      b = b;
      first = e1;
      second = e2;
      back = e3 ∙ ap (λ (c : List Sector). ok (s3, record { kpage = c; block_sector = a })) whole;
      apart = ne2;
      kept = g.same b ∙ i2.stored;
    }
