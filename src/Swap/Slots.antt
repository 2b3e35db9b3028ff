-- ===== src/Swap/Slots.antt =====
-- The contents of the slots: what an insertion writes, and that it comes back.
use mathlib.Core.Path.{subst}
use os_pintos.Common.{
  ℕ, zero, suc, ◌+◌, ◌-◌, ◌*◌, ◌^◌, ◌≤◌, ◌<◌, ◌≡◌, refl, sym, ◌∙◌, List, [], ◌∷◌, false, ok, arith,
  length,
}
use os_pintos.Block.{
  Device, Sector, block_read, block_write, counted, written, block_read_total, block_write_total,
}
use os_pintos.Bitmap.Single.{IsValid}
use os_pintos.Swap.{Swap, sector_of, read_from, write_from}

-- The table is not in use by another thread and the device holds all its slots, as the 1024 of
-- swap_init do on a device of at least 8192 sectors.
pub record IsReady (s : Swap) : Type 0 where
  pub valid : IsValid s.used_blocks
  pub free_lock : s.held ≡ false
  pub own : s.swap_table.foreign ≡ false
  pub room : s.used_blocks.bit_cnt * 8 ≤ s.swap_table.size
  pub small : s.swap_table.size < 2 ^ 32 - 8

-- The last `n` sectors of a slot, from sector `i`.
abbrev pub sectors : (ℕ → Sector) → ℕ → ℕ → ℕ → List Sector
sectors f zero i slot = []
sectors f (suc n) i slot = f (slot * 8 + i) ∷ sectors f n (suc i) slot

abbrev pub slot_of : Swap → ℕ → List Sector
slot_of s slot = sectors s.swap_table.content 8 0 slot

-- The device holds the slot.
abbrev pub HasSlot : Device → ℕ → Type 0
HasSlot d slot = (slot * 8 + 8 ≤ d.size) × (d.size < 2 ^ 32)

pub read_lem :
    (n i slot : ℕ) (d : Device)
    → HasSlot d slot
    → i + n ≤ 8
    → (d' : Device) × (read_from n i slot d ≡ ok (d', sectors d.content n i slot))
      × (d'.content ≡ d.content)
      × (d'.size ≡ d.size)
      × (d'.foreign ≡ d.foreign)
unfolding read_from
read_lem zero i slot d h r = (d, refl, refl, refl, refl)
read_lem (suc n) i slot d h r =
    let m : sector_of slot i ≡ slot * 8 + i = omega (arith, h.0, h.1) in
    let a = slot * 8 + i in
    let e =
      subst (λ t. block_read d t ≡ ok (counted d, d.content a)) (sym m)
        (block_read_total d a (omega (arith, h.0))) in
    let (d', f, c, s, o) = read_lem n (suc i) slot (counted d) h (omega arith) in
    (d', ground (arith, e, f), c, s, o)

-- What a write of the last `n` sectors of a slot leaves.
pub record Wrote (n i slot : ℕ) (c : List Sector) (d d' : Device) : Type 0 where
  pub size : d'.size ≡ d.size
  pub foreign : d'.foreign ≡ d.foreign
  pub here : sectors d'.content n i slot ≡ c
  pub before : (t : ℕ) → t < slot * 8 + i → d'.content t ≡ d.content t
  pub behind : (t : ℕ) → slot * 8 + 8 ≤ t → d'.content t ≡ d.content t

pub write_lem :
    (n i slot : ℕ) (c : List Sector) (d : Device)
    → HasSlot d slot
    → i + n ≤ 8
    → length c ≡ n
    → d.foreign ≡ false
    → (d' : Device) × (write_from n i slot c d ≡ ok d') × Wrote n i slot c d d'
unfolding write_from
write_lem zero i slot [] d h r l o = (
  d,
  refl,
  record { size = refl; foreign = refl; here = refl; before = λ t p. refl; behind = λ t p. refl },
)
write_lem zero i slot (x ∷ c) d h r l o = absurd (omega (arith, l))
write_lem (suc n) i slot [] d h r l o = absurd (omega (arith, l))
write_lem (suc n) i slot (x ∷ c) d h r l o =
    let m : sector_of slot i ≡ slot * 8 + i = omega (arith, h.0, h.1) in
    let a = slot * 8 + i in
    let e =
      subst (λ t. block_write d t x ≡ ok (written d a x)) (sym m)
        (block_write_total d a x (omega (arith, h.0)) o) in
    let d1 = written d (slot * 8 + i) x in
    let (d', f, w) = write_lem n (suc i) slot c d1 h (omega arith) (omega (arith, l)) o in
    let first : d'.content (slot * 8 + i) ≡ x =
      w.before (slot * 8 + i) (omega arith) ∙ ground arith in
    (
      d',
      ground (arith, e, f),
      record {
        size = w.size;
        foreign = w.foreign;
        here = rw (first, w.here) refl;
        before = λ t p. ground (arith, w.before t (omega (arith, p)), p);
        behind = λ t p. ground (arith, w.behind t p, p);
      },
    )
