-- ===== src/Cache/Steps.antt =====
-- The private steps of the buffer cache succeed, and the kernel cannot see them: write-back,
-- eviction and the choice of a victim.
use os_pintos.Common.{
  ℕ, ◌<◌, ◌≡◌, refl, sym, ◌∙◌, List, true, false, none, some, ok, arith, inl, inr, get_elem?, set,
  Bool-cases, get_elem?-set_self, get_elem?-set_ne, ◌≢◌, lt-length_of_get_elem?,
}
use os_pintos.Block.{written, block_write_total}
use os_pintos.Cache.{
  Entry, Cache, clock_fuel, write_back, buffer_cache_flush_entry, drop_entry, evict,
  buffer_cache_select_victim,
}
use os_pintos.Cache.Find.{find, find-remove_at, find-set-none}
use os_pintos.Cache.Clock.{referred-le-length, Stopped, clock_total}
use os_pintos.Cache.Invariant.{IsValid, Keeps, Keeps-trans, written_back-Keeps, dropped-Keeps}

pub Keeps-refl : (c : Cache) → IsValid c → Keeps c c
Keeps-refl c v = record { valid = v; same = λ t. refl; held = refl; size = refl }

-- A dirty entry is written to its sector of the device.
abbrev written_back : Cache → ℕ → Entry → Cache
written_back c i e = record c {
  entries = set c.entries i (record e { dirty_bit = false });
  device = written c.device e.disk_sector e.buffer;
}

write_back_total :
    (c : Cache) (i : ℕ) (e : Entry)
    → IsValid c
    → get_elem? c.entries i ≡ some e
    → e.valid_bit ≡ true
    → (write_back c i e ≡ ok (written_back c i e)) × Keeps c (written_back c i e)
unfolding write_back
write_back_total c i e v p u = (
  rw (block_write_total c.device e.disk_sector e.buffer inside v.writable),
  written_back-Keeps c i e v p (written c.device e.disk_sector e.buffer) u (λ t. refl) refl refl,
)
  where
    inside : e.disk_sector < c.device.size
    inside =
        v.bounded e.disk_sector (e.buffer, e.dirty_bit)
          (ground (arith, find-remove_at c.entries i e e.disk_sector v.distinct p))

pub set_self :
    (c : Cache) (i : ℕ) {e : Entry} (e' : Entry)
    → get_elem? c.entries i ≡ some e
    → get_elem? (set c.entries i e') i ≡ some e'
set_self c i e' p = get_elem?-set_self c.entries i e' (lt-length_of_get_elem? c.entries i p)

-- What is not cached stays so.
abbrev Missing : Cache → Cache → Type 0
Missing c c' = (t : ℕ) → find c.entries t ≡ none → find c'.entries t ≡ none

-- A change of entry `i` that keeps its sector caches nothing new.
set-Missing :
    (c : Cache) (i : ℕ) (e e' : Entry)
    → IsValid c
    → get_elem? c.entries i ≡ some e
    → (e'.valid_bit ≡ true → e.valid_bit ≡ true)
    → e'.disk_sector ≡ e.disk_sector
    → (t : ℕ) → find c.entries t ≡ none
    → find (set c.entries i e') t ≡ none
set-Missing c i e e' v p u q t m =
    find-set-none c.entries i e' t m
      (ground (arith, find-remove_at c.entries i e t v.distinct p, u))

pub flush_total :
    (c : Cache) (i : ℕ) (e : Entry)
    → IsValid c
    → c.held ≡ true
    → get_elem? c.entries i ≡ some e
    → e.valid_bit ≡ true
    → (c' : Cache) × (buffer_cache_flush_entry c i ≡ ok c')
      × Keeps c c'
      × (get_elem? c'.entries i ≡ some (record e { dirty_bit = false }))
      × Missing c c'
      × ((k : ℕ) → i ≢ k → get_elem? c'.entries k ≡ get_elem? c.entries k)
unfolding buffer_cache_flush_entry
flush_total c i e v h p u =
    let (q, k) = write_back_total c i e v p u in
    let e' : Entry = record e { dirty_bit = false } in
    elim (Bool-cases e.dirty_bit) [
      | inl w ↦ (
        written_back c i e,
        ground (arith, q),
        k,
        set_self c i e' p,
        set-Missing c i e e' v p (λ z. z) refl,
        λ k ne. get_elem?-set_ne c.entries e' ne,
      )
      | inr w ↦ (c, ground arith, Keeps-refl c v, ground arith, λ t m. m, λ k ne. refl)
    ]

drop_entry_total :
    (c : Cache) (i : ℕ) (e : Entry)
    → IsValid c
    → get_elem? c.entries i ≡ some e
    → e.valid_bit ≡ true
    → e.dirty_bit ≡ false
    → (c' : Cache) × (drop_entry c i ≡ ok (c', i))
      × Keeps c c'
      × (get_elem? c'.entries i ≡ some (record e { valid_bit = false }))
      × Missing c c'
unfolding drop_entry
drop_entry_total c i e v p u w = (
  record c { entries = set c.entries i (record e { valid_bit = false }) },
  ground arith,
  dropped-Keeps c i e v p u w,
  set_self c i (record e { valid_bit = false }) p,
  set-Missing c i e (record e { valid_bit = false }) v p (λ z. u) refl,
)

-- Entry `i` is free, and nothing visible has changed.
pub record Freed (c : Cache) (i : ℕ) (c' : Cache) : Type 0 where
  pub keeps : Keeps c c'
  pub entry : Entry
  pub here : get_elem? c'.entries i ≡ some entry
  pub unused : entry.valid_bit ≡ false
  pub missing : Missing c c'

-- A victim that is in use is written back if it is dirty, and freed.
evict_total :
    (c : Cache) (i : ℕ) (e : Entry)
    → IsValid c
    → c.held ≡ true
    → get_elem? c.entries i ≡ some e
    → (c' : Cache) × (evict c i e ≡ ok (c', i)) × Freed c i c'
unfolding evict
evict_total c i e v h p = elim (Bool-cases e.valid_bit) [
  | inr u ↦ (
    c,
    ground arith,
    record { keeps = Keeps-refl c v; entry = e; here = p; unused = u; missing = λ t m. m },
  )
  | inl u ↦ elim (Bool-cases e.dirty_bit) [
    | inr w ↦
        let (c1, q, k, g, n) = drop_entry_total c i e v p u w in
        (
          c1,
          ground (arith, q),
          record { keeps = k; entry = _; here = g; unused = refl; missing = n },
        )
    | inl w ↦
        let (c1, q1, k1, g1, n1, _) = flush_total c i e v h p u in
        let (c2, q2, k2, g2, n2) =
          drop_entry_total c1 i (record e { dirty_bit = false }) k1.valid g1 u refl in
        (
          c2,
          ground (arith, q1, q2),
          record {
            keeps = Keeps-trans c c1 c2 k1 k2;
            entry = _;
            here = g2;
            unused = refl;
            missing = λ t m. n2 t (n1 t m);
          },
        )
  ]
]

Stopped-Keeps :
    (c : Cache) {es : List Entry} {j : ℕ} {e : Entry}
    → IsValid c
    → Stopped c.entries es j e
    → Keeps c (record c { entries = es })
Stopped-Keeps c v s = record {
  valid = record {
    count = s.count ∙ v.count;
    distinct = s.distinct v.distinct;
    bounded = λ t x p. v.bounded t x (sym (s.same t) ∙ p);
    clean = λ t b p. v.clean t b (sym (s.same t) ∙ p);
    writable = v.writable;
  };
  same = λ t. rw (s.same t);
  held = refl;
  size = refl;
}

-- The clock stops within its fuel, and the entry that it stops at is free afterwards.
pub select_victim_total :
    (c : Cache)
    → IsValid c
    → c.held ≡ true
    → (c' : Cache) × (i : ℕ) × (buffer_cache_select_victim c ≡ ok (c', i)) × Freed c i c'
unfolding buffer_cache_select_victim
select_victim_total c v h =
    let (es, i, e, q, s) =
      clock_total clock_fuel c.entries 0 (omega (arith, v.count, referred-le-length c.entries))
        v.count (omega arith) in
    let c1 : Cache = record c { entries = es } in
    let k1 = Stopped-Keeps c v s in
    let (c2, q2, f) = evict_total c1 i e k1.valid h s.here in
    (
      c2,
      i,
      ground (arith, q, q2),
      record {
        keeps = Keeps-trans c c1 c2 k1 f.keeps;
        entry = f.entry;
        here = f.here;
        unused = f.unused;
        missing = λ t m. f.missing t (s.same t ∙ m);
      },
    )
