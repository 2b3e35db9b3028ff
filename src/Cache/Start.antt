-- ===== src/Cache/Start.antt =====
-- The start of the buffer cache, and the calls that panic.
use os_pintos.Common.{
  ℕ, ◌≤◌, ◌≡◌, refl, ◌∙◌, List, [], ◌∷◌, true, false, none, panic, arith, length, length-map, map,
  Option-cases, inl, inr, ltb,
}
use os_pintos.Block.{Sector, Device, block_read}
use os_pintos.Cache.{
  Entry, Cache, num_cache, forget, buffer_cache_init, buffer_cache_read, buffer_cache_write,
  lookup_from, fill, fetch, find_or_fetch, buffer_cache_lookup,
}
use os_pintos.Cache.Find.{find, Distinct, find-remove_at, lookup_hit}
use os_pintos.Cache.Invariant.{view, IsValid}
use os_pintos.Cache.Steps.{select_victim_total}
use os_pintos.Cache.Refine.{IsReady, relock-IsValid}

find-forget : (es : List Entry) (t : ℕ) → find (map forget es) t ≡ none
find-forget [] t = refl
find-forget (e ∷ es) t = find-forget es t

Distinct-forget : (es : List Entry) → Distinct (map forget es)
Distinct-forget [] = tt
Distinct-forget (e ∷ es) = (λ v. cc, Distinct-forget es)

-- After buffer_cache_init the cache is ready and shows the device, whatever the array held.
pub init-IsReady :
    (c : Cache)
    → length c.entries ≡ num_cache
    → c.device.foreign ≡ false
    → IsReady (buffer_cache_init c) × ((t : ℕ) → view (buffer_cache_init c) t ≡ c.device.content t)
unfolding buffer_cache_init
init-IsReady c n w = (
  record {
    valid = record {
      count = length-map c.entries forget ∙ n;
      distinct = Distinct-forget c.entries;
      bounded = λ t x p. ground (arith, find-forget c.entries t);
      clean = λ t b p. ground (arith, find-forget c.entries t);
      writable = w;
    };
    unlocked = refl;
  },
  λ t. rw (find-forget c.entries t),
)

block_read_past : (d : Device) (s : ℕ) → d.size ≤ s → block_read d s ≡ panic
unfolding block_read
block_read_past d s h = let e : ltb s d.size ≡ false = ground arith in rw e

find_or_fetch_past :
    (c : Cache) (s : ℕ) → IsValid c → c.held ≡ true → c.device.size ≤ s → find_or_fetch c s ≡ panic
unfolding find_or_fetch buffer_cache_lookup fetch fill
find_or_fetch_past c s v h b = elim (Option-cases (lookup_from 0 c.entries s)) [
  | inr (j, hit) ↦
      let (i, e, q, g, m) = lookup_hit 0 c.entries s j hit in
      absurd (
        omega (
          arith,
          v.bounded s (e.buffer, e.dirty_bit)
              (ground (arith, find-remove_at c.entries i e s v.distinct g)),
        ))
  | inl miss ↦
      let (c1, i, q, f) = select_victim_total c v h in
      ground (
        arith,
        miss,
        q,
        f.here,
        f.unused,
        block_read_past c1.device s (omega (arith, f.keeps.size)),
      )
]

-- A sector past the end of the device is never in the cache, and stops the machine.
pub past_end :
    (c : Cache) (s : ℕ) (source : Sector)
    → IsReady c
    → c.device.size ≤ s
    → (buffer_cache_read c s ≡ panic) × (buffer_cache_write c s source ≡ panic)
unfolding buffer_cache_read buffer_cache_write
past_end c s source r b =
    let p =
      find_or_fetch_past (record c { held = true }) s (relock-IsValid c true r.valid) refl b in
    (ground (arith, p, r.unlocked), ground (arith, p, r.unlocked))
