-- ===== src/Cache/Fetch.antt =====
-- A missing sector is fetched from the device; what is cached stays where it is.
use os_pintos.Common.{
  ℕ, ◌<◌, ◌≡◌, refl, true, false, none, some, ok, arith, inl, inr, get_elem?, set, Option-cases,
}
use os_pintos.Block.{counted, block_read_total}
use os_pintos.Cache.{
  Entry, Cache, matches, loaded, fill, fetch, find_or_fetch, buffer_cache_lookup, lookup_from,
}
use os_pintos.Cache.Find.{find, lookup_miss, lookup_hit}
use os_pintos.Cache.Steps.{Keeps-refl, set_self, select_victim_total}
use os_pintos.Cache.Invariant.{IsValid, Keeps, Keeps-trans, filled-Keeps}

-- Entry `i` holds the sector.
abbrev pub Holding : Cache → ℕ → ℕ → Type 0
Holding c i s = (e : Entry) × (get_elem? c.entries i ≡ some e) × (matches e s ≡ true)

fill_total :
    (c : Cache) (i : ℕ) (e : Entry) (s : ℕ)
    → IsValid c
    → get_elem? c.entries i ≡ some e
    → e.valid_bit ≡ false
    → find c.entries s ≡ none
    → s < c.device.size
    → (c' : Cache) × (fill c i e s ≡ ok (c', i)) × Keeps c c' × Holding c' i s
unfolding fill
fill_total c i e s v p u miss b = (
  record c {
    entries = set c.entries i (loaded e s (c.device.content s));
    device = counted c.device;
  },
  rw (u, block_read_total c.device s b),
  filled-Keeps c i e v p (counted c.device) s u miss b (λ t. refl) refl refl,
  (loaded e s (c.device.content s), set_self c i (loaded e s (c.device.content s)) p, ground arith),
)

fetch_total :
    (c : Cache) (s : ℕ)
    → IsValid c
    → c.held ≡ true
    → find c.entries s ≡ none
    → s < c.device.size
    → (c' : Cache) × (i : ℕ) × (fetch c s ≡ ok (c', i)) × Keeps c c' × Holding c' i s
unfolding fetch
fetch_total c s v h m b =
    let (c1, i, q1, f) = select_victim_total c v h in
    let (c2, q2, k2, o) =
      fill_total c1 i f.entry s f.keeps.valid f.here f.unused (f.missing s m) (rw f.keeps.size b) in
    (c2, i, ground (arith, q1, q2, f.here), Keeps-trans c c1 c2 f.keeps k2, o)

-- The sector is cached afterwards, whether it was or not, and nothing visible has changed.
pub find_or_fetch_total :
    (c : Cache) (s : ℕ)
    → IsValid c
    → c.held ≡ true
    → s < c.device.size
    → (c' : Cache) × (i : ℕ) × (find_or_fetch c s ≡ ok (c', i)) × Keeps c c' × Holding c' i s
unfolding find_or_fetch buffer_cache_lookup
find_or_fetch_total c s v h b = elim (Option-cases (lookup_from 0 c.entries s)) [
  | inl miss ↦
      let (c', i, q, k, o) = fetch_total c s v h (lookup_miss 0 c.entries s miss) b in
      (c', i, ground (arith, miss, q), k, o)
  | inr (j, hit) ↦
      let (i, e, q, g, m) = lookup_hit 0 c.entries s j hit in
      (c, i, ground (arith, hit, q), Keeps-refl c v, (e, g, m))
]
