-- ===== src/Cache/Refine.antt =====
-- The buffer cache as its clients see it: an array of sectors.
use os_pintos.Common.{
  ℕ, ◌<◌, ◌≡◌, refl, ◌∙◌, List, [], ◌∷◌, Bool, true, false, some, Outcome, ok, ◌>>=◌, arith, ◌==◌,
  if◌then◌else◌, get_elem?, set, length-set, sym,
}
use os_pintos.Block.{Sector, write_at}
use os_pintos.Cache.{Entry, Cache, matches, buffer_cache_read, buffer_cache_write}
use os_pintos.Cache.Find.{find, find-remove_at}
use os_pintos.Cache.Clock.{find-SameData, Distinct-SameData}
use os_pintos.Cache.Invariant.{view, IsValid, Keeps, stored-IsValid}
use os_pintos.Cache.Fetch.{find_or_fetch_total}

-- The invariant does not speak of the lock.
pub relock-IsValid : (c : Cache) (b : Bool) → IsValid c → IsValid (record c { held = b })
relock-IsValid c b v = record {
  count = v.count;
  distinct = v.distinct;
  bounded = v.bounded;
  clean = v.clean;
  writable = v.writable;
}

-- To set the reference bit is no visible change.
refer-Keeps :
    (c : Cache) (i : ℕ) (e : Entry)
    → IsValid c
    → get_elem? c.entries i ≡ some e
    → Keeps c (record c { entries = set c.entries i (record e { refer_bit = true }) })
refer-Keeps c i e v p = record {
  valid = record {
    count = length-set c.entries i e' ∙ v.count;
    distinct = Distinct-SameData c.entries i e e' p (refl, refl, refl, refl) v.distinct;
    bounded = λ t x q. v.bounded t x (sym (same t) ∙ q);
    clean = λ t b q. v.clean t b (sym (same t) ∙ q);
    writable = v.writable;
  };
  same = λ t. rw (same t);
  held = refl;
  size = refl;
}
  where
    e' : Entry
    e' = record e { refer_bit = true }

    same : (t : ℕ) → find (set c.entries i e') t ≡ find c.entries t
    same t = find-SameData c.entries i e e' t p (refl, refl, refl, refl)

-- The buffer of the entry that holds a sector is what the sector holds.
view_of_holding :
    (c : Cache) (i : ℕ) (e : Entry) (s : ℕ)
    → IsValid c
    → get_elem? c.entries i ≡ some e
    → matches e s ≡ true
    → view c s ≡ e.buffer
view_of_holding c i e s v p m = ground (arith, find-remove_at c.entries i e s v.distinct p)

-- Between two calls: the invariant holds and the lock is free.
pub record IsReady (c : Cache) : Type 0 where
  pub valid : IsValid c
  pub unlocked : c.held ≡ false

-- A call of the cache leaves it ready, on a device of the same size.
pub record Ready (c c' : Cache) : Type 0 where
  pub ready : IsReady c'
  pub size : c'.device.size ≡ c.device.size

-- A read of a sector of the device never panics: it returns what the sector holds, and no sector
-- changes for a later reader, whatever is cached and whichever entry is evicted.
pub read_lem :
    (c : Cache) (s : ℕ)
    → IsReady c
    → s < c.device.size
    → (c' : Cache) × (buffer_cache_read c s ≡ ok (c', view c s))
      × ((t : ℕ) → view c' t ≡ view c t)
      × Ready c c'
unfolding buffer_cache_read
read_lem c s r b =
    let v = relock-IsValid c true r.valid in
    let (c1, i, q, k, (e, g, m)) = find_or_fetch_total (record c { held = true }) s v refl b in
    let j = refer-Keeps c1 i e k.valid g in
    (
      record c1 { entries = set c1.entries i (record e { refer_bit = true }); held = false },
      ground (arith, q, g, r.unlocked, k.held, view_of_holding c1 i e s k.valid g m, k.same s),
      λ t. j.same t ∙ k.same t,
      record {
        ready = record { valid = relock-IsValid _ false j.valid; unlocked = refl };
        size = k.size;
      },
    )

-- A write to a sector of the device never panics: the sector holds the new bytes afterwards, and
-- every other sector what it held.
pub write_lem :
    (c : Cache) (s : ℕ) (source : Sector)
    → IsReady c
    → s < c.device.size
    → (c' : Cache) × (buffer_cache_write c s source ≡ ok c')
      × ((t : ℕ) → view c' t ≡ (if s == t then source else view c t))
      × Ready c c'
unfolding buffer_cache_write
write_lem c s source r b =
    let v = relock-IsValid c true r.valid in
    let (c1, i, q, k, (e, g, m)) = find_or_fetch_total (record c { held = true }) s v refl b in
    let (w, same) = stored-IsValid c1 i e k.valid g source (ground arith) in
    (
      record c1 {
        entries =
            set c1.entries i (record e { refer_bit = true; dirty_bit = true; buffer = source });
        held = false;
      },
      ground (arith, q, g, r.unlocked, k.held),
      λ t. ground (arith, same t, k.same t),
      record {
        ready = record { valid = relock-IsValid _ false w; unlocked = refl };
        size = k.size;
      },
    )

-- A client's calls, in order.
pub data Call : Type 0 where
  read : ℕ → Call
  write : ℕ → Sector → Call

-- The calls on the cache: the sectors that the reads return.
unfoldable pub run : List Call → Cache → Outcome (Cache × List Sector)
run [] c = ok (c, [])
run (read s ∷ calls) c = do
  (c1, b) ← buffer_cache_read c s
  (c2, out) ← run calls c1
  ok (c2, b ∷ out)
run (write s b ∷ calls) c = do c1 ← buffer_cache_write c s b; run calls c1

-- The same calls on an array of sectors.
unfoldable pub model : List Call → (ℕ → Sector) → (ℕ → Sector) × List Sector
model [] f = (f, [])
model (read s ∷ calls) f = let (g, out) = model calls f in (g, f s ∷ out)
model (write s b ∷ calls) f = model calls (write_at f s b)

abbrev pub target : Call → ℕ
target (read s) = s
target (write s b) = s

-- All calls are within the device.
abbrev pub Within : ℕ → List Call → Type 0
Within n [] = Unit {0}
Within n (x ∷ calls) = (target x < n) × Within n calls
