-- ===== src/Cache/Invariant.antt =====
-- The invariant of the buffer cache, and the three changes that the operations make to one entry.
use os_pintos.Common.{
  ℕ, ◌<◌, ◌≡◌, refl, ◌∙◌, Bool, true, false, Option, none, some, arith, ◌==◌, if◌then◌else◌,
  get_elem?, set, length, length-set,
}
use os_pintos.Block.{Sector, Device, write_at}
use os_pintos.Cache.{Entry, Cache, num_cache, matches, loaded}
use os_pintos.Cache.Find.{
  find, Distinct, remove_at, find-remove_at, Distinct-set, find-set, find-remove_at_own,
}

abbrev choose : Option (Sector × Bool) → Sector → Sector
choose none b = b
choose (some x) b = x.0

-- What a sector holds as the rest of the kernel sees it: the cached buffer, else the device.
abbrev pub view : Cache → ℕ → Sector
view c t = choose (find c.entries t) (c.device.content t)

pub record IsValid (c : Cache) : Type 0 where
  pub count : length c.entries ≡ num_cache
  pub distinct : Distinct c.entries
  pub bounded : (t : ℕ) (x : Sector × Bool) → find c.entries t ≡ some x → t < c.device.size
  pub clean : (t : ℕ) (b : Sector) → find c.entries t ≡ some (b, false) → b ≡ c.device.content t
  pub writable : c.device.foreign ≡ false

-- A step that the kernel cannot see.
pub record Keeps (c c' : Cache) : Type 0 where
  pub valid : IsValid c'
  pub same : (t : ℕ) → view c' t ≡ view c t
  pub held : c'.held ≡ c.held
  pub size : c'.device.size ≡ c.device.size

pub Keeps-trans : (a b c : Cache) → Keeps a b → Keeps b c → Keeps a c
Keeps-trans a b c p q = record {
  valid = q.valid;
  same = λ t. q.same t ∙ p.same t;
  held = q.held ∙ p.held;
  size = q.size ∙ p.size;
}

module _ (c : Cache) (i : ℕ) (e : Entry) (v : IsValid c)
    (here : get_elem? c.entries i ≡ some e) where
  rest : ℕ → Option (Sector × Bool)
  rest t = find (remove_at c.entries i) t

  before :
      (t : ℕ) → find c.entries t ≡ (if matches e t then some (e.buffer, e.dirty_bit) else rest t)
  unfolding rest
  before t = find-remove_at c.entries i e t v.distinct here

  module _ (e' : Entry) (dist : Distinct (set c.entries i e')) where
    after :
        (t : ℕ)
        → find (set c.entries i e') t
          ≡ (if matches e' t then some (e'.buffer, e'.dirty_bit) else rest t)
    unfolding rest
    after t = find-set c.entries i e e' t here dist

  -- A changed entry that keeps its sector leaves the sectors distinct.
  still-Distinct :
      (e' : Entry)
      → e'.valid_bit ≡ e.valid_bit
      → e'.disk_sector ≡ e.disk_sector
      → Distinct (set c.entries i e')
  still-Distinct e' p q =
      Distinct-set c.entries i e' v.distinct
        (λ u. rw q (find-remove_at_own c.entries i e v.distinct here (ground arith)))

  -- An entry that is written back becomes clean.
  abbrev pub clean_entry : Entry
  clean_entry = record e { dirty_bit = false }

  pub written_back-Keeps :
      (d : Device)
      → e.valid_bit ≡ true
      → ((t : ℕ) → d.content t ≡ write_at c.device.content e.disk_sector e.buffer t)
      → d.size ≡ c.device.size
      → d.foreign ≡ c.device.foreign
      → Keeps c (record c { entries = set c.entries i clean_entry; device = d })
  unfolding rest
  written_back-Keeps d u h k w = record {
    valid = record {
      count = length-set c.entries i clean_entry ∙ v.count;
      distinct = dist;
      bounded = λ t x p.
          ground (arith, now t, before t, v.bounded t x, v.bounded t (e.buffer, e.dirty_bit));
      clean = λ t b p. ground (arith, now t, before t, v.clean t b, h t);
      writable = w ∙ v.writable;
    };
    same = λ t. ground (arith, now t, before t, h t);
    held = refl;
    size = k;
  }
    where
      dist : Distinct (set c.entries i clean_entry)
      dist = still-Distinct clean_entry refl refl

      now :
          (t : ℕ)
          → find (set c.entries i clean_entry) t
            ≡ (if matches e t then some (e.buffer, false) else rest t)
      now = after clean_entry dist

  -- A clean entry may be given up.
  abbrev pub free_entry : Entry
  free_entry = record e { valid_bit = false }

  pub dropped-Keeps :
      e.valid_bit ≡ true
      → e.dirty_bit ≡ false
      → Keeps c (record c { entries = set c.entries i free_entry })
  unfolding rest
  dropped-Keeps u w = record {
    valid = record {
      count = length-set c.entries i free_entry ∙ v.count;
      distinct = dist;
      bounded = λ t x p. ground (arith, now t, before t, v.bounded t x, own t);
      clean = λ t b p. ground (arith, now t, before t, v.clean t b, own t);
      writable = v.writable;
    };
    same = λ t. ground (arith, now t, before t, v.clean t e.buffer, own t);
    held = refl;
    size = refl;
  }
    where
      dist : Distinct (set c.entries i free_entry)
      dist = Distinct-set c.entries i free_entry v.distinct (λ p. cc)

      now : (t : ℕ) → find (set c.entries i free_entry) t ≡ rest t
      now = after free_entry dist

      own : (t : ℕ) → matches e t ≡ true → rest t ≡ none
      own t m =
          let q : e.disk_sector ≡ t = ground arith in
          rw (← q) (find-remove_at_own c.entries i e v.distinct here u)

  -- A free entry may be filled from the device.
  pub filled-Keeps :
      (d : Device) (s : ℕ)
      → e.valid_bit ≡ false
      → find c.entries s ≡ none
      → s < c.device.size
      → ((t : ℕ) → d.content t ≡ c.device.content t)
      → d.size ≡ c.device.size
      → d.foreign ≡ c.device.foreign
      → Keeps c
          (record c { entries = set c.entries i (loaded e s (c.device.content s)); device = d })
  unfolding rest
  filled-Keeps d s u miss b h k w = record {
    valid = record {
      count = length-set c.entries i e' ∙ v.count;
      distinct = dist;
      bounded = λ t x p. ground (arith, now t, before t, v.bounded t x);
      clean = λ t x p. ground (arith, now t, before t, v.clean t x, h t);
      writable = w ∙ v.writable;
    };
    same = λ t. ground (arith, now t, before t, miss, h t);
    held = refl;
    size = k;
  }
    where
      e' : Entry
      e' = loaded e s (c.device.content s)

      dist : Distinct (set c.entries i e')
      dist = Distinct-set c.entries i e' v.distinct (λ _. ground (arith, before s))

      now :
          (t : ℕ)
          → find (set c.entries i e') t
            ≡ (if s == t then some (c.device.content s, false) else rest t)
      now = after e' dist

  -- A write to a valid entry changes its sector and no other.
  abbrev pub stored_entry : Sector → Entry
  stored_entry b = record e { refer_bit = true; dirty_bit = true; buffer = b }

  pub stored-IsValid :
      (b : Sector)
      → e.valid_bit ≡ true
      → IsValid (record c { entries = set c.entries i (stored_entry b) })
        × ((t : ℕ)
            → view (record c { entries = set c.entries i (stored_entry b) }) t
              ≡ (if e.disk_sector == t then b else view c t))
  unfolding rest
  stored-IsValid b u = (
    record {
      count = length-set c.entries i (stored_entry b) ∙ v.count;
      distinct = dist;
      bounded = λ t x p.
          ground (arith, now t, before t, v.bounded t x, v.bounded t (e.buffer, e.dirty_bit));
      clean = λ t x p. ground (arith, now t, before t, v.clean t x);
      writable = v.writable;
    },
    λ t. ground (arith, now t, before t),
  )
    where
      dist : Distinct (set c.entries i (stored_entry b))
      dist = still-Distinct (stored_entry b) refl refl

      now :
          (t : ℕ)
          → find (set c.entries i (stored_entry b)) t
            ≡ (if matches e t then some (b, true) else rest t)
      now = after (stored_entry b) dist
