-- ===== src/Cache/Runs.antt =====
-- Sequences of calls of the buffer cache, and its termination at shutdown.
use os_pintos.Common.{
  ℕ, zero, suc, ◌+◌, ◌<◌, ◌≡◌, ◌≢◌, refl, sym, ◌∙◌, List, [], ◌∷◌, Bool, true, false, some, ok,
  arith, get_elem?, Bool-cases, inl, inr, get_elem?_of_lt, lt-length_of_get_elem?, Option-cases,
}
use native.Mathlib.Decide.{ℕ_discrete}
use os_pintos.Block.{Sector, write_at}
use os_pintos.Cache.{Entry, Cache, matches, num_cache, flush_from, buffer_cache_terminate}
use os_pintos.Cache.Find.{find}
use os_pintos.Cache.Invariant.{view, IsValid, Keeps, Keeps-trans}
use os_pintos.Cache.Steps.{Keeps-refl, flush_total}
use os_pintos.Cache.Refine.{
  IsReady, Ready, read_lem, write_lem, Call, read, write, run, model, Within, relock-IsValid,
}

pub run_refines :
    (calls : List Call) (c : Cache) (f : ℕ → Sector)
    → IsReady c
    → ((t : ℕ) → view c t ≡ f t)
    → Within c.device.size calls
    → (c' : Cache) × (run calls c ≡ ok (c', (model calls f).1))
      × ((t : ℕ) → view c' t ≡ (model calls f).0 t)
      × IsReady c'
unfolding run model
run_refines [] c f r h w = (c, refl, h, r)
run_refines (read s ∷ calls) c f r h w =
    let (c1, q, same, k) = read_lem c s r w.0 in
    let (c2, q2, h2, r2) = run_refines calls c1 f k.ready (λ t. same t ∙ h t) (rw k.size w.1) in
    (c2, ground (arith, q, q2, h s), h2, r2)
run_refines (write s b ∷ calls) c f r h w =
    let (c1, q, same, k) = write_lem c s b r w.0 in
    let (c2, q2, h2, r2) =
      run_refines calls c1 (write_at f s b) k.ready (λ t. ground (arith, same t, h t))
        (rw k.size w.1) in
    (c2, ground (arith, q, q2), h2, r2)

-- Entries from `lo` on may be dirty, those before it are not.
abbrev CleanBelow : ℕ → Cache → Type 0
CleanBelow lo c =
    (k : ℕ) (e : Entry)
    → k < lo
    → get_elem? c.entries k ≡ some e
    → e.valid_bit ≡ true
    → e.dirty_bit ≡ false

-- One more entry is clean.
CleanBelow-suc :
    (i : ℕ) (c c' : Cache) (e : Entry)
    → CleanBelow i c
    → ((k : ℕ) → i ≢ k → get_elem? c'.entries k ≡ get_elem? c.entries k)
    → get_elem? c'.entries i ≡ some e
    → (e.valid_bit ≡ true → e.dirty_bit ≡ false)
    → CleanBelow (suc i) c'
CleanBelow-suc i c c' e l others here h k x lt g u = elim (ℕ_discrete i k) [
  | yes p ↦ let same : x ≡ e = ground (arith, rw p at here, g) in ground (arith, h, same)
  | no ne ↦ l k x (omega arith) (sym (others k ne) ∙ g) u
]

flush_from_total :
    (n i : ℕ) (c : Cache)
    → i + n ≡ num_cache
    → IsValid c
    → c.held ≡ true
    → CleanBelow i c
    → (c' : Cache) × (flush_from n i c ≡ ok c') × Keeps c c' × CleanBelow num_cache c'
unfolding flush_from
flush_from_total zero i c s v h l = (c, refl, Keeps-refl c v, λ k e lt p u. l k e (omega arith) p u)
flush_from_total (suc n) i c s v h l =
    let (e, p) = get_elem?_of_lt c.entries i (omega (arith, v.count)) in
    elim (Bool-cases e.valid_bit) [
      | inr u ↦
          let l1 = CleanBelow-suc i c c e l (λ k ne. refl) p (λ w. cc) in
          let (c', q, k, l') = flush_from_total n (suc i) c (omega arith) v h l1 in
          (c', ground (arith, p, q), k, l')
      | inl u ↦
          let (c1, q1, k1, g1, _, others) = flush_total c i e v h p u in
          let l1 = CleanBelow-suc i c c1 (record e { dirty_bit = false }) l others g1 (λ w. refl) in
          let (c', q, k, l') =
            flush_from_total n (suc i) c1 (omega arith) k1.valid (k1.held ∙ h) l1 in
          (c', ground (arith, p, q1, q), Keeps-trans c c1 c' k1 k, l')
    ]

find-get_elem? :
    (es : List Entry) (t : ℕ) (x : Sector × Bool)
    → find es t ≡ some x
    → (k : ℕ) × (e : Entry) × (get_elem? es k ≡ some e) × (e.valid_bit ≡ true) × (e.dirty_bit ≡ x.1)
find-get_elem? [] t x h = cc
find-get_elem? (e ∷ es) t x h = elim (Bool-cases (matches e t)) [
  | inl m ↦ (0, e, refl, ground arith, ground arith)
  | inr m ↦ let (k, e', g, u, w) = find-get_elem? es t x (rw m at h) in (suc k, e', g, u, w)
]

-- Where no entry is dirty, the device holds everything.
content-view :
    (c : Cache) (t : ℕ) → IsValid c → CleanBelow num_cache c → c.device.content t ≡ view c t
content-view c t v l = elim (Option-cases (find c.entries t)) [
  | inl miss ↦ ground arith
  | inr (x, hit) ↦
      let (k, e, g, u, w) = find-get_elem? c.entries t x hit in
      let clean : e.dirty_bit ≡ false =
        l k e (omega (arith, v.count, lt-length_of_get_elem? c.entries k g)) g u in
      ground (arith, v.clean t x.0, hit, clean, w)
]

-- At shutdown every dirty entry reaches the device: afterwards each sector of the device holds what
-- the kernel last saw there.
pub terminate_lem :
    (c : Cache)
    → IsReady c
    → (c' : Cache) × (buffer_cache_terminate c ≡ ok c')
      × ((t : ℕ) → c'.device.content t ≡ view c t)
      × Ready c c'
unfolding buffer_cache_terminate
terminate_lem c r =
    let (c1, q, k, l) =
      flush_from_total num_cache 0 (record c { held = true }) refl (relock-IsValid c true r.valid)
        refl (λ j e lt. elim lt [ ]) in
    (
      record c1 { held = false },
      ground (arith, q, k.held, r.unlocked),
      λ t. content-view c1 t k.valid l ∙ k.same t,
      record {
        ready = record { valid = relock-IsValid c1 false k.valid; unlocked = refl };
        size = k.size;
      },
    )

-- Any calls within the device, then shutdown: the reads have returned what an array of sectors
-- returns, and the device ends up as that array.
pub durable :
    (calls : List Call) (c : Cache)
    → IsReady c
    → Within c.device.size calls
    → (c' : Cache) × (c'' : Cache) × (run calls c ≡ ok (c', (model calls (view c)).1))
      × (buffer_cache_terminate c' ≡ ok c'')
      × ((t : ℕ) → c''.device.content t ≡ (model calls (view c)).0 t)
durable calls c r w =
    let (c1, q, h, r1) = run_refines calls c (view c) r (λ t. refl) w in
    let (c2, q2, h2, _) = terminate_lem c1 r1 in (c1, c2, q, q2, λ t. h2 t ∙ h t)
