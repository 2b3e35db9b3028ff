-- ===== src/Cache/Clock.antt =====
-- The clock of `buffer_cache_select_victim`: it stops within its fuel, and only clears reference
-- bits on its way.
use os_pintos.Common.{
  ℕ, zero, suc, ◌+◌, ◌%◌, ◌≤◌, ◌<◌, ◌≡◌, refl, ◌∙◌, List, [], ◌∷◌, true, false, some, ◌⊎◌, inl, inr,
  arith, if◌then◌else◌, get_elem?, set, length, Bool-cases, length-set, get_elem?_of_lt,
}
use os_pintos.Cache.{Entry, num_cache, clock}
use os_pintos.Cache.Find.{find, Distinct}

-- The number of entries whose reference bit is set.
abbrev pub referred : List Entry → ℕ
referred [] = 0
referred (e ∷ es) = if e.refer_bit then suc (referred es) else referred es

pub referred-le-length : (es : List Entry) → referred es ≤ length es
referred-le-length [] = omega arith
referred-le-length (e ∷ es) = ground (arith, referred-le-length es)

abbrev unrefer : Entry → Entry
unrefer e = record e { refer_bit = false }

referred-unrefer :
    (es : List Entry) (i : ℕ) (e : Entry)
    → get_elem? es i ≡ some e
    → e.refer_bit ≡ true
    → referred (set es i (unrefer e)) + 1 ≡ referred es
referred-unrefer [] i e h r = cc
referred-unrefer (x ∷ es) zero e h r = ground arith
referred-unrefer (x ∷ es) (suc i) e h r = ground (arith, referred-unrefer es i e h r)

-- Two entries that differ in the reference bit at most.
abbrev pub SameData : Entry → Entry → Type 0
SameData e e' =
    (e'.valid_bit ≡ e.valid_bit)
    × (e'.disk_sector ≡ e.disk_sector)
    × (e'.buffer ≡ e.buffer)
    × (e'.dirty_bit ≡ e.dirty_bit)

pub find-SameData :
    (es : List Entry) (i : ℕ) (e e' : Entry) (t : ℕ)
    → get_elem? es i ≡ some e
    → SameData e e'
    → find (set es i e') t ≡ find es t
find-SameData [] i e e' t h s = refl
find-SameData (x ∷ es) zero e e' t h s = ground arith
find-SameData (x ∷ es) (suc i) e e' t h s = ground (arith, find-SameData es i e e' t h s)

pub Distinct-SameData :
    (es : List Entry) (i : ℕ) (e e' : Entry)
    → get_elem? es i ≡ some e
    → SameData e e'
    → Distinct es
    → Distinct (set es i e')
Distinct-SameData [] i e e' h s d = d
Distinct-SameData (x ∷ es) zero e e' h s d = (λ v. ground (arith, d.0), d.1)
Distinct-SameData (x ∷ es) (suc i) e e' h s d =
    (λ v. find-SameData es i e e' x.disk_sector h s ∙ d.0 v, Distinct-SameData es i e e' h s d.1)

-- What is known of the entries when the loop stops at `j`.
pub record Stopped (es es' : List Entry) (j : ℕ) (e : Entry) : Type 0 where
  pub here : get_elem? es' j ≡ some e
  pub same : (t : ℕ) → find es' t ≡ find es t
  pub distinct : Distinct es → Distinct es'
  pub count : length es' ≡ length es
  pub reason : (e.valid_bit ≡ false) ⊎ (e.refer_bit ≡ false)

Stopped-refl :
    (es : List Entry) (i : ℕ) (e : Entry)
    → get_elem? es i ≡ some e
    → (e.valid_bit ≡ false) ⊎ (e.refer_bit ≡ false)
    → Stopped es es i e
Stopped-refl es i e p r = record {
  here = p;
  same = λ t. refl;
  distinct = λ d. d;
  count = refl;
  reason = r;
}

Stopped-unrefer :
    (es : List Entry) (i : ℕ) (e : Entry) {es' : List Entry} {j : ℕ} {e' : Entry}
    → get_elem? es i ≡ some e
    → Stopped (set es i (unrefer e)) es' j e'
    → Stopped es es' j e'
Stopped-unrefer es i e p s = record {
  here = s.here;
  same = λ t. s.same t ∙ find-SameData es i e (unrefer e) t p (refl, refl, refl, refl);
  distinct = λ d. s.distinct (Distinct-SameData es i e (unrefer e) p (refl, refl, refl, refl) d);
  count = s.count ∙ length-set es i (unrefer e);
  reason = s.reason;
}

-- More fuel than reference bits is enough.
pub clock_total :
    (f : ℕ) (es : List Entry) (i : ℕ)
    → referred es < f
    → length es ≡ num_cache
    → i < num_cache
    → (es' : List Entry) × (j : ℕ) × (e : Entry) × (clock f es i ≡ some (es', j, e))
      × Stopped es es' j e
unfolding clock
clock_total zero es i h n b = elim h [ ]
clock_total (suc f) es i h n b =
    let (e, p) = get_elem?_of_lt es i (omega arith) in
    elim (Bool-cases e.valid_bit) [
      | inr free ↦ (es, i, e, ground arith, Stopped-refl es i e p (inl free))
      | inl used ↦ elim (Bool-cases e.refer_bit) [
        | inr idle ↦ (es, i, e, ground arith, Stopped-refl es i e p (inr idle))
        | inl recent ↦
            let (es', j, e', q, s) =
              clock_total f (set es i (unrefer e)) ((i + 1) % num_cache)
                (omega (arith, referred-unrefer es i e p recent)) (length-set es i (unrefer e) ∙ n)
                (omega arith) in
            (es', j, e', ground arith, Stopped-unrefer es i e p s)
      ]
    ]
