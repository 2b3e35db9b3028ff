-- ===== src/Inode/Written.antt =====
-- Writes to a file one after the other, and one round of the loop that writes.
use mathlib.Core.Path.{subst, fun_ext}
use os_pintos.Common.{
  ℕ, zero, suc, ◌+◌, ◌-◌, ◌≤◌, ◌<◌, ◌≡◌, refl, sym, ◌∙◌, ap, List, [], ◌∷◌, ◌++◌, ◌&&◌, ◌||◌, true,
  some, ok, arith, ◌==◌, ltb, leb, length, if◌then◌else◌, inl, inr, Bool-cases, length-append,
}
use os_pintos.Block.{Sector}
use os_pintos.Cache.{Cache, buffer_cache_write}
use os_pintos.Cache.Invariant.{view}
use os_pintos.Cache.Refine.{Ready, write_lem}
use os_pintos.Inode.{InodeDisk, sector_size, nth}
use os_pintos.Inode.Index.{Same, reading_after}
use os_pintos.Inode.Bytes.{byte_at, IsFile}
use os_pintos.Inode.Write.{overwrite, bounced, write_chunk}
use os_pintos.Inode.Put.{overlay, overwrite_all, put, IsWritable, Wrote}

-- The file and its sectors stay what they are.
pub IsFile-Wrote :
    (f f' : ℕ → Sector) (size : ℕ) (d : InodeDisk) (offset : ℕ) (b : List ℕ)
    → Wrote f f' d offset b
    → IsFile f size d
    → IsFile f' size d
IsFile-Wrote f f' size d offset b w i = record {
  indexed = λ j h. rw (w.index j h).1 (i.indexed j h);
  on_device = λ j h. rw (w.index j h).0 (i.on_device j h);
  whole = w.whole i.whole;
}

pub IsWritable-Wrote :
    (f f' : ℕ → Sector) (d : InodeDisk) (offset : ℕ) (b : List ℕ)
    → Wrote f f' d offset b
    → IsWritable f d
    → IsWritable f' d
IsWritable-Wrote f f' d offset b w i = record {
  distinct = λ j k p q e. i.distinct j k p q (sym (w.index j p).0 ∙ e ∙ (w.index k q).0);
  apart = λ j k p q. rw ((w.index j p).0, (w.index k q).1) (i.apart j k p q);
}

overlay-append :
    (offset : ℕ) (a b : List ℕ) (g : ℕ → ℕ) (pos : ℕ)
    → overlay (offset + length a) b (overlay offset a g) pos ≡ overlay offset (a ++ b) g pos
overlay-append offset a b g pos =
    elim (Bool-cases (leb offset pos && ltb pos (offset + length a))) [
      | inl y ↦ ground (arith, y, length-append a b, nth_front a b (pos - offset))
      | inr n ↦ ground (arith, n, length-append a b, nth_back a b (pos - offset))
    ]
  where
    nth_front : (a b : List ℕ) (j : ℕ) → j < length a → nth (a ++ b) j ≡ nth a j
    nth_front [] b j h = absurd (omega (arith, h))
    nth_front (x ∷ a) b zero h = refl
    nth_front (x ∷ a) b (suc j) h = nth_front a b j (omega (arith, h))

    nth_back : (a b : List ℕ) (j : ℕ) → length a ≤ j → nth (a ++ b) j ≡ nth b (j - length a)
    nth_back [] b j h = ap (nth b) (omega arith)
    nth_back (x ∷ a) b zero h = absurd (omega (arith, h))
    nth_back (x ∷ a) b (suc j) h = nth_back a b j (omega (arith, h)) ∙ ap (nth b) (omega arith)

overlay_same :
    (offset : ℕ) (b : List ℕ) (g g' : ℕ → ℕ) (pos : ℕ)
    → g pos ≡ g' pos
    → overlay offset b g pos ≡ overlay offset b g' pos
overlay_same offset b g g' pos e = rw e refl

pub Wrote-trans :
    (f g h : ℕ → Sector) (d : InodeDisk) (offset : ℕ) (a b : List ℕ)
    → Wrote f g d offset a
    → Wrote g h d (offset + length a) b
    → Wrote f h d offset (a ++ b)
Wrote-trans f g h d offset a b p q = record {
  index = λ i r. ((q.index i r).0 ∙ (p.index i r).0, (q.index i r).1 ∙ (p.index i r).1);
  bytes = λ pos r.
      q.bytes pos r
      ∙ overlay_same (offset + length a) b (byte_at g d) (overlay offset a (byte_at f d)) pos
          (p.bytes pos r)
      ∙ overlay-append offset a b (byte_at f d) pos;
  others = λ t n. q.others t (λ i r e. n i r (sym (p.index i r).0 ∙ e)) ∙ p.others t n;
  whole = λ v. q.whole (p.whole v);
}

pub Wrote-nothing :
    (f f' : ℕ → Sector) (d : InodeDisk) (offset : ℕ) → f' ≡ f → Wrote f f' d offset []
Wrote-nothing f f' d offset e =
    subst (λ g. Wrote f g d offset []) (sym e)
      (record {
        index = λ i h. (refl, refl);
        bytes = λ pos h. ground arith;
        others = λ t n. refl;
        whole = λ v. v;
      })

-- A write to the cache after some calls that only read.
writing_after :
    (c c1 : Cache) (sec : ℕ) (s : Sector)
    → Same c c1
    → sec < c.device.size
    → (c2 : Cache) × (buffer_cache_write c1 sec s ≡ ok c2)
      × Ready c c2
      × ((t : ℕ) → view c2 t ≡ (if sec == t then s else view c t))
writing_after c c1 sec s m h =
    let (c2, e, v, r) = write_lem c1 sec s m.ready.ready (rw m.ready.size h) in
    (
      c2,
      e,
      record { ready = r.ready; size = r.size ∙ m.ready.size },
      λ t. v t ∙ ap (λ (f : ℕ → Sector). if sec == t then s else f t) m.contents,
    )

-- A round writes its bytes into its sector and changes no other.
pub write_chunk_lem :
    (c c1 : Cache) (sec k n : ℕ) (b : List ℕ)
    → Same c c1
    → sec < c.device.size
    → length (view c sec) ≡ sector_size
    → length b ≡ n
    → k + n ≤ sector_size
    → (c2 : Cache) × (write_chunk true c1 sec k n b ≡ ok (some c2))
      × Ready c c2
      × (view c2 ≡ put (view c) sec k b)
unfolding write_chunk bounced
write_chunk_lem c c1 sec k n b m h l lb r = elim (Bool-cases (k == 0 && n == sector_size)) [
  | inl y ↦
      let (c2, e, q, v) = writing_after c c1 sec b m h in
      let z : k ≡ 0 = ground (arith, y) in
      let w : overwrite (view c sec) k b ≡ b =
        ap (λ i. overwrite (view c sec) i b) z
        ∙ overwrite_all (view c sec) b (ground (arith, y, l, lb)) in
      (
        c2,
        rw (y, e) refl,
        q,
        fun_ext (λ t. v t ∙ ap (λ s. if sec == t then s else view c t) (sym w)),
      )
  | inr x ↦
      let part : (ltb 0 k || ltb n (sector_size - k)) ≡ true = ground (arith, x, r) in
      let (c2, e, s) = reading_after c c1 sec m h in
      let (c3, e3, q, v) = writing_after c c2 sec (overwrite (view c sec) k b) s h in
      (c3, rw (x, part, e, e3) refl, q, fun_ext v)
]
