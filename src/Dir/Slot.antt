-- ===== src/Dir/Slot.antt =====
-- The search of dir_add for an entry that is not in use.
use os_pintos.Common.{
  ℕ, zero, suc, ◌+◌, ◌-◌, ◌*◌, ◌≤◌, ◌<◌, ◌≡◌, refl, sym, ◌∙◌, ap, List, true, false, Outcome, ok,
  arith, ◌==◌, length, inl, inr, Bool-cases,
}
use os_pintos.Block.{Sector}
use os_pintos.Cache.{Cache}
use os_pintos.Cache.Invariant.{view}
use os_pintos.Inode.{Inode}
use os_pintos.Inode.Index.{Same, Same-trans}
use os_pintos.Inode.Bytes.{byte_at}
use os_pintos.Inode.Put.{overwrite_all}
use os_pintos.Inode.Write.{overwrite}
use os_pintos.Dir.{entry_size, in_use, FileSys, Env}
use os_pintos.Dir.Find.{
  entry_at, with_cache, IsDir, IsDir-Same, reading_entry, full_entry, length-bytes_from,
}
use os_pintos.Dir.Change.{free_slot}

-- Where the search of dir_add ends: the first entry that is not in use.
pub record IsFirst (g : ℕ → ℕ) (from k : ℕ) : Type 0 where
  pub free : in_use (entry_at g (from + entry_size * k)) ≡ false
  pub before : (j : ℕ) → j < k → in_use (entry_at g (from + entry_size * j)) ≡ true

IsFirst-suc :
    (g : ℕ → ℕ) (from k : ℕ)
    → in_use (entry_at g from) ≡ true
    → IsFirst g (from + entry_size) k
    → IsFirst g from (suc k)
IsFirst-suc g from k u f = record {
  free = ap (λ o. in_use (entry_at g o)) (omega arith) ∙ f.free;
  before = earlier;
}
  where
    earlier : (j : ℕ) → j < suc k → in_use (entry_at g (from + entry_size * j)) ≡ true
    earlier zero q = ap (λ o. in_use (entry_at g o)) (omega arith) ∙ u
    earlier (suc j) q =
        ap (λ o. in_use (entry_at g o)) (omega arith) ∙ f.before j (omega (arith, q))

slot : FileSys → (ℕ → ℕ) → ℕ → Outcome (FileSys × List ℕ × ℕ)
slot s g ofs = ok (s, entry_at g ofs, ofs)

module _ (env : Env) (room : env.room ≡ true) (f : ℕ → Sector) (i : Inode) (sector : ℕ) where
  -- The result of the search: the entry, as read, and its offset.
  pub free_slot_lem :
      (m n : ℕ) (s : FileSys) (e : List ℕ) (from : ℕ)
      → IsDir s sector i
      → view s.disk.cache ≡ f
      → length e ≡ entry_size
      → from + entry_size * m + entry_size ≤ i.disk.length
      → in_use (entry_at (byte_at f i.disk) (from + entry_size * m)) ≡ false
      → m < n
      → (c : Cache) × (k : ℕ) × (k ≤ m)
        × IsFirst (byte_at f i.disk) from k
        × (free_slot env n s sector e from
            ≡ ok (
              with_cache s c,
              entry_at (byte_at f i.disk) (from + entry_size * k),
              from + entry_size * k,
            ))
        × Same s.disk.cache c
  unfolding free_slot slot
  free_slot_lem m zero s e from h v l b u q = absurd (omega (arith, q))
  free_slot_lem m (suc n) s e from h v l b u q =
      let g = byte_at f i.disk in
      let (c1, e1, m1) = reading_entry env room s sector i from h in
      let e2 =
        full_entry s.disk.cache i.disk from (omega (arith, b))
        ∙ ap (λ (f : ℕ → Sector). entry_at (byte_at f i.disk) from) v in
      let read = e1 ∙ ap (λ l. ok (with_cache s c1, l)) e2 in
      let size : length (entry_at g from) ≡ entry_size = length-bytes_from g from entry_size in
      let whole : length (entry_at g from) == entry_size ≡ true = ap (λ n. n == entry_size) size in
      let over : overwrite e 0 (entry_at g from) ≡ entry_at g from =
        overwrite_all e (entry_at g from) (size ∙ sym l) in
      elim (Bool-cases (in_use (entry_at g from))) [
        | inr free ↦
            let z : from + entry_size * 0 ≡ from = omega arith in
            (
              c1,
              0,
              omega arith,
              record {
                free = ap (λ o. in_use (entry_at g o)) z ∙ free;
                before = λ j p. absurd (omega (arith, p));
              },
              rw (read, whole, over, free, z) refl,
              m1,
            )
        | inl used ↦ elim (Bool-cases (m == 0)) [
          | inl z ↦
              let here : from + entry_size * m ≡ from = ground (arith, z) in
              let no : in_use (entry_at g from) ≡ false =
                ap (λ o. in_use (entry_at g o)) (sym here) ∙ u in
              absurd (ground (arith, used, no))
          | inr z ↦
              let next : from + entry_size + entry_size * (m - 1) ≡ from + entry_size * m =
                ground (arith, z) in
              let (c2, k, small, first, e3, m2) =
                free_slot_lem (m - 1) n (with_cache s c1) (entry_at g from) (from + entry_size)
                  (IsDir-Same s sector i c1 h m1) (m1.contents ∙ v) size (omega (arith, next, b))
                  (ap (λ o. in_use (entry_at g o)) next ∙ u) (ground (arith, q, z)) in
              let later : from + entry_size + entry_size * k ≡ from + entry_size * suc k =
                omega arith in
              (
                c2,
                suc k,
                ground (arith, small, z),
                IsFirst-suc g from k used first,
                rw (read, whole, over, used) (e3 ∙ ap (slot (with_cache s c2) g) later),
                Same-trans s.disk.cache c1 c2 m1 m2,
              )
        ]
      ]
