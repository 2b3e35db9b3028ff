-- ===== src/Dir/Fields.antt =====
-- The fields of an entry that dir_add writes.
use os_pintos.Common.{
  ℕ, zero, suc, ◌+◌, ◌-◌, ◌^◌, ◌≤◌, ◌<◌, ◌≡◌, refl, ◌∙◌, List, [], ◌∷◌, ◌++◌, true, arith, length,
  take, drop, length-append, length-take, length-drop,
}
use os_pintos.Inode.{nth}
use os_pintos.Inode.Write.{overwrite}
use os_pintos.Inode.Put.{overlay, length-overwrite, nth-overwrite}
use os_pintos.Inode.Growth.{word_bytes}
use os_pintos.Dir.{entry_size, inode_sector, entry_name, in_use, same_name}
use os_pintos.Dir.Change.{new_entry}

-- The name is that of the array.
same_name_of :
    (n b : List ℕ)
    → length n < length b
    → ((j : ℕ) → j < length n → nth b j ≡ nth n j)
    → nth b (length n) ≡ 0
    → same_name n b ≡ true
same_name_of n [] l h z = absurd (omega (arith, l))
same_name_of [] (y ∷ b) l h z = ground (arith, z)
same_name_of (x ∷ n) (y ∷ b) l h z =
    let e : y ≡ x = h 0 (omega arith) in
    ground (arith, e, same_name_of n b (omega (arith, l)) (λ j q. h (suc j) (omega (arith, q))) z)

nth-take : (l : List ℕ) (n j : ℕ) → j < n → nth (take n l) j ≡ nth l j
nth-take [] zero j h = refl
nth-take [] (suc n) j h = refl
nth-take (x ∷ l) zero j h = absurd (omega (arith, h))
nth-take (x ∷ l) (suc n) zero h = refl
nth-take (x ∷ l) (suc n) (suc j) h = nth-take l n j (omega (arith, h))

nth-append_left : (a b : List ℕ) (j : ℕ) → j < length a → nth (a ++ b) j ≡ nth a j
nth-append_left [] b j h = absurd (omega (arith, h))
nth-append_left (x ∷ a) b zero h = refl
nth-append_left (x ∷ a) b (suc j) h = nth-append_left a b j (omega (arith, h))

nth-append_end : (a : List ℕ) (y : ℕ) → nth (a ++ (y ∷ [])) (length a) ≡ y
nth-append_end [] y = refl
nth-append_end (x ∷ a) y = nth-append_end a y

nth-drop_four : (l : List ℕ) (j : ℕ) → nth (drop 4 l) j ≡ nth l (4 + j)
nth-drop_four [] j = refl
nth-drop_four (a ∷ []) j = let e : 4 + j ≡ suc (suc (suc (suc j))) = omega arith in rw e refl
nth-drop_four (a ∷ b ∷ []) j = let e : 4 + j ≡ suc (suc (suc (suc j))) = omega arith in rw e refl
nth-drop_four (a ∷ b ∷ c ∷ []) j =
    let e : 4 + j ≡ suc (suc (suc (suc j))) = omega arith in rw e refl
nth-drop_four (a ∷ b ∷ c ∷ d ∷ l) j =
    let e : 4 + j ≡ suc (suc (suc (suc j))) = omega arith in rw e refl

module _ (e name : List ℕ) (sector : ℕ) (size : length e ≡ entry_size)
    (short : length name ≤ 14) where
  first : List ℕ
  first = overwrite e 19 (1 ∷ [])

  second : List ℕ
  unfolding first
  second = overwrite first 4 (name ++ (0 ∷ []))

  first_size : length first ≡ entry_size
  unfolding first
  first_size = length-overwrite e 19 (1 ∷ []) ∙ size

  second_size : length second ≡ entry_size
  unfolding second
  second_size = length-overwrite first 4 (name ++ (0 ∷ [])) ∙ first_size

  pub length-new_entry : length (new_entry e name sector) ≡ entry_size
  unfolding first second
  length-new_entry = length-overwrite second 0 (word_bytes sector) ∙ second_size

  nth_second : (j : ℕ) → nth second j ≡ overlay 4 (name ++ (0 ∷ [])) (nth first) j
  unfolding second
  nth_second j =
      nth-overwrite first 4 (name ++ (0 ∷ [])) j
        (omega (arith, first_size, short, length-append name (0 ∷ [])))

  nth-new_entry :
      (j : ℕ) → nth (new_entry e name sector) j ≡ overlay 0 (word_bytes sector) (nth second) j
  unfolding first second
  nth-new_entry j = nth-overwrite second 0 (word_bytes sector) j (omega (arith, second_size))

  -- The flag.
  pub in_use-new_entry : in_use (new_entry e name sector) ≡ true
  unfolding first
  in_use-new_entry =
      let a : nth first 19 ≡ 1 =
        nth-overwrite e 19 (1 ∷ []) 19 (omega (arith, size)) ∙ ground arith in
      let b : nth second 19 ≡ nth first 19 =
        nth_second 19 ∙ ground (arith, length-append name (0 ∷ []), short) in
      ground (arith, nth-new_entry 19, b, a)

  -- The sector.
  pub inode_sector-new_entry : sector < 2 ^ 32 → inode_sector (new_entry e name sector) ≡ sector
  inode_sector-new_entry h = omega (
    arith,
    h,
    byte 0 (omega arith),
    byte 1 (omega arith),
    byte 2 (omega arith),
    byte 3 (omega arith),
  )
    where
      byte : (j : ℕ) → j < 4 → nth (new_entry e name sector) j ≡ nth (word_bytes sector) j
      byte j q = nth-new_entry j ∙ ground (arith, q)

  -- The name.
  pub same_name-new_entry : same_name name (entry_name (new_entry e name sector)) ≡ true
  same_name-new_entry =
      same_name_of name (entry_name x) (omega (arith, long, short))
        (λ j q.
          at_name j (omega (arith, q, short))
          ∙ within j (omega (arith, q))
          ∙ nth-append_left name (0 ∷ []) j q)
        (at_name (length name) (omega (arith, short))
          ∙ within (length name) (omega arith)
          ∙ nth-append_end name 0)
    where
      x : List ℕ
      x = new_entry e name sector

      long : length (entry_name x) ≡ 15
      long = omega (arith, length-take 15 (drop 4 x), length-drop 4 x, length-new_entry)

      at_name : (j : ℕ) → j < 15 → nth (entry_name x) j ≡ nth x (4 + j)
      at_name j q = nth-take (drop 4 x) 15 j q ∙ nth-drop_four x j

      within : (j : ℕ) → j ≤ length name → nth x (4 + j) ≡ nth (name ++ (0 ∷ [])) j
      within j q =
          let k : 4 + j - 4 ≡ j = omega arith in
          nth-new_entry (4 + j)
          ∙ ground (arith, nth_second (4 + j), k, q, length-append name (0 ∷ []))
