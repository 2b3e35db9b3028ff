-- ===== src/Filesys/Open.antt =====
-- filesys_open of a name that the directory of the thread does not have.
use mathlib.Core.Path.{subst}
use os_pintos.Common.{
  ℕ, ◌+◌, ◌-◌, ◌*◌, ◌≡◌, ◌≤◌, ◌<◌, refl, sym, ◌∙◌, ap, List, [], ◌∷◌, true, false, not, Option,
  none, some, ok, ◌==◌, Each, arith, inl, inr, Bool-cases,
}
use os_pintos.Cache.{Cache}
use os_pintos.Cache.Invariant.{view}
use os_pintos.Inode.{Inode, inode_reopen}
use os_pintos.Inode.Index.{Same}
use os_pintos.Inode.Bytes.{byte_at}
use os_pintos.Inode.Mapped.{close_from, inode_close}
use os_pintos.Dir.{
  FileSys, Dir, Env, entry_size, same_name, find_inode, inode_of, put_inode, dir_open, dir_reopen,
  dir_close, lookup, dir_lookup, close_inode,
}
use os_pintos.Dir.Find.{
  is_entry_of, with_cache, IsDir, Looked, found, missing, inode_of_open, lookup_lem,
}
use os_pintos.Dir.Add.{put_same}
use os_pintos.Dir.Change.{walk}
use os_pintos.File.Denied.{sector-find_inode, find-put_inode}
use os_pintos.Paths.{slash, token, tokens_from, is_empty, divide_fn}
use os_pintos.Paths.Divide.{IsPart}
use os_pintos.Filesys.{start_dir, make_path, find_file, filesys_open}

token_alone : (t : List ℕ) → Each (λ c. c == slash ≡ false) t → token t ≡ t
token_alone [] h = refl
token_alone (c ∷ t) h = rw h.0 (ap (λ l. c ∷ l) (token_alone t h.1))

tokens_alone : (t : List ℕ) → Each (λ c. c == slash ≡ false) t → tokens_from true t ≡ []
tokens_alone [] h = refl
tokens_alone (c ∷ t) h = ap (λ b. tokens_from (not b) t) h.0 ∙ tokens_alone t h.1

divide_single : (before name : List ℕ) → IsPart name → divide_fn before name ≡ ([], name)
divide_single before [] h = grind (arith, h.0)
divide_single before (c ∷ t) h =
    rw (h.1.0, tokens_alone t h.1.1) (ap (λ l. ([], c ∷ l)) (token_alone t h.1.1))

close_put :
    (l : List Inode) (sector : ℕ) (i j : Inode)
    → find_inode l sector ≡ some i
    → j.sector == sector ≡ true
    → j.open_cnt - 1 == 0 ≡ false
    → close_from sector (put_inode l sector j)
      ≡ some (
        record j { open_cnt = j.open_cnt - 1 },
        put_inode l sector (record j { open_cnt = j.open_cnt - 1 }),
      )
unfolding close_from
close_put [] sector i j h e o = cc
close_put (k ∷ l) sector i j h e o = elim (Bool-cases (k.sector == sector)) [
  | inl y ↦ rw (y, e, o) refl
  | inr n ↦
      let r : find_inode l sector ≡ some i = rw n at h in
      let q = close_put l sector i j r e o in rw (n, n, q) refl
]

unique :
    (g : ℕ → ℕ) (len : ℕ) (name : List ℕ) (from : ℕ) (r : Option (List ℕ × ℕ))
    → ((k : ℕ)
        → from + entry_size * k + entry_size ≤ len
        → is_entry_of g name (from + entry_size * k) ≡ false)
    → Looked g len name from r
    → r ≡ none
unique g len name from _ m (found k h y n) = let e = sym y ∙ m k h in cc
unique g len name from _ m (missing n) = refl

-- A file system in which the inode of a directory was opened once more.
abbrev pub reopened : FileSys → ℕ → Inode → FileSys
reopened s sector i = record s { open_inodes = put_inode s.open_inodes sector (inode_reopen i) }

module _ (env : Env) (room : env.room ≡ true) where
  start_step :
      (s : FileSys) (d : Dir) (i : Inode)
      → inode_of s d.sector ≡ ok i
      → start_dir env (some d) s []
        ≡ ok (reopened s d.sector i, some (record { sector = d.sector; pos = entry_size }))
  unfolding start_dir dir_reopen dir_open
  start_step s d i o = rw (o, room) refl

  make_step :
      (s s1 : FileSys) (d e : Dir) (i : Inode)
      → start_dir env (some d) s [] ≡ ok (s1, some e)
      → inode_of s1 e.sector ≡ ok i
      → i.removed ≡ false
      → make_path env (some d) s [] ≡ ok (s1, some e)
  unfolding make_path walk
  make_step s s1 d e i p o r = rw (p, o, r) refl

  kept_step :
      (s : FileSys) (sector : ℕ) (i : Inode) (l : List Inode)
      → close_from sector s.open_inodes ≡ some (i, l)
      → i.open_cnt == 0 ≡ false
      → close_inode env s sector ≡ ok (record s { open_inodes = l })
  unfolding close_inode inode_close
  kept_step s sector i l e o = rw (e, o, inode_close) refl

  close_step :
      (s : FileSys) (sector : ℕ) (i : Inode)
      → find_inode s.open_inodes sector ≡ some i
      → 0 < i.open_cnt
      → close_inode env (reopened s sector i) sector ≡ ok s
  close_step s sector i h k =
      let at = sector-find_inode s.open_inodes sector i h in
      let l = s.open_inodes in
      let more : i.open_cnt + 1 - 1 == 0 ≡ false = ground (arith, k) in
      let same : i.open_cnt + 1 - 1 ≡ i.open_cnt = omega arith in
      let e = close_put l sector i (inode_reopen i) h at more in
      let e1 : close_from sector (put_inode l sector (inode_reopen i)) ≡ some (i, l) =
        e
        ∙ ap (λ n. some (record i { open_cnt = n }, put_inode l sector (record i { open_cnt = n })))
            same
        ∙ ap (λ q. some (i, q)) (put_same l sector i h) in
      let open1 : i.open_cnt == 0 ≡ false = ground (arith, k) in
      kept_step (reopened s sector i) sector i l e1 open1

  missing_step :
      (cwd : Option Dir) (s s1 s2 : FileSys) (d : Dir) (name : List ℕ)
      → is_empty name ≡ false
      → same_name name (46 ∷ 46 ∷ 0 ∷ []) ≡ false
      → same_name name (46 ∷ 0 ∷ []) ≡ false
      → lookup env s d name ≡ ok (s1, none)
      → close_inode env s1 d.sector ≡ ok s2
      → find_file env cwd s d name ≡ ok (s2, none)
  unfolding find_file dir_lookup dir_close
  missing_step cwd s s1 s2 d name n p q e c = rw (n, p, q, e, c) refl

  open_step :
      (before : List ℕ) (s s1 s2 : FileSys) (d e : Dir) (name : List ℕ)
      → is_empty name ≡ false
      → make_path env (some d) s (divide_fn before name).0 ≡ ok (s1, some e)
      → find_file env (some d) s1 e (divide_fn before name).1 ≡ ok (s2, none)
      → filesys_open env (some d) before s name ≡ ok (s2, none)
  unfolding filesys_open
  open_step before s s1 s2 d e name n m f = rw (n, m, f) refl

-- A name of one part, neither "." nor "..".
pub record IsPlain (name : List ℕ) : Type 0 where
  pub part : IsPart name
  pub not_parent : same_name name (46 ∷ 46 ∷ 0 ∷ []) ≡ false
  pub not_itself : same_name name (46 ∷ 0 ∷ []) ≡ false

-- filesys_open of a plain name that no entry in use of the thread's directory has, where the
-- directory is open and was not removed and there is room, returns NULL: the open inodes and their
-- counts are as before, and no sector changes for a later reader.
pub filesys_open_missing :
    (env : Env)
    → env.room ≡ true
    → (before : List ℕ) (s : FileSys) (d : Dir) (i : Inode) (name : List ℕ) → IsDir s d.sector i
    → 0 < i.open_cnt
    → i.removed ≡ false
    → IsPlain name
    → ((k : ℕ)
        → entry_size + entry_size * k + entry_size ≤ i.disk.length
        → is_entry_of (byte_at (view s.disk.cache) i.disk) name (entry_size + entry_size * k)
          ≡ false)
    → (c : Cache) × (filesys_open env (some d) before s name ≡ ok (with_cache s c, none))
      × Same s.disk.cache c
filesys_open_missing env room before s d i name h k r plain absent =
    let sector = d.sector in
    let at = sector-find_inode s.open_inodes sector i h.opened in
    let s1 = reopened s sector i in
    let e : Dir = record { sector = sector; pos = entry_size } in
    let parts = divide_single before name plain.part in
    let found1 = find-put_inode s.open_inodes sector i (inode_reopen i) h.opened at in
    let start = start_step env room s d i (inode_of_open s sector i h.opened) in
    let path =
      make_step env room s s1 d e (inode_reopen i) start
        (inode_of_open s1 sector (inode_reopen i) found1) r in
    let h1 : IsDir s1 sector (inode_reopen i) = record {
      ready = h.ready;
      opened = found1;
      file = h.file;
    } in
    let (c, x, q, m, l) = lookup_lem env room s1 e (inode_reopen i) name h1 in
    let none1 =
      unique (byte_at (view s.disk.cache) i.disk) i.disk.length name entry_size x absent l in
    let q1 = q ∙ ap (λ t. ok (with_cache s1 c, t)) none1 in
    let close = close_step env room (with_cache s c) sector i h.opened k in
    let find =
      missing_step env room (some d) s1 (with_cache s1 c) (with_cache s c) e name plain.part.0
        plain.not_parent plain.not_itself q1 close in
    (
      c,
      open_step env room before s s1 (with_cache s c) d e name plain.part.0
          (subst (λ (p : List ℕ × List ℕ). make_path env (some d) s p.0 ≡ ok (s1, some e))
            (sym parts) path)
          (subst
            (λ (p : List ℕ × List ℕ). find_file env (some d) s1 e p.1 ≡ ok (with_cache s c, none))
            (sym parts) find),
      m,
    )
