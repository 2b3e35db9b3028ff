-- ===== src/Filesys/Tests.antt =====
-- filesys_open at a directory whose entries but the parent's are free.
use os_pintos.Common.{◌≡◌, refl, [], ◌∷◌, some, none, ok, arith}
use os_pintos.Cache.{Cache, buffer_cache_init}
use os_pintos.Inode.Index.{Same}
use os_pintos.Inode.Tests.{file}
use os_pintos.Dir.Find.{with_cache}
use os_pintos.Dir.Tests.{fs, dir, env, dir_cache, fs-IsDir, fs-Absent}
use os_pintos.Filesys.{filesys_open}
use os_pintos.Filesys.Open.{IsPlain, filesys_open_missing}

name-IsPlain : IsPlain (97 ∷ [])
name-IsPlain = record { part = (refl, (refl, tt)); not_parent = refl; not_itself = refl }

filesys_open_missing_example :
    (c : Cache) × (filesys_open env (some dir) [] fs (97 ∷ []) ≡ ok (with_cache fs c, none))
    × Same dir_cache c
unfolding buffer_cache_init
filesys_open_missing_example =
    filesys_open_missing env refl [] fs dir file (97 ∷ []) fs-IsDir (omega arith) refl name-IsPlain
      fs-Absent
