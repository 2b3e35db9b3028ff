-- ===== src/File/Tests.antt =====
-- The theorems on open files at the file of two sectors.
use os_pintos.Common.{◌≡◌, refl, [], ◌∷◌, true, false, ok, arith}
use os_pintos.Common.Int.{pos}
use os_pintos.Cache.{buffer_cache_init}
use os_pintos.Cache.Invariant.{view}
use os_pintos.Inode.Tests.{begin, begin-IsReady, begin-IsFile, file}
use os_pintos.Inode.Samples.{two_sectors-IsWritable}
use os_pintos.Inode.Mapped.{allocate_unopened}
use os_pintos.Dir.{FileSys, Env}
use os_pintos.Dir.Find.{IsDir}
use os_pintos.Dir.Add.{IsOwned}
use os_pintos.File.{File, file_seek, file_read, file_write, file_deny_write, file_allow_write}
use os_pintos.File.Trips.{file_read-file_write}
use os_pintos.File.Denied.{denied}

abbrev s : FileSys
s = record {
  disk = record { cache = begin; free_map = record { bit_cnt = 40; bits = 3 ∷ 0 ∷ [] } };
  open_inodes = file ∷ [];
}

abbrev env : Env
env = record { room = true; allocate = allocate_unopened; free = λ s t. ok s }

abbrev f : File
f = record { sector = 4; pos = 511; deny_write = false }

abbrev advanced : File
advanced = record { sector = 4; pos = 513; deny_write = false }

s-IsDir : IsDir s 4 file
unfolding buffer_cache_init
s-IsDir = record { ready = begin-IsReady; opened = refl; file = begin-IsFile }

s-IsOwned : IsOwned s file
unfolding buffer_cache_init
s-IsOwned = record {
  writable = two_sectors-IsWritable (view begin);
  small = omega arith;
  allowed = refl;
}

file_read-file_write_example :
    (s1 s2 : FileSys) × (f1 : File) × (file_write env s f (7 ∷ 8 ∷ []) 2 ≡ ok (s1, f1, 2))
    × (f1.pos ≡ 513)
    × (file_seek f1 (pos 511) ≡ ok f)
    × (file_read env s1 f 2 ≡ ok (s2, f1, 7 ∷ 8 ∷ []))
unfolding buffer_cache_init
file_read-file_write_example =
    file_read-file_write env refl s f file (7 ∷ 8 ∷ []) 2 s-IsDir s-IsOwned refl (omega arith)
      (omega arith)

denied_example :
    (s1 : FileSys) × (f1 : File) × (file_deny_write s f ≡ ok (s1, f1))
    × (file_write env s1 advanced (7 ∷ []) 1 ≡ ok (s1, advanced, 0))
    × (file_allow_write s1 f1 ≡ ok (s, f))
denied_example = denied env s f advanced file (7 ∷ []) 1 refl refl (omega arith) refl
