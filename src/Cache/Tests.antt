-- ===== src/Cache/Tests.antt =====
-- The theorems on the buffer cache at a device of 100 sectors, and runs that evict and write back.
use os_pintos.Common.{
  ℕ, ◌≡◌, refl, arith, List, [], ◌∷◌, true, false, ok, ◌==◌, if◌then◌else◌, replicate,
}
use os_pintos.Block.{Device}
use os_pintos.Cache.{Entry, Cache, buffer_cache_init, buffer_cache_write, buffer_cache_terminate}
use os_pintos.Cache.Invariant.{view}
use os_pintos.Cache.Refine.{IsReady, Ready, write_lem, read, write, run, model, Call}
use os_pintos.Cache.Runs.{durable}
use os_pintos.Cache.Start.{init-IsReady}

abbrev blank : Entry
blank = record {
  valid_bit = true;
  disk_sector = 3;
  buffer = [];
  dirty_bit = true;
  refer_bit = true;
}

abbrev disk : Device
disk = record { size = 100; foreign = false; content = λ s. s ∷ []; read_cnt = 0; write_cnt = 0 }

abbrev raw : Cache
raw = record { entries = replicate 64 blank; held = true; device = disk }

-- What buffer_cache_init leaves.
abbrev started : Cache
started = record {
  entries = replicate 64 (record blank { valid_bit = false });
  held = false;
  device = disk;
}

started-IsReady : IsReady started
unfolding buffer_cache_init
started-IsReady = (init-IsReady raw refl refl).0

write_lem_example :
    (c' : Cache) × (buffer_cache_write started 7 (1 ∷ []) ≡ ok c')
    × ((t : ℕ) → view c' t ≡ (if 7 == t then 1 ∷ [] else view started t))
    × Ready started c'
write_lem_example = write_lem started 7 (1 ∷ []) started-IsReady (omega arith)

abbrev calls : List Call
calls = write 7 (1 ∷ []) ∷ read 7 ∷ write 99 (2 ∷ []) ∷ read 8 ∷ []

durable_example :
    (c' : Cache) × (c'' : Cache) × (run calls started ≡ ok (c', (model calls (view started)).1))
    × (buffer_cache_terminate c' ≡ ok c'')
    × ((t : ℕ) → c''.device.content t ≡ (model calls (view started)).0 t)
durable_example = durable calls started started-IsReady (omega arith)
