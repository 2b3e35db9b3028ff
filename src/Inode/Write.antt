-- ===== src/Inode/Write.antt =====
-- Writes by position within the length of a file, the loop of inode_write_at.
use os_pintos.Common.{
  ℕ, zero, suc, ◌+◌, ◌-◌, ◌%◌, List, [], ◌∷◌, Bool, not, ◌&&◌, ◌||◌, Option, none, some, Outcome,
  ok, ◌>>=◌, ◌==◌, ltb, take, drop, replicate, if◌then◌else◌,
}
use os_pintos.Block.{Sector}
use os_pintos.Cache.{Cache, buffer_cache_read, buffer_cache_write}
use os_pintos.Inode.{InodeDisk, sector_size, byte_to_sector, chunk}

-- memcpy into a buffer, at an offset within it
abbrev pub overwrite : List ℕ → ℕ → List ℕ → List ℕ
overwrite [] k bytes = []
overwrite (x ∷ s) zero [] = x ∷ s
overwrite (x ∷ s) zero (y ∷ bytes) = y ∷ overwrite s zero bytes
overwrite (x ∷ s) (suc k) bytes = x ∷ overwrite s k bytes

-- The bounce buffer before the copy into it.
unfoldable pub bounced : Cache → ℕ → ℕ → ℕ → Outcome (Cache × Sector)
bounced c sector_idx sector_ofs chunk_size =
    if ltb 0 sector_ofs || ltb chunk_size (sector_size - sector_ofs)
    then buffer_cache_read c sector_idx
    else ok (c, replicate sector_size 0)

-- A round that has some bytes to write.
unfoldable pub write_chunk : Bool → Cache → ℕ → ℕ → ℕ → List ℕ → Outcome (Option Cache)
unfolding bounced
write_chunk room c sector_idx sector_ofs chunk_size bytes =
    if sector_ofs == 0 && chunk_size == sector_size
    then (do c1 ← buffer_cache_write c sector_idx bytes; ok (some c1))
    else if not room
    then ok none
    else (do
      (c1, bounce) ← bounced c sector_idx sector_ofs chunk_size
      c2 ← buffer_cache_write c1 sector_idx (overwrite bounce sector_ofs bytes)
      ok (some c2))

-- The loop, with the number of bytes that it writes; its fuel is the size, of which each round
-- takes at least one byte.
unfoldable pub write_loop : ℕ → Bool → Cache → InodeDisk → List ℕ → ℕ → ℕ → Outcome (Cache × ℕ)
unfolding byte_to_sector write_chunk
write_loop zero room c disk buffer size offset = ok (c, 0)
write_loop (suc n) room c disk buffer size offset = if size == 0 then ok (c, 0) else (do
  (c1, sector_idx) ← byte_to_sector room c disk offset
  let chunk_size = chunk disk.length size offset
  if chunk_size == 0 then ok (c1, 0) else (do
    r ← write_chunk room c1 sector_idx (offset % sector_size) chunk_size (take chunk_size buffer)
    elim r [
      | none ↦ ok (c1, 0)
      | some c2 ↦ do
        (c3, bytes_written) ←
            write_loop n room c2 disk (drop chunk_size buffer) (size - chunk_size)
              (offset + chunk_size)
        ok (c3, chunk_size + bytes_written)
    ]))
