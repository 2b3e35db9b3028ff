-- ===== src/Block.antt =====
-- The block device layer, devices/block.c of project5: bounds checks and counters round the driver.
-- The driver (ide.c, port I/O) is the function from sectors to their contents.
use os_pintos.Common.{
  ℕ, ◌+◌, ◌%◌, ◌^◌, ◌≡◌, List, Bool, not, Outcome, ok, ◌>>◌, assert, ltb, ◌==◌, if◌then◌else◌,
  lt→ltb, ◌<◌, false,
}

-- The bytes of a sector.
abbrev pub Sector : Type 0
Sector = List ℕ

-- `struct block`, with what the driver stores.
pub record Device : Type 0 where
  pub size : ℕ
  pub foreign : Bool
  pub content : ℕ → Sector
  pub read_cnt : ℕ
  pub write_cnt : ℕ

-- The driver's write of one sector.
abbrev pub write_at : (ℕ → Sector) → ℕ → Sector → ℕ → Sector
write_at f s b t = if s == t then b else f t

unfoldable pub check_sector : Device → ℕ → Outcome (Unit {0})
check_sector d sector = assert (ltb sector d.size)

-- The device after a read, and after a write of a sector.
abbrev pub counted : Device → Device
counted d = record d { read_cnt = (d.read_cnt + 1) % 2 ^ 64 }

abbrev pub written : Device → ℕ → Sector → Device
written d sector buffer = record d {
  content = write_at d.content sector buffer;
  write_cnt = (d.write_cnt + 1) % 2 ^ 64;
}

unfoldable pub block_read : Device → ℕ → Outcome (Device × Sector)
unfolding check_sector
block_read d sector = do check_sector d sector; ok (counted d, d.content sector)

unfoldable pub block_write : Device → ℕ → Sector → Outcome Device
unfolding check_sector
block_write d sector buffer = do
  check_sector d sector
  assert (not d.foreign)
  ok (written d sector buffer)

pub block_read_total :
    (d : Device) (s : ℕ) → s < d.size → block_read d s ≡ ok (counted d, d.content s)
unfolding block_read
block_read_total d s h = rw (lt→ltb s d.size h)

pub block_write_total :
    (d : Device) (s : ℕ) (b : Sector)
    → s < d.size
    → d.foreign ≡ false
    → block_write d s b ≡ ok (written d s b)
unfolding block_write
block_write_total d s b h f = rw (lt→ltb s d.size h, f)
