-- ===== src/FileSys/Block.antt =====
-- devices/block.c: a block device, with the driver's read and write taken as a store of sectors.
use pintos_proj.Prelude.{
  ℕ, ◌+◌, ◌%◌, ◌^◌, Bool, not, ltb, ◌==◌, if◌then◌else◌, Outcome, ok, ◌>>◌, assert,
}
use pintos_proj.FileSys.Bytes.{Bytes}

-- struct block
pub record Block : Type 0 where
  pub sectors : ℕ → Bytes
  pub size : ℕ
  pub foreign : Bool
  pub read_cnt : ℕ
  pub write_cnt : ℕ

abbrev pub block_sector_size : ℕ
block_sector_size = 512

-- check_sector, which panics past the end of the device.
abbrev pub check_sector : Block → ℕ → Outcome (Unit {0})
check_sector d sector = assert (ltb sector d.size)

-- block_read, with the bytes that go to the buffer.
unfoldable pub block_read : Block → ℕ → Outcome (Block × Bytes)
block_read d sector = do
  check_sector d sector
  ok (record d { read_cnt = (d.read_cnt + 1) % 2 ^ 64 }, d.sectors sector)

-- block_write
unfoldable pub block_write : Block → ℕ → Bytes → Outcome Block
block_write d sector buffer = do
  check_sector d sector
  assert (not d.foreign)
  ok (record d {
    sectors = λ s. if sector == s then buffer else d.sectors s;
    write_cnt = (d.write_cnt + 1) % 2 ^ 64;
  })
