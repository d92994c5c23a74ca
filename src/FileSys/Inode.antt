-- ===== src/FileSys/Inode.antt =====
-- inode_read_at and inode_write_at of filesys/inode.c. `off_t` arguments are natural numbers: a
-- negative size transfers nothing, as size 0 does, and no caller gives a negative offset. An inode's
-- length is less than 2 ^ 31. `bounce` says whether the call of malloc for the bounce buffer succeeds;
-- there is at most one, since the loop keeps the buffer, or ends when there is none. The buffer's
-- contents are overwritten before each use. `inode_left` is 0 here where it is negative in the source;
-- the loop ends in both cases.
pub mod Read
pub mod Write
pub mod Roundtrip
use pintos_proj.Prelude.{
  ℕ, zero, suc, ◌+◌, ◌-◌, ◌/◌, ◌%◌, ◌^◌, Bool, true, false, ◌&&◌, ◌||◌, Option, none, some, ltb,
  ◌==◌, if◌then◌else◌, min, Outcome, ok, out_of_fuel, ◌>>=◌,
}
use pintos_proj.FileSys.Bytes.{Bytes, memcpy, memset}
use pintos_proj.FileSys.Block.{Block, block_sector_size, block_read, block_write}

-- struct inode_disk
pub record InodeDisk : Type 0 where
  pub start : ℕ
  pub length : ℕ
  pub magic : ℕ

-- struct inode
pub record Inode : Type 0 where
  pub sector : ℕ
  pub open_cnt : ℕ
  pub removed : Bool
  pub deny_write_cnt : ℕ
  pub inode_data : InodeDisk

-- bytes_to_sectors, which rounds up.
abbrev pub bytes_to_sectors : ℕ → ℕ
bytes_to_sectors size = (size + (block_sector_size - 1)) / block_sector_size

-- byte_to_sector, with -1 as a `block_sector_t`.
unfoldable pub byte_to_sector : Inode → ℕ → ℕ
byte_to_sector ino pos =
    if ltb pos ino.inode_data.length
    then (ino.inode_data.start + pos / block_sector_size) % 2 ^ 32
    else 2 ^ 32 - 1

abbrev pub inode_length : Inode → ℕ
inode_length ino = ino.inode_data.length

abbrev pub sector_left : ℕ → ℕ
sector_left offset = block_sector_size - offset % block_sector_size

-- The bytes to copy in one round of the loops.
unfoldable pub chunk_size : Inode → ℕ → ℕ → ℕ
chunk_size ino size offset = min size (min (inode_length ino - offset) (sector_left offset))

-- Whether a round transfers a whole sector.
abbrev pub whole : ℕ → ℕ → Bool
whole offset chunk = (offset % block_sector_size == 0) && (chunk == block_sector_size)

-- What one round of the loop of inode_read_at reads, or none where there is no bounce buffer.
unfoldable pub read_chunk :
    Bool → Inode → Block → Bytes → ℕ → ℕ → ℕ → Outcome (Option (Block × Bytes))
read_chunk bounce ino d buffer chunk offset bytes_read =
    if whole offset chunk
    then (do
      (d', sector) ← block_read d (byte_to_sector ino offset)
      ok (some (d', memcpy buffer bytes_read sector 0 block_sector_size)))
    else if bounce
    then (do
      (d', sector) ← block_read d (byte_to_sector ino offset)
      ok (some (d', memcpy buffer bytes_read sector (offset % block_sector_size) chunk)))
    else ok none

-- The loop of inode_read_at.
unfoldable pub read_loop :
    ℕ → Bool → Inode → Block → Bytes → ℕ → ℕ → ℕ → Outcome (Block × Bytes × ℕ)
read_loop zero bounce ino d buffer size offset bytes_read = out_of_fuel
read_loop (suc fuel) bounce ino d buffer size offset bytes_read =
    let chunk = chunk_size ino size offset in
    elim (chunk == 0) [
      | true ↦ ok (d, buffer, bytes_read)
      | false ↦ do
        found ← read_chunk bounce ino d buffer chunk offset bytes_read
        elim found [
          | none ↦ ok (d, buffer, bytes_read)
          | some (d', buffer') ↦
              read_loop fuel bounce ino d' buffer' (size - chunk) (offset + chunk)
                (bytes_read + chunk)
        ]
    ]

-- inode_read_at. Each round but the last reads a byte at least.
unfoldable pub inode_read_at : Bool → Inode → Block → Bytes → ℕ → ℕ → Outcome (Block × Bytes × ℕ)
inode_read_at bounce ino d buffer size offset =
    read_loop (suc size) bounce ino d buffer size offset 0

-- The bounce buffer before the chunk is copied into it.
unfoldable pub fill_bounce : Inode → Block → ℕ → ℕ → Outcome (Block × Bytes)
fill_bounce ino d chunk offset =
    if ltb 0 (offset % block_sector_size) || ltb chunk (sector_left offset)
    then block_read d (byte_to_sector ino offset)
    else ok (d, memset (λ i. 0) 0 block_sector_size)

-- What one round of the loop of inode_write_at writes, or none where there is no bounce buffer.
unfoldable pub write_chunk : Bool → Inode → Block → Bytes → ℕ → ℕ → ℕ → Outcome (Option Block)
write_chunk bounce ino d buffer chunk offset bytes_written =
    if whole offset chunk
    then (do
      d' ← block_write d (byte_to_sector ino offset) (λ i. buffer (bytes_written + i))
      ok (some d'))
    else if bounce
    then (do
      (d', sector) ← fill_bounce ino d chunk offset
      let sector' = memcpy sector (offset % block_sector_size) buffer bytes_written chunk
      d'' ← block_write d' (byte_to_sector ino offset) sector'
      ok (some d''))
    else ok none

-- The loop of inode_write_at.
unfoldable pub write_loop : ℕ → Bool → Inode → Block → Bytes → ℕ → ℕ → ℕ → Outcome (Block × ℕ)
write_loop zero bounce ino d buffer size offset bytes_written = out_of_fuel
write_loop (suc fuel) bounce ino d buffer size offset bytes_written =
    let chunk = chunk_size ino size offset in
    elim (chunk == 0) [
      | true ↦ ok (d, bytes_written)
      | false ↦ do
        done ← write_chunk bounce ino d buffer chunk offset bytes_written
        elim done [
          | none ↦ ok (d, bytes_written)
          | some d' ↦
              write_loop fuel bounce ino d' buffer (size - chunk) (offset + chunk)
                (bytes_written + chunk)
        ]
    ]

-- inode_write_at
unfoldable pub inode_write_at : Bool → Inode → Block → Bytes → ℕ → ℕ → Outcome (Block × ℕ)
inode_write_at bounce ino d buffer size offset =
    if ino.deny_write_cnt == 0
    then write_loop (suc size) bounce ino d buffer size offset 0
    else ok (d, 0)
