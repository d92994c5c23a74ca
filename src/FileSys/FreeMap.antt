-- ===== src/FileSys/FreeMap.antt =====
-- filesys/free-map.c: allocation and release of sectors, with the free map written to its file; and
-- bitmap_write and bitmap_read of lib/kernel/bitmap.c.
pub mod Allocate
use pintos_proj.Prelude.{
  ℕ, zero, suc, ◌+◌, ◌-◌, ◌*◌, ◌/◌, ◌%◌, ◌^◌, Bool, true, false, List, [], ◌∷◌, Option, none, some,
  ltb, ◌==◌, if◌then◌else◌, get_or, set, Outcome, ok, panic, ◌>>=◌, ◌>>◌, assert,
}
use Prim.Native.Nat.{bit_and}
use pintos_proj.KernelLib.Bitmap.{
  Bitmap, elem_bits, word_mod, bitmap_error, elem_cnt, byte_cnt, bitmap_create, bitmap_mark,
  bitmap_all, bitmap_set_multiple, bitmap_scan_and_flip,
}
use pintos_proj.FileSys.Bytes.{Bytes, byte_of, word_from}
use pintos_proj.FileSys.Store.{FileSystem, read_at, write_at}

abbrev pub free_map_sector : ℕ
free_map_sector = 0

abbrev pub root_dir_sector : ℕ
root_dir_sector = 1

-- The words of a bitmap as bytes in memory, and back.
abbrev pub bytes_of : List ℕ → Bytes
bytes_of words i = byte_of (get_or words (i / 4) 0) (i % 4)

abbrev pub words_of : ℕ → ℕ → Bytes → List ℕ
words_of zero i m = []
words_of (suc n) i m = word_from m i ∷ words_of n (i + 4) m

-- The file through which the free map is written, at its inode.
abbrev file_inode : FileSystem → ℕ → ℕ
file_inode fs f = (fs.files f).inode

-- bitmap_write
unfoldable pub bitmap_write : Bitmap → ℕ → FileSystem → Outcome (FileSystem × Bool)
bitmap_write b f fs = do
  (fs', n) ← write_at (file_inode fs f) (bytes_of b.bits) (byte_cnt b.bit_cnt) 0 fs
  ok (fs', n == byte_cnt b.bit_cnt)

-- last_mask
abbrev pub last_mask : Bitmap → ℕ
last_mask b = if b.bit_cnt % elem_bits == 0 then word_mod - 1 else 2 ^ (b.bit_cnt % elem_bits) - 1

-- bitmap_read. A short read leaves the rest of the words as they were.
unfoldable pub bitmap_read : Bitmap → ℕ → FileSystem → Outcome (FileSystem × Bitmap × Bool)
bitmap_read b f fs =
    if ltb 0 b.bit_cnt
    then (do
      (fs', m, n) ← read_at (file_inode fs f) (bytes_of b.bits) (byte_cnt b.bit_cnt) 0 fs
      let words = words_of (elem_cnt b.bit_cnt) 0 m
      let last = elem_cnt b.bit_cnt - 1
      let masked = set words last (bit_and (get_or words last 0) (last_mask b))
      ok (fs', record b { bits = masked }, n == byte_cnt b.bit_cnt))
    else ok (fs, b, true)

-- free_map_init, with the words that malloc gave.
unfoldable pub free_map_init : Option (List ℕ) → FileSystem → Outcome FileSystem
free_map_init none fs = panic
free_map_init (some words) fs = do
  b ← bitmap_create fs.device.size words
  ok (record fs { free_map = bitmap_mark (bitmap_mark b free_map_sector) root_dir_sector })

-- The write of the free map in free_map_allocate, which takes the sectors back if it fails.
unfoldable pub write_or_undo : ℕ → ℕ → Option ℕ → FileSystem → Outcome (FileSystem × Option ℕ)
write_or_undo sector cnt none fs = ok (fs, some sector)
write_or_undo sector cnt (some f) fs = do
  (fs', written) ← bitmap_write fs.free_map f fs
  if written then ok (fs', some sector) else (do
    b ← bitmap_set_multiple fs'.free_map sector cnt false
    ok (record fs' { free_map = b }, none))

-- free_map_allocate: the first sector, or none where it returns false.
unfoldable pub free_map_allocate : ℕ → FileSystem → Outcome (FileSystem × Option ℕ)
free_map_allocate cnt fs = do
  (sector, b) ← bitmap_scan_and_flip fs.free_map 0 cnt false
  if sector == bitmap_error
      then ok (record fs { free_map = b }, none)
      else write_or_undo sector cnt fs.free_map_file (record fs { free_map = b })

-- The write of the free map in free_map_release, which dereferences the pointer to the file and
-- ignores whether the map was written.
unfoldable pub save_map : Option ℕ → FileSystem → Outcome FileSystem
save_map none fs = panic
save_map (some f) fs = do (fs', written) ← bitmap_write fs.free_map f fs; ok fs'

-- free_map_release
unfoldable pub free_map_release : ℕ → ℕ → FileSystem → Outcome FileSystem
free_map_release sector cnt fs = do
  used ← bitmap_all fs.free_map sector cnt
  assert used
  b ← bitmap_set_multiple fs.free_map sector cnt false
  save_map fs.free_map_file (record fs { free_map = b })
