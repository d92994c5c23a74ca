-- ===== src/FileSys/Files.antt =====
-- filesys/file.c: open files, each with a position in the inode that it is for. A `struct file *` that
-- may be NULL is an option.
use pintos_proj.Prelude.{
  ℕ, ◌+◌, true, false, not, Option, none, some, if◌then◌else◌, Outcome, ok, panic, ◌>>=◌,
}
use pintos_proj.FileSys.Bytes.{Bytes}
use pintos_proj.FileSys.Inode.{inode_length}
use pintos_proj.FileSys.Store.{FileSystem, malloc, allocated, set_file, read_at, write_at}
use pintos_proj.FileSys.Inodes.{
  inode_open, inode_reopen, inode_close, inode_create, inode_deny_write, inode_allow_write,
}
use pintos_proj.FileSys.FreeMap.{bitmap_write, bitmap_read, free_map_sector}
use pintos_proj.KernelLib.Bitmap.{byte_cnt}

-- file_open
unfoldable pub file_open : Option ℕ → FileSystem → Outcome (FileSystem × Option ℕ)
file_open none fs = ok (allocated fs, none)
file_open (some i) fs = elim (malloc fs) [
  | none ↦ do fs' ← inode_close (some i) (allocated fs); ok (fs', none)
  | some f ↦
      ok (set_file f (record { inode = i; pos = 0; deny_write = false }) (allocated fs), some f)
]

-- file_reopen
unfoldable pub file_reopen : ℕ → FileSystem → Outcome (FileSystem × Option ℕ)
file_reopen f fs = file_open (some (fs.files f).inode) (inode_reopen (fs.files f).inode fs)

-- file_deny_write
unfoldable pub file_deny_write : ℕ → FileSystem → Outcome FileSystem
file_deny_write f fs =
    if not (fs.files f).deny_write
    then inode_deny_write (fs.files f).inode
        (set_file f (record (fs.files f) { deny_write = true }) fs)
    else ok fs

-- file_allow_write
unfoldable pub file_allow_write : ℕ → FileSystem → Outcome FileSystem
file_allow_write f fs =
    if (fs.files f).deny_write
    then inode_allow_write (fs.files f).inode
        (set_file f (record (fs.files f) { deny_write = false }) fs)
    else ok fs

-- file_close
unfoldable pub file_close : Option ℕ → FileSystem → Outcome FileSystem
file_close none fs = ok fs
file_close (some f) fs = do fs' ← file_allow_write f fs; inode_close (some (fs'.files f).inode) fs'

abbrev pub file_get_inode : FileSystem → ℕ → ℕ
file_get_inode fs f = (fs.files f).inode

-- The advance of the position in file_read and file_write.
abbrev pub advance : ℕ → ℕ → FileSystem → FileSystem
advance f n fs = set_file f (record (fs.files f) { pos = (fs.files f).pos + n }) fs

-- file_read
unfoldable pub file_read : ℕ → Bytes → ℕ → FileSystem → Outcome (FileSystem × Bytes × ℕ)
file_read f buffer size fs = do
  (fs', buffer', n) ← read_at (fs.files f).inode buffer size (fs.files f).pos fs
  ok (advance f n fs', buffer', n)

-- file_read_at
unfoldable pub file_read_at : ℕ → Bytes → ℕ → ℕ → FileSystem → Outcome (FileSystem × Bytes × ℕ)
file_read_at f buffer size file_ofs fs = read_at (fs.files f).inode buffer size file_ofs fs

-- file_write
unfoldable pub file_write : ℕ → Bytes → ℕ → FileSystem → Outcome (FileSystem × ℕ)
file_write f buffer size fs = do
  (fs', n) ← write_at (fs.files f).inode buffer size (fs.files f).pos fs
  ok (advance f n fs', n)

-- file_write_at
unfoldable pub file_write_at : ℕ → Bytes → ℕ → ℕ → FileSystem → Outcome (FileSystem × ℕ)
file_write_at f buffer size file_ofs fs = write_at (fs.files f).inode buffer size file_ofs fs

-- file_length
unfoldable pub file_length : FileSystem → ℕ → ℕ
file_length fs f = inode_length (fs.inodes (fs.files f).inode)

-- file_seek, to a position that is not negative.
unfoldable pub file_seek : ℕ → ℕ → FileSystem → FileSystem
file_seek f new_pos fs = set_file f (record (fs.files f) { pos = new_pos }) fs

abbrev pub file_tell : FileSystem → ℕ → ℕ
file_tell fs f = (fs.files f).pos

-- The file of the free map, with PANIC where it cannot be opened.
unfoldable pub open_free_map_file : FileSystem → Outcome (FileSystem × ℕ)
open_free_map_file fs = do
  (fs', i) ← inode_open free_map_sector fs
  (fs'', f) ← file_open i fs'
  elim f [ none ↦ panic | some g ↦ ok (record fs'' { free_map_file = some g }, g) ]

-- free_map_open
unfoldable pub free_map_open : FileSystem → Outcome FileSystem
free_map_open fs = do
  (fs', f) ← open_free_map_file fs
  (fs'', b, success) ← bitmap_read fs'.free_map f fs'
  if success then ok (record fs'' { free_map = b }) else panic

-- free_map_close, which leaves the pointer as it is.
unfoldable pub free_map_close : FileSystem → Outcome FileSystem
free_map_close fs = file_close fs.free_map_file fs

-- free_map_create
unfoldable pub free_map_create : FileSystem → Outcome FileSystem
free_map_create fs = do
  (fs', created) ← inode_create free_map_sector (byte_cnt fs.free_map.bit_cnt) fs
  if created
      then (do
        (fs'', f) ← open_free_map_file fs'
        (fs₃, success) ← bitmap_write fs''.free_map f fs''
        if success then ok fs₃ else panic)
      else panic
