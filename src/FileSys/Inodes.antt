-- ===== src/FileSys/Inodes.antt =====
-- filesys/inode.c: creating, opening, closing and removing inodes. A pointer to an inode that is NULL
-- is none. An inode that is open has an opener, so `open_cnt` is a natural number.

pub mod Sharing
pub mod Opening
pub mod Closing
pub mod Creating
use pintos_proj.Prelude.{
  ℕ, zero, suc, ◌+◌, ◌-◌, ◌*◌, ◌/◌, ◌%◌, ◌^◌, ◌≡◌, Bool, true, false, List, [], ◌∷◌, Option, none,
  some, leb, ltb, ◌==◌, if◌then◌else◌, Outcome, ok, ◌>>=◌, ◌>>◌, assert,
}
use pintos_proj.FileSys.Bytes.{Bytes, byte_of, word_from, memset}
use pintos_proj.FileSys.Block.{Block, block_sector_size, block_read, block_write}
use pintos_proj.FileSys.Inode.{InodeDisk, Inode, bytes_to_sectors}
use pintos_proj.FileSys.Store.{FileSystem, malloc, allocated, set_inode}
use pintos_proj.FileSys.FreeMap.{free_map_allocate, free_map_release}

abbrev pub inode_magic : ℕ
inode_magic = 0x494e4f44

-- How the members of struct inode_disk lie in a sector, where the unused words are 0: the source writes
-- and reads the struct itself.
unfoldable pub encode_inode : InodeDisk → Bytes
encode_inode v i =
    if ltb i 4
    then byte_of v.start i
    else if ltb i 8
    then byte_of v.length (i - 4)
    else if ltb i 12
    then byte_of v.magic (i - 8)
    else 0

unfoldable pub decode_inode : Bytes → InodeDisk
decode_inode m = record { start = word_from m 0; length = word_from m 4; magic = word_from m 8 }

-- The loop of inode_create over the data sectors.
unfoldable pub clear_sectors : ℕ → ℕ → Block → Outcome Block
clear_sectors zero sector d = ok d
clear_sectors (suc n) sector d = do
  d' ← block_write d (sector % 2 ^ 32) (λ i. 0)
  clear_sectors n (suc sector) d'

-- The part of inode_create for which the memory was allocated.
unfoldable pub write_inode : ℕ → ℕ → FileSystem → Outcome (FileSystem × Bool)
write_inode sector length fs = do
  let sectors = bytes_to_sectors length
  (fs', found) ← free_map_allocate sectors fs
  elim found [
    | none ↦ ok (fs', false)
    | some start ↦ do
      d ←
          block_write fs'.device sector
            (encode_inode (record { start = start; length = length; magic = inode_magic }))
      d' ← clear_sectors sectors start d
      ok (record fs' { device = d' }, true)
  ]

-- inode_create
unfoldable pub inode_create : ℕ → ℕ → FileSystem → Outcome (FileSystem × Bool)
inode_create sector length fs = elim (malloc fs) [
  | none ↦ ok (allocated fs, false)
  | some p ↦ write_inode sector length (allocated fs)
]

-- inode_reopen, of an inode that is not NULL.
unfoldable pub inode_reopen : ℕ → FileSystem → FileSystem
inode_reopen i fs = set_inode i (record (fs.inodes i) { open_cnt = (fs.inodes i).open_cnt + 1 }) fs

-- The loop of inode_open over the inodes that are open.
unfoldable pub find_open : (ℕ → Inode) → ℕ → List ℕ → Option ℕ
find_open inodes sector [] = none
find_open inodes sector (i ∷ is) =
    if (inodes i).sector == sector then some i else find_open inodes sector is

-- The end of inode_open, with the memory of a new inode at `i`.
unfoldable pub open_new : ℕ → ℕ → FileSystem → Outcome FileSystem
open_new i sector fs = do
  (d, m) ← block_read fs.device sector
  ok (
      set_inode i
        (record {
          sector = sector;
          open_cnt = 1;
          removed = false;
          deny_write_cnt = 0;
          inode_data = decode_inode m;
        })
        (record fs { device = d; open_inodes = i ∷ fs.open_inodes }))

-- inode_open
unfoldable pub inode_open : ℕ → FileSystem → Outcome (FileSystem × Option ℕ)
inode_open sector fs = elim (find_open fs.inodes sector fs.open_inodes) [
  | some i ↦ ok (inode_reopen i fs, some i)
  | none ↦ elim (malloc fs) [
    | none ↦ ok (allocated fs, none)
    | some i ↦ do fs' ← open_new i sector (allocated fs); ok (fs', some i)
  ]
]

abbrev pub inode_get_inumber : FileSystem → ℕ → ℕ
inode_get_inumber fs i = (fs.inodes i).sector

-- list_remove (&inode->elem)
unfoldable pub remove_inode : ℕ → List ℕ → List ℕ
remove_inode i [] = []
remove_inode i (x ∷ xs) = if x == i then xs else x ∷ remove_inode i xs

-- The deallocation in inode_close of the blocks of an inode that was removed.
unfoldable pub deallocate : Inode → FileSystem → Outcome FileSystem
deallocate v fs =
    if v.removed
    then (do
      fs' ← free_map_release v.sector 1 fs
      free_map_release v.inode_data.start (bytes_to_sectors v.inode_data.length) fs')
    else ok fs

-- The part of inode_close for the last opener.
unfoldable pub close_last : ℕ → FileSystem → Outcome FileSystem
close_last i fs =
    deallocate (fs.inodes i) (record fs { open_inodes = remove_inode i fs.open_inodes })

-- inode_close
unfoldable pub inode_close : Option ℕ → FileSystem → Outcome FileSystem
inode_close none fs = ok fs
inode_close (some i) fs =
    let v = fs.inodes i in
    let fs' = set_inode i (record v { open_cnt = v.open_cnt - 1 }) fs in
    if v.open_cnt == 1 then close_last i fs' else ok fs'

-- inode_remove
unfoldable pub inode_remove : ℕ → FileSystem → FileSystem
inode_remove i fs = set_inode i (record (fs.inodes i) { removed = true }) fs

-- inode_deny_write
unfoldable pub inode_deny_write : ℕ → FileSystem → Outcome FileSystem
inode_deny_write i fs = do
  let v = fs.inodes i
  let denied = v.deny_write_cnt + 1
  assert (leb denied v.open_cnt)
  ok (set_inode i (record v { deny_write_cnt = denied }) fs)

-- inode_allow_write
unfoldable pub inode_allow_write : ℕ → FileSystem → Outcome FileSystem
inode_allow_write i fs = do
  let v = fs.inodes i
  assert (ltb 0 v.deny_write_cnt)
  assert (leb v.deny_write_cnt v.open_cnt)
  ok (set_inode i (record v { deny_write_cnt = v.deny_write_cnt - 1 }) fs)
