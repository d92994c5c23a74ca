-- ===== src/FileSys/Calls.antt =====
-- filesys/filesys.c: creating, opening and removing files by their names in the root directory.
use pintos_proj.Prelude.{
  ℕ, Bool, false, not, ◌&&◌, List, [], Option, none, some, ◌==◌, if◌then◌else◌, Outcome, ok, panic,
  ◌>>=◌,
}
use pintos_proj.FileSys.Bytes.{Bytes}
use pintos_proj.FileSys.Block.{Block}
use pintos_proj.FileSys.Store.{FileSystem}
use pintos_proj.FileSys.FreeMap.{
  root_dir_sector, free_map_init, free_map_allocate, free_map_release,
}
use pintos_proj.FileSys.Inodes.{inode_create}
use pintos_proj.FileSys.Files.{file_open, free_map_open, free_map_close, free_map_create}
use pintos_proj.FileSys.Directory.{
  dir_create, dir_open_root, dir_close, dir_lookup, dir_add, dir_remove,
}

-- The conditions of filesys_create after dir_open_root: the sector that was allocated, which is 0 if
-- there is none, and success.
unfoldable pub create_steps :
    Option ℕ → List ℕ → ℕ → Bytes → FileSystem → Outcome (FileSystem × ℕ × Bool)
create_steps none name initial_size junk fs = ok (fs, 0, false)
create_steps (some dir) name initial_size junk fs = do
  (fs₁, found) ← free_map_allocate 1 fs
  elim found [
    | none ↦ ok (fs₁, 0, false)
    | some inode_sector ↦ do
      (fs₂, created) ← inode_create inode_sector initial_size fs₁
      if created
          then (do
            (fs₃, added) ← dir_add dir name inode_sector junk fs₂
            ok (fs₃, inode_sector, added))
          else ok (fs₂, inode_sector, false)
  ]

-- filesys_create
unfoldable pub filesys_create : List ℕ → ℕ → Bytes → FileSystem → Outcome (FileSystem × Bool)
filesys_create name initial_size junk fs = do
  (fs₁, dir) ← dir_open_root fs
  (fs₂, inode_sector, success) ← create_steps dir name initial_size junk fs₁
  fs₃ ←
      (if not success && not (inode_sector == 0)
        then free_map_release inode_sector 1 fs₂
        else ok fs₂)
  fs₄ ← dir_close dir fs₃
  ok (fs₄, success)

-- filesys_open
unfoldable pub filesys_open : List ℕ → Bytes → FileSystem → Outcome (FileSystem × Option ℕ)
filesys_open name junk fs = do
  (fs₁, dir) ← dir_open_root fs
  (fs₂, inode) ← elim dir [ none ↦ ok (fs₁, none) | some p ↦ dir_lookup p name junk fs₁ ]
  fs₃ ← dir_close dir fs₂
  file_open inode fs₃

-- filesys_remove
unfoldable pub filesys_remove : List ℕ → Bytes → FileSystem → Outcome (FileSystem × Bool)
filesys_remove name junk fs = do
  (fs₁, dir) ← dir_open_root fs
  (fs₂, success) ← elim dir [ none ↦ ok (fs₁, false) | some p ↦ dir_remove p name junk fs₁ ]
  fs₃ ← dir_close dir fs₂
  ok (fs₃, success)

-- do_format
unfoldable pub do_format : FileSystem → Outcome FileSystem
do_format fs = do
  fs₁ ← free_map_create fs
  (fs₂, created) ← dir_create root_dir_sector 16 fs₁
  if created then free_map_close fs₂ else panic

-- filesys_init, with the device of the role, if there is one, and the words that malloc gave for the
-- free map.
unfoldable pub filesys_init :
    Bool → Option Block → Option (List ℕ) → FileSystem → Outcome FileSystem
filesys_init format none words fs = panic
filesys_init format (some d) words fs = do
  fs₁ ← free_map_init words (record fs { device = d; open_inodes = [] })
  fs₂ ← if format then do_format fs₁ else ok fs₁
  free_map_open fs₂

abbrev pub filesys_done : FileSystem → Outcome FileSystem
filesys_done fs = free_map_close fs
