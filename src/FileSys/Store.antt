-- ===== src/FileSys/Store.antt =====
-- The state of the file system: the device and the free map, and the stores that pointers to `struct
-- inode`, `struct file` and `struct dir` lead into. What the next calls of malloc and calloc return is
-- a stream of the state; a call takes one element of it, and so does inode_read_at or inode_write_at
-- for the bounce buffer that it may ask for.
use pintos_proj.Prelude.{
  ℕ, ◌+◌, Bool, true, false, List, Option, none, some, ◌==◌, if◌then◌else◌, Outcome, ok, ◌>>=◌,
}
use pintos_proj.KernelLib.Bitmap.{Bitmap}
use pintos_proj.FileSys.Bytes.{Bytes}
use pintos_proj.FileSys.Block.{Block}
use pintos_proj.FileSys.Inode.{Inode, inode_read_at, inode_write_at}

-- struct file
pub record File : Type 0 where
  pub inode : ℕ
  pub pos : ℕ
  pub deny_write : Bool

-- struct dir
pub record Dir : Type 0 where
  pub inode : ℕ
  pub pos : ℕ

pub record FileSystem : Type 0 where
  pub device : Block
  pub free_map : Bitmap
  pub free_map_file : Option ℕ
  pub inodes : ℕ → Inode
  pub files : ℕ → File
  pub dirs : ℕ → Dir
  pub open_inodes : List ℕ
  pub allocations : ℕ → Option ℕ

abbrev pub update {ℓ} : {A : Type ℓ} → (ℕ → A) → ℕ → A → ℕ → A
update f p v q = if p == q then v else f q

abbrev pub set_inode : ℕ → Inode → FileSystem → FileSystem
set_inode p v fs = record fs { inodes = update fs.inodes p v }

abbrev pub set_file : ℕ → File → FileSystem → FileSystem
set_file p v fs = record fs { files = update fs.files p v }

abbrev pub set_dir : ℕ → Dir → FileSystem → FileSystem
set_dir p v fs = record fs { dirs = update fs.dirs p v }

-- A call of malloc or calloc: what it returns, and the state in which it is the next call's turn.
abbrev pub malloc : FileSystem → Option ℕ
malloc fs = fs.allocations 0

abbrev pub allocated : FileSystem → FileSystem
allocated fs = record fs { allocations = λ n. fs.allocations (n + 1) }

abbrev pub is_some {ℓ} : {A : Type ℓ} → Option A → Bool
is_some none = false
is_some (some a) = true

-- inode_read_at and inode_write_at on the state, at a pointer to an inode.
unfoldable pub read_at : ℕ → Bytes → ℕ → ℕ → FileSystem → Outcome (FileSystem × Bytes × ℕ)
read_at i buffer size offset fs = do
  (d, buffer', n) ← inode_read_at (is_some (malloc fs)) (fs.inodes i) fs.device buffer size offset
  ok (record (allocated fs) { device = d }, buffer', n)

unfoldable pub write_at : ℕ → Bytes → ℕ → ℕ → FileSystem → Outcome (FileSystem × ℕ)
write_at i buffer size offset fs = do
  (d, n) ← inode_write_at (is_some (malloc fs)) (fs.inodes i) fs.device buffer size offset
  ok (record (allocated fs) { device = d }, n)
